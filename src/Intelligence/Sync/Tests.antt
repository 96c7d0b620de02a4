-- ===== src/Intelligence/Sync/Tests.antt =====
-- A sync of the CVE of Intelligence/Tests.antt, and what comes of it.
use Prim.Native.String.compare
use zero_shield.Base.{
  All, ℕ, zero, suc, ◌+◌, ◌≡◌, ◌≤◌, refl, ap, String, true, false, none, some, List, [], ◌∷◌, arith,
  str_eq, map, Bool-cases, inl, inr, subst,
}
use zero_shield.Base.Int.{pos}
use zero_shield.Base.Floats.{Fixed, fixed_float}
use zero_shield.Base.Fixed.{Fixed-IsOrderedFloat, Fixed-IsScoreFloat}
use zero_shield.Base.Effects.{ok, err}
use zero_shield.Base.Sorted.{sorted_set}
use zero_shield.Models.Patterns.{is_cve_id, matches_cve_id}
use zero_shield.Models.Experiment.{nonempty}
use zero_shield.Models.Values.{Value, str, int, end, eq_value}
use zero_shield.Intelligence.Texts.{find_urls, has_letter}
use zero_shield.Intelligence.Models.{
  VulnerabilitySourceName, Vulnerability, SupportStatus, vulnerability_validates,
  source_record_validates, candidate_validates, IntelligenceSyncStatus,
}
use zero_shield.Intelligence.Normalisation.{require_cve_id, parse_date, normalise}
use zero_shield.Intelligence.Normalisation.Feeds.{normalise_cisa_kev}
use zero_shield.Intelligence.Dedup.{
  better, changes, merged_fields, merged_vulnerability, source_record, merge,
}
use zero_shield.Intelligence.Dedup.Safe.{IsStable}
use zero_shield.Intelligence.Priority.{
  ExplanationLine, default_weights, total_max, sum_points, domain_points, capped, label_for_score,
  score,
}
use zero_shield.Intelligence.Priority.Order.{rank, score_mono}
use zero_shield.Intelligence.Priority.Bounds.{default_weights-IsWeighting, score_range}
use zero_shield.Intelligence.Candidates.{
  classified_text, classify_hits, classify_text, classify_domain, candidate_of, generate_candidate,
}
use zero_shield.Intelligence.Candidates.Generated.{
  IsClassified, classify_text-IsClassified, generate_candidate-returns,
}
use zero_shield.Intelligence.Repository.Rows.{to_row, from_row}
use zero_shield.Intelligence.Repository.{
  Store, get_vulnerability, upsert_vulnerability, upsert_source_record, append_history,
  upsert_validation_candidate, get_sync, save_sync,
}
use zero_shield.Intelligence.Repository.RoundTrip.{
  ReadsDates, get_vulnerability-upsert_vulnerability,
}
use zero_shield.Intelligence.Sync.{
  Connector, Surroundings, running_sync, merge_in, take_record, sync_record, sync_records, finish,
  final_status, regenerate_candidates, regenerate_candidate, run_sync,
}
use zero_shield.Intelligence.Sync.Outcome.{run_sync-HasOutcome}
use zero_shield.Intelligence.Sync.Returns.{IsDone, run_sync-returns}
use zero_shield.Intelligence.Tests.{python, pydantic, written, letter_count, kev_record, view}

-- The same CVE with a CVSS score of 9.0
abbrev scored_view : Vulnerability Fixed
scored_view = record view { cvss_score = some (pos 90000) }

score_mono_example :
    let a = score view SupportStatus.supported true (default_weights {F = Fixed}) in
    let b = score scored_view SupportStatus.supported true (default_weights {F = Fixed}) in
    (fixed_float.le a.score b.score ≡ true) × (rank a.label ≤ rank b.label)
score_mono_example =
    score_mono view scored_view SupportStatus.supported true default_weights
      default_weights-IsWeighting
      (record { cvss = refl; epss = tt; kev = refl; relevance = omega arith })

score_range_example :
    let points =
      (score scored_view SupportStatus.supported true (default_weights {F = Fixed})).score in
    (fixed_float.le (pos 0) points ≡ true) × (fixed_float.le points (pos 1000000) ≡ true)
unfolding vulnerability_validates is_cve_id
score_range_example = score_range scored_view SupportStatus.supported true refl

abbrev words : ExplanationLine Fixed → String
words line = "line"

abbrev no_experiments : String → List String
no_experiments id = []

classify_text-IsClassified_example :
    IsClassified false true false false (classify_text (classified_text view))
unfolding classified_text
classify_text-IsClassified_example = classify_text-IsClassified (classified_text view)

generate_candidate-returns_example :
    let c = candidate_of words view (classify_domain view) [] default_weights 6 in
    (generate_candidate words view no_experiments default_weights 6 ≡ ok (some c))
    × (candidate_validates c ≡ true)
unfolding vulnerability_validates is_cve_id classified_text
generate_candidate-returns_example = generate_candidate-returns words view no_experiments 6 refl

letter_count-written : (d : ℕ) → letter_count (written d) ≡ suc d
letter_count-written zero = refl
letter_count-written (suc n) = ap suc (letter_count-written n)

written-nonempty : (d : ℕ) → nonempty (written d) ≡ true
written-nonempty zero = refl
written-nonempty (suc n) = rw compare.cons-nil refl

python-ReadsDates : ReadsDates python
python-ReadsDates = record {
  written = written-nonempty;
  read = λ d. rw (written-nonempty d, letter_count-written d) (ap some (omega arith));
}

abbrev empty : Store Fixed
empty = record {
  vulnerabilities = [];
  source_records = [];
  history = [];
  products = [];
  affected_products = [];
  advisories = [];
  candidates = [];
  syncs = [];
}

get_vulnerability-upsert_vulnerability_example :
    (get_vulnerability python pydantic "CVE-2025-0282" (upsert_vulnerability python view empty)
      ≡ ok (some view))
    × ((id : String)
        → str_eq "CVE-2025-0282" id ≡ false
        → get_vulnerability python pydantic id (upsert_vulnerability python view empty)
          ≡ get_vulnerability python pydantic id empty)
unfolding vulnerability_validates is_cve_id
get_vulnerability-upsert_vulnerability_example =
    get_vulnerability-upsert_vulnerability python pydantic python-ReadsDates view empty refl
      (refl, tt)

abbrev env : Surroundings Fixed
env = record {
  python = python;
  pydantic = pydantic;
  clock = λ n. 100 + n;
  set_order = λ ids. ids;
  describe = λ e. "error";
  format = words;
  discovery_error = none;
  experiment_ids_by_cve = no_experiments;
  weights = default_weights;
}

abbrev kev : List (Value Fixed) → Connector Fixed
kev notes = record {
  source = VulnerabilitySourceName.cisa_kev;
  is_vendor = false;
  records = map kev_record notes;
  fetch_error = none;
}

urls-IsStable : (s : String) → IsStable pydantic s
urls-IsStable s u h = elim (Bool-cases (nonempty s)) [
  | inl there ↦
      let read : some s ≡ some u = rw there at h in
      let same : s ≡ u = cc in subst (λ x. pydantic.http_url x ≡ some x) same (rw there refl)
  | inr empty ↦ let no : none ≡ some u = rw empty at h in cc
]

All-IsStable : (ss : List String) → All (IsStable pydantic) ss
All-IsStable [] = tt
All-IsStable (s ∷ ss) = (urls-IsStable s, All-IsStable ss)

run_sync-returns_example :
    IsDone env (run_sync env (kev (str "see https://a.example/x" ∷ [])) "SYNC-1" none true empty)
unfolding normalise normalise_cisa_kev require_cve_id parse_date find_urls has_letter matches_cve_id
run_sync-returns_example =
    run_sync-returns env python-ReadsDates refl (kev (str "see https://a.example/x" ∷ [])) "SYNC-1"
      none true empty refl refl tt ((tt, λ c h. All-IsStable c.references), tt)

-- Notes that are a number: the sync is left by TypeError, and stays RUNNING.
run_sync-HasOutcome_example :
    get_sync "SYNC-1" (run_sync env (kev (int (pos 3) ∷ [])) "SYNC-1" none true empty).1
    ≡ some (running_sync "SYNC-1" VulnerabilitySourceName.cisa_kev none 100)
unfolding run_sync sync_records sync_record take_record finish normalise normalise_cisa_kev
    require_cve_id matches_cve_id
run_sync-HasOutcome_example =
    run_sync-HasOutcome env (kev (int (pos 3) ∷ [])) "SYNC-1" none true empty

-- A record whose id is no CVE is counted as failed.
abbrev malformed : Connector Fixed
malformed = record {
  source = VulnerabilitySourceName.cisa_kev;
  is_vendor = false;
  records =
      record { source = VulnerabilitySourceName.cisa_kev; external_id = ""; raw = end }
      ∷ kev_record (str "https://a.example/x")
      ∷ [];
  fetch_error = none;
}

partly_failed :
    (elim (run_sync env malformed "SYNC-1" none true empty).0 [
      | ok s ↦ some s.status
      | err e ↦ none
    ])
    ≡ some IntelligenceSyncStatus.partial
unfolding run_sync sync_records sync_record take_record finish merge_in get_vulnerability merge
    merged_vulnerability source_record changes merged_fields better sorted_set
    vulnerability_validates source_record_validates is_cve_id eq_value normalise normalise_cisa_kev
    require_cve_id matches_cve_id parse_date find_urls has_letter upsert_vulnerability
    upsert_source_record append_history to_row from_row regenerate_candidates regenerate_candidate
    generate_candidate classify_domain classified_text classify_text classify_hits candidate_of
    candidate_validates score sum_points domain_points capped total_max label_for_score
    upsert_validation_candidate final_status save_sync
partly_failed = refl
