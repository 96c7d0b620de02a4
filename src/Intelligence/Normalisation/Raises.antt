-- ===== src/Intelligence/Normalisation/Raises.antt =====
-- What `normalise` promises of a record: which fields a source may fill, and which malformed fields
-- it does not survive.
use zero_shield.Base.{
  String, ◌≡◌, refl, subst, ◌⊎◌, inl, inr, Bool, true, false, not, ◌&&◌, ◌||◌, Bool-cases, Option,
  none, some, [], str_eq, eq_iff, arith, if◌then◌else◌,
}
use zero_shield.Base.Floats.{Float}
use zero_shield.Base.Effects.{ok, err}
use zero_shield.Base.Results.{Ensures, Ensures-bind}
use zero_shield.Models.Patterns.{matches_cve_id}
use zero_shield.Models.Values.{Value, null, str, list, dict, get}
use zero_shield.Intelligence.Models.{VulnerabilitySourceName}
use zero_shield.Intelligence.Normalisation.Values.{
  Python, RawIntelligenceRecord, NormalisedContribution, NormalisationFailure, Normal, truthy,
  or_empty, require_cve_id,
}
use zero_shield.Intelligence.Normalisation.Feeds.{
  normalise_cisa_kev, normalise_epss, urls_of, to_float,
}
use zero_shield.Intelligence.Normalisation.{normalise, mapper}
use zero_shield.Intelligence.Normalisation.Nvd.{
  normalise_nvd, cwe_texts, urls_under, extract_nvd_products,
}

module _ {F : Type 0} ⦃f : Float F⦄ where
  require_cve_id-matches :
      (v : Value F) (id : String) → require_cve_id v ≡ ok id → matches_cve_id id ≡ true
  unfolding require_cve_id
  require_cve_id-matches null id h = cc
  require_cve_id-matches v id h = ground arith

-- Empty, or a text
abbrev pub is_readable : {F : Type 0} ⦃f : Float F⦄ → Value F → Bool
is_readable v = not (truthy v) || elim v [ str _ ↦ true | _ ↦ false ]

-- Empty, or a text, a list or an object
abbrev pub is_iterable : {F : Type 0} ⦃f : Float F⦄ → Value F → Bool
is_iterable v =
    not (truthy v) || elim v [ str _ ↦ true | list _ ↦ true | dict _ ↦ true | _ ↦ false ]

-- The two ways in which reading a value ends
abbrev Reads : {A : Type 0} → Bool → Normal A → Type 0
Reads {A} b m =
    ((b ≡ true) × (a : A) × (m ≡ ok a)) ⊎ ((b ≡ false) × (m ≡ err NormalisationFailure.type_error))

matches_empty : matches_cve_id "" ≡ false
unfolding matches_cve_id
matches_empty = refl

matches_nonempty : (s : String) → matches_cve_id s ≡ true → str_eq s "" ≡ false
matches_nonempty s good = elim (Bool-cases (str_eq s "")) [
  | inr other ↦ other
  | inl empty ↦
      let no : matches_cve_id "" ≡ true = rw ((eq_iff s "").0 empty) at good in
      let clash = matches_empty in cc
]

module _ {F : Type 0} ⦃f : Float F⦄ where
  require_cve_id-text :
      (v : Value F) (s : String) → v ≡ str s → matches_cve_id s ≡ true → require_cve_id v ≡ ok s
  unfolding require_cve_id
  require_cve_id-text v s e good = rw (e, matches_nonempty s good, good) refl

  truthy_urls : (v : Value F) → truthy v ≡ true → Reads (is_readable v) (urls_of v)
  truthy_urls (str s) h = rw h (inl (refl, _, refl))
  truthy_urls null h = cc
  truthy_urls v h = rw h (inr (refl, refl))

  urls_of-cases : (v : Value F) → Reads (is_readable v) (urls_of v)
  urls_of-cases v = elim (Bool-cases (truthy v)) [
    | inl there ↦ truthy_urls v there
    | inr empty ↦ rw empty (inl (refl, [], refl))
  ]

  truthy_items : (v : Value F) → truthy v ≡ true → Reads (is_iterable v) (or_empty v)
  truthy_items (str s) h = rw h (inl (refl, _, refl))
  truthy_items (list xs) h = rw h (inl (refl, _, refl))
  truthy_items (dict d) h = rw h (inl (refl, _, refl))
  truthy_items null h = cc
  truthy_items v h = rw h (inr (refl, refl))

  or_empty-cases : (v : Value F) → Reads (is_iterable v) (or_empty v)
  or_empty-cases v = elim (Bool-cases (truthy v)) [
    | inl there ↦ truthy_items v there
    | inr empty ↦ rw empty (inl (refl, [], refl))
  ]

abbrev pub failure_of : {A : Type 0} → Normal A → Option NormalisationFailure
failure_of (ok a) = none
failure_of (err e) = some e

-- What a contribution of that source may say: its CVE id matches the pattern, and only NVD gives a
-- CVSS score, only EPSS a probability, only CISA KEV a listing.
abbrev pub IsOwned : {F : Type 0} → VulnerabilitySourceName → NormalisedContribution F → Type 0
IsOwned source c =
    (matches_cve_id c.cve_id ≡ true)
    × (c.source ≡ source)
    × ((source ≡ VulnerabilitySourceName.nvd) ⊎ (c.cvss_score ≡ null))
    × ((source ≡ VulnerabilitySourceName.epss)
        ⊎ ((c.epss_score ≡ none) × (c.epss_percentile ≡ none)))
    × ((source ≡ VulnerabilitySourceName.cisa_kev) ⊎ (c.kev_listed ≡ none))

module _ {F : Type 0} ⦃f : Float F⦄ (py : Python F) (r : RawIntelligenceRecord F) where
  kev-IsOwned :
      r.source ≡ VulnerabilitySourceName.cisa_kev
      → Ensures (IsOwned r.source) (normalise_cisa_kev py r)
  unfolding normalise_cisa_kev
  kev-IsOwned source =
      Ensures-bind (IsOwned r.source) (require_cve_id (get "cveID" r.raw)) _ λ id found.
        Ensures-bind (IsOwned r.source) (urls_of (get "notes" r.raw)) _ λ references _.
          Ensures-bind (IsOwned r.source) (or_empty (get "cwes" r.raw)) _ λ cwes _. (
            require_cve_id-matches (get "cveID" r.raw) id found,
            refl,
            inr refl,
            inr (refl, refl),
            inl source,
          )

  epss-IsOwned :
      r.source ≡ VulnerabilitySourceName.epss → Ensures (IsOwned r.source) (normalise_epss py r)
  unfolding normalise_epss
  epss-IsOwned source =
      Ensures-bind (IsOwned r.source) (require_cve_id (get "cve" r.raw)) _ λ id found.
        Ensures-bind (IsOwned r.source) (to_float py (get "epss" r.raw)) _ λ score _.
          Ensures-bind (IsOwned r.source) (to_float py (get "percentile" r.raw)) _ λ percentile _. (
            require_cve_id-matches (get "cve" r.raw) id found,
            refl,
            inr refl,
            inl source,
            inr refl,
          )

  nvd-IsOwned :
      r.source ≡ VulnerabilitySourceName.nvd → Ensures (IsOwned r.source) (normalise_nvd py r)
  unfolding normalise_nvd
  nvd-IsOwned source =
      Ensures-bind (IsOwned r.source) (require_cve_id (get "id" r.raw)) _ λ id found.
        Ensures-bind (IsOwned r.source) (or_empty (get "descriptions" r.raw)) _ λ descriptions _.
          Ensures-bind (IsOwned r.source) (or_empty (get "weaknesses" r.raw)) _ λ weaknesses _.
            Ensures-bind (IsOwned r.source) (cwe_texts py weaknesses) _ λ cwe_ids _.
              Ensures-bind (IsOwned r.source) (or_empty (get "references" r.raw)) _ λ refs _.
                Ensures-bind (IsOwned r.source) (urls_under py refs) _ λ references _.
                  Ensures-bind (IsOwned r.source) (extract_nvd_products py r.raw) _
                    λ found_products _. (
                      require_cve_id-matches (get "id" r.raw) id found,
                      refl,
                      inl source,
                      inr (refl, refl),
                      inr refl,
                    )

  mapper-IsOwned :
      (source : VulnerabilitySourceName)
      → r.source ≡ source
      → Ensures (IsOwned r.source) (mapper py source r)
  mapper-IsOwned VulnerabilitySourceName.nvd h = nvd-IsOwned h
  mapper-IsOwned VulnerabilitySourceName.cisa_kev h = kev-IsOwned h
  mapper-IsOwned VulnerabilitySourceName.epss h = epss-IsOwned h
  mapper-IsOwned VulnerabilitySourceName.github_advisory h = tt
  mapper-IsOwned VulnerabilitySourceName.manual_import h = tt

  -- A contribution that `normalise` makes has a well-formed CVE id and the source of its record, and
  -- only NVD gives a CVSS score, only EPSS a probability and a percentile, only CISA KEV a listing.
  pub normalise-IsOwned :
      (c : NormalisedContribution F) → normalise py r ≡ ok c → IsOwned r.source c
  unfolding normalise
  normalise-IsOwned c h = subst (Ensures (IsOwned r.source)) h (mapper-IsOwned r.source refl)

  -- A CISA KEV record whose id is well formed is normalised exactly if its notes are a text and its
  -- `cwes` something to run over, where they are not empty; if not, TypeError is raised, which is no
  -- NormalisationError.
  pub normalise_cisa_kev-failure :
      (id : String)
      → get "cveID" r.raw ≡ str id
      → matches_cve_id id ≡ true
      → failure_of (normalise_cisa_kev py r) ≡ (
          if is_readable (get "notes" r.raw) && is_iterable (get "cwes" r.raw)
          then none
          else some NormalisationFailure.type_error)
  unfolding normalise_cisa_kev
  normalise_cisa_kev-failure id present good =
      let found : require_cve_id (get "cveID" r.raw) ≡ ok id =
        require_cve_id-text (get "cveID" r.raw) id present good in
      elim (urls_of-cases (get "notes" r.raw)) [
        | inr (unreadable, raised) ↦ rw (found, raised, unreadable) refl
        | inl (readable, urls, returned) ↦ elim (or_empty-cases (get "cwes" r.raw)) [
          | inr (stuck, raised) ↦ rw (found, returned, raised, readable, stuck) refl
          | inl (iterable, cwes, listed) ↦ rw (found, returned, listed, readable, iterable) refl
        ]
      ]
