-- ===== src/Models/Patterns.antt =====
-- src/zeroshield/models/_shared.py: the patterns of identifiers that are only tested.
use zero_shield.Base.{
  ℕ, String, Bool, false, ◌&&◌, ◌||◌, none, some, length, leb, all_of, Option, List, [], ◌∷◌,
  if◌then◌else◌, ◌==◌,
}
use zero_shield.Models.Texts.{codes, after, is_ascii_digit, is_decimal}

abbrev is_hex : ℕ → Bool
is_hex c = is_ascii_digit c || leb b'a' c && leb c b'f'

-- `RUN_ID_PATTERN`, `^RUN-\d{3,}$`
unfoldable pub is_run_id : String → Bool
is_run_id s = elim (after (codes "RUN-") (codes s)) [
  | none ↦ false
  | some digits ↦ leb 3 (length digits) && all_of is_decimal digits
]

-- `SAFETY_RULE_ID_PATTERN`, `^SAFE-\d{3}$`
unfoldable pub is_safety_rule_id : String → Bool
is_safety_rule_id s = elim (after (codes "SAFE-") (codes s)) [
  | none ↦ false
  | some digits ↦ leb 3 (length digits) && leb (length digits) 3 && all_of is_decimal digits
]

-- `SHA256_PATTERN`, `^[0-9a-f]{64}$`
unfoldable pub is_sha256 : String → Bool
is_sha256 s = leb 64 (length (codes s)) && leb (length (codes s)) 64 && all_of is_hex (codes s)

-- `GIT_COMMIT_PATTERN`, `^[0-9a-f]{7,40}$`
unfoldable pub is_git_commit : String → Bool
is_git_commit s = leb 7 (length (codes s)) && leb (length (codes s)) 40 && all_of is_hex (codes s)

abbrev cve_number : Option (List ℕ) → Bool
cve_number none = false
cve_number (some s) = leb 4 (length s) && leb (length s) 7 && all_of is_decimal s

-- What stands behind four digits and a dash
abbrev behind_year : Option (List ℕ) → Option (List ℕ)
behind_year none = none
behind_year (some s) = elim s [
  | a ∷ b ∷ c ∷ d ∷ rest ↦
      if is_decimal a && is_decimal b && is_decimal c && is_decimal d
      then after (codes "-") rest
      else none
  | _ ↦ none
]

abbrev is_cve_id_codes : List ℕ → Bool
is_cve_id_codes s = cve_number (behind_year (after (codes "CVE-") s))

-- `CVE_ID_PATTERN`, `^CVE-\d{4}-\d{4,7}$`
unfoldable pub is_cve_id : String → Bool
is_cve_id s = is_cve_id_codes (codes s)

abbrev without_last_newline : List ℕ → List ℕ
without_last_newline [] = []
without_last_newline (c ∷ s) =
    let rest = without_last_newline s in
    elim s [ [] ↦ if c == 10 then [] else c ∷ [] | _ ∷ _ ↦ c ∷ rest ]

-- `re.match` of that pattern: `$` stands before a last newline too.
unfoldable pub matches_cve_id : String → Bool
matches_cve_id s = is_cve_id_codes (codes s) || is_cve_id_codes (without_last_newline (codes s))
