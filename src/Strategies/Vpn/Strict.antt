-- ===== src/Strategies/Vpn/Strict.antt =====
-- What the strict VPN mitigation lets through.
use zero_shield.Base.{
  ℕ, String, ◌≡◌, ◌≤◌, refl, ◌↔◌, true, false, Option, none, some, List, arith, map, length, all_of,
  any_of,
}
use zero_shield.Base.Effects.{ok}
use zero_shield.Base.Int.{ℤ, pos}
use zero_shield.Base.Floats.{Float}
use zero_shield.Models.Experiment.{codes, nonempty, all_distinct}
use zero_shield.Models.Values.{
  Value, Fields, str, get, find_field, as_int, hashable, eq_value, eq_number,
}
use zero_shield.Strategies.Checks.{
  is_nonempty_str, as_list, keys_of, over_long, in_texts, accepted_outcome,
}
use zero_shield.Strategies.Vpn.{
  weak_process, strict_process, fails_schema_check, fails_length_checks,
  fails_duplicate_field_check, fails_type_check, fails_path_canonicalisation_check, bad_length,
  max_body_length, max_path_length, max_header_value_length, path_too_long, query_too_long,
  path_or_empty, allowed_encodings, contains, lower, path_traversal_markers,
}

nonempty_str_cases :
    {F : Type 0} (v : Value F)
    → is_nonempty_str v ≡ true
    → (s : String) × (v ≡ str s) × (nonempty s ≡ true)
nonempty_str_cases (str s) h = (s, refl, h)
nonempty_str_cases Value.null h = cc
nonempty_str_cases (Value.bool _) h = cc
nonempty_str_cases (Value.int _) h = cc
nonempty_str_cases (Value.float _) h = cc
nonempty_str_cases (Value.list _) h = cc
nonempty_str_cases (Value.dict _) h = cc

pub length_cases :
    (limit : ℕ) (o : Option ℤ)
    → bad_length limit o ≡ false
    → (n : ℕ) × (o ≡ some (pos n)) × (n ≤ limit)
length_cases limit none h = cc
length_cases limit (some (ℤ.pos n)) h = (n, refl, ground arith)
length_cases limit (some (ℤ.negsuc n)) h = absurd (ground arith)

-- What a request has to be, said of its fields.
pub record IsStrictRequest {F : Type 0} ⦃f : Float F⦄ (str_of : Value F → List ℕ) (d : Fields F)
    : Type 0 where
  pub method_given : is_nonempty_str (get "method" d) ≡ true
  pub path : String
  pub path_given : get "path" d ≡ str path
  pub path_nonempty : nonempty path ≡ true
  pub path_short : length (codes path) ≤ max_path_length
  pub body : ℕ
  pub body_given : as_int (get "declared_content_length" d) ≡ some (pos body)
  pub body_short : body ≤ max_body_length
  pub body_actual : eq_number (some (pos body)) (get "actual_body_length" d) ≡ true
  pub headers_short :
      any_of (over_long str_of max_header_value_length) (as_list (get "headers" d)) ≡ false
  pub query_short : query_too_long str_of (get "query_params" d) ≡ false
  pub keys_hashable : all_of hashable (keys_of (as_list (get "headers" d))) ≡ true
  pub keys_distinct : all_distinct eq_value (keys_of (as_list (get "headers" d))) ≡ true
  pub encoding_allowed : in_texts allowed_encodings (get "encoding" d) ≡ true
  pub no_traversal :
      any_of (λ marker. contains marker (map lower (codes path))) path_traversal_markers ≡ false

module _ {F : Type 0} ⦃f : Float F⦄ (str_of : Value F → List ℕ) (d : Fields F) where
  -- All five checks pass, and none of them raises.
  record PassesChecks : Type 0 where
    schema : fails_schema_check d ≡ false
    lengths : fails_length_checks str_of d ≡ false
    duplicates : fails_duplicate_field_check d ≡ ok false
    encoding : fails_type_check d ≡ ok false
    traversal : fails_path_canonicalisation_check str_of d ≡ false

  accepted→PassesChecks : strict_process str_of d ≡ ok accepted_outcome → PassesChecks
  unfolding strict_process
  accepted→PassesChecks h = ground arith

  PassesChecks→accepted : PassesChecks → strict_process str_of d ≡ ok accepted_outcome
  unfolding strict_process
  PassesChecks→accepted h = ground arith

  schema_cases :
      fails_schema_check d ≡ false
      → (is_nonempty_str (get "method" d) ≡ true) × (is_nonempty_str (get "path" d) ≡ true)
  unfolding fails_schema_check
  schema_cases h = ground arith

  length_checks_cases :
      fails_length_checks str_of d ≡ false
      → (path_too_long (get "path" d) ≡ false)
        × (bad_length max_body_length (as_int (get "declared_content_length" d)) ≡ false)
        × (eq_number (as_int (get "declared_content_length" d)) (get "actual_body_length" d) ≡ true)
        × (any_of (over_long str_of max_header_value_length) (as_list (get "headers" d)) ≡ false)
        × (query_too_long str_of (get "query_params" d) ≡ false)
  unfolding fails_length_checks
  length_checks_cases h = ground arith

  duplicates_cases :
      fails_duplicate_field_check d ≡ ok false
      → (all_of hashable (keys_of (as_list (get "headers" d))) ≡ true)
        × (all_distinct eq_value (keys_of (as_list (get "headers" d))) ≡ true)
  unfolding fails_duplicate_field_check
  duplicates_cases h = ground arith

  encoding_cases :
      fails_type_check d ≡ ok false → in_texts allowed_encodings (get "encoding" d) ≡ true
  unfolding fails_type_check
  encoding_cases h = ground arith

find_field-get :
    {F : Type 0} (key : String) (d : Fields F) (s : String)
    → get key d ≡ str s
    → find_field key d ≡ some (str s)
find_field-get key Fields.end s h = cc
find_field-get key (Fields.field k v rest) s h = ground (arith, find_field-get key rest s)

path_or_empty_lem :
    {F : Type 0} (d : Fields F) (s : String) → get "path" d ≡ str s → path_or_empty d ≡ str s
path_or_empty_lem d s h = rw (find_field-get "path" d s h, path_or_empty) refl

in_texts-hashable :
    {F : Type 0} ⦃f : Float F⦄ (v : Value F)
    → in_texts allowed_encodings v ≡ true
    → hashable v ≡ true
unfolding eq_value
in_texts-hashable Value.null h = refl
in_texts-hashable (Value.bool _) h = refl
in_texts-hashable (Value.int _) h = refl
in_texts-hashable (Value.float _) h = refl
in_texts-hashable (str _) h = refl
in_texts-hashable (Value.list _) h = cc
in_texts-hashable (Value.dict _) h = cc

path_too_long_lem :
    {F : Type 0} (v : Value F) (s : String)
    → v ≡ str s
    → length (codes s) ≤ max_path_length
    → path_too_long v ≡ false
path_too_long_lem v s h le = rw h (ground arith)

pub bad_length_lem :
    (limit n : ℕ) (o : Option ℤ) → o ≡ some (pos n) → n ≤ limit → bad_length limit o ≡ false
bad_length_lem limit n o h le = rw h (ground arith)

module _ {F : Type 0} ⦃f : Float F⦄ (str_of : Value F → List ℕ) (d : Fields F) where
  PassesChecks→IsStrictRequest : PassesChecks str_of d → IsStrictRequest str_of d
  unfolding fails_path_canonicalisation_check
  PassesChecks→IsStrictRequest c =
      let (method, has_path) = schema_cases str_of d c.schema in
      let (short, declared, actual, headers, query) = length_checks_cases str_of d c.lengths in
      let (s, given, nonempty_path) = nonempty_str_cases (get "path" d) has_path in
      let (n, is_n, le) =
        length_cases max_body_length (as_int (get "declared_content_length" d)) declared in
      let (hashes, distinct) = duplicates_cases str_of d c.duplicates in
      record {
        method_given = method;
        path = s;
        path_given = given;
        path_nonempty = nonempty_path;
        path_short = ground arith;
        body = n;
        body_given = is_n;
        body_short = le;
        body_actual = rw is_n at actual;
        headers_short = headers;
        query_short = query;
        keys_hashable = hashes;
        keys_distinct = distinct;
        encoding_allowed = encoding_cases str_of d c.encoding;
        no_traversal = rw (path_or_empty_lem d s given) at (c.traversal);
      }

  IsStrictRequest→PassesChecks : IsStrictRequest str_of d → PassesChecks str_of d
  unfolding fails_schema_check fails_length_checks fails_duplicate_field_check fails_type_check
      fails_path_canonicalisation_check
  IsStrictRequest→PassesChecks r = record {
    schema = rw r.path_given (ground arith);
    lengths =
        rw
          (
            path_too_long_lem (get "path" d) r.path r.path_given r.path_short,
            bad_length_lem max_body_length r.body (as_int (get "declared_content_length" d))
                r.body_given r.body_short,
            r.body_given,
            r.body_actual,
            r.headers_short,
            r.query_short,
          )
          refl;
    duplicates = ground arith;
    encoding =
        rw (in_texts-hashable (get "encoding" d) r.encoding_allowed, r.encoding_allowed) refl;
    traversal = rw (path_or_empty_lem d r.path r.path_given) r.no_traversal;
  }

  -- The strict VPN mitigation accepts a request exactly when it is a strict request: a method,
  -- a path of 1 to 256 characters with no traversal marker in lower case, a declared length
  -- between 0 and 8192 that is the actual one, no header or query value over 512 characters,
  -- hashable and distinct header names, and an allowed encoding.
  pub strict_vpn-accepts_iff :
      (strict_process str_of d ≡ ok accepted_outcome) ↔ IsStrictRequest str_of d
  strict_vpn-accepts_iff = (
    λ h. PassesChecks→IsStrictRequest (accepted→PassesChecks str_of d h),
    λ r. PassesChecks→accepted str_of d (IsStrictRequest→PassesChecks r),
  )

  weak_process-is_schema : fails_schema_check d ≡ false → weak_process d ≡ ok accepted_outcome
  unfolding fails_schema_check weak_process
  weak_process-is_schema h = ground arith

  -- The VPN mitigation is a strengthening of the baseline: it accepts nothing that the baseline
  -- does not accept.
  pub strict_process-weak_vpn :
      strict_process str_of d ≡ ok accepted_outcome → weak_process d ≡ ok accepted_outcome
  strict_process-weak_vpn h = weak_process-is_schema (accepted→PassesChecks str_of d h).schema
