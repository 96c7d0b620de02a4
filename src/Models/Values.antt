-- ===== src/Models/Values.antt =====
-- The values that `json.loads` yields, with Python's `==`, `hash` and `isinstance` on them.
use zero_shield.Base.{
  ℕ, ◌+◌, String, Bool, true, false, ◌&&◌, Option, none, some, List, [], ◌∷◌, ◌==◌, str_eq,
  if◌then◌else◌,
}
use zero_shield.Base.Int.{ℤ, pos, eq_ℤ}
use zero_shield.Base.Floats.{Float}

-- The number that a bool is.
abbrev pub bool_int : Bool → ℤ
bool_int true = pos 1
bool_int false = pos 0

mutual
  pub data Value (F : Type 0) : Type 0 where
    null : Value F
    bool : Bool → Value F
    int : ℤ → Value F
    float : F → Value F
    str : String → Value F
    list : Items F → Value F
    dict : Fields F → Value F

  pub data Items (F : Type 0) : Type 0 where
    nil : Items F
    cons : Value F → Items F → Items F

  -- A dict in insertion order; a key stands there once.
  pub data Fields (F : Type 0) : Type 0 where
    end : Fields F
    field : String → Value F → Fields F → Fields F

module _ {F : Type 0} where
  -- `d.get(key)`: `None` for a key that is not there.
  abbrev pub get : String → Fields F → Value F
  get key end = null
  get key (field k v rest) = let below = get key rest in if str_eq k key then v else below

  abbrev pub find_field : String → Fields F → Option (Value F)
  find_field key end = none
  find_field key (field k v rest) =
      let below = find_field key rest in if str_eq k key then some v else below

  abbrev pub items_of : Items F → List (Value F)
  items_of nil = []
  items_of (cons v vs) = v ∷ items_of vs

  abbrev pub values_of : Fields F → List (Value F)
  values_of end = []
  values_of (field k v rest) = v ∷ values_of rest

  abbrev pub count_fields : Fields F → ℕ
  count_fields end = 0
  count_fields (field k v rest) = count_fields rest + 1

  -- `isinstance(v, int)`: a bool is an int.
  abbrev pub as_int : Value F → Option ℤ
  as_int (int n) = some n
  as_int (bool b) = some (bool_int b)
  as_int _ = none

  -- `isinstance(v, str)`
  abbrev pub as_str : Value F → Option String
  as_str (str s) = some s
  as_str _ = none

  -- `hash(v)` raises TypeError for a list and a dict.
  abbrev pub hashable : Value F → Bool
  hashable (list _) = false
  hashable (dict _) = false
  hashable _ = true

-- `a == n` for an integer or a bool of that value.
abbrev pub eq_number : {F : Type 0} ⦃f : Float F⦄ → Option ℤ → Value F → Bool
eq_number none v = false
eq_number (some n) (int m) = eq_ℤ n m
eq_number (some n) (bool b) = eq_ℤ n (bool_int b)
eq_number ⦃f⦄ (some n) (float x) = f.eq_int x n
eq_number (some n) _ = false

abbrev pub eq_float : {F : Type 0} ⦃f : Float F⦄ → F → Value F → Bool
eq_float ⦃f⦄ x (float y) = f.eq x y
eq_float ⦃f⦄ x (int n) = f.eq_int x n
eq_float ⦃f⦄ x (bool b) = f.eq_int x (bool_int b)
eq_float x _ = false

-- `a == b`. Numbers compare by value across their types, lists place by place, dicts without
-- regard to the order of their keys.
unfoldable mutual
  pub eq_value : {F : Type 0} ⦃f : Float F⦄ → Value F → Value F → Bool
  eq_value null w = elim w [ null ↦ true | _ ↦ false ]
  eq_value (bool b) w = eq_number (some (bool_int b)) w
  eq_value (int n) w = eq_number (some n) w
  eq_value (float x) w = eq_float x w
  eq_value (str s) w = elim w [ str t ↦ str_eq s t | _ ↦ false ]
  eq_value (list xs) w = elim w [ list ys ↦ eq_items xs ys | _ ↦ false ]
  eq_value (dict d) w = elim w [
    | dict e ↦ count_fields d == count_fields e && eq_fields d e
    | _ ↦ false
  ]

  pub eq_items : {F : Type 0} ⦃f : Float F⦄ → Items F → Items F → Bool
  eq_items nil ys = elim ys [ nil ↦ true | cons _ _ ↦ false ]
  eq_items (cons x xs) ys = elim ys [ nil ↦ false | cons y ys' ↦ eq_value x y && eq_items xs ys' ]

  -- Every key of the first dict is in the second, with an equal value.
  pub eq_fields : {F : Type 0} ⦃f : Float F⦄ → Fields F → Fields F → Bool
  eq_fields end e = true
  eq_fields (field k v rest) e = elim (find_field k e) [
    | none ↦ false
    | some w ↦ eq_value v w && eq_fields rest e
  ]
