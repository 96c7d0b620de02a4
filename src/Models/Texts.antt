-- ===== src/Models/Texts.antt =====
-- Texts as lists of characters, and what the patterns of src/zeroshield/models/_shared.py test on
-- them. `\d` is, in Python's `re` and in the patterns that pydantic compiles, a decimal digit of
-- any script: those of Unicode 15, in blocks of ten.
use Prim.Native.Char.{code}
use zero_shield.Base.{
  ℕ, String, Bool, true, false, not, ◌&&◌, ◌||◌, ◌+◌, leb, any_of, List, [], ◌∷◌, Option, none,
  some, ◌==◌, if◌then◌else◌, str_eq,
}

abbrev pub codes : String → List ℕ
codes String.[] = []
codes (String.◌∷◌ c s) = code c ∷ codes s

-- `Field(min_length=1)`
abbrev pub nonempty : String → Bool
nonempty s = not (str_eq s "")

abbrev pub nonempty_list {ℓ} : {A : Type ℓ} → List A → Bool
nonempty_list [] = false
nonempty_list (_ ∷ _) = true

-- What is left of a text behind a prefix.
abbrev pub after : List ℕ → List ℕ → Option (List ℕ)
after [] s = some s
after (_ ∷ _) [] = none
after (p ∷ ps) (c ∷ s) = let rest = after ps s in if p == c then rest else none

-- The zeros of the scripts other than ASCII
abbrev zeros : List ℕ
zeros =
    1632 ∷ 1776 ∷ 1984 ∷ 2406 ∷ 2534 ∷ 2662 ∷ 2790 ∷ 2918 ∷ 3046 ∷ 3174 ∷ 3302 ∷ 3430 ∷ 3558 ∷ 3664
    ∷ 3792 ∷ 3872 ∷ 4160 ∷ 4240 ∷ 6112 ∷ 6160 ∷ 6470 ∷ 6608 ∷ 6784 ∷ 6800 ∷ 6992 ∷ 7088 ∷ 7232
    ∷ 7248 ∷ 42528 ∷ 43216 ∷ 43264 ∷ 43472 ∷ 43504 ∷ 43600 ∷ 44016 ∷ 65296 ∷ 66720 ∷ 68912 ∷ 69734
    ∷ 69872 ∷ 69942 ∷ 70096 ∷ 70384 ∷ 70736 ∷ 70864 ∷ 71248 ∷ 71360 ∷ 71472 ∷ 71904 ∷ 72016 ∷ 72784
    ∷ 73040 ∷ 73120 ∷ 73552 ∷ 92768 ∷ 92864 ∷ 93008 ∷ 120782 ∷ 120792 ∷ 120802 ∷ 120812 ∷ 120822
    ∷ 123200 ∷ 123632 ∷ 124144 ∷ 125264 ∷ 130032 ∷ []

abbrev pub is_ascii_digit : ℕ → Bool
is_ascii_digit c = leb b'0' c && leb c b'9'

abbrev pub is_decimal : ℕ → Bool
is_decimal c = is_ascii_digit c || any_of (λ z. leb z c && leb c (z + 9)) zeros
