-- ===== src/Models/Paths.antt =====
-- `is_unsafe_relative_path` of src/zeroshield/models/_shared.py, over the code points of
-- `str(path)` of a `PurePosixPath`.
use zero_shield.Base.{
  ℕ, Bool, true, false, ◌&&◌, ◌||◌, List, [], ◌∷◌, leb, ◌==◌, if◌then◌else◌, any_of,
}

abbrev pub slash : ℕ
slash = b'/'

abbrev pub backslash : ℕ
backslash = 92

abbrev is_letter : ℕ → Bool
is_letter c = leb b'A' c && leb c b'Z' || leb b'a' c && leb c b'z'

abbrev is_separator : ℕ → Bool
is_separator c = c == slash || c == backslash

-- `path.is_absolute()`
abbrev pub is_absolute : List ℕ → Bool
is_absolute [] = false
is_absolute (c ∷ _) = c == slash

-- `_DRIVE_LETTER_RE.match`: a letter, a colon and a separator come first.
abbrev pub drive_letter : List ℕ → Bool
drive_letter (a ∷ b ∷ c ∷ _) = is_letter a && b == b':' && is_separator c
drive_letter _ = false

-- `startswith(("/", "\\"))`
abbrev pub starts_with_separator : List ℕ → Bool
starts_with_separator [] = false
starts_with_separator (c ∷ _) = is_separator c

-- Adds a character to the first part.
abbrev pub extend : ℕ → List (List ℕ) → List (List ℕ)
extend c [] = (c ∷ []) ∷ []
extend c (p ∷ ps) = (c ∷ p) ∷ ps

-- `path.parts` of a relative path: what stands between the slashes.
unfoldable pub parts : List ℕ → List (List ℕ)
parts [] = [] ∷ []
parts (c ∷ cs) = let rest = parts cs in if c == slash then [] ∷ rest else extend c rest

abbrev pub is_parent : List ℕ → Bool
is_parent (a ∷ b ∷ []) = a == b'.' && b == b'.'
is_parent _ = false

unfoldable pub is_unsafe_relative_path : List ℕ → Bool
unfolding parts
is_unsafe_relative_path path =
    if is_absolute path || drive_letter path || starts_with_separator path
    then true
    else any_of is_parent (parts path)
