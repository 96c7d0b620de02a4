-- ===== src/Intelligence/Texts.antt =====
-- What normalisation.py does with texts: `split(":")`, `replace("Z", "+00:00")` and the URLs that
-- `https?://[^\s)\]]+` finds.
use Prim.Native.Char.{Char, code}
use Prim.Native.String.{◌++◌ as append_text}
use zero_shield.Base.{
  ℕ, zero, suc, ◌-◌, String, Bool, false, not, ◌&&◌, ◌||◌, Option, none, some, List, [], ◌∷◌, ◌++◌,
  length, ◌==◌, leb, if◌then◌else◌, ◌≡◌, refl,
}

abbrev pub chars : String → List Char
chars String.[] = []
chars (String.◌∷◌ c s) = c ∷ chars s

abbrev pub text : List Char → String
text [] = String.[]
text (c ∷ cs) = String.◌∷◌ c (text cs)

-- The characters of a text, each as a text: what `for c in s` runs over
abbrev pub letters : String → List String
letters String.[] = []
letters (String.◌∷◌ c s) = String.◌∷◌ c String.[] ∷ letters s

-- The part before the first colon, and the parts behind it
abbrev pub parts : String → String × List String
parts String.[] = ("", [])
parts (String.◌∷◌ c s) =
    let (first, rest) = parts s in
    if code c == b':' then ("", first ∷ rest) else (String.◌∷◌ c first, rest)

-- `s.split(":")`
unfoldable pub split_colons : String → List String
split_colons s = let (first, rest) = parts s in first ∷ rest

unfoldable pub replace_z : String → String
replace_z String.[] = ""
replace_z (String.◌∷◌ c s) =
    let rest = replace_z s in
    if code c == b'Z' then append_text "+00:00" rest else String.◌∷◌ c rest

unfoldable pub has_letter : ℕ → String → Bool
has_letter n String.[] = false
has_letter n (String.◌∷◌ c s) = code c == n || has_letter n s

-- `\s`
abbrev pub is_space : ℕ → Bool
is_space c =
    leb 9 c && leb c 13
    || leb 28 c && leb c 32
    || c == 133
    || c == 160
    || c == 5760
    || leb 8192 c && leb c 8202
    || leb 8232 c && leb c 8233
    || c == 8239
    || c == 8287
    || c == 12288

abbrev url_char : ℕ → Bool
url_char c = not (is_space c || c == b')' || c == b']')

-- The longest run of characters that may stand in a URL
abbrev url_run : List Char → List Char
url_run [] = []
url_run (c ∷ cs) = let rest = url_run cs in if url_char (code c) then c ∷ rest else []

abbrev skip_prefix : List Char → List Char → Option (List Char)
skip_prefix [] s = some s
skip_prefix (_ ∷ _) [] = none
skip_prefix (p ∷ ps) (c ∷ s) =
    let rest = skip_prefix ps s in if code p == code c then rest else none

abbrev url_behind : String → List Char → Option (List Char)
url_behind scheme s = elim (skip_prefix (chars scheme) s) [
  | none ↦ none
  | some rest ↦ elim (url_run rest) [ [] ↦ none | c ∷ cs ↦ some (chars scheme ++ c ∷ cs) ]
]

-- The URL that begins here: `https?` tries the longer scheme first.
abbrev url_at : List Char → Option (List Char)
url_at s = elim (url_behind "https://" s) [ some u ↦ some u | none ↦ url_behind "http://" s ]

-- The matches from here on; `busy` characters belong to the last match.
abbrev urls_from : ℕ → List Char → List String
urls_from busy [] = []
urls_from (suc busy) (c ∷ cs) = urls_from busy cs
urls_from zero (c ∷ cs) = elim (url_at (c ∷ cs)) [
  | none ↦ urls_from zero cs
  | some u ↦ text u ∷ urls_from (length u - 1) cs
]

-- `_URL_RE.findall(s)`
unfoldable pub find_urls : String → List String
find_urls s = urls_from 0 (chars s)

split_example : split_colons "cpe:2.3:a::x" ≡ "cpe" ∷ "2.3" ∷ "a" ∷ "" ∷ "x" ∷ []
unfolding split_colons
split_example = refl

urls_example :
    find_urls "see (https://a.example/b) and http://c; https://"
    ≡ "https://a.example/b" ∷ "http://c;" ∷ []
unfolding find_urls
urls_example = refl
