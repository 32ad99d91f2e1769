-- ===== src/Version/Codes.antt =====
-- A text as the list of its character codes: what api/src/version/semver.ts uses of regular
-- expressions, `trim` and `split`.
use Prim.Native.Char.{code}
use dockplane.Base.{
  ℕ, ◌+◌, ◌-◌, ◌*◌, String, Bool, false, ◌&&◌, ◌||◌, not, Option, none, some, List, [], ◌∷◌, ◌==◌,
  leb, all, any, nat_eq, if◌then◌else◌,
}

abbrev pub Codes : Type 0
Codes = List ℕ

abbrev pub codes : String → Codes
codes String.[] = []
codes (String.◌∷◌ c s) = code c ∷ codes s

-- `[0-9]`, `[a-zA-Z-]` and `[0-9a-zA-Z-]`
unfoldable pub is_digit : ℕ → Bool
is_digit c = leb b'0' c && leb c b'9'

unfoldable pub is_letter : ℕ → Bool
is_letter c = (leb b'a' c && leb c b'z') || (leb b'A' c && leb c b'Z') || (c == b'-')

unfoldable pub is_word : ℕ → Bool
unfolding is_digit is_letter
is_word c = is_digit c || is_letter c

-- White space and line ends, as `trim` removes them.
unfoldable pub is_space : ℕ → Bool
is_space c =
    (leb 9 c && leb c 13)
    || (c == 32)
    || (c == 160)
    || (c == 5760)
    || (leb 8192 c && leb c 8202)
    || (c == 8232)
    || (c == 8233)
    || (c == 8239)
    || (c == 8287)
    || (c == 12288)
    || (c == 65279)

unfoldable pub trim_start : Codes → Codes
trim_start [] = []
trim_start (c ∷ s) = if is_space c then trim_start s else c ∷ s

unfoldable pub trim_end : Codes → Codes
trim_end [] = []
trim_end (c ∷ s) = elim (trim_end s) [
  | [] ↦ if is_space c then [] else c ∷ []
  | d ∷ rest ↦ c ∷ d ∷ rest
]

unfoldable pub trim : Codes → Codes
unfolding trim_start trim_end is_space
trim s = trim_end (trim_start s)

-- The digits that a text starts with, and what follows them.
unfoldable pub leading_digits : Codes → Codes × Codes
leading_digits [] = ([], [])
leading_digits (c ∷ s) =
    let rest = leading_digits s in if is_digit c then (c ∷ rest.0, rest.1) else ([], c ∷ s)

-- The text before the first separator, and the text behind it when there is one.
unfoldable pub cut_at : ℕ → Codes → Codes × Option Codes
cut_at sep [] = ([], none)
cut_at sep (c ∷ s) =
    let rest = cut_at sep s in if c == sep then ([], some s) else (c ∷ rest.0, rest.1)

abbrev pub push : ℕ → List Codes → List Codes
push c [] = (c ∷ []) ∷ []
push c (part ∷ parts) = (c ∷ part) ∷ parts

-- `text.split(sep)`
unfoldable pub split : ℕ → Codes → List Codes
split sep [] = [] ∷ []
split sep (c ∷ s) = let parts = split sep s in if c == sep then [] ∷ parts else push c parts

-- The number that digits write, which `number` of Numbers rounds.
unfoldable pub value : ℕ → Codes → ℕ
value n [] = n
value n (c ∷ s) = value (n * 10 + (c - b'0')) s

-- `/^(0|[1-9]\d*)$/`
unfoldable pub is_numeric : Codes → Bool
unfolding is_digit
is_numeric [] = false
is_numeric (c ∷ []) = is_digit c
is_numeric (c ∷ d ∷ s) = not (c == b'0') && all is_digit (c ∷ d ∷ s)

-- One identifier of a prerelease: a number, or word characters that are not all digits.
unfoldable pub is_identifier : Codes → Bool
unfolding is_numeric is_word is_digit
is_identifier s = is_numeric s || (all is_word s && any (λ c. not (is_digit c)) s)

-- One identifier of build metadata.
unfoldable pub is_build_identifier : Codes → Bool
unfolding is_word
is_build_identifier [] = false
is_build_identifier (c ∷ s) = all is_word (c ∷ s)
