-- ===== src/Version/Semver.antt =====
-- api/src/version/semver.ts: versions read by Semantic Versioning's grammar, and their precedence.
-- `Ordering.lt`, `eq` and `gt` are the source's -1, 0 and 1.
use Prim.Native.Nat.{compare, Ordering}
use dockplane.Base.{
  ℕ, Bool, true, false, ◌&&◌, Option, none, some, List, [], ◌∷◌, ◌==◌, all, nat_eq, if◌then◌else◌,
}
use dockplane.Version.Numbers.{Number, number, compare_numeric, minus_or}
use dockplane.Version.Codes.{
  Codes, trim, leading_digits, cut_at, split, value, is_numeric, is_identifier, is_build_identifier,
}

-- What `PATTERN` captures: the numbers that the digits write, and the prerelease identifiers.
pub record VersionGroups : Type 0 where
  pub major : ℕ
  pub minor : ℕ
  pub patch : ℕ
  pub prerelease : List Codes

pub record ParsedVersion : Type 0 where
  pub major : Number
  pub minor : Number
  pub patch : Number
  pub prerelease : List Codes

-- `(0|[1-9]\d*)` at the front of a text: the number, and what follows it.
unfoldable pub read_number : Codes → Option (ℕ × Codes)
unfolding leading_digits is_numeric value
read_number s =
    let (digits, rest) = leading_digits s in
    if is_numeric digits then some (value 0 digits, rest) else none

-- `\.` and the number behind it.
unfoldable pub read_part : Codes → Option (ℕ × Codes)
unfolding read_number
read_part [] = none
read_part (c ∷ s) = if c == b'.' then read_number s else none

-- `[0-9a-zA-Z-]+(?:\.[0-9a-zA-Z-]+)*`
unfoldable pub is_build : Codes → Bool
unfolding split is_build_identifier
is_build s = all is_build_identifier (split b'.' s)

unfoldable pub is_build_or_none : Option Codes → Bool
unfolding is_build
is_build_or_none none = true
is_build_or_none (some s) = is_build s

-- What follows the three numbers: a prerelease, build metadata, both or neither.
unfoldable pub read_suffix : Codes → Option (List Codes)
unfolding cut_at split is_identifier is_build is_build_or_none
read_suffix [] = some []
read_suffix (c ∷ s) =
    if c == b'-'
    then (let (prerelease, build) = cut_at b'+' s in
        let identifiers = split b'.' prerelease in
        if all is_identifier identifiers && is_build_or_none build then some identifiers else none)
    else if c == b'+'
    then (if is_build s then some [] else none)
    else none

unfoldable pub without_v : Codes → Codes
without_v [] = []
without_v (c ∷ s) = if c == b'v' then s else c ∷ s

infixl 5 ◌>>=◌
abbrev pub ◌>>=◌ {ℓ κ} : {A : Type ℓ} {B : Type κ} → Option A → (A → Option B) → Option B
none >>= next = none
some a >>= next = next a

-- `PATTERN.exec(text)` and the groups that it captures.
unfoldable pub match_version : Codes → Option VersionGroups
match_version text = do
  (major, after_major) ← read_number (without_v text)
  (minor, after_minor) ← read_part after_major
  (patch, after_patch) ← read_part after_minor
  prerelease ← read_suffix after_patch
  some (record { major = major; minor = minor; patch = patch; prerelease = prerelease })

-- What is made of the groups.
unfoldable pub parsed : VersionGroups → ParsedVersion
parsed g = record {
  major = number g.major;
  minor = number g.minor;
  patch = number g.patch;
  prerelease = g.prerelease;
}

unfoldable pub parse_version : Option Codes → Option ParsedVersion
unfolding parsed
parse_version none = none
parse_version (some text) = elim (match_version (trim text)) [
  | none ↦ none
  | some g ↦ some (parsed g)
]

abbrev pub and_then : Ordering → Ordering → Ordering
and_then Ordering.eq second = second
and_then first _ = first

-- `left < right` on texts.
unfoldable pub compare_text : Codes → Codes → Ordering
compare_text [] [] = Ordering.eq
compare_text [] (d ∷ t) = Ordering.lt
compare_text (c ∷ s) [] = Ordering.gt
compare_text (c ∷ s) (d ∷ t) = and_then (compare c d) (compare_text s t)

-- Two identifiers at the same place.
unfoldable pub compare_identifier : Codes → Codes → Ordering
unfolding is_numeric value compare_text compare_numeric
compare_identifier left right = elim (is_numeric left) [
  | true ↦ elim (is_numeric right) [
    | true ↦ compare_numeric (number (value 0 left)) (number (value 0 right))
    | false ↦ Ordering.lt
  ]
  | false ↦ elim (is_numeric right) [ true ↦ Ordering.gt | false ↦ compare_text left right ]
]

-- The loop over both lists, from one index on.
unfoldable pub compare_identifiers : List Codes → List Codes → Ordering
unfolding compare_identifier
compare_identifiers [] [] = Ordering.eq
compare_identifiers [] (right ∷ b) = Ordering.lt
compare_identifiers (left ∷ a) [] = Ordering.gt
compare_identifiers (left ∷ a) (right ∷ b) =
    and_then (compare_identifier left right) (compare_identifiers a b)

unfoldable pub compare_prerelease : List Codes → List Codes → Ordering
unfolding compare_identifiers
compare_prerelease [] [] = Ordering.eq
compare_prerelease [] (right ∷ b) = Ordering.gt
compare_prerelease (left ∷ a) [] = Ordering.lt
compare_prerelease (left ∷ a) (right ∷ b) = compare_identifiers (left ∷ a) (right ∷ b)

-- `positional`, and what it comes to: a difference that is no number is false, as zero is, before
-- `||`, but it is not zero.
unfoldable pub compare_parsed : ParsedVersion → ParsedVersion → Ordering
unfolding compare_prerelease compare_numeric minus_or
compare_parsed a b = minus_or a.major b.major (
    minus_or a.minor b.minor
      (and_then (compare_numeric a.patch b.patch) (compare_prerelease a.prerelease b.prerelease)))

unfoldable pub compare_versions : Option Codes → Option Codes → Option Ordering
compare_versions a b = elim (parse_version a) [
  | none ↦ none
  | some left ↦ elim (parse_version b) [
    | none ↦ none
    | some right ↦ some (compare_parsed left right)
  ]
]

unfoldable pub is_newer : Option Codes → Option Codes → Option Bool
is_newer candidate current = elim (compare_versions candidate current) [
  | none ↦ none
  | some order ↦ some (elim order [ Ordering.gt ↦ true | _ ↦ false ])
]
