-- ===== src/Version/Printing.antt =====
-- A version printed, and that its parts are read back: what the text of a version looks like to
-- api/src/version/semver.ts.
use mathlib.Core.List.{append-nil}
use dockplane.Base.{
  ℕ, ◌≡◌, refl, ap, ◌∙◌, true, false, Option, none, some, List, [], ◌∷◌, ◌++◌, arith, All, All-map,
  all, all_iff, nat_eq, ◌==◌, ==_iff, Bool-cases, inl, inr,
}
use dockplane.Version.Codes.{
  Codes, is_digit, is_letter, is_word, leading_digits, cut_at, split, is_numeric, is_identifier,
}
use dockplane.Version.Decimal.{print_number, value-print_number, is_numeric-print_number}
use dockplane.Version.Semver.{
  VersionGroups, without_v, read_number, read_part, read_suffix, is_build_or_none, match_version,
}
use dockplane.Version.Order.{IsIdentifier, IsVersion}

-- The identifiers joined by dots.
unfoldable pub join : List Codes → Codes
join [] = []
join (part ∷ []) = part
join (part ∷ next ∷ parts) = part ++ b'.' ∷ join (next ∷ parts)

unfoldable pub print_prerelease : List Codes → Codes
unfolding join
print_prerelease [] = []
print_prerelease (part ∷ parts) = b'-' ∷ join (part ∷ parts)

-- Build metadata, when there is some.
unfoldable pub print_build : Option Codes → Codes
print_build none = []
print_build (some build) = b'+' ∷ build

-- A version as releases are named, with build metadata.
unfoldable pub print_version : VersionGroups → Option Codes → Codes
print_version v build =
    let suffix = print_prerelease v.prerelease ++ print_build build in
    print_number v.major
    ++ (b'.' ∷ (print_number v.minor ++ (b'.' ∷ (print_number v.patch ++ suffix))))

-- The text does not go on with a digit.
abbrev IsBreak : Codes → Type 0
IsBreak [] = Unit
IsBreak (c ∷ s) = is_digit c ≡ false

leading_digits-append :
    (s rest : Codes) → all is_digit s ≡ true → IsBreak rest → leading_digits (s ++ rest) ≡ (s, rest)
unfolding leading_digits
leading_digits-append [] [] d b = refl
leading_digits-append [] (c ∷ rest) d b = rw b refl
leading_digits-append (c ∷ s) rest d b =
    let (head, tail) : (is_digit c ≡ true) × (all is_digit s ≡ true) = ground (arith, d) in
    rw (head, leading_digits-append s rest tail b) refl

all_digit_of_numeric : (s : Codes) → is_numeric s ≡ true → all is_digit s ≡ true
unfolding is_numeric
all_digit_of_numeric [] h = refl
all_digit_of_numeric (c ∷ []) h = ground arith
all_digit_of_numeric (c ∷ d ∷ s) h = ground arith

read_number-print :
    (n : ℕ) (rest : Codes) → IsBreak rest → read_number (print_number n ++ rest) ≡ some (n, rest)
unfolding read_number
read_number-print n rest b =
    let numeric = is_numeric-print_number n in
    let digits = all_digit_of_numeric (print_number n) numeric in
    rw (leading_digits-append (print_number n) rest digits b, numeric, value-print_number n) refl

-- No separator in the text.
abbrev Lacks : ℕ → Codes → Type 0
Lacks sep s = All (λ c. (c == sep) ≡ false) s

split-append_Lacks : (sep : ℕ) (s : Codes) → Lacks sep s → split sep s ≡ s ∷ []
unfolding split
split-append_Lacks sep [] h = refl
split-append_Lacks sep (c ∷ s) (hc, h) = rw (hc, split-append_Lacks sep s h) refl

split_at :
    (sep : ℕ) (s rest : Codes) → Lacks sep s → split sep (s ++ sep ∷ rest) ≡ s ∷ split sep rest
unfolding split
split_at sep [] rest h = ground (arith, ==_iff sep sep)
split_at sep (c ∷ s) rest (hc, h) = rw (hc, split_at sep s rest h) refl

split-join :
    (part : Codes) (parts : List Codes)
    → All (Lacks b'.') (part ∷ parts)
    → split b'.' (join (part ∷ parts)) ≡ part ∷ parts
unfolding join
split-join part [] (h, _) = split-append_Lacks b'.' part h
split-join part (next ∷ parts) (h, k) =
    split_at b'.' part (join (next ∷ parts)) h ∙ ap (λ rest. part ∷ rest) (split-join next parts k)

cut_at-append :
    (sep : ℕ) (s rest : Codes) → Lacks sep s → cut_at sep (s ++ sep ∷ rest) ≡ (s, some rest)
unfolding cut_at
cut_at-append sep [] rest h = ground (arith, ==_iff sep sep)
cut_at-append sep (c ∷ s) rest (hc, h) = rw (hc, cut_at-append sep s rest h) refl

cut_at-Lacks : (sep : ℕ) (s : Codes) → Lacks sep s → cut_at sep s ≡ (s, none)
unfolding cut_at
cut_at-Lacks sep [] h = refl
cut_at-Lacks sep (c ∷ s) (hc, h) = rw (hc, cut_at-Lacks sep s h) refl

cut_at-build :
    (s : Codes) (build : Option Codes)
    → Lacks b'+' s
    → cut_at b'+' (s ++ print_build build) ≡ (s, build)
unfolding print_build
cut_at-build s none h = ap (cut_at b'+') (append-nil s) ∙ cut_at-Lacks b'+' s h
cut_at-build s (some build) h = cut_at-append b'+' s build h

is_word_of_digit : (c : ℕ) → is_digit c ≡ true → is_word c ≡ true
unfolding is_word
is_word_of_digit c h = ground arith

pub words_of_identifier : (s : Codes) → is_identifier s ≡ true → All (λ c. is_word c ≡ true) s
unfolding is_identifier
words_of_identifier s h = elim (Bool-cases (is_numeric s)) [
  | inl numeric ↦
      All-map is_word_of_digit s ((all_iff is_digit s).0 (all_digit_of_numeric s numeric))
  | inr other ↦ (all_iff is_word s).0 (ground (arith, h, other))
]

word_not_sep : (c : ℕ) → is_word c ≡ true → ((c == b'.') ≡ false) × ((c == b'+') ≡ false)
unfolding is_word is_digit is_letter
word_not_sep c h = ground (arith, ==_iff c b'.', ==_iff c b'+', ==_iff c b'-')

Lacks-dot : (s : Codes) → IsIdentifier s → Lacks b'.' s
Lacks-dot s h = All-map (λ c w. (word_not_sep c w).0) s (words_of_identifier s h)

Lacks-plus : (s : Codes) → IsIdentifier s → Lacks b'+' s
Lacks-plus s h = All-map (λ c w. (word_not_sep c w).1) s (words_of_identifier s h)

Lacks-append : (sep : ℕ) (s t : Codes) → Lacks sep s → Lacks sep t → Lacks sep (s ++ t)
Lacks-append sep [] t hs ht = ht
Lacks-append sep (c ∷ s) t (hc, hs) ht = (hc, Lacks-append sep s t hs ht)

Lacks-plus-join :
    (part : Codes) (parts : List Codes)
    → All IsIdentifier (part ∷ parts)
    → Lacks b'+' (join (part ∷ parts))
unfolding join
Lacks-plus-join part [] (h, _) = Lacks-plus part h
Lacks-plus-join part (next ∷ parts) (h, k) =
    Lacks-append b'+' part (b'.' ∷ join (next ∷ parts)) (Lacks-plus part h)
      (refl, Lacks-plus-join next parts k)

read_suffix-print :
    (ids : List Codes) (build : Option Codes)
    → All IsIdentifier ids
    → is_build_or_none build ≡ true
    → read_suffix (print_prerelease ids ++ print_build build) ≡ some ids
unfolding read_suffix print_prerelease
read_suffix-print [] none h b = unfold print_build in refl
read_suffix-print [] (some build) h b =
    unfold print_build in unfold is_build_or_none in ground (arith, b)
read_suffix-print (part ∷ parts) build h b =
    let cut = cut_at-build (join (part ∷ parts)) build (Lacks-plus-join part parts h) in
    let parted = split-join part parts (All-map Lacks-dot (part ∷ parts) h) in
    let good = (all_iff is_identifier (part ∷ parts)).1 h in rw (cut, parted, good, b) refl

IsBreak-suffix :
    (ids : List Codes) (build : Option Codes) → IsBreak (print_prerelease ids ++ print_build build)
unfolding print_prerelease print_build is_digit
IsBreak-suffix [] none = tt
IsBreak-suffix [] (some build) = refl
IsBreak-suffix (part ∷ parts) build = refl

read_part-print :
    (n : ℕ) (rest : Codes)
    → IsBreak rest
    → read_part (b'.' ∷ (print_number n ++ rest)) ≡ some (n, rest)
unfolding read_part
read_part-print = read_number-print

pub without_v-numeric : (s rest : Codes) → is_numeric s ≡ true → without_v (s ++ rest) ≡ s ++ rest
unfolding without_v is_numeric is_digit
without_v-numeric [] rest h = absurd (ground arith)
without_v-numeric (c ∷ []) rest h = ground (arith, ==_iff c b'v')
without_v-numeric (c ∷ d ∷ s) rest h = ground (arith, ==_iff c b'v')

-- A text that is a printed version behind an optional `v`.
pub match_version-print :
    (text : Codes) (v : VersionGroups) (build : Option Codes)
    → without_v text ≡ print_version v build
    → IsVersion v
    → is_build_or_none build ≡ true
    → match_version text ≡ some v
unfolding match_version print_version IsVersion is_digit
match_version-print text v build e h b =
    let suffix = print_prerelease v.prerelease ++ print_build build in
    let behind_minor = b'.' ∷ (print_number v.patch ++ suffix) in
    let first = read_number-print v.major (b'.' ∷ (print_number v.minor ++ behind_minor)) refl in
    let middle = read_part-print v.minor behind_minor refl in
    let last = read_part-print v.patch suffix (IsBreak-suffix v.prerelease build) in
    rw (e, first, middle, last, read_suffix-print v.prerelease build h b) refl
