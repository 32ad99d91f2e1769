-- ===== src/Version/Reading.antt =====
-- The versions that are read are exactly those that are printed.
use dockplane.Base.{
  ◌<◌, Option-cases, ℕ, ◌≡◌, ◌↔◌, refl, sym, ap, subst, ◌∙◌, true, Option, none, some,
  some-injective, List, [], ◌∷◌, ◌++◌, arith, All, all, all_iff, nat_eq, ◌==◌, ==_iff, Bool-cases,
  inl, inr,
}
use dockplane.Version.Numbers.{finite, limit, number-exact}
use dockplane.Version.Codes.{
  Codes, is_digit, is_space, trim, leading_digits, cut_at, split, value, is_numeric, is_identifier,
  push,
}
use dockplane.Version.Decimal.{print_number, is_numeric-print_number, print_number-value_numeric}
use dockplane.Version.Semver.{
  VersionGroups, ParsedVersion, parsed, ◌>>=◌, without_v, read_number, read_part, read_suffix,
  is_build, is_build_or_none, match_version, parse_version,
}
use dockplane.Version.Order.{IsIdentifier, IsVersion}
use dockplane.Version.Printing.{
  print_version, print_prerelease, print_build, join, match_version-print, without_v-numeric,
}
use dockplane.Version.Solid.{trim-IsSolid, IsSolid-print}

-- The numbers up to which JavaScript is exact.
abbrev pub IsSmall : VersionGroups → Type 0
IsSmall g = (g.major < limit) × (g.minor < limit) × (g.patch < limit)

match_print :
    (g : VersionGroups) (build : Option Codes)
    → IsVersion g
    → is_build_or_none build ≡ true
    → (match_version (trim (print_version g build)) ≡ some g)
      × (match_version (trim (b'v' ∷ print_version g build)) ≡ some g)
unfolding is_space print_version without_v
match_print g build h b =
    let solid = IsSolid-print g build h b in
    let plain : without_v (print_version g build) ≡ print_version g build =
      unfold print_version in
      without_v-numeric (print_number g.major) _ (is_numeric-print_number g.major) in
    (
      ap match_version (trim-IsSolid (print_version g build) solid)
          ∙ match_version-print (print_version g build) g build plain h b,
      ap match_version (trim-IsSolid (b'v' ∷ print_version g build) (refl, solid))
          ∙ match_version-print (b'v' ∷ print_version g build) g build refl h b,
    )

-- A version is what was made of the groups.
made :
    (text : Codes) (g : VersionGroups)
    → match_version (trim text) ≡ some g
    → parse_version (some text) ≡ some (parsed g)
unfolding parse_version
made text g h = rw (parse_version, h) refl

abbrev pub exactly : VersionGroups → ParsedVersion
exactly g = record {
  major = finite g.major;
  minor = finite g.minor;
  patch = finite g.patch;
  prerelease = g.prerelease;
}

small : (g : VersionGroups) → IsSmall g → parsed g ≡ exactly g
unfolding parsed
small g (a, b, c) = λ i. record {
  major = number-exact g.major a i;
  minor = number-exact g.minor b i;
  patch = number-exact g.patch c i;
  prerelease = g.prerelease;
}

-- A version whose numbers are below 2 ^ 53 and whose identifiers are well formed is read back
-- unchanged from its print, with or without well-formed build metadata and with or without a
-- leading `v`.
pub parse_version-print_version :
    (g : VersionGroups) (build : Option Codes)
    → IsVersion g
    → IsSmall g
    → is_build_or_none build ≡ true
    → (parse_version (some (print_version g build)) ≡ some (exactly g))
      × (parse_version (some (b'v' ∷ print_version g build)) ≡ some (exactly g))
parse_version-print_version g build h s b =
    let (plain, tagged) = match_print g build h b in
    let same = ap (λ v. some v) (small g s) in
    (
      made (print_version g build) g plain ∙ same,
      made (b'v' ∷ print_version g build) g tagged ∙ same,
    )

leading_digits_inv : (s : Codes) → (leading_digits s).0 ++ (leading_digits s).1 ≡ s
unfolding leading_digits
leading_digits_inv [] = refl
leading_digits_inv (c ∷ s) = elim (Bool-cases (is_digit c)) [
  | inl digit ↦ rw digit (ap (λ rest. c ∷ rest) (leading_digits_inv s))
  | inr other ↦ rw other refl
]

read_number_inv :
    (s : Codes) (n : ℕ) (rest : Codes) → read_number s ≡ some (n, rest) → s ≡ print_number n ++ rest
unfolding read_number
read_number_inv s n rest h = elim (Bool-cases (is_numeric (leading_digits s).0)) [
  | inl numeric ↦
      let found : (value 0 (leading_digits s).0 ≡ n) × ((leading_digits s).1 ≡ rest) =
        ground (arith, numeric, h) in
      let digits : print_number n ≡ (leading_digits s).0 =
        rw found.0 at (print_number-value_numeric (leading_digits s).0 numeric) in
      sym (leading_digits_inv s) ∙ (λ i. sym digits i ++ found.1 i)
  | inr other ↦ absurd (ground (arith, other, h))
]

join-push :
    (c : ℕ) (part : Codes) (parts : List Codes)
    → join (push c (part ∷ parts)) ≡ c ∷ join (part ∷ parts)
unfolding join
join-push c part [] = refl
join-push c part (next ∷ parts) = refl

join-nil :
    (part : Codes) (parts : List Codes) → join ([] ∷ part ∷ parts) ≡ b'.' ∷ join (part ∷ parts)
unfolding join
join-nil part parts = refl

split-cons : (s : Codes) → (part : Codes) × (parts : List Codes) × (split b'.' s ≡ part ∷ parts)
unfolding split
split-cons [] = ([], [], refl)
split-cons (c ∷ s) = elim (Bool-cases (c == b'.')) [
  | inl dot ↦ ([], split b'.' s, rw dot refl)
  | inr other ↦ let (part, parts, e) = split-cons s in (c ∷ part, parts, rw (other, e) refl)
]

join-split : (s : Codes) → join (split b'.' s) ≡ s
unfolding split
join-split [] = unfold join in refl
join-split (c ∷ s) =
    let (part, parts, e) = split-cons s in
    let rest : join (part ∷ parts) ≡ s = rw e at (join-split s) in
    elim (Bool-cases (c == b'.')) [
      | inl dot ↦ rw (dot, e) (join-nil part parts ∙ (λ i. sym ((==_iff c b'.').0 dot) i ∷ rest i))
      | inr other ↦ rw (other, e) (join-push c part parts ∙ ap (λ t. c ∷ t) rest)
    ]

cut_at_inv : (s : Codes) → (cut_at b'+' s).0 ++ print_build (cut_at b'+' s).1 ≡ s
unfolding cut_at
cut_at_inv [] = unfold print_build in refl
cut_at_inv (c ∷ s) = elim (Bool-cases (c == b'+')) [
  | inl plus ↦ rw plus (unfold print_build in λ i. sym ((==_iff c b'+').0 plus) i ∷ s)
  | inr other ↦ rw other (ap (λ t. c ∷ t) (cut_at_inv s))
]

-- The prerelease identifiers and the build metadata that a text is the print of.
abbrev SuffixOf : Codes → List Codes → Type 0
SuffixOf s ids =
    All IsIdentifier ids
    × (build : Option Codes) × (is_build_or_none build ≡ true)
    × (s ≡ print_prerelease ids ++ print_build build)

suffix_build : (c : ℕ) (s : Codes) → c ≡ b'+' → is_build s ≡ true → SuffixOf (c ∷ s) []
unfolding print_prerelease print_build is_build_or_none
suffix_build c s e b = (tt, some s, b, λ i. e i ∷ s)

suffix_dash :
    (c : ℕ) (s : Codes)
    → c ≡ b'-'
    → all is_identifier (split b'.' (cut_at b'+' s).0) ≡ true
    → is_build_or_none (cut_at b'+' s).1 ≡ true
    → SuffixOf (c ∷ s) (split b'.' (cut_at b'+' s).0)
unfolding print_prerelease
suffix_dash c s e h b =
    let text = (cut_at b'+' s).0 in
    let (part, parts, parted) = split-cons text in
    let whole : join (part ∷ parts) ≡ text = rw parted at (join-split text) in
    let valid = (all_iff is_identifier (split b'.' text)).0 h in
    let printed : print_prerelease (split b'.' text) ≡ b'-' ∷ text =
      rw parted (ap (λ t. b'-' ∷ t) whole) in
    (
      valid,
      (cut_at b'+' s).1,
      b,
      (λ i. e i ∷ sym (cut_at_inv s) i)
          ∙ ap (λ t. t ++ print_build (cut_at b'+' s).1) (sym printed),
    )

read_suffix_inv : (s : Codes) (ids : List Codes) → read_suffix s ≡ some ids → SuffixOf s ids
unfolding read_suffix
read_suffix_inv [] ids h =
    let same : [] ≡ ids = ground (arith, h) in
    subst (SuffixOf []) same (
      tt,
      none,
      unfold is_build_or_none in refl,
      unfold print_prerelease in unfold print_build in refl,
    )
read_suffix_inv (c ∷ s) ids h =
    let parted = split b'.' (cut_at b'+' s).0 in
    elim (Bool-cases (c == b'-')) [
      | inl dash ↦ elim (Bool-cases (all is_identifier parted)) [
        | inl valid ↦ elim (Bool-cases (is_build_or_none (cut_at b'+' s).1)) [
          | inl build ↦
              let same : parted ≡ ids = ground (arith, h, dash, valid, build) in
              subst (SuffixOf (c ∷ s)) same (suffix_dash c s ((==_iff c b'-').0 dash) valid build)
          | inr bad ↦ absurd (ground (arith, h, dash, valid, bad))
        ]
        | inr bad ↦ absurd (ground (arith, h, dash, bad))
      ]
      | inr other ↦ elim (Bool-cases (c == b'+')) [
        | inl plus ↦
            let (same, build) : ([] ≡ ids) × (is_build s ≡ true) = ground (arith, h, other, plus) in
            subst (SuffixOf (c ∷ s)) same (suffix_build c s ((==_iff c b'+').0 plus) build)
        | inr neither ↦ absurd (ground (arith, h, other, neither))
      ]
    ]

read_part_inv :
    (s : Codes) (n : ℕ) (rest : Codes)
    → read_part s ≡ some (n, rest)
    → s ≡ b'.' ∷ (print_number n ++ rest)
unfolding read_part
read_part_inv [] n rest h = absurd (ground (arith, h))
read_part_inv (c ∷ s) n rest h = elim (Bool-cases (c == b'.')) [
  | inl dot ↦ λ i. (==_iff c b'.').0 dot i ∷ read_number_inv s n rest (rw dot at h) i
  | inr other ↦ absurd (ground (arith, h, other))
]

-- The text is a printed version, with build metadata or not.
abbrev pub VersionText : Codes → VersionGroups → Type 0
VersionText s v =
    (build : Option Codes) × (is_build_or_none build ≡ true) × (s ≡ print_version v build)

bind_inv {ℓ κ} :
    {A : Type ℓ} {B : Type κ} (o : Option A) (next : A → Option B) (b : B)
    → (o >>= next) ≡ some b
    → (a : A) × (o ≡ some a) × (next a ≡ some b)
bind_inv none next b h = absurd (ground (arith, h))
bind_inv (some a) next b h = (a, refl, h)

match_version_inv :
    (text : Codes) (v : VersionGroups)
    → match_version text ≡ some v
    → IsVersion v × VersionText (without_v text) v
unfolding match_version IsVersion print_version
match_version_inv text v h =
    let ((major, s1), e1, h1) = bind_inv (read_number (without_v text)) _ v h in
    let ((minor, s2), e2, h2) = bind_inv (read_part s1) _ v h1 in
    let ((patch, s3), e3, h3) = bind_inv (read_part s2) _ v h2 in
    let (ids, e4, h4) = bind_inv (read_suffix s3) _ v h3 in
    let (valid, build, good, f4) = read_suffix_inv s3 ids e4 in
    let f1 = read_number_inv (without_v text) major s1 e1 in
    let f2 = read_part_inv s1 minor s2 e2 in
    let f3 = read_part_inv s2 patch s3 e3 in
    let whole =
      f1
      ∙ ap (λ t. print_number major ++ t)
          (f2
            ∙ ap (λ t. b'.' ∷ (print_number minor ++ t))
                (f3 ∙ ap (λ t. b'.' ∷ (print_number patch ++ t)) f4)) in
    let same = some-injective _ v h4 in
    subst (λ w. All IsIdentifier w.prerelease × VersionText (without_v text) w) same
      (valid, (build, good, whole))

parse_version_inv :
    (text : Codes) (v : ParsedVersion)
    → parse_version (some text) ≡ some v
    → (g : VersionGroups) × (match_version (trim text) ≡ some g) × (v ≡ parsed g)
unfolding parse_version
parse_version_inv text v h = elim (Option-cases (match_version (trim text))) [
  | inl missing ↦ absurd (ground (arith, rw (parse_version, missing) at h))
  | inr (g, found) ↦ (g, found, some-injective v (parsed g) (sym h ∙ made text g found))
]

-- A text is read as a version exactly when it is, less the white space around it and one leading `v`,
-- the print of three numbers and well-formed identifiers with or without well-formed build
-- metadata; the version then has the nearest numbers of JavaScript, and those identifiers.
pub parse_version_iff :
    (text : Codes) (v : ParsedVersion)
    → (parse_version (some text) ≡ some v)
      ↔ ((g : VersionGroups) × IsVersion g × VersionText (without_v (trim text)) g × (v ≡ parsed g))
parse_version_iff text v = (
  λ h.
      let (g, found, same) = parse_version_inv text v h in
      let (valid, whole) = match_version_inv (trim text) g found in (g, valid, whole, same),
  λ (g, valid, whole, same).
      let (build, good, text_is) = whole in
      made text g (match_version-print (trim text) g build text_is valid good)
      ∙ ap (λ w. some w) (sym same),
)
