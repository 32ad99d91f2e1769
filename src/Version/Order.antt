-- ===== src/Version/Order.antt =====
-- The precedence of versions is a total order on the versions that are read.
use Prim.Native.Nat.{compare, Ordering}
use dockplane.Base.{◌<◌, Bool-cases, inl, inr, ◌≡◌, refl, ◌↔◌, ◌≢◌, true, List, [], ◌∷◌, arith, All}
use dockplane.Version.Numbers.{
  Number, finite, infinite, limit, number, number-exact, compare_numeric, minus_or,
}
use dockplane.Version.Codes.{Codes, value, is_numeric, is_identifier}
use dockplane.Version.Decimal.{value_inj}
use dockplane.Version.Semver.{
  ParsedVersion, VersionGroups, and_then, compare_text, compare_identifier, compare_identifiers,
  compare_prerelease, compare_parsed,
}

-- What makes a comparison a total order on the values that pass `P`.
pub record IsOrder {K : Type 0} (P : K → Type 0) (cmp : K → K → Ordering) : Type 0 where
  pub cmp_refl : (a : K) → P a → cmp a a ≡ Ordering.eq
  pub eq_of_cmp : (a b : K) → P a → P b → cmp a b ≡ Ordering.eq → a ≡ b
  pub cmp_flip : (a b : K) → P a → P b → (cmp a b ≡ Ordering.gt) ↔ (cmp b a ≡ Ordering.lt)
  pub cmp_trans :
      (a b c : K)
      → P a
      → P b
      → P c
      → cmp a b ≡ Ordering.lt
      → cmp b c ≡ Ordering.lt
      → cmp a c ≡ Ordering.lt

module _ {K : Type 0} {P : K → Type 0} {cmp : K → K → Ordering} (order : IsOrder P cmp) where
  pub not_gt_trans :
      (a b c : K)
      → P a
      → P b
      → P c
      → cmp a b ≢ Ordering.gt
      → cmp b c ≢ Ordering.gt
      → cmp a c ≢ Ordering.gt
  not_gt_trans a b c ha hb hc h k = ground (
    arith,
    order.eq_of_cmp a b ha hb,
    order.eq_of_cmp b c hb hc,
    order.cmp_flip a b ha hb,
    order.cmp_flip b c hb hc,
    order.cmp_flip a c ha hc,
    order.cmp_flip c b hc hb,
    order.cmp_flip b a hb ha,
    order.cmp_trans c a b hc ha hb,
  )

compare_text_refl : (s : Codes) → compare_text s s ≡ Ordering.eq
unfolding compare_text
compare_text_refl [] = refl
compare_text_refl (c ∷ s) = ground (arith, compare_text_refl s)

compare_text_eq : (s t : Codes) → compare_text s t ≡ Ordering.eq → s ≡ t
unfolding compare_text
compare_text_eq [] [] e = refl
compare_text_eq [] (d ∷ t) e = ground arith
compare_text_eq (c ∷ s) [] e = ground arith
compare_text_eq (c ∷ s) (d ∷ t) e = ground (arith, compare_text_eq s t)

compare_text_flip :
    (s t : Codes) → (compare_text s t ≡ Ordering.gt) ↔ (compare_text t s ≡ Ordering.lt)
unfolding compare_text
compare_text_flip [] [] = ground arith
compare_text_flip [] (d ∷ t) = ground arith
compare_text_flip (c ∷ s) [] = ground arith
compare_text_flip (c ∷ s) (d ∷ t) = ground (arith, compare_text_flip s t)

compare_text_trans :
    (s t u : Codes)
    → compare_text s t ≡ Ordering.lt
    → compare_text t u ≡ Ordering.lt
    → compare_text s u ≡ Ordering.lt
unfolding compare_text
compare_text_trans [] t [] h k = ground (arith, compare_text_flip [] t)
compare_text_trans [] t (e ∷ u) h k = refl
compare_text_trans (c ∷ s) [] u h k = ground arith
compare_text_trans (c ∷ s) (d ∷ t) [] h k = ground arith
compare_text_trans (c ∷ s) (d ∷ t) (e ∷ u) h k = ground (arith, compare_text_trans s t u)

-- An identifier that the grammar admits, as a number always is.
abbrev pub IsIdentifier : Codes → Type 0
IsIdentifier s = is_identifier s ≡ true

-- The versions that the grammar gives.
unfoldable pub IsVersion : VersionGroups → Type 0
IsVersion g = All IsIdentifier g.prerelease

-- A number below 2 ^ 53, when it is one.
abbrev pub IsExact : Codes → Type 0
IsExact s = is_numeric s ≡ true → value 0 s < limit

abbrev pub IsSafe : Codes → Type 0
IsSafe s = IsIdentifier s × IsExact s

compare_values :
    (a b : Codes)
    → IsExact a
    → IsExact b
    → is_numeric a ≡ true
    → is_numeric b ≡ true
    → compare_numeric (number (value 0 a)) (number (value 0 b)) ≡ compare (value 0 a) (value 0 b)
unfolding compare_numeric
compare_values a b ha hb n m =
    rw (number-exact (value 0 a) (ha n), number-exact (value 0 b) (hb m)) refl

compare_identifier-IsOrder : IsOrder IsSafe compare_identifier
unfolding compare_identifier
compare_identifier-IsOrder = record {
  cmp_refl = λ a ha. elim (Bool-cases (is_numeric a)) [
    | inl n ↦ ground (arith, compare_values a a ha.1 ha.1 n n, n)
    | inr t ↦ ground (arith, compare_text_refl a, t)
  ];
  eq_of_cmp = λ a b ha hb e.
      ground (arith, compare_text_eq a b, value_inj a b, compare_values a b ha.1 hb.1);
  cmp_flip = λ a b ha hb.
      ground
        (arith, compare_text_flip a b, compare_values a b ha.1 hb.1, compare_values b a hb.1 ha.1);
  cmp_trans = λ a b c ha hb hc h k. ground (
    arith,
    compare_text_trans a b c,
    compare_values a b ha.1 hb.1,
    compare_values b c hb.1 hc.1,
    compare_values a c ha.1 hc.1,
  );
}

module _ where
  open compare_identifier-IsOrder use {cmp_refl, eq_of_cmp, cmp_flip, cmp_trans}

  compare_identifiers_refl : (a : List Codes) → All IsSafe a → compare_identifiers a a ≡ Ordering.eq
  unfolding compare_identifiers
  compare_identifiers_refl [] h = refl
  compare_identifiers_refl (x ∷ a) (hx, h) =
      ground (arith, cmp_refl x hx, compare_identifiers_refl a h)

  compare_identifiers_eq :
      (a b : List Codes)
      → All IsSafe a
      → All IsSafe b
      → compare_identifiers a b ≡ Ordering.eq
      → a ≡ b
  unfolding compare_identifiers
  compare_identifiers_eq [] [] ha hb e = refl
  compare_identifiers_eq [] (y ∷ b) ha hb e = ground arith
  compare_identifiers_eq (x ∷ a) [] ha hb e = ground arith
  compare_identifiers_eq (x ∷ a) (y ∷ b) (hx, ha) (hy, hb) e =
      ground (arith, eq_of_cmp x y hx hy, compare_identifiers_eq a b ha hb)

  compare_identifiers_flip :
      (a b : List Codes)
      → All IsSafe a
      → All IsSafe b
      → (compare_identifiers a b ≡ Ordering.gt) ↔ (compare_identifiers b a ≡ Ordering.lt)
  unfolding compare_identifiers
  compare_identifiers_flip [] [] ha hb = ground arith
  compare_identifiers_flip [] (y ∷ b) ha hb = ground arith
  compare_identifiers_flip (x ∷ a) [] ha hb = ground arith
  compare_identifiers_flip (x ∷ a) (y ∷ b) (hx, ha) (hy, hb) =
      ground (arith, cmp_flip x y hx hy, cmp_flip y x hy hx, compare_identifiers_flip a b ha hb)

  compare_identifiers_trans :
      (a b c : List Codes)
      → All IsSafe a
      → All IsSafe b
      → All IsSafe c
      → compare_identifiers a b ≡ Ordering.lt
      → compare_identifiers b c ≡ Ordering.lt
      → compare_identifiers a c ≡ Ordering.lt
  unfolding compare_identifiers
  compare_identifiers_trans [] b [] ha hb hc h k =
      ground (arith, compare_identifiers_flip [] b tt hb)
  compare_identifiers_trans [] b (z ∷ c) ha hb hc h k = refl
  compare_identifiers_trans (x ∷ a) [] c ha hb hc h k = ground arith
  compare_identifiers_trans (x ∷ a) (y ∷ b) [] ha hb hc h k = ground arith
  compare_identifiers_trans (x ∷ a) (y ∷ b) (z ∷ c) (hx, ha) (hy, hb) (hz, hc) h k = grind (
    arith,
    eq_of_cmp x y hx hy,
    eq_of_cmp y z hy hz,
    cmp_refl x hx,
    cmp_refl y hy,
    cmp_refl z hz,
    cmp_trans x y z hx hy hz,
    compare_identifiers_trans a b c ha hb hc,
  )

compare_prerelease-IsOrder : IsOrder (All IsSafe) compare_prerelease
unfolding compare_prerelease
compare_prerelease-IsOrder = record {
  cmp_refl = λ a ha. ground (arith, compare_identifiers_refl a ha);
  eq_of_cmp = λ a b ha hb e. ground (arith, compare_identifiers_eq a b ha hb);
  cmp_flip = λ a b ha hb. ground (arith, compare_identifiers_flip a b ha hb);
  cmp_trans = λ a b c ha hb hc h k. ground (arith, compare_identifiers_trans a b c ha hb hc);
}

-- A finite number before the rest, in a comparison.
lex_self :
    (x : Number) (p : Ordering) → x ≢ infinite → p ≡ Ordering.eq → minus_or x x p ≡ Ordering.eq
unfolding minus_or
lex_self (finite x) p h e = ground (arith, e)
lex_self infinite p h e = absurd (h refl)

lex_eq :
    (x y : Number) (p : Ordering)
    → x ≢ infinite
    → y ≢ infinite
    → minus_or x y p ≡ Ordering.eq
    → (x ≡ y) × (p ≡ Ordering.eq)
unfolding minus_or
lex_eq infinite y p h k e = absurd (h refl)
lex_eq (finite x) infinite p h k e = absurd (k refl)
lex_eq (finite x) (finite y) p h k e = ground (arith, e)

lex_flip :
    (x y : Number) (p q : Ordering)
    → x ≢ infinite
    → y ≢ infinite
    → (p ≡ Ordering.gt) ↔ (q ≡ Ordering.lt)
    → (minus_or x y p ≡ Ordering.gt) ↔ (minus_or y x q ≡ Ordering.lt)
unfolding minus_or
lex_flip infinite y p q h k e = absurd (h refl)
lex_flip (finite x) infinite p q h k e = absurd (k refl)
lex_flip (finite x) (finite y) p q h k e = ground (arith, e)

lex_trans :
    (x y z : Number) (p q r : Ordering)
    → x ≢ infinite
    → y ≢ infinite
    → z ≢ infinite
    → (p ≡ Ordering.lt → q ≡ Ordering.lt → r ≡ Ordering.lt)
    → minus_or x y p ≡ Ordering.lt
    → minus_or y z q ≡ Ordering.lt
    → minus_or x z r ≡ Ordering.lt
unfolding minus_or
lex_trans infinite y z p q r a b c f h k = absurd (a refl)
lex_trans (finite x) infinite z p q r a b c f h k = absurd (b refl)
lex_trans (finite x) (finite y) infinite p q r a b c f h k = absurd (c refl)
lex_trans (finite x) (finite y) (finite z) p q r a b c f h k = ground (arith, f, h, k)

last_self :
    (x : Number) (p : Ordering)
    → x ≢ infinite
    → p ≡ Ordering.eq
    → and_then (compare_numeric x x) p ≡ Ordering.eq
unfolding compare_numeric
last_self (finite x) p h e = ground (arith, e)
last_self infinite p h e = absurd (h refl)

last_eq :
    (x y : Number) (p : Ordering)
    → x ≢ infinite
    → y ≢ infinite
    → and_then (compare_numeric x y) p ≡ Ordering.eq
    → (x ≡ y) × (p ≡ Ordering.eq)
unfolding compare_numeric
last_eq infinite y p h k e = absurd (h refl)
last_eq (finite x) infinite p h k e = absurd (k refl)
last_eq (finite x) (finite y) p h k e = ground (arith, e)

last_flip :
    (x y : Number) (p q : Ordering)
    → x ≢ infinite
    → y ≢ infinite
    → (p ≡ Ordering.gt) ↔ (q ≡ Ordering.lt)
    → (and_then (compare_numeric x y) p ≡ Ordering.gt)
      ↔ (and_then (compare_numeric y x) q ≡ Ordering.lt)
unfolding compare_numeric
last_flip infinite y p q h k e = absurd (h refl)
last_flip (finite x) infinite p q h k e = absurd (k refl)
last_flip (finite x) (finite y) p q h k e = ground (arith, e)

last_trans :
    (x y z : Number) (p q r : Ordering)
    → x ≢ infinite
    → y ≢ infinite
    → z ≢ infinite
    → (p ≡ Ordering.lt → q ≡ Ordering.lt → r ≡ Ordering.lt)
    → and_then (compare_numeric x y) p ≡ Ordering.lt
    → and_then (compare_numeric y z) q ≡ Ordering.lt
    → and_then (compare_numeric x z) r ≡ Ordering.lt
unfolding compare_numeric
last_trans infinite y z p q r a b c f h k = absurd (a refl)
last_trans (finite x) infinite z p q r a b c f h k = absurd (b refl)
last_trans (finite x) (finite y) infinite p q r a b c f h k = absurd (c refl)
last_trans (finite x) (finite y) (finite z) p q r a b c f h k = ground (arith, f, h, k)

-- The versions whose numbers are finite, and whose identifiers are well formed and below 2 ^ 53
-- where they are numbers.
unfoldable pub IsOrdered : ParsedVersion → Type 0
IsOrdered v =
    (v.major ≢ infinite) × (v.minor ≢ infinite) × (v.patch ≢ infinite) × All IsSafe v.prerelease

-- Precedence is a total order on the versions whose numbers are finite and whose prerelease
-- identifiers are well formed, with numbers below 2 ^ 53: a version is level with itself and with no
-- other, turning the two sides round turns the answer round, and lower than a lower version is
-- lower.
pub compare_parsed-IsOrder : IsOrder IsOrdered compare_parsed
unfolding compare_parsed IsOrdered
compare_parsed-IsOrder = record {
  cmp_refl = λ a (m, n, p, h). lex_self a.major _ m (
      lex_self a.minor _ n
        (last_self a.patch _ p (compare_prerelease-IsOrder.cmp_refl a.prerelease h)));
  eq_of_cmp = λ a b (ma, na, pa, ha) (mb, nb, pb, hb) e.
      let (e0, e1) = lex_eq a.major b.major _ ma mb e in
      let (e2, e3) = lex_eq a.minor b.minor _ na nb e1 in
      let (e4, e5) = last_eq a.patch b.patch _ pa pb e3 in
      let e6 = compare_prerelease-IsOrder.eq_of_cmp a.prerelease b.prerelease ha hb e5 in
      λ i. record { major = e0 i; minor = e2 i; patch = e4 i; prerelease = e6 i };
  cmp_flip = λ a b (ma, na, pa, ha) (mb, nb, pb, hb). lex_flip a.major b.major _ _ ma mb (
      lex_flip a.minor b.minor _ _ na nb (
        last_flip a.patch b.patch _ _ pa pb
          (compare_prerelease-IsOrder.cmp_flip a.prerelease b.prerelease ha hb)));
  cmp_trans = λ a b c (ma, na, pa, ha) (mb, nb, pb, hb) (mc, nc, pc, hc).
      lex_trans a.major b.major c.major _ _ _ ma mb mc (
        lex_trans a.minor b.minor c.minor _ _ _ na nb nc (
          last_trans a.patch b.patch c.patch _ _ _ pa pb pc (
            compare_prerelease-IsOrder.cmp_trans a.prerelease b.prerelease c.prerelease ha hb hc)));
}
