-- ===== src/Version/Numbers.antt =====
-- JavaScript's numbers as far as api/src/version/semver.ts uses them: what `Number(text)` makes of
-- digits, and what a difference of two such numbers is.
use Prim.Native.Nat.{compare, Ordering, zero, suc, ◌/◌, ◌%◌, ◌*◌}
use dockplane.Base.{
  ℕ, ◌<◌, ◌≡◌, refl, Bool, true, false, ◌&&◌, ◌||◌, Option, none, some, ltb, ◌==◌, nat_eq, arith,
  if◌then◌else◌,
}

-- A whole number, or `Infinity`.
pub data Number : Type 0 where
  finite : ℕ → Number
  infinite : Number

-- 2 ^ 53, up to which every whole number is a number of JavaScript.
abbrev pub limit : ℕ
limit = 9007199254740992

-- Whether the multiple of `unit` above `n` is taken: the nearer one, or the even one of two that are as near.
unfoldable pub rounds_up : ℕ → ℕ → Bool
rounds_up n unit = ltb unit (2 * (n % unit)) || ((unit == 2 * (n % unit)) && (n / unit % 2 == 1))

-- The nearest multiple of `unit`; with no exponent left, 2 ^ 53 of them are too many.
unfoldable pub round_to : ℕ → ℕ → ℕ → Number
unfolding rounds_up
round_to left n unit =
    let units = if rounds_up n unit then suc (n / unit) else n / unit in
    if (left == 0) && (units == limit) then infinite else finite (units * unit)

-- The least power of two of which `n` has fewer than 2 ^ 53; `left` more can be tried.
unfoldable pub scale : ℕ → ℕ → ℕ → Number
unfolding round_to
scale zero n unit = elim (ltb (n / unit) limit) [ true ↦ round_to zero n unit | false ↦ infinite ]
scale (suc left) n unit = elim (ltb (n / unit) limit) [
  | true ↦ round_to (suc left) n unit
  | false ↦ scale left n (2 * unit)
]

-- The number of JavaScript nearest to `n`: 53 bits and an exponent of at most 971.
unfoldable pub number : ℕ → Number
unfolding scale
number n = elim (ltb n limit) [ true ↦ finite n | false ↦ scale 971 n 1 ]

-- The sign of `a - b`; `Infinity - Infinity` is not a number.
unfoldable pub minus : Number → Number → Option Ordering
minus (finite a) (finite b) = some (compare a b)
minus (finite a) infinite = some Ordering.lt
minus infinite (finite b) = some Ordering.gt
minus infinite infinite = none

-- `difference !== 0`, and then `difference < 0 ? -1 : 1`
unfoldable pub compare_numeric : Number → Number → Ordering
unfolding minus
compare_numeric a b = elim (minus a b) [ none ↦ Ordering.gt | some order ↦ order ]

-- `a - b || …`
unfoldable pub minus_or : Number → Number → Ordering → Ordering
unfolding minus
minus_or a b next = elim (minus a b) [
  | none ↦ next
  | some order ↦ elim order [
    | Ordering.eq ↦ next
    | Ordering.lt ↦ Ordering.lt
    | Ordering.gt ↦ Ordering.gt
  ]
]

lower-ltb : (a b : ℕ) → a < b → ltb a b ≡ true
lower-ltb a b h = ground (arith, h)

exact_below :
    (l n : ℕ) (other : Number)
    → n < l
    → elim (ltb n l) as (λ _. Number) [ true ↦ finite n | false ↦ other ] ≡ finite n
exact_below l n other h = rw (lower-ltb n l h) refl

-- Below 2 ^ 53 numbers are exact.
pub number-exact : (n : ℕ) → n < limit → number n ≡ finite n
unfolding number
number-exact n h = exact_below limit n (scale 971 n 1) h
