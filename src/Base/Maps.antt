-- ===== src/Base/Maps.antt =====
-- `new Map(list.map(...))` and `new Set(list)`, with what they hold and how large they are.
use Prim.Native.Nat.{suc, ◌≤◌}
use Prim.Native.String.{String}
use mathlib.Core.Path.{◌≡◌, refl, sym}
use mathlib.Core.Logic.{◌↔◌, ◌≢◌, inl, inr}
use mathlib.Core.Bool.{Bool, true}
use mathlib.Core.Option.{Option, none, some}
use mathlib.Core.List.{List, [], ◌∷◌}
use native.Mathlib.Omega.{arith}
use dockplane.Base.Tests.{◌==◌, ==_iff, Eq, string_eq, if◌then◌else◌, Bool-cases}
use dockplane.Base.Lists.{length, any, All, In, NoDup}

-- `new Map(list.map((a) => [key(a), a])).get(k)`: the last entry of a key wins.
module _ {ℓ} {A : Type ℓ} (key : A → String) where
  unfoldable pub get_last : String → List A → Option A
  get_last k [] = none
  get_last k (x ∷ xs) = elim (get_last k xs) [
    | none ↦ if key x == k then some x else none
    | some y ↦ some y
  ]

  pub get_last-key : (k : String) (xs : List A) (a : A) → get_last k xs ≡ some a → key a ≡ k
  unfolding get_last
  get_last-key k [] a e = ground arith
  get_last-key k (x ∷ xs) a e = ground (arith, get_last-key k xs a, ==_iff (key x) k)

  pub get_last-eq-none_iff :
      (k : String) (xs : List A) → (get_last k xs ≡ none) ↔ All (λ x. key x ≢ k) xs
  unfolding get_last
  get_last-eq-none_iff k [] = ground arith
  get_last-eq-none_iff k (x ∷ xs) = ground (arith, get_last-eq-none_iff k xs, ==_iff (key x) k)

pub get_last-In :
    {A : Type 0} (key : A → String) (k : String) (xs : List A) (a : A)
    → get_last key k xs ≡ some a
    → In a xs
unfolding get_last
get_last-In key k [] a e = ground arith
get_last-In key k (x ∷ xs) a e = ground (arith, get_last-In key k xs a)

module _ {A : Type 0} ⦃e : Eq A⦄ where
  -- `new Set(xs).has(a)`
  unfoldable pub has : List A → A → Bool
  has xs a = any (λ x. x == a) xs

  pub has_iff : (xs : List A) (a : A) → (has xs a ≡ true) ↔ In a xs
  unfolding has
  has_iff [] a = ground arith
  has_iff (x ∷ xs) a = ground (arith, has_iff xs a, e.sound x a)

  -- The elements of `new Set(xs)`, each once.
  unfoldable pub set_of : List A → List A
  set_of [] = []
  set_of (x ∷ xs) = let rest = set_of xs in if has rest x then rest else x ∷ rest

  pub In-set_of_iff : (a : A) (xs : List A) → In a (set_of xs) ↔ In a xs
  unfolding set_of
  In-set_of_iff a [] = ground arith
  In-set_of_iff a (x ∷ xs) = elim (Bool-cases (has (set_of xs) x)) [
    | inl old ↦
        let there = (has_iff (set_of xs) x).0 old in
        rw (old, set_of)
          (
            λ h. inr ((In-set_of_iff a xs).0 h),
            λ h. elim h [ inl same ↦ rw same at there | inr later ↦ (In-set_of_iff a xs).1 later ],
          )
    | inr new ↦ rw (new, set_of) (ground (arith, In-set_of_iff a xs))
  ]

  pub set_of-NoDup : (xs : List A) → NoDup (set_of xs)
  unfolding set_of
  set_of-NoDup [] = tt
  set_of-NoDup (x ∷ xs) = elim (Bool-cases (has (set_of xs) x)) [
    | inl old ↦ rw (old, set_of) (set_of-NoDup xs)
    | inr new ↦ rw (new, set_of) (ground (arith, set_of-NoDup xs, has_iff (set_of xs) x))
  ]

  remove : A → List A → List A
  remove a [] = []
  remove a (x ∷ xs) = if x == a then xs else x ∷ remove a xs

  length-remove : (a : A) (xs : List A) → In a xs → length xs ≡ suc (length (remove a xs))
  unfolding remove
  length-remove a [] h = absurd h
  length-remove a (x ∷ xs) h = ground (arith, e.sound x a, length-remove a xs)

  In-remove : (a b : A) (xs : List A) → In b xs → a ≢ b → In b (remove a xs)
  unfolding remove
  In-remove a b [] h n = absurd h
  In-remove a b (x ∷ xs) h n = ground (arith, e.sound x a, In-remove a b xs)

  -- A list without repetition that lies in a list no longer than itself holds all of it.
  pub covers_of_length :
      (xs ys : List A)
      → NoDup xs
      → ((a : A) → In a xs → In a ys)
      → length ys ≤ length xs
      → (a : A) → In a ys
      → In a xs
  covers_of_length [] [] d f h a i = i
  covers_of_length [] (y ∷ ys) d f h a i = absurd (omega arith)
  covers_of_length (x ∷ xs) ys (fresh, d) f h a i = elim (Bool-cases (x == a)) [
    | inl same ↦ inl ((e.sound x a).0 same)
    | inr other ↦ inr (
        covers_of_length xs (remove x ys) d
          (λ b j. In-remove x b ys (f b (inr j)) (λ q. fresh (rw (sym q) at j)))
          (omega (arith, length-remove x ys (f x (inl refl)))) a
          (In-remove x a ys i (ground (arith, e.sound x a))))
  ]

  pub length-le_of_NoDup :
      (xs ys : List A) → NoDup xs → ((a : A) → In a xs → In a ys) → length xs ≤ length ys
  length-le_of_NoDup [] ys d f = omega arith
  length-le_of_NoDup (x ∷ xs) ys (fresh, d) f =
      let shorter =
        length-le_of_NoDup xs (remove x ys) d
          (λ b j. In-remove x b ys (f b (inr j)) (λ q. fresh (rw (sym q) at j))) in
      omega (arith, length-remove x ys (f x (inl refl)))

  -- Two lists without repetition that hold the same elements are equally long.
  pub length_of_NoDup :
      (xs ys : List A) → NoDup xs → NoDup ys → ((a : A) → In a xs ↔ In a ys) → length xs ≡ length ys
  length_of_NoDup xs ys d e f =
      omega (
        arith,
        length-le_of_NoDup xs ys d (λ a. (f a).0),
        length-le_of_NoDup ys xs e (λ a. (f a).1),
      )
