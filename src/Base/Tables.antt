-- ===== src/Base/Tables.antt =====
-- Tables as lists of rows: `update … set … where …` and `delete … where …`.
use mathlib.Core.Option
use Prim.Native.String.{String}
use mathlib.Core.Path.{◌≡◌, refl}
use mathlib.Core.Logic.{inl, inr}
use mathlib.Core.Bool.{Bool, true, false, not}
use mathlib.Core.Option.{Option, none, some}
use mathlib.Core.List.{List, [], ◌∷◌}
use native.Mathlib.Omega.{arith}
use dockplane.Base.Tests.{if◌then◌else◌, Bool-cases, ◌==◌, string_eq}
use dockplane.Base.Lists.{All, any, filter, find}

module _ {ℓ} {A : Type ℓ} where
  abbrev pub update_where : (A → Bool) → (A → A) → List A → List A
  update_where p f [] = []
  update_where p f (x ∷ xs) = (if p x then f x else x) ∷ update_where p f xs

  abbrev pub delete_where : (A → Bool) → List A → List A
  delete_where p = filter (λ x. not (p x))

  -- When every row passes after an update.
  pub All-update_where {κ} :
      (P : A → Type κ) (p : A → Bool) (f : A → A) (xs : List A)
      → All (λ x. P (if p x then f x else x)) xs
      → All P (update_where p f xs)
  All-update_where P p f [] h = tt
  All-update_where P p f (x ∷ xs) (q, h) = (q, All-update_where P p f xs h)

  -- A test that the new rows fail, and that the kept rows fail, finds nothing after an update.
  pub any-update_where :
      (q p : A → Bool) (f : A → A) (xs : List A)
      → ((x : A) → q (if p x then f x else x) ≡ false)
      → any q (update_where p f xs) ≡ false
  any-update_where q p f [] h = λ i. false
  any-update_where q p f (x ∷ xs) h = ground (arith, h x, any-update_where q p f xs h)

module _ {ℓ} {A : Type ℓ} where
  pub find-All {κ} :
      (P : A → Type κ) (p : A → Bool) (xs : List A) (a : A) → All P xs → find p xs ≡ some a → P a
  find-All P p [] a h e = absurd (ground arith)
  find-All P p (x ∷ xs) a (q, h) e = elim (Bool-cases (p x)) [
    | inl hit ↦ let same : x ≡ a = ground arith in rw same at q
    | inr miss ↦ find-All P p xs a h (ground arith)
  ]

  -- An update that the search does not see is made on what it finds.
  pub find-update_where :
      (p q : A → Bool) (f : A → A) (xs : List A)
      → ((x : A) → p (f x) ≡ p x)
      → find p (update_where q f xs) ≡ Option.map (λ x. if q x then f x else x) (find p xs)
  find-update_where p q f [] h = refl
  find-update_where p q f (x ∷ xs) h = ground (arith, h x, find-update_where p q f xs h)

-- A text as JavaScript tests it: null, undefined and the empty text are false.
abbrev pub is_blank : Option String → Bool
is_blank none = true
is_blank (some s) = s == ""
