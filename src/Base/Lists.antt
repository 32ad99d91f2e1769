-- ===== src/Base/Lists.antt =====
-- Lists searched by Boolean tests (`filter`, `some`, `every`, `find`), and predicates on them.
use Prim.Native.Nat.{ℕ, suc, ◌≤◌}
use mathlib.Core.Path.{◌≡◌}
use mathlib.Core.Logic.{◌⊎◌, ◌↔◌, ◌≢◌, inl, inr}
use mathlib.Core.Bool.{Bool, true, false, ◌&&◌, ◌||◌}
use mathlib.Core.Option.{Option, none, some}
use mathlib.Core.List.{List, [], ◌∷◌, map}
use native.Mathlib.Omega.{arith}
use dockplane.Base.Tests.{if◌then◌else◌}

module _ {ℓ} {A : Type ℓ} where
  abbrev pub length : List A → ℕ
  length [] = 0
  length (x ∷ xs) = suc (length xs)

  abbrev pub all : (A → Bool) → List A → Bool
  all p [] = true
  all p (x ∷ xs) = p x && all p xs

  abbrev pub any : (A → Bool) → List A → Bool
  any p [] = false
  any p (x ∷ xs) = p x || any p xs

  abbrev pub filter : (A → Bool) → List A → List A
  filter p [] = []
  filter p (x ∷ xs) = if p x then x ∷ filter p xs else filter p xs

  abbrev pub find : (A → Bool) → List A → Option A
  find p [] = none
  find p (x ∷ xs) = if p x then some x else find p xs

  -- `const [row] = …`
  abbrev pub head? : List A → Option A
  head? [] = none
  head? (x ∷ xs) = some x

abbrev pub All {ℓ κ} : {A : Type ℓ} → (A → Type κ) → List A → Type κ
All P [] = Unit
All P (x ∷ xs) = P x × All P xs

abbrev pub Any {ℓ} : {A : Type ℓ} → (A → Type 0) → List A → Type 0
Any P [] = ⊥
Any P (x ∷ xs) = P x ⊎ Any P xs

-- `a` occurs in the list.
abbrev pub In : {A : Type 0} → A → List A → Type 0
In a xs = Any (λ x. x ≡ a) xs

abbrev pub NoDup : {A : Type 0} → List A → Type 0
NoDup [] = Unit
NoDup (x ∷ xs) = (¬ In x xs) × NoDup xs

module _ {ℓ} {A : Type ℓ} (p : A → Bool) where
  pub all_iff : (xs : List A) → (all p xs ≡ true) ↔ All (λ x. p x ≡ true) xs
  all_iff [] = ground arith
  all_iff (x ∷ xs) = ground (arith, all_iff xs)

  pub any_iff : (xs : List A) → (any p xs ≡ true) ↔ Any (λ x. p x ≡ true) xs
  any_iff [] = ground arith
  any_iff (x ∷ xs) = ground (arith, any_iff xs)

  pub filter-eq-nil_iff : (xs : List A) → (filter p xs ≡ []) ↔ All (λ x. p x ≡ false) xs
  filter-eq-nil_iff [] = ground arith
  filter-eq-nil_iff (x ∷ xs) = ground (arith, filter-eq-nil_iff xs)

  pub head?-filter-none_iff :
      (xs : List A) → (head? (filter p xs) ≡ none) ↔ All (λ x. p x ≡ false) xs
  head?-filter-none_iff [] = ground arith
  head?-filter-none_iff (x ∷ xs) = ground (arith, head?-filter-none_iff xs)

  -- What is asked of the kept elements is asked of those that pass the test.
  pub All-filter_iff {κ} :
      (P : A → Type κ) (xs : List A) → All P (filter p xs) ↔ All (λ x. p x ≡ true → P x) xs
  All-filter_iff P [] = ground arith
  All-filter_iff P (x ∷ xs) = ground (arith, All-filter_iff P xs)

  pub find-eq-none_iff : (xs : List A) → (find p xs ≡ none) ↔ All (λ x. p x ≡ false) xs
  find-eq-none_iff [] = ground arith
  find-eq-none_iff (x ∷ xs) = ground (arith, find-eq-none_iff xs)

  pub find-some : (xs : List A) (a : A) → find p xs ≡ some a → p a ≡ true
  find-some [] a e = ground arith
  find-some (x ∷ xs) a e = ground (arith, find-some xs a)

  pub length-filter-le : (xs : List A) → length (filter p xs) ≤ length xs
  length-filter-le [] = omega arith
  length-filter-le (x ∷ xs) = ground (arith, length-filter-le xs)

  -- All are kept exactly when the lengths agree, and none when nothing is left.
  pub length-filter-eq-length_iff :
      (xs : List A) → (length (filter p xs) ≡ length xs) ↔ All (λ x. p x ≡ true) xs
  length-filter-eq-length_iff [] = ground arith
  length-filter-eq-length_iff (x ∷ xs) =
      ground (arith, length-filter-eq-length_iff xs, length-filter-le xs)

  pub length-filter-none_iff :
      (xs : List A) → (length (filter p xs) ≡ 0) ↔ All (λ x. p x ≡ false) xs
  length-filter-none_iff [] = ground arith
  length-filter-none_iff (x ∷ xs) = ground (arith, length-filter-none_iff xs)

module _ {ℓ κ} {A : Type ℓ} where
  pub All-map : {P Q : A → Type κ} → ((x : A) → P x → Q x) → (xs : List A) → All P xs → All Q xs
  All-map f [] h = tt
  All-map f (x ∷ xs) (p, h) = (f x p, All-map f xs h)

  pub All-map_iff : {P Q : A → Type κ} → ((x : A) → P x ↔ Q x) → (xs : List A) → All P xs ↔ All Q xs
  All-map_iff f xs = (All-map (λ x. (f x).0) xs, All-map (λ x. (f x).1) xs)

module _ {A : Type 0} where
  pub All-of_In : (P : A → Type 0) (xs : List A) → ((x : A) → In x xs → P x) → All P xs
  All-of_In P [] f = tt
  All-of_In P (x ∷ xs) f = (f x (inl (λ i. x)), All-of_In P xs (λ y h. f y (inr h)))

  pub of_In : (P : A → Type 0) (xs : List A) (a : A) → All P xs → In a xs → P a
  of_In P [] a h i = absurd i
  of_In P (x ∷ xs) a (p, h) (inl e) = rw e at p
  of_In P (x ∷ xs) a (p, h) (inr i) = of_In P xs a h i

  pub Any-map_iff : {P Q : A → Type 0} → ((x : A) → P x ↔ Q x) → (xs : List A) → Any P xs ↔ Any Q xs
  Any-map_iff f [] = (λ h. h, λ h. h)
  Any-map_iff f (x ∷ xs) = ground (arith, f x, Any-map_iff f xs)

  pub In-map_iff :
      {B : Type 0} (f : A → B) (b : B) (xs : List A) → In b (map f xs) ↔ Any (λ x. f x ≡ b) xs
  In-map_iff f b [] = (λ h. h, λ h. h)
  In-map_iff f b (x ∷ xs) = ground (arith, In-map_iff f b xs)

  pub Any-filter_iff :
      (P : A → Type 0) (p : A → Bool) (xs : List A)
      → Any P (filter p xs) ↔ Any (λ x. (p x ≡ true) × P x) xs
  Any-filter_iff P p [] = (λ h. h, λ h. h)
  Any-filter_iff P p (x ∷ xs) = ground (arith, Any-filter_iff P p xs)

  -- What holds of the image of each element holds of each image.
  pub All-image_iff :
      {B : Type 0} (f : A → B) (P : B → Type 0) (xs : List A)
      → All (λ x. P (f x)) xs ↔ ((b : B) → In b (map f xs) → P b)
  All-image_iff f P [] = (λ h b i. absurd i, λ h. tt)
  All-image_iff f P (x ∷ xs) =
      let (to, from) = All-image_iff f P xs in
      (
        λ h b i. elim i [ inl e ↦ (rw e at (h.0)) | inr later ↦ to h.1 b later ],
        λ h. (h (f x) (inl (λ i. f x)), from (λ b i. h b (inr i))),
      )

  pub length-filter-pos_iff :
      (p : A → Bool) (xs : List A) → (length (filter p xs) ≢ 0) ↔ Any (λ x. p x ≡ true) xs
  length-filter-pos_iff p [] = ground arith
  length-filter-pos_iff p (x ∷ xs) = ground (arith, length-filter-pos_iff p xs)

pub length-map {ℓ κ} :
    {A : Type ℓ} {B : Type κ} (f : A → B) (xs : List A) → length (map f xs) ≡ length xs
length-map f [] = omega arith
length-map f (x ∷ xs) = omega (arith, length-map f xs)
