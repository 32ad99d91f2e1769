-- ===== src/Version/Fleet/Sorting.antt =====
-- Entries sorted by their versions: what `sort` keeps, and the ends of a sorted list.
use Prim.Native.Nat.{Ordering}
use dockplane.Base.{
  ◌≡◌, ◌≢◌, refl, sym, subst, some, inl, inr, List, [], ◌∷◌, head?, All, All-of_In, In, of_In,
  arith, ◌⊎◌,
}
use dockplane.Version.Codes.{Codes}
use dockplane.Version.Semver.{ParsedVersion, parse_version, compare_parsed}
use dockplane.Version.Order.{IsOrdered, compare_parsed-IsOrder, not_gt_trans}
use dockplane.Version.Fleet.{codes_eq, insert, sort, last?}

abbrev pub Entry : Type 0
Entry = Codes × ParsedVersion

abbrev pub by_version : Entry → Entry → Ordering
by_version a b = compare_parsed a.1 b.1

-- Not above, and well formed.
abbrev pub Le : Entry → Entry → Type 0
Le a b = by_version a b ≢ Ordering.gt

abbrev pub Valid : Entry → Type 0
Valid a = (parse_version (some a.0) ≡ some a.1) × IsOrdered a.1

Le-trans : (a b c : Entry) → Valid a → Valid b → Valid c → Le a b → Le b c → Le a c
Le-trans a b c ha hb hc = not_gt_trans compare_parsed-IsOrder a.1 b.1 c.1 ha.1 hb.1 hc.1

Le_refl : (a : Entry) → Valid a → Le a a
Le_refl a v = ground (arith, compare_parsed-IsOrder.cmp_refl a.1 v.1)

Le-of_gt : (a b : Entry) → Valid a → Valid b → by_version a b ≡ Ordering.gt → Le b a
Le-of_gt a b v w h = ground (arith, (compare_parsed-IsOrder.cmp_flip a.1 b.1 v.1 w.1).0 h)

abbrev pub Sorted : List Entry → Type 0
Sorted [] = Unit
Sorted (x ∷ xs) = All (Le x) xs × Sorted xs

All-insert :
    (P : Entry → Type 0) (x : Entry) (xs : List Entry)
    → P x
    → All P xs
    → All P (insert by_version x xs)
unfolding insert
All-insert P x [] p h = (p, tt)
All-insert P x (y ∷ ys) p (q, h) = ground (arith, All-insert P x ys p h)

pub All-sort : (P : Entry → Type 0) (xs : List Entry) → All P xs → All P (sort by_version xs)
unfolding sort
All-sort P [] h = tt
All-sort P (x ∷ xs) (p, h) = All-insert P x (sort by_version xs) p (All-sort P xs h)

In-insert : (a x : Entry) (xs : List Entry) → In a (x ∷ xs) → In a (insert by_version x xs)
unfolding insert
In-insert a x [] h = h
In-insert a x (y ∷ ys) h = ground (arith, In-insert a x ys)

pub In-sort : (a : Entry) (xs : List Entry) → In a xs → In a (sort by_version xs)
unfolding sort
In-sort a [] h = h
In-sort a (x ∷ xs) (inl e) = In-insert a x (sort by_version xs) (inl e)
In-sort a (x ∷ xs) (inr h) = In-insert a x (sort by_version xs) (inr (In-sort a xs h))

gt_or_le : (o : Ordering) → (o ≡ Ordering.gt) ⊎ (o ≢ Ordering.gt)
gt_or_le o = ground arith

insert_level : (x y : Entry) (ys : List Entry) → Le x y → insert by_version x (y ∷ ys) ≡ x ∷ y ∷ ys
unfolding insert
insert_level x y ys h = ground (arith, h)

insert_above :
    (x y : Entry) (ys : List Entry)
    → by_version x y ≡ Ordering.gt
    → insert by_version x (y ∷ ys) ≡ y ∷ insert by_version x ys
unfolding insert
insert_above x y ys h = ground (arith, h)

-- A place for `x` in a sorted list keeps it sorted.
Sorted-insert :
    (x : Entry) (xs : List Entry)
    → Valid x
    → All Valid xs
    → Sorted xs
    → Sorted (insert by_version x xs)
unfolding insert
Sorted-insert x [] v h s = (tt, tt)
Sorted-insert x (y ∷ ys) v (w, h) (le, s) = elim (gt_or_le (by_version x y)) [
  | inl above ↦
      let placed = All-insert (Le y) x ys (Le-of_gt x y v w above) le in
      subst Sorted (sym (insert_above x y ys above)) (placed, Sorted-insert x ys v h s)
  | inr level ↦
      let lower =
        All-of_In (Le x) ys
          λ e i. Le-trans x y e v w (of_In Valid ys e h i) level (of_In (Le y) ys e le i) in
      subst Sorted (sym (insert_level x y ys level)) ((level, lower), (le, s))
]

pub Sorted-sort : (xs : List Entry) → All Valid xs → Sorted (sort by_version xs)
unfolding sort
Sorted-sort [] h = tt
Sorted-sort (x ∷ xs) (v, h) =
    Sorted-insert x (sort by_version xs) v (All-sort Valid xs h) (Sorted-sort xs h)

-- The ends of a sorted list that is not empty.
unfoldable pub Ends : List Entry → Type 0
Ends xs =
    (oldest : Entry) × (newest : Entry) × (head? xs ≡ some oldest)
    × (last? xs ≡ some newest)
    × In oldest xs
    × In newest xs
    × All (λ e. Le oldest e × Le e newest) xs

newest_end :
    (x : Entry) (xs : List Entry)
    → Valid x
    → All Valid xs
    → Sorted (x ∷ xs)
    → (newest : Entry) × (last? (x ∷ xs) ≡ some newest)
      × In newest (x ∷ xs)
      × All (λ e. Le e newest) (x ∷ xs)
newest_end x [] v h s = (x, refl, inl refl, (Le_refl x v, tt))
newest_end x (y ∷ ys) v (w, h) ((le, _), s) =
    let (newest, found, place, high) = newest_end y ys w h s in
    (
      newest,
      found,
      inr place,
      (Le-trans x y newest v w (of_In Valid (y ∷ ys) newest (w, h) place) le high.0, high),
    )

Sorted-Ends :
    (x : Entry) (xs : List Entry) → Valid x → All Valid xs → Sorted (x ∷ xs) → Ends (x ∷ xs)
unfolding Ends
Sorted-Ends x xs v h s =
    let (newest, found, place, high) = newest_end x xs v h s in
    (
      x,
      newest,
      refl,
      found,
      inl refl,
      place,
      All-of_In (λ e. Le x e × Le e newest) (x ∷ xs)
          (λ e i. (
            of_In (Le x) (x ∷ xs) e (Le_refl x v, s.0) i,
            of_In (λ e. Le e newest) (x ∷ xs) e high i,
          )),
    )

pub Ends-of_In : (e : Entry) (xs : List Entry) → In e xs → All Valid xs → Sorted xs → Ends xs
Ends-of_In e [] i h s = absurd i
Ends-of_In e (x ∷ xs) i (v, h) s = Sorted-Ends x xs v h s
