-- ===== src/Stacks/Apply/Exactly.antt =====
-- What `matches` and the check for duplicates in api/src/stacks/stack-deployment.ts decide.
use dockplane.Base.{
  String, ◌≡◌, ◌↔◌, Bool, true, none, some, List, [], ◌∷◌, arith, ◌==◌, nat_eq, not, ◌&&◌, ◌||◌,
  length-map, ==_iff, string_eq, option_eq, length, map, all, All, In, NoDup, has, has_iff,
  All-image_iff, covers_of_length, length_of_NoDup,
}
use dockplane.Stacks.Apply.{ObservedService, duplicate, matches}

abbrev pub names : List ObservedService → List String
names = map (λ s. s.service_name)

fresh_iff :
    (seen : List String) (x : String) (xs : List String)
    → All (λ n. ¬ In n (x ∷ seen)) xs ↔ ((¬ In x xs) × All (λ n. ¬ In n seen) xs)
fresh_iff seen x [] = ground arith
fresh_iff seen x (y ∷ ys) = ground (arith, fresh_iff seen x ys, ==_iff x y, ==_iff y x)

-- No name comes twice, nor is it among those already seen.
pub duplicate-none_iff :
    (seen : List String) (live : List ObservedService)
    → (duplicate seen live ≡ none) ↔ (NoDup (names live) × All (λ n. ¬ In n seen) (names live))
unfolding duplicate
duplicate-none_iff seen [] = ground arith
duplicate-none_iff seen (s ∷ live) = ground (
  arith,
  duplicate-none_iff (s.service_name ∷ seen) live,
  fresh_iff seen s.service_name (names live),
  has_iff seen s.service_name,
)

-- The containers are those of the services, one each; each says it is of the revision, and is
-- running where that is asked.
pub record Exactly (live : List ObservedService) (services : List String) (revision : String)
    (require_running : Bool) : Type 0 where
  pub same : (name : String) → In name (names live) ↔ In name services
  pub of_revision : All (λ s. s.revision_id ≡ some revision) live
  pub running : require_running ≡ true → All (λ s. s.state ≡ some "running") live

module _ (services : List String) (revision : String) (require_running : Bool) where
  every_iff :
      (live : List ObservedService)
      → (all
            (λ s.
              has services s.service_name
              && s.revision_id == some revision
              && (not require_running || s.state == some "running"))
            live
          ≡ true)
        ↔ (All (λ s. In s.service_name services) live
            × All (λ s. s.revision_id ≡ some revision) live
            × (require_running ≡ true → All (λ s. s.state ≡ some "running") live))
  every_iff [] = ground arith
  every_iff (s ∷ live) = ground (
    arith,
    every_iff live,
    has_iff services s.service_name,
    ==_iff s.revision_id (some revision),
    ==_iff s.state (some "running"),
  )

  -- For services without repetition, `matches` decides that the host holds exactly this revision.
  pub matches_iff :
      (live : List ObservedService)
      → NoDup (names live)
      → NoDup services
      → (matches live services revision require_running ≡ true)
        ↔ Exactly live services revision require_running
  unfolding matches
  matches_iff live once distinct =
      let (to, from) = every_iff live in
      let (out, back) = All-image_iff (λ s. s.service_name) (λ n. In n services) live in
      let size : length (names live) ≡ length live = length-map (λ s. s.service_name) live in
      (
        (λ e.
            let (inside, of_revision, running) = to (ground arith) in
            record {
              same = λ name. (
                out inside name,
                covers_of_length (names live) services once (out inside) (ground arith) name,
              );
              of_revision = of_revision;
              running = running;
            }),
        λ x.
            let every = from (back (λ name h. (x.same name).0 h), x.of_revision, x.running) in
            let sizes = length_of_NoDup (names live) services once distinct x.same in ground arith,
      )
