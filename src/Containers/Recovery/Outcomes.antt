-- ===== src/Containers/Recovery/Outcomes.antt =====
-- When api/src/containers/recovery.ts changes what is recorded of a container.
use dockplane.Base.{
  String, ◌≡◌, refl, ◌≢◌, ◌↔◌, ◌⊎◌, inl, inr, true, false, Option, none, some, List, [], ◌∷◌, arith,
  ==_iff, string_eq, option_eq, ◌∙◌,
}
use dockplane.Containers.Recovery.{
  RecoveryOperation, create, replace, remove, RecoveryDecision, promote_pending, discard_pending,
  finalize_remove, ObservedClaim, RecoveryInput, settle_candidate, settle_operation, claim_problem,
  classify_recovery,
}

-- Nobody is running the mutation, nothing is in conflict, and the host was read completely.
pub record IsSettleable (i : RecoveryInput) : Type 0 where
  pub eligible : i.recovery_eligible ≡ true
  pub agreed : i.identity_conflict ≡ false
  pub complete : i.snapshot_complete ≡ true

-- No container claims the resource, or exactly one does, under a configuration of the resource.
abbrev pub IsCoherent : RecoveryInput → Option ObservedClaim → Type 0
IsCoherent i none = i.claims ≡ []
IsCoherent i (some claim) =
    (i.claims ≡ claim ∷ [])
    × (claim.desired_config_id ≢ none)
    × ((claim.desired_config_id ≡ i.current_desired_config_id)
        ⊎ (claim.desired_config_id ≡ i.pending_desired_config_id))

-- The decisions that change what is recorded of the container.
abbrev Changes : RecoveryDecision → Type 0
Changes d =
    ((c : String) × (d ≡ promote_pending c))
    ⊎ ((c : String) × (d ≡ discard_pending c))
    ⊎ (d ≡ finalize_remove)

data Shape (xs : List ObservedClaim) : Type 0 where
  empty : xs ≡ [] → Shape xs
  single : (x : ObservedClaim) → xs ≡ x ∷ [] → Shape xs
  several : (x y : ObservedClaim) (ys : List ObservedClaim) → xs ≡ x ∷ y ∷ ys → Shape xs

shape : (xs : List ObservedClaim) → Shape xs
shape [] = empty refl
shape (x ∷ []) = single x refl
shape (x ∷ y ∷ ys) = several x y ys refl

-- A change is made only to a settleable resource with a coherent claim, by its operation.
changed :
    (i : RecoveryInput) (d : RecoveryDecision)
    → Changes d
    → classify_recovery i ≡ d
    → IsSettleable i
      × ((o : Option ObservedClaim) × IsCoherent i o
          × (settle_operation i.operation i.pending_desired_config_id o ≡ d))
unfolding classify_recovery claim_problem
changed i d c e = elim (shape i.claims) [
  | empty nil ↦ (ground arith, (none, nil, ground arith))
  | single x one ↦ (
    ground arith,
    (
      some x,
      (
        one,
        ground arith,
        ground (
          arith,
          ==_iff x.desired_config_id i.current_desired_config_id,
          ==_iff x.desired_config_id i.pending_desired_config_id,
        ),
      ),
      ground arith,
    ),
  )
  | several x y ys more ↦ absurd (ground arith)
]

settled :
    (i : RecoveryInput) (o : Option ObservedClaim)
    → IsSettleable i
    → IsCoherent i o
    → classify_recovery i ≡ settle_operation i.operation i.pending_desired_config_id o
unfolding classify_recovery claim_problem
settled i none s nil = ground arith
settled i (some x) s (one, identified, known) = ground (
  arith,
  ==_iff x.desired_config_id i.current_desired_config_id,
  ==_iff x.desired_config_id i.pending_desired_config_id,
)

abbrev pub Settles : RecoveryInput → (Option ObservedClaim → Type 0) → Type 0
Settles i P = IsSettleable i × ((o : Option ObservedClaim) × IsCoherent i o × P o)

classify_recovery_iff :
    (i : RecoveryInput) (d : RecoveryDecision)
    → Changes d
    → (classify_recovery i ≡ d)
      ↔ Settles i (λ o. settle_operation i.operation i.pending_desired_config_id o ≡ d)
classify_recovery_iff i d c =
    (changed i d c, λ h. let (s, (o, coherent, e)) = h in settled i o s coherent ∙ e)

-- The claim carries the configuration `c`.
abbrev pub Carries : String → Option ObservedClaim → Type 0
Carries c none = ⊥
Carries c (some x) = x.desired_config_id ≡ some c

-- The operation was to put the configuration `c` in place.
abbrev pub IsCandidate : RecoveryOperation → Option String → String → Type 0
IsCandidate op p c = (op ≢ remove) × (p ≡ some c) × (c ≢ "")

settle-promote_iff :
    (op : RecoveryOperation) (p : Option String) (o : Option ObservedClaim) (c : String)
    → (settle_operation op p o ≡ promote_pending c) ↔ (IsCandidate op p c × Carries c o)
unfolding settle_operation settle_candidate
settle-promote_iff create (some p) (some x) c =
    ground (arith, ==_iff p "", ==_iff x.desired_config_id (some p))
settle-promote_iff replace (some p) (some x) c =
    ground (arith, ==_iff p "", ==_iff x.desired_config_id (some p))
settle-promote_iff create (some p) none c = ground (arith, ==_iff p "")
settle-promote_iff replace (some p) none c = ground (arith, ==_iff p "")
settle-promote_iff _ _ _ c = ground arith

settle-discard_iff :
    (op : RecoveryOperation) (p : Option String) (o : Option ObservedClaim) (c : String)
    → (settle_operation op p o ≡ discard_pending c)
      ↔ (IsCandidate op p c × (((o ≡ none) × (op ≡ create)) ⊎ ((o ≢ none) × (¬ Carries c o))))
unfolding settle_operation settle_candidate
settle-discard_iff create (some p) (some x) c =
    ground (arith, ==_iff p "", ==_iff x.desired_config_id (some p))
settle-discard_iff replace (some p) (some x) c =
    ground (arith, ==_iff p "", ==_iff x.desired_config_id (some p))
settle-discard_iff create (some p) none c = ground (arith, ==_iff p "")
settle-discard_iff replace (some p) none c = ground (arith, ==_iff p "")
settle-discard_iff _ _ _ c = ground arith

settle-finalize_remove_iff :
    (op : RecoveryOperation) (p : Option String) (o : Option ObservedClaim)
    → (settle_operation op p o ≡ finalize_remove) ↔ ((op ≡ remove) × (o ≡ none))
unfolding settle_operation settle_candidate
settle-finalize_remove_iff create (some p) (some x) = ground arith
settle-finalize_remove_iff replace (some p) (some x) = ground arith
settle-finalize_remove_iff create (some p) none = ground arith
settle-finalize_remove_iff replace (some p) none = ground arith
settle-finalize_remove_iff _ _ _ = ground arith

module _ {P Q : Option ObservedClaim → Type 0} (same : (o : Option ObservedClaim) → P o ↔ Q o) where
  Settles_iff : (i : RecoveryInput) → Settles i P ↔ Settles i Q
  Settles_iff i = (
    λ h. let (s, (o, coherent, e)) = h in (s, (o, coherent, (same o).0 e)),
    λ h. let (s, (o, coherent, e)) = h in (s, (o, coherent, (same o).1 e)),
  )

module _ (i : RecoveryInput) where
  open i use {operation, pending_desired_config_id as pending}

  -- The candidate `c` is promoted exactly when nobody runs the mutation, no conflict is recorded,
  -- the host was read completely, the operation was to put `c` in place, and the one container
  -- that claims the resource carries `c`.
  pub promote_iff :
      (c : String)
      → (classify_recovery i ≡ promote_pending c)
        ↔ Settles i (λ o. IsCandidate operation pending c × Carries c o)
  promote_iff c =
      let (to, from) = classify_recovery_iff i (promote_pending c) (inl (c, refl)) in
      let (there, back) = Settles_iff (λ o. settle-promote_iff operation pending o c) i in
      (λ e. there (to e), λ h. from (back h))

  -- The candidate `c` is discarded exactly when nobody runs the mutation, no conflict is recorded,
  -- the host was read completely, the operation was to put `c` in place, and either it was a create
  -- and no container claims the resource, or the one container that does carries a configuration of
  -- the resource other than `c`.
  discard_iff :
      (c : String)
      → (classify_recovery i ≡ discard_pending c)
        ↔ Settles i (λ o.
          IsCandidate operation pending c
          × (((o ≡ none) × (operation ≡ create)) ⊎ ((o ≢ none) × (¬ Carries c o))))
  discard_iff c =
      let (to, from) = classify_recovery_iff i (discard_pending c) (inr (inl (c, refl))) in
      let (there, back) = Settles_iff (λ o. settle-discard_iff operation pending o c) i in
      (λ e. there (to e), λ h. from (back h))

  -- A removal is finished exactly when nobody runs the mutation, no conflict is recorded, the host
  -- was read completely, the operation was a removal, and no container claims the resource.
  finalize_remove_iff :
      (classify_recovery i ≡ finalize_remove) ↔ Settles i (λ o. (operation ≡ remove) × (o ≡ none))
  finalize_remove_iff =
      let (to, from) = classify_recovery_iff i finalize_remove (inr (inr refl)) in
      let (there, back) = Settles_iff (settle-finalize_remove_iff operation pending) i in
      (λ e. there (to e), λ h. from (back h))
