-- ===== src/Environment/Once.antt =====
-- A revision's environment gives every key once.
use dockplane.Base.{
  ℕ, String, ◌≡◌, ◌↔◌, refl, sym, ap, ◌∙◌, inl, inr, List, [], ◌∷◌, map, In, NoDup, has_iff, subst,
  All-of_In, ok, Result-cases, arith, All, string_eq,
}
use dockplane.Environment.{
  StoredVariable, EnvironmentEntry, resolve_entries, resolve_stack_environment, stack_words,
  assert_once,
}

keys_of : List StoredVariable → List String
keys_of stored = map (λ v. v.key) stored

-- No key comes twice, and none is one of those seen.
abbrev New : List String → List StoredVariable → Type 0
New seen [] = Unit
New seen (v ∷ rest) = (¬ In v.key seen) × New (v.key ∷ seen) rest

assert_once_iff :
    (seen : List String) (stored checked : List StoredVariable)
    → (assert_once seen stored ≡ ok checked) ↔ ((checked ≡ stored) × New seen stored)
unfolding assert_once
assert_once_iff seen [] checked = ground arith
assert_once_iff seen (v ∷ rest) checked = elim (Result-cases (assert_once (v.key ∷ seen) rest)) [
  | inl (same, again) ↦
      let inner = assert_once_iff (v.key ∷ seen) rest same in
      ground (arith, again, inner, has_iff seen v.key)
  | inr (e, refusal) ↦
      let inner = assert_once_iff (v.key ∷ seen) rest rest in
      ground (arith, refusal, inner, has_iff seen v.key)
]

apart-split :
    (k : String) (seen : List String) (stored : List StoredVariable)
    → All (λ v. ¬ In v.key (k ∷ seen)) stored
      ↔ ((¬ In k (keys_of stored)) × All (λ v. ¬ In v.key seen) stored)
unfolding keys_of
apart-split k seen [] = ground arith
apart-split k seen (v ∷ rest) =
    let turn : (k ≡ v.key) ↔ (v.key ≡ k) = (λ e. sym e, λ e. sym e) in
    ground (arith, apart-split k seen rest, turn)

-- Seen keys apart, that is that every key comes once.
New-apart :
    (seen : List String) (stored : List StoredVariable)
    → New seen stored ↔ (All (λ v. ¬ In v.key seen) stored × NoDup (keys_of stored))
unfolding keys_of
New-apart seen [] = ground arith
New-apart seen (v ∷ rest) =
    ground (arith, New-apart (v.key ∷ seen) rest, apart-split v.key seen rest)

-- An environment of a revision is accepted exactly when its entries resolve and no key comes twice,
-- and it is then what they resolve to.
pub resolve_stack_environment_iff :
    (encrypt : ℕ → String → String) (changes : List EnvironmentEntry)
    (previous stored : List StoredVariable)
    → (resolve_stack_environment encrypt changes previous ≡ ok stored) ↔ (
        (resolve_entries encrypt stack_words changes previous ≡ ok stored)
        × NoDup (map (λ v. v.key) stored))
unfolding resolve_stack_environment
resolve_stack_environment_iff encrypt changes previous stored =
    elim (Result-cases (resolve_entries encrypt stack_words changes previous)) [
      | inr (e, refusal) ↦ ground (arith, refusal)
      | inl (resolved, made) ↦
          let once = assert_once_iff [] resolved stored in
          let apart = New-apart [] resolved in
          let free = All-of_In (λ v. ¬ In v.key []) resolved (λ v _ i. i) in
          let same : (resolve_stack_environment encrypt changes previous
              ≡ assert_once [] resolved) =
            rw (resolve_stack_environment, made) refl in
          (
            λ h.
                let (e, new) = once.0 (sym same ∙ h) in
                (
                  made ∙ ap (λ r. ok r) (sym e),
                  subst (λ r. NoDup (map (λ v. v.key) r)) (sym e)
                      (unfold keys_of in (apart.0 new).1),
                ),
            λ (h, nodup).
                let e : stored ≡ resolved = ground (arith, h, made) in
                let new =
                  apart.1
                    (free, unfold keys_of in subst (λ r. NoDup (map (λ v. v.key) r)) e nodup) in
                same ∙ once.1 (e, new),
          )
    ]
