-- ===== src/Environment/Shown.antt =====
-- A secret is not shown: neither its value nor how it is sealed makes a difference to what an
-- operator sees.
use dockplane.Base.{
  ℕ, String, ◌≡◌, refl, sym, ap, ◌∙◌, inl, inr, List, [], ◌∷◌, ◌++◌, length, map, Result, ok, err,
  Result-cases, arith,
}
use dockplane.Environment.{
  StoredVariable, EnvironmentEntry, set_value, set_secret, unchanged, remove, ShownVariable,
  Wording, resolve_entry, resolve_entries, present_variable, present_environment,
}

-- The same entries with other secrets.
abbrev pub with_secret : (String → String) → EnvironmentEntry → EnvironmentEntry
with_secret other (set_value key value) = set_value key value
with_secret other (set_secret key value) = set_secret key (other value)
with_secret other (unchanged key) = unchanged key
with_secret other (remove key) = remove key

-- What is shown of an environment that may not have been stored.
abbrev pub shown : Result (List StoredVariable) → Result (List ShownVariable)
shown (ok stored) = ok (present_environment stored)
shown (err e) = err e

present-append :
    (first rest : List StoredVariable)
    → present_environment (first ++ rest) ≡ present_environment first ++ present_environment rest
unfolding present_environment
present-append [] rest = refl
present-append (v ∷ first) rest = ap (λ t. present_variable v ∷ t) (present-append first rest)

abbrev joined :
    Result (List ShownVariable) → Result (List ShownVariable) → Result (List ShownVariable)
joined (err e) rest = err e
joined (ok first) (err e) = err e
joined (ok first) (ok rest) = ok (first ++ rest)

length-with_secret :
    (other : String → String) (entries : List EnvironmentEntry)
    → length (map (with_secret other) entries) ≡ length entries
length-with_secret other [] = refl
length-with_secret other (e ∷ entries) = ground (arith, length-with_secret other entries)

shown-step :
    (encrypt : ℕ → String → String) (words : Wording) (entry : EnvironmentEntry)
    (entries : List EnvironmentEntry) (previous : List StoredVariable)
    → shown (resolve_entries encrypt words (entry ∷ entries) previous)
      ≡ joined
          (shown (resolve_entry encrypt words previous (length entries) entry))
          (shown (resolve_entries encrypt words entries previous))
unfolding resolve_entries
shown-step encrypt words entry entries previous =
    elim (Result-cases (resolve_entry encrypt words previous (length entries) entry)) [
      | inr (e, refusal) ↦ rw (resolve_entries, refusal) refl
      | inl (first, one) ↦ elim (Result-cases (resolve_entries encrypt words entries previous)) [
        | inr (e, refusal) ↦ ground (arith, one, refusal)
        | inl (rest, others) ↦ ground (arith, one, others, present-append first rest)
      ]
    ]

shown-entry :
    (encrypt encrypt' : ℕ → String → String) (other : String → String) (words : Wording)
    (previous : List StoredVariable) (call call' : ℕ) (entry : EnvironmentEntry)
    → shown (resolve_entry encrypt' words previous call' (with_secret other entry))
      ≡ shown (resolve_entry encrypt words previous call entry)
unfolding resolve_entry present_environment present_variable
shown-entry encrypt encrypt' other words previous call call' (set_value key value) = refl
shown-entry encrypt encrypt' other words previous call call' (set_secret key value) = refl
shown-entry encrypt encrypt' other words previous call call' (unchanged key) = refl
shown-entry encrypt encrypt' other words previous call call' (remove key) = refl

-- What is shown of the stored environment, or the error, does not depend on the secrets that were
-- given nor on how they are sealed.
pub secrets_not_shown :
    (encrypt encrypt' : ℕ → String → String) (other : String → String) (words : Wording)
    (entries : List EnvironmentEntry) (previous : List StoredVariable)
    → shown (resolve_entries encrypt' words (map (with_secret other) entries) previous)
      ≡ shown (resolve_entries encrypt words entries previous)
secrets_not_shown encrypt encrypt' other words [] previous = unfold resolve_entries in refl
secrets_not_shown encrypt encrypt' other words (entry ∷ entries) previous =
    let rest = map (with_secret other) entries in
    shown-step encrypt' words (with_secret other entry) rest previous
    ∙ ((λ i.
          joined
            (shown-entry encrypt encrypt' other words previous (length entries) (length rest) entry
              i)
            (secrets_not_shown encrypt encrypt' other words entries previous i))
        ∙ sym (shown-step encrypt words entry entries previous))
