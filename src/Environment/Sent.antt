-- ===== src/Environment/Sent.antt =====
-- What is sent of an environment is what was asked for: secrets come back as they were given.
use dockplane.Base.{
  ℕ, String, All, ◌≢◌, ◌≡◌, sym, ap, ◌∙◌, Option, none, some, inl, inr, List, [], ◌∷◌, ◌++◌,
  get_last, length, ok, Result-cases, arith, or_else, if◌then◌else◌,
}
use dockplane.Environment.Box.{encrypt, decrypt, IsBox, decrypt-encrypt}
use dockplane.Environment.{
  StoredVariable, EnvironmentEntry, set_value, set_secret, unchanged, remove, SentVariable, Wording,
  resolve_entry, resolve_entries, sent_value, sent_environment,
}

-- A secret that is set is not empty, as the request schemas demand.
abbrev pub IsSealable : EnvironmentEntry → Type 0
IsSealable (set_value key value) = Unit
IsSealable (set_secret key value) = value ≢ ""
IsSealable (unchanged key) = Unit
IsSealable (remove key) = Unit

module _ (encrypt : ℕ → String → String) (decrypt : String → Option String) where
  -- What an entry asks to be sent: the value itself, also of a secret, or what was
  -- stored before.
  unfoldable pub asked : List StoredVariable → EnvironmentEntry → Option (List SentVariable)
  asked previous (set_value key value) = some (record { key = key; value = value } ∷ [])
  asked previous (set_secret key value) = some (record { key = key; value = value } ∷ [])
  asked previous (unchanged key) = elim (get_last (λ v. v.key) key previous) [
    | none ↦ none
    | some existing ↦
        if existing.is_secret
        then elim existing.value_encrypted [
          | none ↦ none
          | some envelope ↦ elim (decrypt envelope) [
            | none ↦ none
            | some value ↦ some (record { key = existing.key; value = value } ∷ [])
          ]
        ]
        else some (record { key = existing.key; value = or_else existing.value "" } ∷ [])
  ]
  asked previous (remove key) = some []

  abbrev joined :
      Option (List SentVariable) → Option (List SentVariable) → Option (List SentVariable)
  joined none rest = none
  joined (some first) none = none
  joined (some first) (some rest) = some (first ++ rest)

  unfoldable pub asked_all :
      List StoredVariable → List EnvironmentEntry → Option (List SentVariable)
  asked_all previous [] = some []
  asked_all previous (entry ∷ entries) = joined (asked previous entry) (asked_all previous entries)

  sent-append :
      (first rest : List StoredVariable)
      → sent_environment decrypt (first ++ rest)
        ≡ joined (sent_environment decrypt first) (sent_environment decrypt rest)
  unfolding sent_environment
  sent-append [] rest = ground arith
  sent-append (v ∷ first) rest = ground (arith, sent-append first rest)

  -- What is sealed is opened, when there is something to seal.
  abbrev Opens : Type 0
  Opens = (n : ℕ) (value : String) → value ≢ "" → decrypt (encrypt n value) ≡ some value

  sent-entry :
      (words : Wording) (previous : List StoredVariable) (call : ℕ) (entry : EnvironmentEntry)
      (stored : List StoredVariable)
      → Opens
      → IsSealable entry
      → resolve_entry encrypt words previous call entry ≡ ok stored
      → sent_environment decrypt stored ≡ asked previous entry
  unfolding resolve_entry asked sent_environment sent_value
  sent-entry words previous call (set_value key value) stored opens given h = ground (arith, h)
  sent-entry words previous call (set_secret key value) stored opens given h =
      ground (arith, h, opens call value given)
  sent-entry words previous call (unchanged key) stored opens given h = ground (arith, h)
  sent-entry words previous call (remove key) stored opens given h = ground (arith, h)

  sent-resolved :
      (words : Wording) (entries : List EnvironmentEntry) (previous stored : List StoredVariable)
      → Opens
      → All IsSealable entries
      → resolve_entries encrypt words entries previous ≡ ok stored
      → sent_environment decrypt stored ≡ asked_all previous entries
  unfolding resolve_entries asked_all
  sent-resolved words [] previous stored opens given h =
      unfold sent_environment in ground (arith, h)
  sent-resolved words (entry ∷ entries) previous stored opens (one_given, given) h =
      elim (Result-cases (resolve_entry encrypt words previous (length entries) entry)) [
        | inr (e, refusal) ↦ absurd (ground (arith, h, refusal))
        | inl (first, one) ↦ elim (Result-cases (resolve_entries encrypt words entries previous)) [
          | inr (e, refusal) ↦ absurd (ground (arith, h, one, refusal))
          | inl (rest, others) ↦
              let whole : first ++ rest ≡ stored = ground (arith, h, one, others) in
              let head =
                sent-entry words previous (length entries) entry first opens one_given one in
              let tail = sent-resolved words entries previous rest opens given others in
              ap (sent_environment decrypt) (sym whole)
              ∙ (sent-append first rest ∙ (λ i. joined (head i) (tail i)))
        ]
      ]

-- When an environment is stored, in which the secrets that are set are not empty, what an agent is
-- sent of it is what the entries ask for, in their order: the values that were given, secrets as
-- they were before the box sealed them, and for the variables left unchanged what is stored of them,
-- a secret opened.
-- It is nothing only when a secret that was left unchanged cannot be opened any more. The cipher
-- unseals what it sealed, and base64url has no dot.
pub sent_environment-resolve_entries :
    (iv : ℕ → String) (seal : String → String → String × String)
    (unseal : String → String → String → Option String) (words : Wording)
    (entries : List EnvironmentEntry) (previous stored : List StoredVariable)
    → IsBox iv seal unseal
    → All IsSealable entries
    → resolve_entries (encrypt iv seal) words entries previous ≡ ok stored
    → sent_environment (decrypt unseal) stored
      ≡ asked_all (encrypt iv seal) (decrypt unseal) previous entries
sent_environment-resolve_entries iv seal unseal words entries previous stored box given =
    sent-resolved (encrypt iv seal) (decrypt unseal) words entries previous stored
      (λ n value there. decrypt-encrypt iv seal unseal n value box there) given
