-- ===== src/Environment.antt =====
-- api/src/containers/desired-config.ts and api/src/stacks/stack-environment.ts: the environment of
-- a container and of a stack, as it is asked for, stored, sent and shown. `encrypt` and `decrypt`
-- are those of the secret box (Box): a call of `encrypt` has random bytes, so it is told from the
-- others by the number of the entries behind it, and `decrypt` gives `none` where it throws.
pub mod Box
pub mod Sent
pub mod Shown
pub mod Once
mod Tests
use dockplane.Base.{
  ℕ, length, ◌++◌, set_of, any, all, not, ◌&&◌, ◌||◌, String, Bool, true, false, Option, none, some,
  List, [], ◌∷◌, ◌==◌, string_eq, or_else, has, get_last, Result, ok, err, AppError, ◌>>=◌, ◌>>◌,
  throw_if, ◌<>◌, if◌then◌else◌, map,
}

pub record StoredVariable : Type 0 where
  pub key : String
  pub value : Option String
  pub value_encrypted : Option String
  pub is_secret : Bool

-- What is done to one variable: `EnvironmentEntry` and `EnvironmentChange`.
pub data EnvironmentEntry : Type 0 where
  set_value set_secret : (key value : String) → EnvironmentEntry
  unchanged remove : (key : String) → EnvironmentEntry

-- One variable as it is sent, and as it is shown.
pub record SentVariable : Type 0 where
  pub key : String
  pub value : String

pub record ShownVariable : Type 0 where
  pub key : String
  pub secret : Bool
  pub value : Option String

-- The errors of the two routines, which differ in their code and their words.
pub record Wording : Type 0 where
  pub code : String
  pub status : ℕ
  pub missing : String

abbrev pub container_words : Wording
container_words = record {
  code = "INVALID_CONTAINER_SPEC";
  status = 400;
  missing = " was marked unchanged, but this container has no such variable.";
}

abbrev pub stack_words : Wording
stack_words = record {
  code = "STACK_CONFIGURATION_INVALID";
  status = 400;
  missing = " was marked unchanged, but the previous revision has no such variable.";
}

-- The loop that looks for a key that was seen.
unfoldable pub assert_once : List String → List StoredVariable → Result (List StoredVariable)
assert_once seen [] = ok []
assert_once seen (variable ∷ rest) =
    throw_if (has seen variable.key) (record {
      code = "STACK_CONFIGURATION_INVALID";
      message = variable.key <> " is given more than once.";
      status = 400;
    })
    >> assert_once (variable.key ∷ seen) rest
    >>= λ checked. ok (variable ∷ checked)

module _ (encrypt : ℕ → String → String) where
  -- What one entry adds.
  unfoldable pub resolve_entry :
      Wording → List StoredVariable → ℕ → EnvironmentEntry → Result (List StoredVariable)
  resolve_entry words previous call (set_value key value) =
      ok (record { key = key; value = some value; value_encrypted = none; is_secret = false } ∷ [])
  resolve_entry words previous call (set_secret key value) = ok (
      record {
        key = key;
        value = none;
        value_encrypted = some (encrypt call value);
        is_secret = true;
      }
      ∷ [])
  resolve_entry words previous call (unchanged key) = elim (get_last (λ v. v.key) key previous) [
    | none ↦
        err (record { code = words.code; message = key <> words.missing; status = words.status })
    | some existing ↦ ok (existing ∷ [])
  ]
  resolve_entry words previous call (remove key) = ok []

  -- The loop over the entries.
  unfoldable pub resolve_entries :
      Wording → List EnvironmentEntry → List StoredVariable → Result (List StoredVariable)
  resolve_entries words [] previous = ok []
  resolve_entries words (entry ∷ entries) previous =
      resolve_entry words previous (length entries) entry >>= λ first.
      resolve_entries words entries previous >>= λ rest. ok (first ++ rest)

  -- `resolveEnvironment`
  unfoldable pub resolve_environment :
      List EnvironmentEntry → List StoredVariable → Result (List StoredVariable)
  resolve_environment = resolve_entries container_words

  -- `resolveStackEnvironment`
  unfoldable pub resolve_stack_environment :
      List EnvironmentEntry → List StoredVariable → Result (List StoredVariable)
  resolve_stack_environment changes previous =
      resolve_entries stack_words changes previous >>= λ resolved. assert_once [] resolved

module _ (decrypt : String → Option String) where
  -- One variable of the specification that an agent is sent.
  unfoldable pub sent_value : StoredVariable → Option String
  sent_value variable =
      if variable.is_secret
      then elim variable.value_encrypted [ none ↦ none | some envelope ↦ decrypt envelope ]
      else some (or_else variable.value "")

  -- `env` of `specFor`: nothing when one of the secrets cannot be read.
  unfoldable pub sent_environment : List StoredVariable → Option (List SentVariable)
  sent_environment [] = some []
  sent_environment (variable ∷ environment) = elim (sent_value variable) [
    | none ↦ none
    | some value ↦ elim (sent_environment environment) [
      | none ↦ none
      | some rest ↦ some (record { key = variable.key; value = value } ∷ rest)
    ]
  ]

unfoldable pub present_variable : StoredVariable → ShownVariable
present_variable variable = record {
  key = variable.key;
  secret = variable.is_secret;
  value = if variable.is_secret then none else some (or_else variable.value "");
}

-- `presentEnvironment`
unfoldable pub present_environment : List StoredVariable → List ShownVariable
unfolding present_variable
present_environment environment = map present_variable environment
