-- ===== src/Agents/Capabilities/Catalogue.antt =====
-- That the tables of api/src/agents/capabilities.ts agree with one another.
use dockplane.Base.{
  String, ◌≡◌, refl, Bool, true, false, not, ◌&&◌, Option, none, some, List, arith, string_eq, all,
  all_iff, of_In, has, has_iff, get, is_some,
}
use dockplane.Agents.Capabilities.{
  mutating_capabilities, is_streaming, is_mutating, is_capability, agent_error_codes,
  agent_error_code, agent_error_messages,
}

-- What a test finds of every entry of a list holds of each entry.
each :
    (p : String → Bool) (xs : List String) (x : String)
    → all p xs ≡ true
    → has xs x ≡ true
    → p x ≡ true
each p xs x h e = of_In (λ y. p y ≡ true) xs x ((all_iff p xs).0 h) ((has_iff xs x).0 e)

all_mutating : all (λ c. is_capability c && not (is_streaming c)) mutating_capabilities ≡ true
unfolding is_capability is_streaming has
all_mutating = refl

-- What changes a host is a capability, and never one that answers by a stream.
mutating-capability :
    (c : String) → is_mutating c ≡ true → (is_capability c ≡ true) × (is_streaming c ≡ false)
unfolding is_mutating
mutating-capability c h =
    let found =
      each (λ x. is_capability x && not (is_streaming x)) mutating_capabilities c all_mutating h in
    ground arith

all_told : all (λ c. is_some (get agent_error_messages c)) agent_error_codes ≡ true
unfolding get
all_told = refl

generic_known : has agent_error_codes "AGENT_CAPABILITY_FAILED" ≡ true
unfolding has
generic_known = refl

error_code_known : (v : Option String) → has agent_error_codes (agent_error_code v) ≡ true
unfolding agent_error_code
error_code_known none = generic_known
error_code_known (some v) = ground (arith, generic_known)

-- Whatever an agent reports, the code passed on is one of the list, and the server has a sentence
-- of its own for it.
agent_error-told :
    (v : Option String)
    → (has agent_error_codes (agent_error_code v) ≡ true)
      × (is_some (get agent_error_messages (agent_error_code v)) ≡ true)
agent_error-told v =
    let known = error_code_known v in
    (
      known,
      each (λ c. is_some (get agent_error_messages c)) agent_error_codes (agent_error_code v)
          all_told known,
    )
