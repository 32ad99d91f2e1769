-- ===== src/Agents/Capabilities.antt =====
-- api/src/agents/capabilities.ts: the catalogue of operations that an agent may be asked for, how
-- long each may take, and the errors that an agent may name.
pub mod Catalogue
mod Tests
use dockplane.Base.{
  ℕ, String, Bool, Option, none, some, List, [], ◌∷◌, has, get, or_else, if◌then◌else◌, string_eq,
}

abbrev pub capabilities : List String
capabilities =
    "host.inventory" ∷ "host.metrics" ∷ "container.list" ∷ "container.inspect" ∷ "compose.list"
    ∷ "compose.inspect" ∷ "container.start" ∷ "container.stop" ∷ "container.restart"
    ∷ "container.logs" ∷ "container.create" ∷ "container.replace" ∷ "container.remove"
    ∷ "stack.deploy" ∷ "stack.start" ∷ "stack.stop" ∷ "stack.restart" ∷ "stack.remove" ∷ []

abbrev pub streaming_capabilities : List String
streaming_capabilities = "container.logs" ∷ []

abbrev pub mutating_capabilities : List String
mutating_capabilities =
    "container.start" ∷ "container.stop" ∷ "container.restart" ∷ "container.create"
    ∷ "container.replace" ∷ "container.remove" ∷ "stack.deploy" ∷ "stack.start" ∷ "stack.stop"
    ∷ "stack.restart" ∷ "stack.remove" ∷ []

unfoldable pub is_streaming : String → Bool
is_streaming capability = has streaming_capabilities capability

unfoldable pub is_mutating : String → Bool
is_mutating capability = has mutating_capabilities capability

unfoldable pub is_capability : String → Bool
is_capability value = has capabilities value

-- In milliseconds.
abbrev pub capability_timeout_ms : List (String × ℕ)
capability_timeout_ms =
    ("host.inventory", 10_000)
    ∷ ("host.metrics", 10_000)
    ∷ ("container.list", 20_000)
    ∷ ("container.inspect", 15_000)
    ∷ ("compose.list", 20_000)
    ∷ ("compose.inspect", 20_000)
    ∷ ("container.start", 60_000)
    ∷ ("container.stop", 60_000)
    ∷ ("container.restart", 90_000)
    ∷ ("container.create", 300_000)
    ∷ ("container.replace", 420_000)
    ∷ ("container.remove", 90_000)
    ∷ ("stack.deploy", 900_000)
    ∷ ("stack.start", 300_000)
    ∷ ("stack.stop", 300_000)
    ∷ ("stack.restart", 600_000)
    ∷ ("stack.remove", 600_000)
    ∷ ("container.logs", 15_000)
    ∷ []

abbrev pub agent_error_codes : List String
agent_error_codes =
    "DOCKER_UNAVAILABLE" ∷ "DOCKER_PERMISSION_DENIED" ∷ "DOCKER_OPERATION_FAILED"
    ∷ "AGENT_REQUEST_EXPIRED" ∷ "AGENT_CAPABILITY_UNSUPPORTED" ∷ "CONTAINER_NOT_FOUND"
    ∷ "CONTAINER_ALREADY_RUNNING" ∷ "CONTAINER_ALREADY_STOPPED" ∷ "CONTAINER_NAME_IN_USE"
    ∷ "IMAGE_NOT_FOUND" ∷ "INVALID_CONTAINER_SPEC" ∷ "REPLACEMENT_FAILED"
    ∷ "STACK_RESOURCE_CONFLICT" ∷ "STACK_STATE_AMBIGUOUS" ∷ "STACK_SERVICE_MISSING"
    ∷ "STACK_LIFECYCLE_INCOMPLETE" ∷ "STACK_REMOVE_INCOMPLETE" ∷ "VOLUME_MISSING"
    ∷ "COMPOSE_PROJECT_NOT_FOUND" ∷ "VALIDATION_FAILED" ∷ "AGENT_CAPABILITY_FAILED" ∷ []

-- A code that is not in the list, or no text at all, collapses to the generic failure.
unfoldable pub agent_error_code : Option String → String
agent_error_code none = "AGENT_CAPABILITY_FAILED"
agent_error_code (some value) =
    if has agent_error_codes value then value else "AGENT_CAPABILITY_FAILED"

abbrev pub agent_error_messages : List (String × String)
agent_error_messages =
    ("DOCKER_UNAVAILABLE", "The Docker Engine on this host could not be reached.")
    ∷ (
      "DOCKER_PERMISSION_DENIED",
      "The agent is not permitted to use the Docker socket on this host.",
    )
    ∷ ("DOCKER_OPERATION_FAILED", "The Docker Engine refused the operation.")
    ∷ ("AGENT_REQUEST_EXPIRED", "The host received the request too late to act on it.")
    ∷ ("AGENT_CAPABILITY_UNSUPPORTED", "This host does not support that operation.")
    ∷ ("CONTAINER_NOT_FOUND", "The container no longer exists on its host.")
    ∷ ("CONTAINER_ALREADY_RUNNING", "The container is already running.")
    ∷ ("CONTAINER_ALREADY_STOPPED", "The container is not running.")
    ∷ ("CONTAINER_NAME_IN_USE", "A container of that name already exists on this host.")
    ∷ ("IMAGE_NOT_FOUND", "The image could not be found or pulled on this host.")
    ∷ ("INVALID_CONTAINER_SPEC", "The host rejected the container configuration as invalid.")
    ∷ (
      "REPLACEMENT_FAILED",
      "The replacement did not start, so the original container was put back.",
    )
    ∷ (
      "STACK_RESOURCE_CONFLICT",
      "A container, volume or network on this host has a name this stack needs and was not created by it.",
    )
    ∷ (
      "STACK_STATE_AMBIGUOUS",
      "The containers of this stack on the host do not say clearly which revision it is running.",
    )
    ∷ (
      "STACK_SERVICE_MISSING",
      "A service of this stack has no container on the host. Dockplane will not create one in its place.",
    )
    ∷ (
      "STACK_LIFECYCLE_INCOMPLETE",
      "Part of this stack was moved and part of it was not. Nothing was undone.",
    )
    ∷ (
      "STACK_REMOVE_INCOMPLETE",
      "Part of this stack was removed and part of it was not. Nothing was rebuilt.",
    )
    ∷ (
      "VOLUME_MISSING",
      "A volume this stack was using is not on the host. Dockplane will not create an empty one in its place.",
    )
    ∷ ("COMPOSE_PROJECT_NOT_FOUND", "The Compose project no longer exists on its host.")
    ∷ ("VALIDATION_FAILED", "The host rejected the request as invalid.")
    ∷ ("AGENT_CAPABILITY_FAILED", "The operation failed on the host.")
    ∷ []

unfoldable pub agent_error_message : String → String
agent_error_message code =
    or_else (get agent_error_messages code) "The operation failed on the host."
