-- ===== src/Agents/Capabilities/Tests.antt =====
-- The theorems about api/src/agents/capabilities.ts at single capabilities and codes.
use dockplane.Base.{◌≡◌, refl, true, has, string_eq}
use dockplane.Agents.Capabilities.{is_mutating}

deploy_changes : is_mutating "stack.deploy" ≡ true
unfolding is_mutating has
deploy_changes = refl
