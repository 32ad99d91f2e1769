-- ===== src/Operations/Registry/Tests.antt =====
-- Runs of api/src/operations/mutation-registry.ts, and the theorems about it there.
use dockplane.Base.{
  ◌<◌, String, ◌≡◌, refl, [], arith, ==_iff, string_eq, get, put, if◌then◌else◌, err, conflict,
  length,
}
use dockplane.Base.{List, ◌∷◌, none, true, All, ◌≢◌}
use dockplane.Operations.Registry.Refines.{
  Command, take, give_back, ask, granted, refused, done, busy, replies, promised, IsNamed,
  replies-refine,
}
use dockplane.Operations.Registry.{MutationRegistry, acquire, release, is_busy}
use dockplane.Operations.Registry.Exclusive.{holders, empty, acquired, released, one_holder}

abbrev vacant : MutationRegistry
vacant = record { held = []; tickets = [] }

abbrev stopping : MutationRegistry
stopping = (acquire "k1" "stop" vacant).1

refused_run :
    (acquire "k1" "replace" stopping).0
    ≡ err
        (conflict "ACTION_CONFLICT" "Another operation is already running on this resource: stop.")
unfolding acquire get put
refused_run = refl

ticket_run : 0 < length stopping.tickets
unfolding acquire get put
ticket_run = omega arith

one_holder_example :
    holders "k1" (release 0 stopping).tickets ≡ (if is_busy (release 0 stopping) "k1" then 1 else 0)
one_holder_example =
    one_holder (release 0 stopping) "k1"
      (released 0 (acquired "k1" "stop" (ground (arith, ==_iff {A = String} "stop" "")) empty))

abbrev commands : List Command
commands =
    take "k1" "stop"
    ∷ take "k1" "start"
    ∷ give_back 0
    ∷ take "k1" "start"
    ∷ give_back 0
    ∷ ask "k1"
    ∷ []

commands-IsNamed : All IsNamed commands
commands-IsNamed =
    let stop : ◌≢◌ {A = String} "stop" "" = ground (arith, ==_iff {A = String} "stop" "") in
    let start : ◌≢◌ {A = String} "start" "" = ground (arith, ==_iff {A = String} "start" "") in
    (stop, (start, (tt, (start, (tt, (tt, tt))))))

commands_run :
    promised commands (λ k. none) 0 ≡ granted 0 ∷ refused ∷ done ∷ granted 1 ∷ done ∷ busy true ∷ []
unfolding promised
commands_run = refl

replies-refine_example : replies commands vacant ≡ promised commands (λ k. none) 0
replies-refine_example = replies-refine commands commands-IsNamed
