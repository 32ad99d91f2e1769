-- ===== src/Compiler/Tests.antt =====
-- Runs of the compiler.
use dockplane.Base.{
  ℕ, ◌≤◌, ◌≡◌, ◌≢◌, ◌↔◌, refl, true, Any, Option, ◌≢◌, none, some, List, [], ◌∷◌, map, ltb,
  if◌then◌else◌, length, head?, ok, err,
}
use dockplane.Compiler.{
  ChildEvent, timed_out, wrote_stdout, wrote_stderr, closed, compiler_started, execute, compile,
  compiled, Response, not_compiled, took_too_long,
}
use dockplane.Compiler.Ending.{IsLast, ends_once}
use dockplane.Compiler.Clean.{IsClean, compile_iff}

abbrev parse : List ℕ → Option ℕ
parse text = head? text

-- The replacement character for every byte that is not ASCII stands for what UTF-8 does to the
-- halves of a character.
abbrev decode : List ℕ → List ℕ
decode bytes = map (λ b. if ltb b 128 then b else 65533) bytes

abbrev read : ℕ → Option (Response ℕ)
read n = some (record { ok? = true; plan = some n; errors = none })

abbrev events : List ChildEvent
events = wrote_stdout (7 ∷ []) ∷ wrote_stderr (1 ∷ []) ∷ closed (some 0) ∷ timed_out ∷ []

planned : compile decode parse read events ≡ some (ok (compiled (some 7)))
unfolding compile
planned = refl

awaited : compile decode parse read (wrote_stdout (7 ∷ []) ∷ []) ≡ none
unfolding compile
awaited = refl

stopped :
    compile decode parse read (wrote_stdout (7 ∷ []) ∷ timed_out ∷ events)
    ≡ some (err took_too_long)
unfolding compile
stopped = refl

failed :
    compile decode parse read (wrote_stdout (7 ∷ []) ∷ closed (some 1) ∷ [])
    ≡ some (err not_compiled)
unfolding compile
failed = refl

ends_once_example :
    (length (execute decode parse events compiler_started).answers ≤ 1)
    × (Any IsLast events → length (execute decode parse events compiler_started).answers ≡ 1)
ends_once_example = ends_once decode parse events

compile_iff_example : (compile decode parse read events ≡ some (ok (compiled (some 7)))) ↔ (
    (answer : ℕ) × (response : Response ℕ) × IsClean decode parse events answer
    × (read answer ≡ some response)
    × (response.ok? ≡ true)
    × (response.plan ≡ some 7)
    × (◌≢◌ {A = Option ℕ} (some 7) none))
compile_iff_example = compile_iff decode parse read events (some 7)
