-- ===== src/Compiler/Ending.antt =====
-- A run of the compiler is answered once, and by its end at the latest.
use dockplane.Base.{
  ℕ, ◌≤◌, ◌≡◌, ◌⊎◌, refl, true, false, Bool-cases, inl, inr, Any, Option, List, [], ◌∷◌, ◌++◌,
  length, ltb, Result, err, arith, nat_eq, ◌∙◌, ap,
}
use dockplane.Compiler.{
  ChildEvent, timed_out, errored, wrote_stdout, wrote_stderr, closed, CompilerRun, compiler_started,
  finish, close, on_child_event, execute, max_output_bytes, took_too_long, too_much_output,
  said_too_much,
}

-- The events after which nothing more comes.
abbrev pub IsLast : ChildEvent → Type 0
IsLast timed_out = Unit
IsLast errored = Unit
IsLast (wrote_stdout chunk) = ⊥
IsLast (wrote_stderr chunk) = ⊥
IsLast (closed code) = Unit

module _ {A : Type 0} where
  abbrev IsAnswered : CompilerRun A → Type 0
  IsAnswered run = (run.settled ≡ true) × (length run.answers ≡ 1)

  abbrev IsRunning : CompilerRun A → Type 0
  IsRunning run = (run.settled ≡ false) × (run.timer ≡ true) × (run.answers ≡ [])

  finish-IsAnswered :
      (outcome : Result A) (run : CompilerRun A)
      → IsRunning run ⊎ IsAnswered run
      → IsAnswered (finish outcome run)
  unfolding finish
  finish-IsAnswered outcome run (inl (s, t, a)) = rw (s, a) (refl, refl)
  finish-IsAnswered outcome run (inr (s, a)) = ground (arith, s, a)

  module _ (decode : List ℕ → List ℕ) (parse : List ℕ → Option A) where
    on_child_event_keeps :
        (event : ChildEvent) (run : CompilerRun A)
        → IsRunning run ⊎ IsAnswered run
        → IsRunning (on_child_event decode parse event run)
          ⊎ IsAnswered (on_child_event decode parse event run)
    unfolding on_child_event close
    on_child_event_keeps timed_out run h =
        ground (arith, finish-IsAnswered (err took_too_long) run h, h)
    on_child_event_keeps errored run h = inr (finish-IsAnswered _ run h)
    on_child_event_keeps (wrote_stdout chunk) run h =
        elim (Bool-cases (ltb max_output_bytes (length (run.stdout ++ decode chunk)))) [
          | inl over ↦ rw over (
              inr (
                finish-IsAnswered (err too_much_output)
                  (record run { stdout = run.stdout ++ decode chunk }) h))
          | inr within ↦ rw within h
        ]
    on_child_event_keeps (wrote_stderr chunk) run h =
        elim (Bool-cases (ltb max_output_bytes (length (run.stderr ++ decode chunk)))) [
          | inl over ↦ rw over (
              inr (
                finish-IsAnswered (err said_too_much)
                  (record run { stderr = run.stderr ++ decode chunk }) h))
          | inr within ↦ rw within h
        ]
    on_child_event_keeps (closed code) run (inl (s, t, a)) = inr (rw (s, a) (refl, refl))
    on_child_event_keeps (closed code) run (inr (s, a)) = ground (arith, s, a)

    on_child_event-last :
        (event : ChildEvent) (run : CompilerRun A)
        → IsLast event
        → IsRunning run ⊎ IsAnswered run
        → IsAnswered (on_child_event decode parse event run)
    unfolding on_child_event close
    on_child_event-last timed_out run l (inl (s, t, a)) =
        ground (arith, finish-IsAnswered (err took_too_long) run (inl (s, t, a)), s, t)
    on_child_event-last timed_out run l (inr h) =
        ground (arith, finish-IsAnswered (err took_too_long) run (inr h), h)
    on_child_event-last errored run l h = finish-IsAnswered _ run h
    on_child_event-last (wrote_stdout chunk) run l h = absurd l
    on_child_event-last (wrote_stderr chunk) run l h = absurd l
    on_child_event-last (closed code) run l (inl (s, t, a)) = rw (s, a) (refl, refl)
    on_child_event-last (closed code) run l (inr (s, a)) = ground (arith, s, a)

    -- An answered run keeps its answer.
    on_child_event-answered :
        (event : ChildEvent) (run : CompilerRun A)
        → run.settled ≡ true
        → ((on_child_event decode parse event run).settled ≡ true)
          × ((on_child_event decode parse event run).answers ≡ run.answers)
    unfolding on_child_event close finish
    on_child_event-answered timed_out run s = ground (arith, s)
    on_child_event-answered errored run s = ground (arith, s)
    on_child_event-answered (wrote_stdout chunk) run s = ground (arith, s)
    on_child_event-answered (wrote_stderr chunk) run s = ground (arith, s)
    on_child_event-answered (closed code) run s = ground (arith, s)

    pub execute-answered :
        (events : List ChildEvent) (run : CompilerRun A)
        → run.settled ≡ true
        → (execute decode parse events run).answers ≡ run.answers
    unfolding execute
    execute-answered [] run s = refl
    execute-answered (event ∷ events) run s =
        let (still, same) = on_child_event-answered event run s in
        execute-answered events (on_child_event decode parse event run) still ∙ same

    execute-ends :
        (events : List ChildEvent) (run : CompilerRun A)
        → IsRunning run ⊎ IsAnswered run
        → (length (execute decode parse events run).answers ≤ 1)
          × (Any IsLast events → length (execute decode parse events run).answers ≡ 1)
    unfolding execute
    execute-ends [] run h = ground (arith, h)
    execute-ends (event ∷ events) run h =
        let (most, later) =
          execute-ends events (on_child_event decode parse event run)
            (on_child_event_keeps event run h) in
        (
          most,
          λ any. elim any [
            | inr after ↦ later after
            | inl last ↦
                let (s, one) = on_child_event-last event run last h in
                ap (λ a. length a)
                  (execute-answered events (on_child_event decode parse event run) s)
                ∙ one
          ],
        )

    -- A run of the compiler is answered at most once, whatever its process does and in whatever
    -- order, and it is answered once the time is over, the process could not be started, or it
    -- ended.
    pub ends_once :
        (events : List ChildEvent)
        → (length (execute decode parse events compiler_started).answers ≤ 1)
          × (Any IsLast events → length (execute decode parse events compiler_started).answers ≡ 1)
    ends_once events = execute-ends events compiler_started (inl (refl, refl, refl))
