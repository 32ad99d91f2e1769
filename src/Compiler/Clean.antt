-- ===== src/Compiler/Clean.antt =====
-- Which runs of the compiler give a plan.
use dockplane.Base.{
  ℕ, ◌≤◌, ◌≡◌, ◌≢◌, ◌↔◌, refl, true, false, Bool-cases, inl, inr, Option, none, some, Option-cases,
  List, [], ◌∷◌, ◌++◌, length, ltb, head?, ok, err, arith, nat_eq, ==_iff, ◌∙◌, ap, sym, subst,
}
use dockplane.Compiler.{
  ChildEvent, timed_out, errored, wrote_stdout, wrote_stderr, closed, CompilerRun, compiler_started,
  finish, close, on_child_event, execute, closing_answer, max_output_bytes, took_too_long,
  too_much_output, said_too_much, compiler_unavailable, Response, compiled, read_response,
  compile_answer, compile,
}
use dockplane.Compiler.Ending.{execute-answered}
use mathlib.Core.List.{append_assoc, append-nil}

-- What is written to the output before anything else happens than writing, each chunk decoded by
-- itself.
abbrev pub stdout_of : (List ℕ → List ℕ) → List ChildEvent → List ℕ
stdout_of decode [] = []
stdout_of decode (wrote_stdout chunk ∷ events) = decode chunk ++ stdout_of decode events
stdout_of decode (wrote_stderr chunk ∷ events) = stdout_of decode events
stdout_of decode (timed_out ∷ events) = []
stdout_of decode (errored ∷ events) = []
stdout_of decode (closed code ∷ events) = []

abbrev pub stderr_of : (List ℕ → List ℕ) → List ChildEvent → List ℕ
stderr_of decode [] = []
stderr_of decode (wrote_stdout chunk ∷ events) = stderr_of decode events
stderr_of decode (wrote_stderr chunk ∷ events) = decode chunk ++ stderr_of decode events
stderr_of decode (timed_out ∷ events) = []
stderr_of decode (errored ∷ events) = []
stderr_of decode (closed code ∷ events) = []

-- The first event that is not writing.
abbrev pub end_of : List ChildEvent → Option ChildEvent
end_of [] = none
end_of (wrote_stdout chunk ∷ events) = end_of events
end_of (wrote_stderr chunk ∷ events) = end_of events
end_of (timed_out ∷ events) = some timed_out
end_of (errored ∷ events) = some errored
end_of (closed code ∷ events) = some (closed code)

length-append-le : (xs ys : List ℕ) → length xs ≤ length (xs ++ ys)
length-append-le [] ys = omega arith
length-append-le (x ∷ xs) ys = let h = length-append-le xs ys in omega arith

code_of : ChildEvent → Option ℕ
code_of (closed code) = code
code_of timed_out = none
code_of errored = none
code_of (wrote_stdout chunk) = none
code_of (wrote_stderr chunk) = none

module _ {A : Type 0} (decode : List ℕ → List ℕ) (parse : List ℕ → Option A) where
  -- Starting from what was written already.
  abbrev Clean : List ChildEvent → List ℕ → List ℕ → A → Type 0
  Clean events out wrong answer =
      (end_of events ≡ some (closed (some 0)))
      × (length (out ++ stdout_of decode events) ≤ max_output_bytes)
      × (length (wrong ++ stderr_of decode events) ≤ max_output_bytes)
      × (parse (out ++ stdout_of decode events) ≡ some answer)

  -- The process ended well, wrote no more than it may, and what it wrote,
  -- each chunk decoded by itself, parses to the answer.
  abbrev pub IsClean : List ChildEvent → A → Type 0
  IsClean events answer = Clean events [] [] answer

  abbrev writing : List ℕ → List ℕ → CompilerRun A
  writing out wrong = record compiler_started { stdout = out; stderr = wrong }

  -- A chunk either ends the run or is kept.
  stdout-over :
      (chunk : List ℕ) (run : CompilerRun A)
      → ltb max_output_bytes (length (run.stdout ++ decode chunk)) ≡ true
      → on_child_event decode parse (wrote_stdout chunk) run
        ≡ finish (err too_much_output) (record run { stdout = run.stdout ++ decode chunk })
  unfolding on_child_event
  stdout-over chunk run over = rw over refl

  stdout-within :
      (chunk : List ℕ) (run : CompilerRun A)
      → ltb max_output_bytes (length (run.stdout ++ decode chunk)) ≡ false
      → on_child_event decode parse (wrote_stdout chunk) run
        ≡ record run { stdout = run.stdout ++ decode chunk }
  unfolding on_child_event
  stdout-within chunk run within = rw within refl

  stderr-over :
      (chunk : List ℕ) (run : CompilerRun A)
      → ltb max_output_bytes (length (run.stderr ++ decode chunk)) ≡ true
      → on_child_event decode parse (wrote_stderr chunk) run
        ≡ finish (err said_too_much) (record run { stderr = run.stderr ++ decode chunk })
  unfolding on_child_event
  stderr-over chunk run over = rw over refl

  stderr-within :
      (chunk : List ℕ) (run : CompilerRun A)
      → ltb max_output_bytes (length (run.stderr ++ decode chunk)) ≡ false
      → on_child_event decode parse (wrote_stderr chunk) run
        ≡ record run { stderr = run.stderr ++ decode chunk }
  unfolding on_child_event
  stderr-within chunk run within = rw within refl

  execute_iff :
      (events : List ChildEvent) (out wrong : List ℕ) (answer : A)
      → length out ≤ max_output_bytes
      → length wrong ≤ max_output_bytes
      → (head? (execute decode parse events (writing out wrong)).answers ≡ some (ok answer))
        ↔ Clean events out wrong answer
  unfolding execute on_child_event finish close closing_answer
  execute_iff [] out wrong answer lo lw = ground (arith)
  execute_iff (timed_out ∷ events) out wrong answer lo lw =
      let kept =
        execute-answered decode parse events (finish (err took_too_long) (writing out wrong))
          refl in
      ground (arith, kept)
  execute_iff (errored ∷ events) out wrong answer lo lw =
      let kept =
        execute-answered decode parse events (finish (err compiler_unavailable) (writing out wrong))
          refl in
      ground (arith, kept)
  execute_iff (wrote_stdout chunk ∷ events) out wrong answer lo lw =
      elim (Bool-cases (ltb max_output_bytes (length (out ++ decode chunk)))) [
        | inl over ↦
            let after = finish (err too_much_output) (writing (out ++ decode chunk) wrong) in
            let kept = execute-answered decode parse events after refl in
            let longer =
              rw (append_assoc out (decode chunk) (stdout_of decode events)) at
                (length-append-le (out ++ decode chunk) (stdout_of decode events)) in
            let same = stdout-over chunk (writing out wrong) over in
            subst
              (λ r.
                (head? (execute decode parse events r).answers ≡ some (ok answer))
                ↔ Clean (wrote_stdout chunk ∷ events) out wrong answer)
              (sym same) (ground (arith, kept, longer, over))
        | inr within ↦
            let inner =
              execute_iff events (out ++ decode chunk) wrong answer (ground (arith, within)) lw in
            let same = stdout-within chunk (writing out wrong) within in
            subst
              (λ r.
                (head? (execute decode parse events r).answers ≡ some (ok answer))
                ↔ Clean (wrote_stdout chunk ∷ events) out wrong answer)
              (sym same) (rw (append_assoc out (decode chunk) (stdout_of decode events)) at inner)
      ]
  execute_iff (wrote_stderr chunk ∷ events) out wrong answer lo lw =
      elim (Bool-cases (ltb max_output_bytes (length (wrong ++ decode chunk)))) [
        | inl over ↦
            let after = finish (err said_too_much) (writing out (wrong ++ decode chunk)) in
            let kept = execute-answered decode parse events after refl in
            let longer =
              rw (append_assoc wrong (decode chunk) (stderr_of decode events)) at
                (length-append-le (wrong ++ decode chunk) (stderr_of decode events)) in
            let same = stderr-over chunk (writing out wrong) over in
            subst
              (λ r.
                (head? (execute decode parse events r).answers ≡ some (ok answer))
                ↔ Clean (wrote_stderr chunk ∷ events) out wrong answer)
              (sym same) (ground (arith, kept, longer, over))
        | inr within ↦
            let inner =
              execute_iff events out (wrong ++ decode chunk) answer lo (ground (arith, within)) in
            let same = stderr-within chunk (writing out wrong) within in
            subst
              (λ r.
                (head? (execute decode parse events r).answers ≡ some (ok answer))
                ↔ Clean (wrote_stderr chunk ∷ events) out wrong answer)
              (sym same) (rw (append_assoc wrong (decode chunk) (stderr_of decode events)) at inner)
      ]
  execute_iff (closed none ∷ events) out wrong answer lo lw =
      let kept = execute-answered decode parse events (close parse none (writing out wrong)) refl in
      ground (arith, kept)
  execute_iff (closed (some code) ∷ events) out wrong answer lo lw =
      let kept =
        execute-answered decode parse events (close parse (some code) (writing out wrong)) refl in
      rw (append-nil out, append-nil wrong, kept) (ground (arith, ==_iff code 0, lo, lw))

answer_iff :
    {A P : Type 0} (read : A → Option (Response P)) (answer : A) (plan : Option P)
    → (compile_answer read answer ≡ ok (compiled plan)) ↔ (
        (response : Response P) × (read answer ≡ some response)
        × (response.ok? ≡ true)
        × (response.plan ≡ plan)
        × (plan ≢ none))
unfolding compile_answer read_response
answer_iff read answer plan = elim (Option-cases (read answer)) [
  | inl nothing ↦ (
    λ h. absurd (ground (arith, h, nothing)),
    λ (response, a, ready, same, there). ground (arith, a, nothing),
  )
  | inr (response, given) ↦ elim (Option-cases response.plan) [
    | inl absent ↦ (
      λ h. absurd (ground (arith, h, given, absent)),
      λ (other, a, ready, same, there).
          let e : other ≡ response = ground (arith, a, given) in
          absurd (there (sym same ∙ ap (λ r. r.plan) e ∙ absent)),
    )
    | inr (p, present) ↦ (
      λ h.
          let (ready, same) : (response.ok? ≡ true) × (some p ≡ plan) =
            ground (arith, h, given, present) in
          (response, given, ready, present ∙ same, ground (arith, same)),
      λ (other, a, ready, same, there).
          let e : other ≡ response = ground (arith, a, given) in
          let ready = sym (ap (λ r. r.ok?) e) ∙ ready in
          let same = sym (ap (λ r. r.plan) e) ∙ same in ground (arith, given, present, ready, same),
    )
  ]
]

-- Compiling gives a plan exactly when the process ends with exit code zero before it writes too
-- much or anything else happens to it, and what it wrote,
-- each chunk decoded by itself, parses to an answer that reports success
-- and carries that plan.
pub compile_iff :
    {A P : Type 0} (decode : List ℕ → List ℕ) (parse : List ℕ → Option A)
    (read : A → Option (Response P)) (events : List ChildEvent) (plan : Option P)
    → (compile decode parse read events ≡ some (ok (compiled plan))) ↔ (
        (answer : A) × (response : Response P) × IsClean decode parse events answer
        × (read answer ≡ some response)
        × (response.ok? ≡ true)
        × (response.plan ≡ plan)
        × (plan ≢ none))
unfolding compile
compile_iff decode parse read events plan =
    let run = execute_iff decode parse events [] [] in
    elim (Option-cases (head? (execute decode parse events compiler_started).answers)) [
      | inl waiting ↦ (
        λ h. absurd (ground (arith, h, waiting)),
        λ (answer, response, clean, a, b, c, d).
            ground (arith, waiting, (run answer (omega arith) (omega arith)).1 clean),
      )
      | inr (err e, failed) ↦ (
        λ h. absurd (ground (arith, h, failed)),
        λ (answer, response, clean, a, b, c, d).
            absurd (ground (arith, failed, (run answer (omega arith) (omega arith)).1 clean)),
      )
      | inr (ok answer, done) ↦ (
        λ h.
            let made : compile_answer read answer ≡ ok (compiled plan) = ground (arith, done, h) in
            let (response, a, b, c, d) = (answer_iff read answer plan).0 made in
            (answer, response, (run answer (omega arith) (omega arith)).0 done, a, b, c, d),
        λ (other, response, clean, a, b, c, d).
            let again = (run other (omega arith) (omega arith)).1 clean in
            let made = (answer_iff read other plan).1 (response, a, b, c, d) in
            ground (arith, again, made),
      )
    ]
