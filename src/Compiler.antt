-- ===== src/Compiler.antt =====
-- api/src/stacks/compose-compiler.service.ts: one run of the Compose compiler, by what its process
-- does, and what is made of its answer.
-- A chunk of output is the list of its bytes, and a text the list of its code units. `decode`
-- stands for `chunk.toString('utf8')`, which takes each chunk by itself, `parse` for `JSON.parse`,
-- and `read` for the part of the schema that says which fields an answer has and of which types.
pub mod Clean
pub mod Ending
mod Tests
use dockplane.Base.{
  ℕ, String, Bool, true, false, not, ◌||◌, Option, none, some, List, [], ◌∷◌, ◌++◌, length, ltb,
  head?, or_else, Result, ok, err, conflict, AppError, nat_eq, ◌==◌, ◌>>=◌, if◌then◌else◌,
}

-- A signal leaves no exit code.
pub data ChildEvent : Type 0 where
  timed_out errored : ChildEvent
  wrote_stdout wrote_stderr : List ℕ → ChildEvent
  closed : Option ℕ → ChildEvent

abbrev pub max_output_bytes : ℕ
max_output_bytes = 4194304

abbrev pub took_too_long : AppError
took_too_long =
    conflict "COMPOSE_COMPILER_FAILED" "Compiling the Compose file took too long and was stopped."

abbrev pub compiler_unavailable : AppError
compiler_unavailable = record {
  code = "COMPOSE_COMPILER_UNAVAILABLE";
  message = "This Dockplane build cannot compile Compose files.";
  status = 500;
}

abbrev pub too_much_output : AppError
too_much_output =
    conflict "COMPOSE_COMPILER_FAILED"
      "The Compose file produced more output than Dockplane accepts."

abbrev pub said_too_much : AppError
said_too_much = conflict "COMPOSE_COMPILER_FAILED" "The Compose compiler said too much."

abbrev pub not_compiled : AppError
not_compiled = record {
  code = "COMPOSE_COMPILER_FAILED";
  message = "The Compose file could not be compiled.";
  status = 500;
}

-- `answers` are the calls of `resolve` and `reject`, in their order.
pub record CompilerRun (A : Type 0) : Type 0 where
  pub stdout : List ℕ
  pub stderr : List ℕ
  pub settled : Bool
  pub timer : Bool
  pub killed : Bool
  pub answers : List (Result A)

pub record CompileProblem : Type 0 where
  pub path : Option String
  pub code : String
  pub message : String

-- The compiler's answer, with a plan `P`.
pub record Response (P : Type 0) : Type 0 where
  pub ok? : Bool
  pub plan : Option P
  pub errors : Option (List CompileProblem)

pub data CompileResult (P : Type 0) : Type 0 where
  compiled : Option P → CompileResult P
  rejected : List CompileProblem → CompileResult P

abbrev pub compiler_started : {A : Type 0} → CompilerRun A
compiler_started = record {
  stdout = [];
  stderr = [];
  settled = false;
  timer = true;
  killed = false;
  answers = [];
}

unfoldable pub finish : {A : Type 0} → Result A → CompilerRun A → CompilerRun A
finish outcome run = if run.settled then run else record run {
  settled = true;
  timer = false;
  killed = true;
  answers = run.answers ++ (outcome ∷ []);
}

module _ {A : Type 0} (parse : List ℕ → Option A) where
  unfoldable pub closing_answer : Option ℕ → List ℕ → Result A
  closing_answer none stdout = err not_compiled
  closing_answer (some code) stdout =
      if not (code == 0)
      then err not_compiled
      else elim (parse stdout) [ some answer ↦ ok answer | none ↦ err not_compiled ]

  unfoldable pub close : Option ℕ → CompilerRun A → CompilerRun A
  unfolding closing_answer
  close code run = if run.settled then run else record run {
    settled = true;
    timer = false;
    answers = run.answers ++ (closing_answer code run.stdout ∷ []);
  }

module _ {A : Type 0} (decode : List ℕ → List ℕ) (parse : List ℕ → Option A) where
  -- The handler of an event; the timeout comes only while its timer is set.
  unfoldable pub on_child_event : ChildEvent → CompilerRun A → CompilerRun A
  unfolding finish close
  on_child_event timed_out run = if run.timer then finish (err took_too_long) run else run
  on_child_event errored run = finish (err compiler_unavailable) run
  on_child_event (wrote_stdout chunk) run =
      let grown = record run { stdout = run.stdout ++ decode chunk } in
      if ltb max_output_bytes (length grown.stdout)
      then finish (err too_much_output) grown
      else grown
  on_child_event (wrote_stderr chunk) run =
      let grown = record run { stderr = run.stderr ++ decode chunk } in
      if ltb max_output_bytes (length grown.stderr) then finish (err said_too_much) grown else grown
  on_child_event (closed code) run = close parse code run

  unfoldable pub execute : List ChildEvent → CompilerRun A → CompilerRun A
  unfolding on_child_event
  execute [] run = run
  execute (event ∷ events) run = execute events (on_child_event event run)

-- `responseSchema`: a successful answer has to carry a plan.
unfoldable pub read_response : {A P : Type 0} → (A → Option (Response P)) → A → Option (Response P)
read_response read answer = elim (read answer) [
  | none ↦ none
  | some response ↦ elim response.plan [
    | some p ↦ some response
    | none ↦ if response.ok? then none else some response
  ]
]

unfoldable pub compile_answer :
    {A P : Type 0} → (A → Option (Response P)) → A → Result (CompileResult P)
unfolding read_response
compile_answer read answer = elim (read_response read answer) [
  | none ↦ err not_compiled
  | some response ↦
      if response.ok?
      then ok (compiled response.plan)
      else ok (rejected (or_else response.errors []))
]

-- What `compile` comes to when the process has done `events`; nothing as long as it is awaited.
unfoldable pub compile :
    {A P : Type 0}
    → (List ℕ → List ℕ)
    → (List ℕ → Option A)
    → (A → Option (Response P))
    → List ChildEvent
    → Option (Result (CompileResult P))
unfolding execute compile_answer
compile decode parse read events =
    elim (head? (execute decode parse events compiler_started).answers) [
      | none ↦ none
      | some answer ↦ some (answer >>= compile_answer read)
    ]
