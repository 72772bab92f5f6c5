-- ===== src/Worker/Children.antt =====
-- src/worker/work_handler.py: the child processes that live, and how a shutdown signals them. What
-- the event loop, the signal handler, the threads of `abort` and the system do is a step relation,
-- in any order. A child that has exited has a return code and no process group. The clock is left
-- out: a sleep and a time limit end at any step.
pub mod Signals
use tiles_processor.Base.{
  ℕ, suc, ◌+◌, ◌-◌, ◌≡◌, Bool, true, false, not, List, [], ◌∷◌, ◌==◌, if◌then◌else◌, keep, contains,
}

pub record Children : Type 0 where
  -- `_processes`, and those of them whose spawn has not yet tested `_aborting`.
  pub processes : List ℕ
  pub starting : List ℕ
  -- Those with a return code.
  pub exited : List ℕ
  -- Whose groups were sent SIGTERM and SIGKILL.
  pub termed : List ℕ
  pub killed : List ℕ
  pub aborting : Bool
  -- The threads of `abort` that wait.
  pub escalations : ℕ

pub data Signal : Type 0 where
  sigterm sigkill : Signal

abbrev pub no_children : Children
no_children = record {
  processes = [];
  starting = [];
  exited = [];
  termed = [];
  killed = [];
  aborting = false;
  escalations = 0;
}

-- A group that is gone is passed over.
unfoldable pub signal_group : Signal → (pid : ℕ) → Children → Children
signal_group sigterm pid c =
    if contains pid c.exited then c else record c { termed = pid ∷ c.termed }
signal_group sigkill pid c =
    if contains pid c.exited then c else record c { killed = pid ∷ c.killed }

unfoldable pub signal_all : Signal → (procs : List ℕ) → Children → Children
unfolding signal_group
signal_all sig [] c = c
signal_all sig (pid ∷ procs) c = signal_all sig procs (signal_group sig pid c)

abbrev pub live : Children → List ℕ
live c = keep (λ pid. not (contains pid c.exited)) c.processes

-- With the thread that it starts.
unfoldable pub abort : Children → Children
unfolding signal_all
abort c =
    let d : Children = record c { aborting = true } in
    let e = signal_all sigterm (live d) d in record e { escalations = e.escalations + 1 }

-- After the sleep.
unfoldable pub force_kill : Children → Children
unfolding signal_all
force_kill c = let d = signal_all sigkill (live c) c in record d { escalations = d.escalations - 1 }

abbrev pub except : (pid : ℕ) → List ℕ → List ℕ
except pid pids = keep (λ p. not (p == pid)) pids

-- _run_processing_subprocess: the child is added, then `_aborting` is tested.
unfoldable pub add_process : (pid : ℕ) → Children → Children
add_process pid c = record c { processes = pid ∷ c.processes; starting = pid ∷ c.starting }

unfoldable pub test_aborting : (pid : ℕ) → Children → Children
unfolding signal_group
test_aborting pid c =
    let d : Children = record c { starting = except pid c.starting } in
    if c.aborting then signal_group sigterm pid d else d

-- _kill, after the 30 minutes.
unfoldable pub kill : (pid : ℕ) → Children → Children
unfolding signal_group
kill pid c = signal_group sigkill pid c

unfoldable pub discard_process : (pid : ℕ) → Children → Children
discard_process pid c = record c { processes = except pid c.processes }

pub data ChildStep : Children → Children → Type 0 where
  adds :
      {c : Children} (pid : ℕ)
      → contains pid c.processes ≡ false
      → contains pid c.exited ≡ false
      → ChildStep c (add_process pid c)
  tests :
      {c : Children} (pid : ℕ) → contains pid c.starting ≡ true → ChildStep c (test_aborting pid c)
  exits : {c : Children} (pid : ℕ) → ChildStep c (record c { exited = pid ∷ c.exited })
  times_out : {c : Children} (pid : ℕ) → contains pid c.starting ≡ false → ChildStep c (kill pid c)
  discards :
      {c : Children} (pid : ℕ)
      → contains pid c.starting ≡ false
      → ChildStep c (discard_process pid c)
  aborts : {c : Children} → ChildStep c (abort c)
  escalates : {c : Children} (left : ℕ) → c.escalations ≡ suc left → ChildStep c (force_kill c)

pub data Reach (c : Children) : Children → Type 0 where
  here : Reach c c
  next : {d e : Children} → Reach c d → ChildStep d e → Reach c e

-- No further call of `abort`, and no child that is at its time limit.
unfoldable pub is_quiet : {c d : Children} → ChildStep c d → Bool
is_quiet (adds pid fresh alive) = true
is_quiet (tests pid new) = true
is_quiet (exits pid) = true
is_quiet (times_out pid old) = false
is_quiet (discards pid old) = true
is_quiet aborts = false
is_quiet (escalates left some_left) = true

pub data Quiet (c : Children) : Children → Type 0 where
  rests : Quiet c c
  goes : {d e : Children} → Quiet c d → (s : ChildStep d e) → is_quiet s ≡ true → Quiet c e
