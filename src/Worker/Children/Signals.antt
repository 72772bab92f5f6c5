-- ===== src/Worker/Children/Signals.antt =====
-- Which children are sent which signal.
use tiles_processor.Base.{
  ℕ, ◌≡◌, refl, ap, ◌∙◌, Bool, true, false, not, ◌&&◌, ◌||◌, List, [], ◌∷◌, ◌==◌, keep, contains,
  arith,
}
use tiles_processor.Worker.Children.{
  Children, Signal, sigterm, sigkill, no_children, signal_group, signal_all, live, abort,
  force_kill, add_process, test_aborting, kill, discard_process, ChildStep, adds, tests, exits,
  times_out, discards, aborts, escalates, Reach, here, next, is_quiet, Quiet, rests, goes,
}

contains-keep :
    (p : ℕ) (test : ℕ → Bool) (xs : List ℕ) → contains p (keep test xs) ≡ (contains p xs && test p)
unfolding contains
contains-keep p test [] = refl
contains-keep p test (x ∷ xs) = ground (arith, contains-keep p test xs)

-- What signalling leaves alone.
record IsFramed (c d : Children) : Type 0 where
  processes : d.processes ≡ c.processes
  starting : d.starting ≡ c.starting
  exited : d.exited ≡ c.exited
  aborting : d.aborting ≡ c.aborting
  escalations : d.escalations ≡ c.escalations

signal_all-IsFramed :
    (sig : Signal) (procs : List ℕ) (c : Children) → IsFramed c (signal_all sig procs c)
unfolding signal_all signal_group
signal_all-IsFramed sig [] c = record {
  processes = refl;
  starting = refl;
  exited = refl;
  aborting = refl;
  escalations = refl;
}
signal_all-IsFramed sigterm (pid ∷ procs) c =
    let h = signal_all-IsFramed sigterm procs (signal_group sigterm pid c) in
    record {
      processes = ground (arith, h.processes);
      starting = ground (arith, h.starting);
      exited = ground (arith, h.exited);
      aborting = ground (arith, h.aborting);
      escalations = ground (arith, h.escalations);
    }
signal_all-IsFramed sigkill (pid ∷ procs) c =
    let h = signal_all-IsFramed sigkill procs (signal_group sigkill pid c) in
    record {
      processes = ground (arith, h.processes);
      starting = ground (arith, h.starting);
      exited = ground (arith, h.exited);
      aborting = ground (arith, h.aborting);
      escalations = ground (arith, h.escalations);
    }

termed-signal_all :
    (p : ℕ) (procs : List ℕ) (c : Children)
    → contains p (signal_all sigterm procs c).termed
      ≡ (contains p c.termed || (contains p procs && not (contains p c.exited)))
unfolding signal_all signal_group contains
termed-signal_all p [] c = ground arith
termed-signal_all p (pid ∷ procs) c =
    ground (arith, termed-signal_all p procs (signal_group sigterm pid c))

killed-signal_all : (procs : List ℕ) (c : Children) → (signal_all sigterm procs c).killed ≡ c.killed
unfolding signal_all signal_group
killed-signal_all [] c = refl
killed-signal_all (pid ∷ procs) c =
    ground (arith, killed-signal_all procs (signal_group sigterm pid c))

termed-sigkill : (procs : List ℕ) (c : Children) → (signal_all sigkill procs c).termed ≡ c.termed
unfolding signal_all signal_group
termed-sigkill [] c = refl
termed-sigkill (pid ∷ procs) c = ground (arith, termed-sigkill procs (signal_group sigkill pid c))

-- What is to hold of a child, once a shutdown began.
abbrev pub Covered : (pid : ℕ) → Children → Type 0
Covered pid c =
    c.aborting ≡ true
    → contains pid c.processes ≡ true
    → contains pid c.exited ≡ false
    → contains pid c.starting ≡ false
    → contains pid c.termed ≡ true

abort-Covered : (p : ℕ) (c : Children) → Covered p (abort c)
unfolding abort
abort-Covered p c =
    let d : Children = record c { aborting = true } in
    let h = signal_all-IsFramed sigterm (live d) d in
    let t = termed-signal_all p (live d) d in
    let k = contains-keep p (λ pid. not (contains pid c.exited)) c.processes in
    λ on inside alive old. ground (arith, h.processes, h.exited, h.starting, t, k)

ChildStep-Covered : {c d : Children} (p : ℕ) → ChildStep c d → Covered p c → Covered p d
unfolding add_process test_aborting kill discard_process force_kill signal_group contains
ChildStep-Covered p (adds pid fresh alive) h = λ on inside live_p old. ground (arith, h)
ChildStep-Covered {c} p (tests pid new) h =
    let k = contains-keep p (λ q. not (q == pid)) c.starting in
    λ on inside live_p old. ground (arith, h, k)
ChildStep-Covered p (exits pid) h = λ on inside live_p old. ground (arith, h)
ChildStep-Covered p (times_out pid old_pid) h = λ on inside live_p old. ground (arith, h)
ChildStep-Covered {c} p (discards pid old_pid) h =
    let k = contains-keep p (λ q. not (q == pid)) c.processes in
    λ on inside live_p old. ground (arith, h, k)
ChildStep-Covered p aborts h = abort-Covered p _
ChildStep-Covered {c} p (escalates left some_left) h =
    let f = signal_all-IsFramed sigkill (live c) c in
    let t = termed-sigkill (live c) c in
    λ on inside live_p old. ground (arith, h, f.processes, f.exited, f.starting, f.aborting, t)

Reach-Covered : {c d : Children} (p : ℕ) → Covered p c → Reach c d → Covered p d
Reach-Covered p h here = h
Reach-Covered p h (next r s) = ChildStep-Covered p s (Reach-Covered p h r)

-- From a worker without children, whatever the order of the steps: once a shutdown began, each
-- child in the set that runs and whose spawn has tested `_aborting` was sent SIGTERM.
pub Reach-termed :
    {c : Children} (pid : ℕ)
    → Reach no_children c
    → c.aborting ≡ true
    → contains pid c.processes ≡ true
    → contains pid c.exited ≡ false
    → contains pid c.starting ≡ false
    → contains pid c.termed ≡ true
Reach-termed pid r on inside alive old = Reach-Covered pid (λ off. search) r on inside alive old

ChildStep-killed :
    {c d : Children} (s : ChildStep c d)
    → is_quiet s ≡ true
    → c.escalations ≡ 0
    → (d.killed ≡ c.killed) × (d.escalations ≡ 0)
unfolding add_process test_aborting discard_process signal_group is_quiet
ChildStep-killed (adds pid fresh alive) calm none_left = (refl, none_left)
ChildStep-killed (tests pid new) calm none_left = ground (arith, none_left)
ChildStep-killed (exits pid) calm none_left = (refl, none_left)
ChildStep-killed (times_out pid old) calm none_left = ground (arith, calm)
ChildStep-killed (discards pid old) calm none_left = (refl, none_left)
ChildStep-killed aborts calm none_left = ground (arith, calm)
ChildStep-killed (escalates left some_left) calm none_left = ground (arith, some_left, none_left)

Quiet-killed :
    {c d : Children} → c.escalations ≡ 0 → Quiet c d → (d.killed ≡ c.killed) × (d.escalations ≡ 0)
Quiet-killed none_left rests = (refl, none_left)
Quiet-killed none_left (goes q s calm) =
    let h = Quiet-killed none_left q in let t = ChildStep-killed s calm h.1 in (t.0 ∙ h.0, t.1)

-- A child that is spawned during a shutdown when no thread of `abort` waits any more, that runs and
-- was not sent SIGKILL, is sent SIGTERM. It is not sent SIGKILL, in whatever steps follow without
-- another call of `abort` and without a child at its time limit.
pub late-killed :
    (c : Children) {d : Children} (pid : ℕ)
    → c.aborting ≡ true
    → c.escalations ≡ 0
    → contains pid c.exited ≡ false
    → contains pid c.killed ≡ false
    → Quiet (test_aborting pid (add_process pid c)) d
    → (contains pid (test_aborting pid (add_process pid c)).termed ≡ true)
      × (contains pid d.killed ≡ false)
unfolding add_process test_aborting signal_group contains
late-killed c pid on none_left alive spared q =
    let start = test_aborting pid (add_process pid c) in
    let calm : (start.killed ≡ c.killed) × (start.escalations ≡ 0) =
      ground (arith, on, alive, none_left) in
    let h = Quiet-killed calm.1 q in
    (ground (arith, on, alive), ap (contains pid) (h.0 ∙ calm.0) ∙ spared)
