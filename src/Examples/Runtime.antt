-- ===== src/Examples/Runtime.antt =====
-- Runs of the supervision of child processes, and the theorems at those runs.
use audesys.Base.{ℕ, ◌≡◌, refl, List, [], ◌∷◌, none, some, All, arith, codes, ◌==◌, if◌then◌else◌}
use audesys.Base.Words.{pos}
use audesys.Runtime.Lifecycle.{
  ManagedChild, ProcessState, ChildHealth, FailureReason, Poll, Started, shutdown_all, health_check,
  spawn,
}
use audesys.Runtime.Lifecycle.Restarts.{
  IsState, Managed, nobody, spawns, checks, crashes, crashes_states, health_check-IsState,
}
use audesys.Runtime.Lifecycle.Shutdown.{Fate, shutdown_all-survivors}

abbrev child_of : List ℕ → ℕ → ManagedChild ℕ
child_of name process = record {
  name = name;
  process = process;
  restart_count = 0;
  last_start = 0;
  exit_code = none;
  program = codes "/bin/true";
  args = [];
}

abbrev three_children : List (ManagedChild ℕ)
three_children = child_of (codes "a") 1 ∷ child_of (codes "b") 2 ∷ child_of (codes "c") 3 ∷ []

-- The process 1 ends at the time 10, the process 2 never, and the state of another is unknown.
abbrev polls_of : ManagedChild ℕ → List (ℕ × Poll)
polls_of child =
    if child.process == 1
    then (5, Poll.alive) ∷ (15, Poll.ended (some (pos 0))) ∷ (25, Poll.ended (some (pos 0))) ∷ []
    else if child.process == 2
    then (6, Poll.alive) ∷ (16, Poll.alive) ∷ (30, Poll.alive) ∷ []
    else (5, Poll.unknown) ∷ (16, Poll.unknown) ∷ (30, Poll.alive) ∷ []

abbrev fate_of : ManagedChild ℕ → Fate
fate_of child = if child.process == 1 then Fate.ends_at 10 else Fate.never_ends

shutdown_all-survivors_example :
    shutdown_all 5 20 polls_of three_children ≡ some ([], codes "b" ∷ codes "c" ∷ [])
shutdown_all-survivors_example = shutdown_all-survivors 5 20 polls_of fate_of three_children (
  (
    (omega arith, (omega arith, (omega arith, tt))),
    omega arith,
    (omega arith, (omega arith, (omega arith, (omega arith, tt)))),
  ),
  (
    ((omega arith, (omega arith, (omega arith, tt))), omega arith, tt),
    (((omega arith, (omega arith, (omega arith, tt))), omega arith, tt), tt),
  ),
)

crashes_states_example :
    crashes (some (pos 1)) 7 (5 ∷ 1000 ∷ 2000 ∷ 3000 ∷ 40000 ∷ []) (child_of (codes "a") 1)
    ≡ ProcessState.restarting 1 1005
      ∷ ProcessState.restarting 2 3000
      ∷ ProcessState.restarting 3 6000
      ∷ ProcessState.failed (some (pos 1)) FailureReason.exceeded
      ∷ ProcessState.restarting 1 41000
      ∷ []
crashes_states_example =
    crashes_states (some (pos 1)) 7 (child_of (codes "a") 1) 5 1000 2000 3000 40000 refl
      (omega arith) (omega arith) (omega arith) (omega arith)

abbrev poll_of : ℕ → Poll
poll_of process = Poll.ended (some (pos 1))

abbrev start_again : ManagedChild ℕ → Started ℕ
start_again child = Started.started 7

abbrev one_started : List (ManagedChild ℕ)
one_started = (spawn (λ p. p) (Started.started 1) 0 (codes "a") (codes "/bin/false") [] []).0

one_restarted : Managed (health_check 40 poll_of start_again one_started).0
one_restarted =
    checks 40 poll_of start_again
      (spawns (λ p. p) (Started.started 1) 0 (codes "a") (codes "/bin/false") [] nobody)

health_check-IsState_example :
    All
      (λ (c : ChildHealth). IsState 50 c.state)
      (health_check 50 poll_of start_again (health_check 40 poll_of start_again one_started).0).1
health_check-IsState_example = health_check-IsState 50 poll_of start_again one_restarted
