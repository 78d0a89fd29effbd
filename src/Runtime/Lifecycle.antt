-- ===== src/Runtime/Lifecycle.antt =====
-- crates/audesys-runtime/src/lifecycle.rs: the supervision of child processes. What the operating system
-- answers is an argument: the result of `try_wait` and that of a new start. A process is a value of a
-- type `H`, and an instant is a number of milliseconds.
pub mod Restarts
pub mod Shutdown
use audesys.Base.{
  ℕ, ◌⊎◌, inl, inr, codes, ◌+◌, ◌-◌, ◌*◌, ◌^◌, Bool, true, false, List, [], ◌∷◌, ◌++◌, map, Option,
  none, some, length, ltb, leb, if◌then◌else◌, codes,
}
use audesys.Base.Words.{ℤ}

abbrev pub max_retries : ℕ
max_retries = 3

abbrev pub backoff_base_ms : ℕ
backoff_base_ms = 1000

abbrev pub restart_window_ms : ℕ
restart_window_ms = 30000

abbrev pub poll_interval_ms : ℕ
poll_interval_ms = 10

-- The reason of a failure, with the message of the system where it has one.
pub data FailureReason : Type 0 where
  spawn_failed : List ℕ → FailureReason
  exceeded wait_failed : FailureReason

-- `stopped` and `exited` are in the source, but no function gives them.
pub data ProcessState : Type 0 where
  running : ProcessState
  exited : Option ℤ → ProcessState
  restarting : ℕ → ℕ → ProcessState
  failed : Option ℤ → FailureReason → ProcessState
  stopped : ProcessState

pub record ChildHealth : Type 0 where
  pub name : List ℕ
  pub state : ProcessState
  pub exit_code : Option ℤ
  pub restart_count : ℕ

pub record ManagedChild (H : Type 0) : Type 0 where
  pub name : List ℕ
  pub process : H
  pub restart_count : ℕ
  pub last_start : ℕ
  pub exit_code : Option ℤ
  pub program : List ℕ
  pub args : List (List ℕ)

-- What `try_wait` gives.
pub data Poll : Type 0 where
  ended : Option ℤ → Poll
  alive : Poll
  unknown : Poll

-- What a start gives: the process, or the message of the error.
pub data Started (H : Type 0) : Type 0 where
  started : H → Started H
  refused : List ℕ → Started H

-- The delay that is reported for an attempt.
abbrev pub backoff_ms : ℕ → ℕ
backoff_ms attempt = backoff_base_ms * 2 ^ (attempt - 1)

-- The polls of one child until it has ended, or the deadline has passed: whether it is note_removed in
-- time, where the results of the polls, with their times, go that far.
unfoldable pub settle : ℕ → List (ℕ × Poll) → Option Bool
settle deadline [] = none
settle deadline ((now, Poll.ended code) ∷ polls) = some true
settle deadline ((now, Poll.alive) ∷ polls) =
    if leb deadline now then some false else settle deadline polls
settle deadline ((now, Poll.unknown) ∷ polls) = some false

module _ {H : Type 0} where
  -- `spawn`, once the system has answered: the children, and the process id or an error.
  unfoldable pub spawn :
      (H → ℕ)
      → Started H
      → ℕ
      → List ℕ
      → List ℕ
      → List (List ℕ)
      → List (ManagedChild H)
      → List (ManagedChild H) × (ℕ ⊎ List ℕ)
  spawn id (refused message) now name program args children =
      (children, inr (codes "Failed to spawn " ++ name ++ codes ": " ++ message))
  spawn id (started process) now name program args children =
      let child : ManagedChild H = record {
        name = name;
        process = process;
        restart_count = 0;
        last_start = now;
        exit_code = none;
        program = program;
        args = args;
      } in
      (children ++ child ∷ [], inl (id process))

  abbrev pub report : ManagedChild H → ProcessState → Option ℤ → ChildHealth
  report child state exit_code = record {
    name = child.name;
    state = state;
    exit_code = exit_code;
    restart_count = child.restart_count;
  }

  -- The counter starts again when the window has passed.
  unfoldable pub note_exit : ℕ → Option ℤ → ManagedChild H → ManagedChild H
  note_exit now code child = record child {
    exit_code = code;
    restart_count =
        if leb restart_window_ms (now - child.last_start) then 0 else child.restart_count;
  }

  unfoldable pub restart : ℕ → Option ℤ → Started H → ManagedChild H → ManagedChild H × ChildHealth
  restart now code (refused message) child =
      (child, report child (ProcessState.failed code (FailureReason.spawn_failed message)) code)
  restart now code (started process) child =
      let attempt = child.restart_count + 1 in
      let child' : ManagedChild H = record child {
        process = process;
        restart_count = attempt;
        last_start = now;
        exit_code = none;
      } in
      (child', report child' (ProcessState.restarting attempt (now + backoff_ms attempt)) code)

  unfoldable pub restart_or_fail :
      ℕ → Option ℤ → Started H → ManagedChild H → ManagedChild H × ChildHealth
  restart_or_fail now code answer child =
      if ltb child.restart_count max_retries
      then restart now code answer child
      else (child, report child (ProcessState.failed code FailureReason.exceeded) code)

  -- The body of the loop of `health_check`.
  unfoldable pub check_child : ℕ → Poll → Started H → ManagedChild H → ManagedChild H × ChildHealth
  check_child now (Poll.ended code) answer child =
      restart_or_fail now code answer (note_exit now code child)
  check_child now Poll.alive answer child = (child, report child ProcessState.running none)
  check_child now Poll.unknown answer child =
      (child, report child (ProcessState.failed none FailureReason.wait_failed) none)

  unfoldable pub health_check :
      ℕ
      → (H → Poll)
      → (ManagedChild H → Started H)
      → List (ManagedChild H)
      → List (ManagedChild H) × List ChildHealth
  health_check now poll start [] = ([], [])
  health_check now poll start (child ∷ children) =
      let (child', health) = check_child now (poll child.process) (start child) child in
      let (rest, healths) = health_check now poll start children in
      (child' ∷ rest, health ∷ healths)

  abbrev pub note_removed :
      ManagedChild H → Option Bool → Option (List (List ℕ)) → Option (List (List ℕ))
  note_removed child (some true) names = names
  note_removed child (some false) (some names) = some (child.name ∷ names)
  note_removed child (some false) none = none
  note_removed child none names = none

  -- The loop of `shutdown_all`: the names of the children that are killed again, once every child
  -- is removed.
  unfoldable pub reap :
      ℕ → (ManagedChild H → List (ℕ × Poll)) → List (ManagedChild H) → Option (List (List ℕ))
  reap deadline polls [] = some []
  reap deadline polls (child ∷ children) =
      note_removed child (settle deadline (polls child)) (reap deadline polls children)

  -- The children that are left, and the names. The loop ends only with no child left.
  unfoldable pub shutdown_all :
      ℕ
      → ℕ
      → (ManagedChild H → List (ℕ × Poll))
      → List (ManagedChild H)
      → Option (List (ManagedChild H) × List (List ℕ))
  shutdown_all start timeout_ms polls children = ended (reap (start + timeout_ms) polls children)
    where
      ended : Option (List (List ℕ)) → Option (List (ManagedChild H) × List (List ℕ))
      ended none = none
      ended (some names) = some ([], names)
