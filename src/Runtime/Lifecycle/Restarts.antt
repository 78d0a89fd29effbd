-- ===== src/Runtime/Lifecycle/Restarts.antt =====
-- crates/audesys-runtime/src/lifecycle.rs, `health_check`: the restarts of a child.
use audesys.Base.{
  ℕ, ◌+◌, ◌-◌, ◌<◌, ◌≤◌, ◌≡◌, refl, ◌∙◌, ap, inl, inr, Bool, true, false, Bool-cases, List, [], ◌∷◌,
  Option, ltb, ltb→lt, lt→ltb, le→ltb, leb, le→leb, if◌then◌else◌, All, All-append, arith,
}
use audesys.Base.Words.{ℤ}
use audesys.Runtime.Lifecycle.{
  max_retries, restart_window_ms, backoff_ms, ProcessState, ChildHealth, ManagedChild, Poll,
  Started, FailureReason, spawn, report, note_exit, restart, restart_or_fail, check_child,
  health_check,
}

-- A restart is one of three, and is reported for the time of its backoff.
abbrev pub IsState : ℕ → ProcessState → Type 0
IsState now (ProcessState.restarting attempt next_at) =
    (1 ≤ attempt) × (attempt ≤ max_retries) × (next_at ≡ now + backoff_ms attempt)
IsState now _ = Unit

module _ {H : Type 0} where
  -- The restarts that are counted.
  abbrev pub IsManaged : ManagedChild H → Type 0
  IsManaged child = child.restart_count ≤ max_retries

  restart-IsState :
      (now : ℕ) (code : Option ℤ) (answer : Started H) (child : ManagedChild H)
      → child.restart_count < max_retries
      → IsManaged (restart now code answer child).0
        × IsState now (restart now code answer child).1.state
  unfolding restart
  restart-IsState now code (Started.refused message) child h = (omega arith, tt)
  restart-IsState now code (Started.started process) child h =
      (omega arith, (omega arith, omega arith, refl))

  restart_or_fail-IsState :
      (now : ℕ) (code : Option ℤ) (answer : Started H) (child : ManagedChild H)
      → IsManaged child
      → IsManaged (restart_or_fail now code answer child).0
        × IsState now (restart_or_fail now code answer child).1.state
  unfolding restart_or_fail
  restart_or_fail-IsState now code answer child h =
      elim (Bool-cases (ltb child.restart_count max_retries)) [
        | inl few ↦
            rw few
              (restart-IsState now code answer child (ltb→lt child.restart_count max_retries few))
        | inr many ↦ rw many (h, tt)
      ]

  IsManaged-note_exit :
      (now : ℕ) (code : Option ℤ) (child : ManagedChild H)
      → IsManaged child
      → IsManaged (note_exit now code child)
  unfolding note_exit
  IsManaged-note_exit now code child h = cases (leb restart_window_ms (now - child.last_start))
    where
      cases : (b : Bool) → (if b then 0 else child.restart_count) ≤ max_retries
      cases true = omega arith
      cases false = h

  check_child-IsState :
      (now : ℕ) (poll : Poll) (answer : Started H) (child : ManagedChild H)
      → IsManaged child
      → IsManaged (check_child now poll answer child).0
        × IsState now (check_child now poll answer child).1.state
  unfolding check_child
  check_child-IsState now (Poll.ended code) answer child h =
      restart_or_fail-IsState now code answer (note_exit now code child)
        (IsManaged-note_exit now code child h)
  check_child-IsState now Poll.alive answer child h = (h, tt)
  check_child-IsState now Poll.unknown answer child h = (h, tt)

  health_check-AllManaged :
      (now : ℕ) (poll : H → Poll) (start : ManagedChild H → Started H)
      (children : List (ManagedChild H))
      → All IsManaged children
      → All IsManaged (health_check now poll start children).0
        × All (λ (c : ChildHealth). IsState now c.state) (health_check now poll start children).1
  unfolding health_check
  health_check-AllManaged now poll start [] h = (tt, tt)
  health_check-AllManaged now poll start (child ∷ children) (here, h) =
      let (a, b) = check_child-IsState now (poll child.process) (start child) child here in
      let (c, d) = health_check-AllManaged now poll start children h in ((a, c), (b, d))

  -- The children that are managed after some starts and checks.
  pub data Managed : List (ManagedChild H) → Type 0 where
    nobody : Managed []
    spawns :
        {children : List (ManagedChild H)} (id : H → ℕ) (answer : Started H) (now : ℕ)
        (name program : List ℕ) (args : List (List ℕ))
        → Managed children
        → Managed (spawn id answer now name program args children).0
    checks :
        {children : List (ManagedChild H)} (now : ℕ) (poll : H → Poll)
        (start : ManagedChild H → Started H)
        → Managed children
        → Managed (health_check now poll start children).0

  All-Managed : {children : List (ManagedChild H)} → Managed children → All IsManaged children
  unfolding spawn
  All-Managed nobody = tt
  All-Managed (spawns id (Started.refused message) now name program args m) = All-Managed m
  All-Managed (spawns {children} id (Started.started process) now name program args m) =
      All-append IsManaged children _ (All-Managed m) (omega arith, tt)
  All-Managed (checks {children} now poll start m) =
      (health_check-AllManaged now poll start children (All-Managed m)).0

  -- Whatever starts and checks there have been, and whatever the system answers, a check reports
  -- restarts only with an attempt from one to three and the time of its backoff.
  pub health_check-IsState :
      {children : List (ManagedChild H)} (now : ℕ) (poll : H → Poll)
      (start : ManagedChild H → Started H)
      → Managed children
      → All (λ (c : ChildHealth). IsState now c.state) (health_check now poll start children).1
  health_check-IsState {children} now poll start m =
      (health_check-AllManaged now poll start children (All-Managed m)).1

  -- The states that are reported of a child that has ended at each of the times, and starts again.
  unfoldable pub crashes : Option ℤ → H → List ℕ → ManagedChild H → List ProcessState
  crashes code process [] child = []
  crashes code process (now ∷ times) child =
      let (child', health) = check_child now (Poll.ended code) (Started.started process) child in
      health.state ∷ crashes code process times child'

  restarted :
      (code : Option ℤ) (process : H) (now : ℕ) (child : ManagedChild H)
      → (note_exit now code child).restart_count < max_retries
      → check_child now (Poll.ended code) (Started.started process) child
        ≡ restart now code (Started.started process) (note_exit now code child)
  unfolding check_child restart_or_fail
  restarted code process now child few =
      rw (lt→ltb (note_exit now code child).restart_count max_retries few) refl

  given_up :
      (code : Option ℤ) (process : H) (now : ℕ) (child : ManagedChild H)
      → max_retries ≤ (note_exit now code child).restart_count
      → check_child now (Poll.ended code) (Started.started process) child ≡ (
        note_exit now code child,
        report (note_exit now code child) (ProcessState.failed code FailureReason.exceeded) code,
      )
  unfolding check_child restart_or_fail
  given_up code process now child many =
      rw (le→ltb (note_exit now code child).restart_count max_retries many) refl

  -- A child with its counter and the time of its last start.
  abbrev IsAt : ℕ → ℕ → ManagedChild H → Type 0
  IsAt n at child = (child.restart_count ≡ n) × (child.last_start ≡ at)

  -- The counter that a check finds.
  counted_within :
      (code : Option ℤ) (now n at : ℕ) (child : ManagedChild H)
      → IsAt n at child
      → now - at < restart_window_ms
      → (note_exit now code child).restart_count ≡ n
  unfolding note_exit
  counted_within code now n at child (count, last) h = rw (last, outside (now - at) h) count
    where
      outside : (k : ℕ) → k < restart_window_ms → leb restart_window_ms k ≡ false
      outside k h = grind arith

  counted_after :
      (code : Option ℤ) (now at : ℕ) (child : ManagedChild H)
      → child.last_start ≡ at
      → restart_window_ms ≤ now - at
      → (note_exit now code child).restart_count ≡ 0
  unfolding note_exit
  counted_after code now at child last h = rw (last, le→leb restart_window_ms (now - at) h) refl

  crashes-restart :
      (code : Option ℤ) (process : H) (now : ℕ) (times : List ℕ) (child : ManagedChild H) (n : ℕ)
      → (note_exit now code child).restart_count ≡ n
      → n < max_retries
      → (child' : ManagedChild H) × IsAt (n + 1) now child'
        × (crashes code process (now ∷ times) child
            ≡ ProcessState.restarting (n + 1) (now + backoff_ms (n + 1))
              ∷ crashes code process times child')
  unfolding crashes restart
  crashes-restart code process now times child n counted few =
      let child' = (restart now code (Started.started process) (note_exit now code child)).0 in
      (
        child',
        (ap (λ k. k + 1) counted, refl),
        ap (λ r. r.1.state ∷ crashes code process times r.0)
              (restarted code process now child (rw counted few))
            ∙ ap
                (λ k.
                  ProcessState.restarting (k + 1) (now + backoff_ms (k + 1))
                  ∷ crashes code process times child')
                counted,
      )

  crashes-failed :
      (code : Option ℤ) (process : H) (now : ℕ) (times : List ℕ) (child : ManagedChild H) (at : ℕ)
      → IsAt max_retries at child
      → now - at < restart_window_ms
      → (child' : ManagedChild H) × IsAt max_retries at child'
        × (crashes code process (now ∷ times) child
            ≡ ProcessState.failed code FailureReason.exceeded ∷ crashes code process times child')
  unfolding crashes note_exit
  crashes-failed code process now times child at is_at h =
      let counted = counted_within code now max_retries at child is_at h in
      (
        note_exit now code child,
        (counted, is_at.1),
        ap (λ r. r.1.state ∷ crashes code process times r.0)
            (given_up code process now child (rw counted (omega arith))),
      )

  counted_new :
      (code : Option ℤ) (now : ℕ) (child : ManagedChild H)
      → child.restart_count ≡ 0
      → (note_exit now code child).restart_count ≡ 0
  unfolding note_exit
  counted_new code now child new = cases (leb restart_window_ms (now - child.last_start))
    where
      cases : (b : Bool) → (if b then 0 else child.restart_count) ≡ 0
      cases true = refl
      cases false = new

  -- A child that has just been started, and is found ended by five checks, of which the second to
  -- the fourth come before the window since the check before has passed and the fifth comes after
  -- the window since the third, where each start succeeds: it is restarted three times, with the
  -- attempts counted and the backoff doubled, then reported as failed, and then restarted as if it
  -- had never failed.
  pub crashes_states :
      (code : Option ℤ) (process : H) (child : ManagedChild H) (t₁ t₂ t₃ t₄ t₅ : ℕ)
      → child.restart_count ≡ 0
      → t₂ - t₁ < restart_window_ms
      → t₃ - t₂ < restart_window_ms
      → t₄ - t₃ < restart_window_ms
      → restart_window_ms ≤ t₅ - t₃
      → crashes code process (t₁ ∷ t₂ ∷ t₃ ∷ t₄ ∷ t₅ ∷ []) child
        ≡ ProcessState.restarting 1 (t₁ + 1000)
          ∷ ProcessState.restarting 2 (t₂ + 2000)
          ∷ ProcessState.restarting 3 (t₃ + 4000)
          ∷ ProcessState.failed code FailureReason.exceeded
          ∷ ProcessState.restarting 1 (t₅ + 1000)
          ∷ []
  unfolding crashes
  crashes_states code process child t₁ t₂ t₃ t₄ t₅ new h₂ h₃ h₄ h₅ =
      let few₀ : 0 < max_retries = omega arith in
      let few₁ : 1 < max_retries = omega arith in
      let few₂ : 2 < max_retries = omega arith in
      let (c₁, at₁, e₁) =
        crashes-restart code process t₁ (t₂ ∷ t₃ ∷ t₄ ∷ t₅ ∷ []) child 0
          (counted_new code t₁ child new) few₀ in
      let (c₂, at₂, e₂) =
        crashes-restart code process t₂ (t₃ ∷ t₄ ∷ t₅ ∷ []) c₁ 1
          (counted_within code t₂ 1 t₁ c₁ at₁ h₂) few₁ in
      let (c₃, at₃, e₃) =
        crashes-restart code process t₃ (t₄ ∷ t₅ ∷ []) c₂ 2 (counted_within code t₃ 2 t₂ c₂ at₂ h₃)
          few₂ in
      let (c₄, at₄, e₄) = crashes-failed code process t₄ (t₅ ∷ []) c₃ t₃ at₃ h₄ in
      let (c₅, at₅, e₅) =
        crashes-restart code process t₅ [] c₄ 0 (counted_after code t₅ t₃ c₄ at₄.1 h₅) few₀ in
      e₁
      ∙ ap (λ r. ProcessState.restarting 1 (t₁ + 1000) ∷ r) e₂
      ∙ ap (λ r. ProcessState.restarting 1 (t₁ + 1000) ∷ ProcessState.restarting 2 (t₂ + 2000) ∷ r)
          e₃
      ∙ ap
          (λ r.
            ProcessState.restarting 1 (t₁ + 1000)
            ∷ ProcessState.restarting 2 (t₂ + 2000)
            ∷ ProcessState.restarting 3 (t₃ + 4000)
            ∷ r)
          e₄
      ∙ ap
          (λ r.
            ProcessState.restarting 1 (t₁ + 1000)
            ∷ ProcessState.restarting 2 (t₂ + 2000)
            ∷ ProcessState.restarting 3 (t₃ + 4000)
            ∷ ProcessState.failed code FailureReason.exceeded
            ∷ r)
          e₅
