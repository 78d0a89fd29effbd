-- ===== src/Runtime/Lifecycle/Shutdown.antt =====
-- crates/audesys-runtime/src/lifecycle.rs, `shutdown_all`: how long it polls, and which children it
-- names.
use audesys.Base.{
  ℕ, ◌+◌, ◌*◌, ◌≤◌, ◌<◌, ◌≡◌, refl, inl, inr, true, false, Bool-cases, List, [], ◌∷◌, length, some,
  leb, All, arith,
}
use audesys.Runtime.Lifecycle.{
  ManagedChild, Poll, poll_interval_ms, note_removed, settle, reap, shutdown_all,
}

-- The first poll comes at `from` or later, and each other one at least an interval after the poll
-- before it.
abbrev pub IsPaced : ℕ → List (ℕ × Poll) → Type 0
IsPaced from [] = Unit
IsPaced from ((now, _) ∷ polls) = (from ≤ now) × IsPaced (now + poll_interval_ms) polls

-- The polls of a child that ends at a time.
abbrev pub EndsAt : ℕ → List (ℕ × Poll) → Type 0
EndsAt time [] = Unit
EndsAt time ((now, Poll.ended code) ∷ polls) = (time ≤ now) × EndsAt time polls
EndsAt time ((now, Poll.alive) ∷ polls) = (now < time) × EndsAt time polls
EndsAt time ((now, Poll.unknown) ∷ polls) = ⊥

-- The polls of a child that is not found ended.
abbrev pub NeverEnds : List (ℕ × Poll) → Type 0
NeverEnds [] = Unit
NeverEnds ((now, Poll.ended code) ∷ polls) = ⊥
NeverEnds (_ ∷ polls) = NeverEnds polls

pub data Fate : Type 0 where
  ends_at : ℕ → Fate
  never_ends : Fate

abbrev pub Follows : ℕ → Fate → List (ℕ × Poll) → Type 0
Follows deadline (ends_at time) polls = (time ≤ deadline) × EndsAt time polls
Follows deadline never_ends polls = NeverEnds polls

lt→leb : (a b : ℕ) → b < a → leb a b ≡ false
lt→leb a b h = ground arith

-- Polls that start before the next interval behind the deadline, and go on behind it.
abbrev Spans : ℕ → ℕ → List (ℕ × Poll) → Type 0
Spans deadline from polls =
    IsPaced from polls
    × (from < deadline + poll_interval_ms)
    × (deadline + poll_interval_ms ≤ from + poll_interval_ms * length polls)

settle-EndsAt :
    (deadline from time : ℕ) (polls : List (ℕ × Poll))
    → Spans deadline from polls
    → time ≤ deadline
    → EndsAt time polls
    → settle deadline polls ≡ some true
unfolding settle
settle-EndsAt deadline from time [] (paced, before, enough) soon h = absurd (omega arith)
settle-EndsAt deadline from time ((now, Poll.ended code) ∷ polls) spans soon h = refl
settle-EndsAt deadline from time ((now, Poll.unknown) ∷ polls) spans soon h = absurd h
settle-EndsAt deadline from time ((now, Poll.alive) ∷ polls) (paced, before, enough) soon h =
    rw (lt→leb deadline now (omega (arith, h.0))) (
      settle-EndsAt deadline (now + poll_interval_ms) time polls
        (paced.1, omega (arith, h.0), omega (arith, paced.0)) soon h.1)

settle-NeverEnds :
    (deadline from : ℕ) (polls : List (ℕ × Poll))
    → Spans deadline from polls
    → NeverEnds polls
    → settle deadline polls ≡ some false
unfolding settle
settle-NeverEnds deadline from [] (paced, before, enough) h = absurd (omega arith)
settle-NeverEnds deadline from ((now, Poll.ended code) ∷ polls) spans h = absurd h
settle-NeverEnds deadline from ((now, Poll.unknown) ∷ polls) spans h = refl
settle-NeverEnds deadline from ((now, Poll.alive) ∷ polls) (paced, before, enough) h =
    elim (Bool-cases (leb deadline now)) [
      | inl over ↦ rw over refl
      | inr early ↦ rw early (
          settle-NeverEnds deadline (now + poll_interval_ms) polls
            (paced.1, omega (arith, not_leb deadline now early), omega (arith, paced.0)) h)
    ]
  where
    not_leb : (a b : ℕ) → leb a b ≡ false → b < a
    not_leb a b h = ground arith

module _ {H : Type 0} where
  abbrev with_survivor : ManagedChild H → Fate → List (List ℕ) → List (List ℕ)
  with_survivor child (ends_at time) names = names
  with_survivor child never_ends names = child.name ∷ names

  -- The names of the children that never end.
  abbrev pub survivors : (ManagedChild H → Fate) → List (ManagedChild H) → List (List ℕ)
  survivors fate [] = []
  survivors fate (child ∷ children) = with_survivor child (fate child) (survivors fate children)

  -- A child is polled for longer than the timeout, and its polls follow its fate.
  abbrev pub IsPolled :
      ℕ → ℕ → (ManagedChild H → List (ℕ × Poll)) → (ManagedChild H → Fate) → ManagedChild H → Type 0
  IsPolled start timeout_ms polls fate child =
      IsPaced start (polls child)
      × (timeout_ms + poll_interval_ms ≤ poll_interval_ms * length (polls child))
      × Follows (start + timeout_ms) (fate child) (polls child)

  reap-survivors :
      (start timeout_ms : ℕ) (polls : ManagedChild H → List (ℕ × Poll))
      (fate : ManagedChild H → Fate) (children : List (ManagedChild H))
      → All (IsPolled start timeout_ms polls fate) children
      → reap (start + timeout_ms) polls children ≡ some (survivors fate children)
  unfolding reap
  reap-survivors start timeout_ms polls fate [] h = refl
  reap-survivors start timeout_ms polls fate (child ∷ children) ((paced, enough, follows), h) =
      rw (reap-survivors start timeout_ms polls fate children h) (go (fate child) follows)
    where
      spans : Spans (start + timeout_ms) start (polls child)
      spans = (paced, omega arith, omega arith)

      go :
          (f : Fate)
          → Follows (start + timeout_ms) f (polls child)
          → note_removed child
              (settle (start + timeout_ms) (polls child))
              (some (survivors fate children))
            ≡ some (with_survivor child f (survivors fate children))
      go (ends_at time) (soon, ends) =
          rw (settle-EndsAt (start + timeout_ms) start time (polls child) spans soon ends) refl
      go never_ends lives =
          rw (settle-NeverEnds (start + timeout_ms) start (polls child) spans lives) refl

  -- Where a child is polled first at the start of the shutdown or later and again after ten
  -- milliseconds or more each time, for more polls than the timeout has intervals, and either ends
  -- by the deadline or is never found ended, the shutdown ends with no child left, and names
  -- exactly the children that are never found ended, in their order.
  pub shutdown_all-survivors :
      (start timeout_ms : ℕ) (polls : ManagedChild H → List (ℕ × Poll))
      (fate : ManagedChild H → Fate) (children : List (ManagedChild H))
      → All (IsPolled start timeout_ms polls fate) children
      → shutdown_all start timeout_ms polls children ≡ some ([], survivors fate children)
  unfolding shutdown_all
  shutdown_all-survivors start timeout_ms polls fate children h =
      rw (reap-survivors start timeout_ms polls fate children h) refl
