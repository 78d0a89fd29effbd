-- ===== src/Amw/Qos/Locking.antt =====
-- The lock level over any sequence of calls, and over calls that interleave.
use audesys.Base.{
  ℕ, ◌≤◌, ◌<◌, ◌≡◌, refl, arith, false, ltb, Bool-cases, inl, inr, List, length, le→ltb,
}
use audesys.Amw.Qos.{
  LockLevel, to_u8, level_of, load_level, InprocQos, ConfigCommand, store_level, set_lock_level,
  can_queue, queue_config, apply_queued, register_entity, tag_security_domain, required_lock_level,
}

pub level_of-to_u8 : (level : LockLevel) → level_of (to_u8 level) ≡ level
unfolding level_of to_u8
level_of-to_u8 LockLevel.unlocked = refl
level_of-to_u8 LockLevel.load = refl
level_of-to_u8 LockLevel.config = refl
level_of-to_u8 LockLevel.params = refl
level_of-to_u8 LockLevel.run = refl
level_of-to_u8 LockLevel.all = refl

-- A call that changes the state.
pub data Call (q : InprocQos) : InprocQos → Type 0 where
  sets : (level : LockLevel) → Call q (set_lock_level level q).0
  queues : (cmd : ConfigCommand) → Call q (queue_config cmd q).0
  applies : Call q (apply_queued q).0
  registers : (entity_id : List ℕ) → Call q (register_entity entity_id q)
  tags : (name domain : List ℕ) → Call q (tag_security_domain name domain q)

-- Any number of calls, one after the other.
pub data Calls (q : InprocQos) : InprocQos → Type 0 where
  done : Calls q q
  then_call : {r s : InprocQos} → Calls q r → Call r s → Calls q s

abbrev pub rank : InprocQos → ℕ
rank q = to_u8 (load_level q)

set_lock_level_grows :
    (level : LockLevel) (q : InprocQos) → rank q ≤ rank (set_lock_level level q).0
unfolding set_lock_level store_level
set_lock_level_grows level q = elim (Bool-cases (ltb (to_u8 level) (rank q))) [
  | inl e ↦ rw e (omega arith)
  | inr e ↦ rw (e, level_of-to_u8 level) (ground arith)
]

rank-queue_config : (cmd : ConfigCommand) (q : InprocQos) → rank (queue_config cmd q).0 ≡ rank q
unfolding queue_config
rank-queue_config cmd q =
    elim (Bool-cases (can_queue (load_level q) (required_lock_level cmd.method))) [
      | inl e ↦ rw e
      | inr e ↦ rw e
    ]

Call-grows : {q r : InprocQos} → Call q r → rank q ≤ rank r
unfolding apply_queued register_entity tag_security_domain
Call-grows {q} (Call.sets level) = set_lock_level_grows level q
Call-grows {q} (Call.queues cmd) = omega (arith, rank-queue_config cmd q)
Call-grows Call.applies = omega arith
Call-grows (Call.registers e) = omega arith
Call-grows (Call.tags n d) = omega arith

-- Over any sequence of calls of the in-process QoS controller the lock level never falls.
pub Calls-grow : {q r : InprocQos} → Calls q r → rank q ≤ rank r
Calls-grow done = omega arith
Calls-grow (then_call cs c) = omega (arith, Calls-grow cs, Call-grows c)

closed_at_run :
    (current required : LockLevel) → 4 ≤ to_u8 current → can_queue current required ≡ false
unfolding can_queue to_u8
closed_at_run LockLevel.unlocked required h = absurd (omega arith)
closed_at_run LockLevel.load required h = absurd (omega arith)
closed_at_run LockLevel.config required h = absurd (omega arith)
closed_at_run LockLevel.params required h = absurd (omega arith)
closed_at_run LockLevel.run required h = refl
closed_at_run LockLevel.all required h = refl

Call-closed :
    {q r : InprocQos} → Call q r → 4 ≤ rank q → length r.config_queue ≤ length q.config_queue
unfolding set_lock_level store_level queue_config apply_queued register_entity tag_security_domain
Call-closed {q} (Call.sets level) h = elim (Bool-cases (ltb (to_u8 level) (rank q))) [
  | inl e ↦ rw e (omega arith)
  | inr e ↦ rw e (omega arith)
]
Call-closed {q} (Call.queues cmd) h =
    rw (closed_at_run (load_level q) (required_lock_level cmd.method) h) (omega arith)
Call-closed Call.applies h = omega arith
Call-closed (Call.registers e) h = omega arith
Call-closed (Call.tags n d) h = omega arith

-- From the lock level Run on, no sequence of calls makes the queue of commands longer.
pub Calls-closed :
    {q r : InprocQos} → Calls q r → 4 ≤ rank q → length r.config_queue ≤ length q.config_queue
Calls-closed done h = omega arith
Calls-closed (then_call cs c) h =
    let lo = Calls-grow cs in
    let before = Calls-closed cs h in let now = Call-closed c (omega arith) in omega arith

-- Of two calls that set the lock level, where one reads the level, the other raises it, and the
-- first then stores a lower one that is no lower than the level it read, both give the same status
-- and the level falls.
pub interleaved_set_falls :
    (q : InprocQos) (low high : LockLevel)
    → rank q ≤ to_u8 low
    → to_u8 low < to_u8 high
    → let (raised, first) = set_lock_level high q in
      let (after, second) = store_level (load_level q) low raised in
      ((load_level raised ≡ high) × (load_level after ≡ low)) × (first ≡ second)
unfolding set_lock_level store_level
interleaved_set_falls q low high h k =
    rw
      (
        le→ltb (to_u8 high) (rank q) (omega arith),
        le→ltb (to_u8 low) (rank q) h,
        level_of-to_u8 high,
        level_of-to_u8 low,
      )
      ((refl, refl), refl)
