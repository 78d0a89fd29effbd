-- ===== src/Examples/Middleware.antt =====
-- The lock level and the configuration queue: examples.
use audesys.Base.{◌≤◌, ◌≡◌, ◌↔◌, arith, [], ◌∷◌, length}
use audesys.Amw.Qos.{
  LockLevel, InprocQos, new_qos, load_level, store_level, set_lock_level, ConfigCommand,
  ConfigStatus, queue_config, apply_queued, to_u8, level_of,
}
use audesys.Amw.Qos.Locking.{Call, Calls, rank, Calls-grow, Calls-closed, interleaved_set_falls}
use audesys.Amw.Qos.Queue.{IsAdmitted, queue_config-IsAdmitted}

-- The method "configureComponent".
abbrev configure : ConfigCommand
configure = record {
  id = 7;
  method =
      99 ∷ 111 ∷ 110 ∷ 102 ∷ 105 ∷ 103 ∷ 117 ∷ 114 ∷ 101 ∷ 67 ∷ 111 ∷ 109 ∷ 112 ∷ 111 ∷ 110 ∷ 101
      ∷ 110 ∷ 116 ∷ [];
  params = [];
  queued_at = 0;
}

abbrev waiting : InprocQos
waiting = record new_qos { config_queue = configure ∷ [] }

abbrev at_level : LockLevel → InprocQos
at_level level = (set_lock_level level waiting).0

Calls-grow_example : rank waiting ≤ rank (apply_queued (at_level LockLevel.config)).0
Calls-grow_example =
    Calls-grow
      (Calls.then_call (Calls.then_call Calls.done (Call.sets LockLevel.config)) Call.applies)

Calls-closed_example :
    length (queue_config configure (record waiting { lock_level = 4 })).0.config_queue ≤ 1
Calls-closed_example =
    Calls-closed (Calls.then_call Calls.done (Call.queues configure))
      (unfold to_u8 level_of in omega arith)

interleaved_set_falls_example :
    ((load_level (at_level LockLevel.run) ≡ LockLevel.run)
      × (load_level (store_level (load_level waiting) LockLevel.load (at_level LockLevel.run)).0
          ≡ LockLevel.load))
    × ((set_lock_level LockLevel.run waiting).1
        ≡ (store_level (load_level waiting) LockLevel.load (at_level LockLevel.run)).1)
unfolding to_u8 level_of
interleaved_set_falls_example =
    interleaved_set_falls waiting LockLevel.load LockLevel.run (omega arith) (omega arith)

queue_config-IsAdmitted_example :
    ((queue_config configure (record waiting { lock_level = 2 })).1 ≡ ConfigStatus.queued)
    ↔ IsAdmitted LockLevel.config configure.method
unfolding level_of
queue_config-IsAdmitted_example =
    queue_config-IsAdmitted configure (record waiting { lock_level = 2 })
