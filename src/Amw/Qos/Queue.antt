-- ===== src/Amw/Qos/Queue.antt =====
-- Which commands are queued and what becomes of them, and the two tables.
use audesys.Base.{
  ℕ, ◌≡◌, ◌≢◌, ◌↔◌, ◌⊎◌, inl, inr, true, false, refl, sym, ap, ◌∙◌, ◌||◌, Bool, List, [], ◌∷◌, ◌++◌,
  length, All, some, map_get-map_insert_self, map_get-map_insert_ne, if◌then◌else◌, length-map, map,
}
use audesys.Amw.Qos.{
  LockLevel, to_u8, load_level, InprocQos, ConfigCommand, ConfigStatus, Reason, can_queue,
  queue_config, apply_queued, register_entity, check_liveliness, LivelinessStatus,
  tag_security_domain, get_security_domain, required_lock_level, has, to_lowercase, load_word,
  unload_word, component_word, param_word,
}
use audesys.Amw.Qos.Words.{Contains, has_iff}

-- The commands that may be queued, by the words in the method.
abbrev Admits : LockLevel → Type 0 → Type 0 → Type 0
Admits LockLevel.unlocked structural param = Unit
Admits LockLevel.load structural param = Unit
Admits LockLevel.config structural param = ¬ structural
Admits LockLevel.params structural param = (¬ structural) × param
Admits LockLevel.run structural param = ⊥
Admits LockLevel.all structural param = ⊥

-- Whether a command with a method may be queued at a level.
abbrev pub IsAdmitted : LockLevel → List ℕ → Type 0
IsAdmitted level method =
    Admits level
      (Contains (to_lowercase method) load_word ⊎ Contains (to_lowercase method) component_word)
      (Contains (to_lowercase method) param_word)

differ : false ≡ true → ⊥
differ e = cc

can_queue-Admits :
    (level : LockLevel) (s p : Bool) {S P : Type 0}
    → (s ≡ true) ↔ S
    → (p ≡ true) ↔ P
    → (can_queue level
          (if s then LockLevel.load else if p then LockLevel.params else LockLevel.config)
        ≡ true)
      ↔ Admits level S P
unfolding can_queue to_u8
can_queue-Admits LockLevel.unlocked s p S P = ((λ _. tt), (λ _. refl))
can_queue-Admits LockLevel.load s p S P = ((λ _. tt), (λ _. refl))
can_queue-Admits LockLevel.run s p S P = ((λ h. absurd (cc)), (λ h. absurd h))
can_queue-Admits LockLevel.all s p S P = ((λ h. absurd (cc)), (λ h. absurd h))
can_queue-Admits LockLevel.config true p S P = ((λ h. absurd (cc)), (λ h. absurd (h (S.0 refl))))
can_queue-Admits LockLevel.config false true S P = ((λ _ x. differ (S.1 x)), (λ _. refl))
can_queue-Admits LockLevel.config false false S P = ((λ _ x. differ (S.1 x)), (λ _. refl))
can_queue-Admits LockLevel.params true p S P =
    ((λ h. absurd (cc)), (λ (h, _). absurd (h (S.0 refl))))
can_queue-Admits LockLevel.params false true S P =
    ((λ _. ((λ x. differ (S.1 x)), P.0 refl)), (λ _. refl))
can_queue-Admits LockLevel.params false false S P =
    ((λ h. absurd (cc)), (λ (_, y). absurd (differ (P.1 y))))

append_two : (xs : List ℕ) (a b : ℕ) (ys : List ℕ) → (xs ++ a ∷ b ∷ []) ++ ys ≡ xs ++ a ∷ b ∷ ys
append_two [] a b ys = refl
append_two (x ∷ xs) a b ys = ap (◌∷◌ x) (append_two xs a b ys)

-- A text with "unload" has "load".
structural :
    (low : List ℕ)
    → ((has low load_word || has low unload_word || has low component_word) ≡ true)
      ↔ (Contains low load_word ⊎ Contains low component_word)
structural low =
    either (has low load_word) (has low unload_word) (has low component_word)
      (has_iff low load_word)
      (λ h. (has_iff low load_word).1 (unloads ((has_iff low unload_word).0 h)))
      (has_iff low component_word)
  where
    unloads : Contains low unload_word → Contains low load_word
    unloads (before, after, e) = (
      before ++ 117 ∷ 110 ∷ [],
      after,
      e ∙ ap (λ t. t ++ after) (sym (append_two before 117 110 load_word)),
    )

    either :
        (a u c : Bool) {L C : Type 0}
        → (a ≡ true) ↔ L
        → (u ≡ true → a ≡ true)
        → (c ≡ true) ↔ C
        → ((a || u || c) ≡ true) ↔ (L ⊎ C)
    either true u c l h k = ((λ _. inl (l.0 refl)), (λ _. refl))
    either false true c l h k = absurd (differ (h refl))
    either false false true l h k = ((λ _. inr (k.0 refl)), (λ _. refl))
    either false false false l h k =
        (λ e. absurd (differ e), λ x. elim x [ inl y ↦ l.1 y | inr y ↦ k.1 y ])

-- A command is queued exactly where the level is None or Load, or it is Config and the method has
-- neither the word load nor the word component in any case, or it is Params and the method has
-- neither of them and has the word param in any case; so at Run and All none is.
pub queue_config-IsAdmitted :
    (cmd : ConfigCommand) (q : InprocQos)
    → ((queue_config cmd q).1 ≡ ConfigStatus.queued) ↔ IsAdmitted (load_level q) cmd.method
unfolding queue_config required_lock_level
queue_config-IsAdmitted cmd q =
    let low : List ℕ = to_lowercase cmd.method in
    let (to, from) =
      can_queue-Admits (load_level q)
        (has low load_word || has low unload_word || has low component_word) (has low param_word)
        (structural low) (has_iff low param_word) in
    (λ queued. to (allowed _ _ _ _ queued), λ admitted. rw (from admitted) refl)
  where
    allowed :
        (b : Bool) (x y : InprocQos) (r : Reason)
        → (if◌then◌else◌ {A = InprocQos × ConfigStatus} b
            (x, ConfigStatus.queued)
            (y, ConfigStatus.rejected r)).1
          ≡ ConfigStatus.queued
        → b ≡ true
    allowed true x y r h = refl
    allowed false x y r h = absurd (cc)

each_status :
    (cmds : List ConfigCommand)
    → All (λ s. s ≡ ConfigStatus.applied) (map (λ _. ConfigStatus.applied) cmds)
each_status [] = tt
each_status (c ∷ cmds) = (refl, each_status cmds)

-- Applying gives one status for each queued command, each of them Applied, keeps the lock level
-- and empties the queue; a second application gives none and changes nothing.
pub apply_queued_once :
    (q : InprocQos)
    → let (applied, statuses) = apply_queued q in
      (length statuses ≡ length q.config_queue)
      × All (λ s. s ≡ ConfigStatus.applied) statuses
      × (apply_queued applied ≡ (applied, []))
      × (applied.lock_level ≡ q.lock_level)
unfolding apply_queued
apply_queued_once q = (length-map _ q.config_queue, each_status q.config_queue, refl, refl)

-- A registered entity is alive, and the liveliness of every other entity is as it was.
pub register_entity_alive :
    (entity_id other : List ℕ) (q : InprocQos)
    → (check_liveliness entity_id (register_entity entity_id q) ≡ LivelinessStatus.alive)
      × (entity_id ≢ other
          → check_liveliness other (register_entity entity_id q) ≡ check_liveliness other q)
unfolding check_liveliness register_entity
register_entity_alive entity_id other q = (
  rw (map_get-map_insert_self entity_id LivelinessStatus.alive q.liveliness),
  λ ne. rw (map_get-map_insert_ne entity_id other LivelinessStatus.alive q.liveliness ne),
)

-- A name has the security domain it was tagged with last, and every other name the one it had.
pub tag-get_security_domain :
    (name other domain : List ℕ) (q : InprocQos)
    → (get_security_domain name (tag_security_domain name domain q) ≡ some domain)
      × (name ≢ other
          → get_security_domain other (tag_security_domain name domain q)
            ≡ get_security_domain other q)
unfolding get_security_domain tag_security_domain
tag-get_security_domain name other domain q = (
  map_get-map_insert_self name domain q.security_domains,
  map_get-map_insert_ne name other domain q.security_domains,
)
