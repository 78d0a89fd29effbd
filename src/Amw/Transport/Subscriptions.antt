-- ===== src/Amw/Transport/Subscriptions.antt =====
-- crates/audesys-amw-inproc/src/transport.rs: the subscribers of the signals.
use audesys.Base.{
  ℕ, ◌+◌, ◌<◌, ◌≡◌, ◌≢◌, refl, ◌∙◌, ap, subst, inl, inr, ◌⊎◌, Bool, true, false, Bool-cases, List,
  [], ◌∷◌, ◌++◌, Option-cases, ◌==◌, ==_iff, if◌then◌else◌, bytes_eq, bytes_eq_sound, bytes_ne,
  map_get, map_insert, map_get-map_insert_self, map_get-map_insert_ne, All, All-append, arith,
}
use audesys.Base.Words.{w64, modulus}
use audesys.Amw.Transport.{
  Transport, Entry, Handler, new_transport, bump, or_empty, subscribers, without_id, publish_signal,
  subscribe_signal, unsubscribe_signal, register_rpc_handler, shutdown,
}

module _ {C : Type 0} where
  -- The ids of the subscribers are below the next one.
  abbrev pub IsFresh : Transport C → Type 0
  IsFresh t = (name : List ℕ) → All (λ (s : ℕ × C). s.0 < t.next_sub_id) (subscribers t name)

  without_new :
      (id : ℕ) (cb : C) (subs : List (ℕ × C))
      → All (λ (s : ℕ × C). s.0 < id) subs
      → without_id id (subs ++ (id, cb) ∷ []) ≡ subs
  unfolding without_id
  without_new id cb [] h = rw ((==_iff id id).1 refl) refl
  without_new id cb (s ∷ subs) (below, h) =
      rw (apart s.0 below) (ap (◌∷◌ s) (without_new id cb subs h))
    where
      apart : (a : ℕ) → a < id → (a == id) ≡ false
      apart a h = grind arith

  -- The subscribers once those of one signal have been replaced.
  subscribers-insert :
      (name other : List ℕ) (subs : List (ℕ × C)) (m : List (List ℕ × List (ℕ × C)))
      → ((name ≡ other) × (or_empty (map_get other (map_insert name subs m)) ≡ subs))
        ⊎ ((name ≢ other) × (map_get other (map_insert name subs m) ≡ map_get other m))
  subscribers-insert name other subs m = elim (Bool-cases (bytes_eq name other)) [
    | inl same ↦
        let e = bytes_eq_sound name other same in
        inl (
          e,
          subst (λ y. or_empty (map_get y (map_insert name subs m)) ≡ subs) e
              (ap or_empty (map_get-map_insert_self name subs m)),
        )
    | inr differ ↦
        let ne = bytes_ne name other differ in inr (ne, map_get-map_insert_ne name other subs m ne)
  ]

  -- A subscription that is taken back leaves the subscribers of every signal as they were, where no
  -- subscriber has the id that it gets.
  pub unsubscribe_signal-subscribe_signal :
      (t : Transport C) (name other : List ℕ) (cb : C)
      → IsFresh t
      → subscribers (unsubscribe_signal (subscribe_signal t name cb) name t.next_sub_id) other
        ≡ subscribers t other
  unfolding subscribe_signal unsubscribe_signal
  unsubscribe_signal-subscribe_signal t name other cb h =
      let subs = subscribers t name ++ (t.next_sub_id, cb) ∷ [] in
      let m = map_insert name subs t.callbacks in
      rw (map_get-map_insert_self name subs t.callbacks)
        (elim (subscribers-insert name other (without_id t.next_sub_id subs) m) [
          | inl (e, at) ↦
              at ∙ without_new t.next_sub_id cb (subscribers t name) (h name) ∙ ap (subscribers t) e
          | inr (ne, at) ↦ ap or_empty (at ∙ map_get-map_insert_ne name other subs t.callbacks ne)
        ])

  subscribed :
      (t : Transport C) (name : List ℕ) (cb : C)
      → t.next_sub_id + 1 < modulus w64
      → IsFresh t
      → IsFresh (subscribe_signal t name cb)
  unfolding subscribe_signal
  subscribed t name cb room h other =
      elim (subscribers-insert name other (subscribers t name ++ (t.next_sub_id, cb) ∷ [])
        t.callbacks) [
          | inl (e, at) ↦ rw at (
              All-append (λ (s : ℕ × C). s.0 < bump t.next_sub_id) (subscribers t name) _
                (later (subscribers t name) (h name)) (newest, tt))
          | inr (ne, at) ↦ rw at (later (subscribers t other) (h other))
        ]
    where
      newest : t.next_sub_id < bump t.next_sub_id
      newest = omega arith

      later :
          (subs : List (ℕ × C))
          → All (λ (s : ℕ × C). s.0 < t.next_sub_id) subs
          → All (λ (s : ℕ × C). s.0 < bump t.next_sub_id) subs
      later [] h = tt
      later (s ∷ subs) (below, h) = (omega arith, later subs h)

  kept :
      (id n : ℕ) (subs : List (ℕ × C))
      → All (λ (s : ℕ × C). s.0 < n) subs
      → All (λ (s : ℕ × C). s.0 < n) (without_id id subs)
  unfolding without_id
  kept id n [] h = tt
  kept id n (s ∷ subs) (below, h) = cases (s.0 == id) (without_id id subs) (kept id n subs h)
    where
      cases :
          (b : Bool) (rest : List (ℕ × C))
          → All (λ (s : ℕ × C). s.0 < n) rest
          → All (λ (s : ℕ × C). s.0 < n) (if b then rest else s ∷ rest)
      cases true rest h = h
      cases false rest h = (below, h)

  unsubscribed :
      (t : Transport C) (name : List ℕ) (id : ℕ)
      → IsFresh t
      → IsFresh (unsubscribe_signal t name id)
  unfolding unsubscribe_signal
  unsubscribed t name id h other = elim (Option-cases (map_get name t.callbacks)) [
    | inl missing ↦ rw missing (h other)
    | inr (subs, found) ↦
        let mine : All (λ (s : ℕ × C). s.0 < t.next_sub_id) subs =
          subst (λ o. All (λ (s : ℕ × C). s.0 < t.next_sub_id) (or_empty o)) found (h name) in
        rw found (elim (subscribers-insert name other (without_id id subs) t.callbacks) [
          | inl (e, at) ↦ rw at (kept id t.next_sub_id subs mine)
          | inr (ne, at) ↦ rw at (h other)
        ])
  ]

  -- A call of the transport that changes it, with an id left for each subscription.
  pub data Call (t : Transport C) : Transport C → Type 0 where
    publishes : (name : List ℕ) (e : Entry) → Call t (publish_signal t name e).0
    subscribes :
        (name : List ℕ) (cb : C)
        → t.next_sub_id + 1 < modulus w64
        → Call t (subscribe_signal t name cb)
    unsubscribes : (name : List ℕ) (id : ℕ) → Call t (unsubscribe_signal t name id)
    registers :
        (method : List ℕ) (handler : Handler) → Call t (register_rpc_handler t method handler)
    shuts_down : Call t (shutdown t)

  pub data Calls (t : Transport C) : Transport C → Type 0 where
    none_yet : Calls t t
    then_call : {u v : Transport C} → Calls t u → Call u v → Calls t v

  IsFresh-Call : {t u : Transport C} → Call t u → IsFresh t → IsFresh u
  unfolding publish_signal register_rpc_handler shutdown map_get
  IsFresh-Call (publishes name e) h = h
  IsFresh-Call {t} (subscribes name cb room) h = subscribed t name cb room h
  IsFresh-Call {t} (unsubscribes name id) h = unsubscribed t name id h
  IsFresh-Call (registers method handler) h = h
  IsFresh-Call shuts_down h = λ name. tt

  -- In every transport that is reached from a new one, with fewer subscriptions than there are ids,
  -- each subscriber's id is below the next one.
  pub IsFresh-Calls : {t : Transport C} → Calls new_transport t → IsFresh t
  unfolding map_get
  IsFresh-Calls none_yet = λ name. tt
  IsFresh-Calls (then_call c d) = IsFresh-Call d (IsFresh-Calls c)
