-- ===== src/Amw/Transport/Signals.antt =====
-- crates/audesys-amw-inproc/src/transport.rs: the signals, published, read and listed.
use audesys.Base.{
  ℕ, ◌≡◌, ◌≢◌, refl, ap, ◌==◌, false, List, [], ◌∷◌, Option, none, some, map_get,
  map_get-map_insert_self, map_get-map_insert_ne, map,
}
use audesys.Hal.Error.{HalResult, value, not_found, error}
use audesys.Amw.Transport.{
  Transport, Entry, Arrival, subscribers, publish_signal, read_signal, shutdown, rpc_call,
}

-- A text that is empty or ends in no star.
abbrev pub EndsPlain : List ℕ → Type 0
EndsPlain [] = Unit
EndsPlain (c ∷ []) = (c == b'*') ≡ false
EndsPlain (c ∷ d ∷ rest) = EndsPlain (d ∷ rest)

-- The signals of a result.
abbrev pub listed : HalResult (List (List ℕ × Entry)) → List (List ℕ × Entry)
listed (value signals) = signals
listed (error _) = []

abbrev opened : HalResult (Option Entry) → Option Entry
opened (value o) = o
opened (error _) = none

module _ {C : Type 0} where
  -- A signal reads as what was published of it last, every other signal as before, and the calls of
  -- a publication are those of the signal's subscribers, in the order of their subscriptions.
  pub read_signal-publish_signal :
      (t : Transport C) (name other : List ℕ) (e : Entry)
      → name ≢ other
      → ((read_signal (publish_signal t name e).0 name).1 ≡ value (some e))
        × ((read_signal (publish_signal t name e).0 other).1 ≡ (read_signal t other).1)
        × ((publish_signal t name e).2 ≡ map (λ s. (s.1, e)) (subscribers t name))
  unfolding read_signal publish_signal
  read_signal-publish_signal t name other e ne = (
    ap value (map_get-map_insert_self name e t.signals),
    ap value (map_get-map_insert_ne name other e t.signals ne),
    refl,
  )

  -- After a shutdown no signal is read, a publication calls nobody, and every remote call is
  -- rejected.
  pub shutdown_forgets :
      (t : Transport C) (name params : List ℕ) (e : Entry) (timeout_ms : ℕ) (arrival : Arrival)
      → ((read_signal (shutdown t) name).1 ≡ value none)
        × ((publish_signal (shutdown t) name e).2 ≡ [])
        × ((rpc_call (shutdown t) name params timeout_ms arrival).1 ≡ error (not_found name))
  unfolding shutdown read_signal publish_signal rpc_call map_get
  shutdown_forgets t name params e timeout_ms arrival = (refl, refl, refl)
