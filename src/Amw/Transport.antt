-- ===== src/Amw/Transport.antt =====
-- crates/audesys-amw-inproc/src/transport.rs, `InprocTransport`. A method that changes the shared
-- state takes it and returns it, and runs without interruption. A callback is a value of a type `C`,
-- and what `publish_signal` returns lists the calls it makes, in order. The order of a `HashMap` is
-- that of the list that stands for it.
pub mod Signals
pub mod Subscriptions
use audesys.Base.{
  ℕ, ◌+◌, ◌%◌, Bool, true, false, not, List, [], ◌∷◌, ◌++◌, map, Option, none, some, ◌==◌,
  if◌then◌else◌, map_get, map_insert, codes,
}
use audesys.Base.Words.{w64, modulus}
use audesys.Hal.Value.{HalValue}
use audesys.Hal.Error.{HalResult, value, error, not_found, timeout, execution}
use audesys.Hal.Stream.{Timestamp}
use audesys.Amw.Qos.{starts_with}

abbrev pub Entry : Type 0
Entry = HalValue × Timestamp

abbrev pub Handler : Type 0
Handler = List ℕ → HalResult (List ℕ)

pub record Transport (C : Type 0) : Type 0 where
  pub signals : List (List ℕ × Entry)
  pub callbacks : List (List ℕ × List (ℕ × C))
  pub rpc_handlers : List (List ℕ × Handler)
  pub signals_published : ℕ
  pub signals_read : ℕ
  pub rpc_calls : ℕ
  pub rpc_timeouts : ℕ
  pub rpc_rejected : ℕ
  pub next_sub_id : ℕ

-- `fetch_add(1)` on an `AtomicU64`.
abbrev pub bump : ℕ → ℕ
bump n = (n + 1) % modulus w64

-- Whether the handler's thread answers in time.
pub data Arrival : Type 0 where
  answers runs_out disconnects : Arrival

-- `trim_end_matches('*')`.
unfoldable pub trim_stars : List ℕ → List ℕ
trim_stars [] = []
trim_stars (c ∷ rest) = trimmed (trim_stars rest)
  where
    trimmed : List ℕ → List ℕ
    trimmed [] = if c == b'*' then [] else c ∷ []
    trimmed (d ∷ kept) = c ∷ d ∷ kept

unfoldable pub matches_pattern : List ℕ → List ℕ → Bool
matches_pattern name pattern = starts_with (trim_stars pattern) name

abbrev pub or_empty {ℓ} : {A : Type ℓ} → Option (List A) → List A
or_empty none = []
or_empty (some xs) = xs

-- The filter of `snapshot_signals`, by a name.
unfoldable pub filter_names {ℓ} :
    {A : Type ℓ} → (List ℕ → Bool) → List (List ℕ × A) → List (List ℕ × A)
filter_names p [] = []
filter_names p (entry ∷ rest) =
    let kept = filter_names p rest in if p entry.0 then entry ∷ kept else kept

module _ {C : Type 0} where
  abbrev pub new_transport : Transport C
  new_transport = record {
    signals = [];
    callbacks = [];
    rpc_handlers = [];
    signals_published = 0;
    signals_read = 0;
    rpc_calls = 0;
    rpc_timeouts = 0;
    rpc_rejected = 0;
    next_sub_id = 1;
  }

  -- The subscribers of a signal, with their ids.
  abbrev pub subscribers : Transport C → List ℕ → List (ℕ × C)
  subscribers t name = or_empty (map_get name t.callbacks)

  unfoldable pub publish_signal :
      Transport C → List ℕ → Entry → Transport C × HalResult (Unit {0}) × List (C × Entry)
  publish_signal t name e = (
    record t {
      signals = map_insert name e t.signals;
      signals_published = bump t.signals_published;
    },
    value tt,
    map (λ s. (s.1, e)) (subscribers t name),
  )

  unfoldable pub read_signal : Transport C → List ℕ → Transport C × HalResult (Option Entry)
  read_signal t name =
      (record t { signals_read = bump t.signals_read }, value (map_get name t.signals))

  unfoldable pub subscribe_signal : Transport C → List ℕ → C → Transport C
  subscribe_signal t name cb = record t {
    callbacks = map_insert name (subscribers t name ++ (t.next_sub_id, cb) ∷ []) t.callbacks;
    next_sub_id = bump t.next_sub_id;
  }

  -- `retain`.
  unfoldable pub without_id : ℕ → List (ℕ × C) → List (ℕ × C)
  without_id sub_id [] = []
  without_id sub_id (s ∷ subs) =
      let kept = without_id sub_id subs in if s.0 == sub_id then kept else s ∷ kept

  abbrev retain_in : Transport C → List ℕ → ℕ → Option (List (ℕ × C)) → Transport C
  retain_in t name sub_id none = t
  retain_in t name sub_id (some subs) = record t {
    callbacks = map_insert name (without_id sub_id subs) t.callbacks;
  }

  unfoldable pub unsubscribe_signal : Transport C → List ℕ → ℕ → Transport C
  unsubscribe_signal t name sub_id = retain_in t name sub_id (map_get name t.callbacks)

  unfoldable pub snapshot_signals : Transport C → List ℕ → HalResult (List (List ℕ × Entry))
  snapshot_signals t pattern = value (filter_names (λ name. matches_pattern name pattern) t.signals)

  -- `recv_timeout` and its three outcomes.
  abbrev pub received :
      Transport C → List ℕ → HalResult (List ℕ) → ℕ → Arrival → Transport C × HalResult (List ℕ)
  received t method result timeout_ms Arrival.answers = (t, result)
  received t method result timeout_ms Arrival.runs_out =
      (record t { rpc_timeouts = bump t.rpc_timeouts }, error (timeout method timeout_ms))
  received t method result timeout_ms Arrival.disconnects = (
    record t { rpc_rejected = bump t.rpc_rejected },
    error (execution method (codes "RPC handler thread disconnected")),
  )

  abbrev pub dispatched :
      Transport C
      → List ℕ
      → List ℕ
      → ℕ
      → Arrival
      → Option Handler
      → Transport C × HalResult (List ℕ)
  dispatched t method params timeout_ms arrival none =
      (record t { rpc_rejected = bump t.rpc_rejected }, error (not_found method))
  dispatched t method params timeout_ms arrival (some handler) =
      received t method (handler params) timeout_ms arrival

  unfoldable pub rpc_call :
      Transport C → List ℕ → List ℕ → ℕ → Arrival → Transport C × HalResult (List ℕ)
  rpc_call t method params timeout_ms arrival =
      dispatched (record t { rpc_calls = bump t.rpc_calls }) method params timeout_ms arrival
        (map_get method t.rpc_handlers)

  unfoldable pub register_rpc_handler : Transport C → List ℕ → Handler → Transport C
  register_rpc_handler t method handler = record t {
    rpc_handlers = map_insert method handler t.rpc_handlers;
  }

  unfoldable pub shutdown : Transport C → Transport C
  shutdown t = record t { signals = []; callbacks = []; rpc_handlers = [] }
