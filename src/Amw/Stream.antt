-- ===== src/Amw/Stream.antt =====
-- crates/audesys-amw-inproc/src/stream.rs: a stream channel. A method that changes the state takes it
-- and returns it, and runs without interruption, since it holds the channel's lock. A callback is a
-- value of a type `C`, and what a method returns lists the calls it makes, in order.
pub mod Writes
pub mod Bounds
use audesys.Base.{
  ℕ, zero, suc, Bool, List, [], ◌∷◌, ◌++◌, map, Option, none, some, length, ltb, leb, if◌then◌else◌,
}
use audesys.Hal.Value.{HalValue}
use audesys.Hal.Error.{HalResult, value, error, internal, Message}
use audesys.Hal.Stream.{Timestamp, QueuePolicy, StreamConfig}

abbrev pub backpressure_max_retries : ℕ
backpressure_max_retries = 10

abbrev pub Entry : Type 0
Entry = HalValue × Timestamp

pub record StreamChannel (C : Type 0) : Type 0 where
  pub queue : List Entry
  pub subscribers : List C
  pub config : StreamConfig

abbrev pub tail_of : List Entry → List Entry
tail_of [] = []
tail_of (_ ∷ queue) = queue

module _ {C : Type 0} where
  abbrev pub new_channel : StreamConfig → StreamChannel C
  new_channel config = record { queue = []; subscribers = []; config = config }

  -- `queue.push_back`.
  abbrev pub push_back : StreamChannel C → Entry → StreamChannel C
  push_back inner e = record inner { queue = inner.queue ++ e ∷ [] }

  -- `queue.pop_front()`, its value dropped.
  abbrev pub drop_front : StreamChannel C → StreamChannel C
  drop_front inner = record inner { queue = tail_of inner.queue }

  -- The rounds of waiting. The lock is held, so nothing changes meanwhile.
  unfoldable pub retry : ℕ → StreamChannel C → Entry → StreamChannel C × HalResult (Unit {0})
  retry zero inner e = (inner, error (internal Message.backpressure_timeout))
  retry (suc rounds) inner e =
      if ltb (length inner.queue) inner.config.queue_depth
      then (push_back inner e, value tt)
      else retry rounds inner e

  abbrev pub overflow :
      QueuePolicy → StreamChannel C → Entry → StreamChannel C × HalResult (Unit {0})
  overflow QueuePolicy.drop_oldest inner e = (push_back (drop_front inner) e, value tt)
  overflow QueuePolicy.drop_newest inner e = (inner, value tt)
  overflow QueuePolicy.backpressure inner e = retry backpressure_max_retries inner e

  unfoldable pub push : StreamChannel C → Entry → StreamChannel C × HalResult (Unit {0})
  push inner e =
      if leb inner.config.queue_depth (length inner.queue)
      then overflow inner.config.queue_policy inner e
      else (push_back inner e, value tt)

  -- `queue.pop_front()`, with the queue.
  abbrev pub pop_from : List Entry → StreamChannel C → StreamChannel C × Option Entry
  pop_from [] inner = (inner, none)
  pop_from (e ∷ queue) inner = (record inner { queue = queue }, some e)

  unfoldable pub pop : StreamChannel C → StreamChannel C × Option Entry
  pop inner = pop_from inner.queue inner

  unfoldable pub notify_subscribers : StreamChannel C → Entry → List (C × Entry)
  notify_subscribers inner e = map (λ cb. (cb, e)) inner.subscribers

  -- The calls of a write: none where the push failed.
  abbrev notified : StreamChannel C → HalResult (Unit {0}) → Entry → List (C × Entry)
  notified inner (value _) e = notify_subscribers inner e
  notified inner (error _) e = []

  unfoldable pub write :
      StreamChannel C → Entry → StreamChannel C × HalResult (Unit {0}) × List (C × Entry)
  write inner e = let (inner', result) = push inner e in (inner', result, notified inner' result e)

  unfoldable pub read : StreamChannel C → StreamChannel C × Option Entry
  read inner = pop inner

  unfoldable pub subscribe : StreamChannel C → C → StreamChannel C
  subscribe inner cb = record inner { subscribers = inner.subscribers ++ cb ∷ [] }

  -- `Drop for InprocStreamReader`.
  unfoldable pub drop_reader : StreamChannel C → StreamChannel C
  drop_reader inner = record inner { subscribers = [] }
