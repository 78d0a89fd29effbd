-- ===== src/Examples/Streams.antt =====
-- The encoding, the streams and the transport: examples.
use audesys.Base.{ℕ, ◌-◌, ◌≡◌, ◌≢◌, refl, arith, List, [], ◌∷◌, drop, codes, none}
use audesys.Base.Words.{pos}
use audesys.Hal.Value.{HalValue, s32, string}
use audesys.Hal.Error.{value, Holds}
use audesys.Hal.Utf8.{utf8_from, lead}
use audesys.Hal.Encoding.{encode_halvalue, decode_halvalue}
use audesys.Hal.Encoding.RoundTrip.{decode-encode_halvalue}
use audesys.Hal.Encoding.Errors.{IsStable, decode_halvalue-IsStable}
use audesys.Hal.Stream.{Timestamp, QueuePolicy, ConsumerErrorPolicy, StreamConfig}
use audesys.Amw.Stream.{StreamChannel, new_channel}
use audesys.Amw.Stream.Writes.{write_all, write_all-newest}
use audesys.Amw.Stream.Bounds.{Operation, IsFifo, begin, after_all, after_all-IsFifo}
use audesys.Amw.Transport.{Transport, new_transport, publish_signal, subscribe_signal}

decode-encode_halvalue_example :
    decode_halvalue (encode_halvalue (string (codes "Hi"))) ≡ value (string (codes "Hi"))
unfolding utf8_from lead
decode-encode_halvalue_example =
    decode-encode_halvalue (string (codes "Hi")) (omega arith, (omega arith, tt))
      (omega arith, refl)

-- An array header with no data, and a byte behind it.
decode_halvalue-IsStable_example :
    Holds IsStable (decode_halvalue (13 ∷ 5 ∷ 0 ∷ 0 ∷ 0 ∷ 0 ∷ 9 ∷ []))
decode_halvalue-IsStable_example = decode_halvalue-IsStable (13 ∷ 5 ∷ 0 ∷ 0 ∷ 0 ∷ 0 ∷ 9 ∷ []) (
  omega arith,
  (omega arith, (omega arith, (omega arith, (omega arith, (omega arith, (omega arith, tt)))))),
)

abbrev noon : Timestamp
noon = record { secs = 43200; micros = 0 }

abbrev at_noon : ℕ → HalValue × Timestamp
at_noon n = (s32 (pos n), noon)

abbrev two_deep : QueuePolicy → StreamConfig
two_deep policy = record {
  queue_depth = 2;
  queue_policy = policy;
  error_policy = ConsumerErrorPolicy.block;
  circuit_breaker = none;
  shm_threshold_bytes = 0;
}

abbrev three : List (HalValue × Timestamp)
three = at_noon 1 ∷ at_noon 2 ∷ at_noon 3 ∷ []

abbrev empty : StreamChannel ℕ
empty = new_channel (two_deep QueuePolicy.drop_oldest)

write_all-newest_example : (write_all three empty).queue ≡ drop (3 - 2) three
write_all-newest_example = write_all-newest empty three refl refl (omega arith)

abbrev calls : List (Operation ℕ)
calls =
    Operation.subscribes 7
    ∷ Operation.writes (at_noon 1)
    ∷ Operation.writes (at_noon 2)
    ∷ Operation.writes (at_noon 3)
    ∷ Operation.reads
    ∷ Operation.drops_reader
    ∷ []

after_all-IsFifo_example :
    IsFifo
      (two_deep QueuePolicy.drop_newest)
      (after_all calls (begin (two_deep QueuePolicy.drop_newest)))
after_all-IsFifo_example = after_all-IsFifo (two_deep QueuePolicy.drop_newest) calls keeps
  where
    keeps : QueuePolicy.drop_newest ≢ QueuePolicy.drop_oldest
    keeps e = cc

-- A transport with a signal that has a subscriber.
abbrev watched : Transport ℕ
watched = subscribe_signal (publish_signal new_transport (codes "x") (at_noon 1)).0 (codes "x") 4
