-- ===== src/Amw/Stream/Bounds.antt =====
-- crates/audesys-amw-inproc/src/stream.rs: histories of a channel that is written and read.
use audesys.Base.{
  ◌≤◌, ◌≡◌, ◌≢◌, refl, sym, ◌∙◌, ap, inl, inr, Bool-cases, List, [], ◌∷◌, ◌++◌, Option, none, some,
  length, length-append, ltb, ltb→lt, if◌then◌else◌, arith,
}
use mathlib.Core.List.{append-nil, append_assoc}
use audesys.Hal.Stream.{QueuePolicy, StreamConfig}
use audesys.Amw.Stream.{
  StreamChannel, Entry, new_channel, tail_of, write, read, pop, pop_from, subscribe, drop_reader,
}
use audesys.Amw.Stream.Writes.{write-keep, write-room, write-drop_oldest, at_least}

pub data Operation (C : Type 0) : Type 0 where
  writes : Entry → Operation C
  reads : Operation C
  subscribes : C → Operation C
  drops_reader : Operation C

-- A channel with the messages that have found room in it and those that have been read.
pub record History (C : Type 0) : Type 0 where
  pub channel : StreamChannel C
  pub accepted : List Entry
  pub delivered : List Entry

abbrev pub of_option : Option Entry → List Entry
of_option none = []
of_option (some e) = e ∷ []

module _ {C : Type 0} where
  abbrev pub begin : StreamConfig → History C
  begin config = record { channel = new_channel config; accepted = []; delivered = [] }

  abbrev pub admitted : StreamChannel C → Entry → List Entry
  admitted inner e = if ltb (length inner.queue) inner.config.queue_depth then e ∷ [] else []

  unfoldable pub after : Operation C → History C → History C
  after (writes e) h = record h {
    channel = (write h.channel e).0;
    accepted = h.accepted ++ admitted h.channel e;
  }
  after reads h = record h {
    channel = (read h.channel).0;
    delivered = h.delivered ++ of_option (read h.channel).1;
  }
  after (subscribes cb) h = record h { channel = subscribe h.channel cb }
  after drops_reader h = record h { channel = drop_reader h.channel }

  unfoldable pub after_all : List (Operation C) → History C → History C
  after_all [] h = h
  after_all (o ∷ os) h = after_all os (after o h)

  -- The order of the messages is kept, and none is lost or doubled once it has found room.
  pub record IsFifo (config : StreamConfig) (h : History C) : Type 0 where
    pub same_config : h.channel.config ≡ config
    pub in_order : h.delivered ++ h.channel.queue ≡ h.accepted
    pub bounded : length h.channel.queue ≤ config.queue_depth

  IsFifo-written :
      {config : StreamConfig} (e : Entry) (h : History C)
      → config.queue_policy ≢ QueuePolicy.drop_oldest
      → IsFifo config h
      → IsFifo config (after (writes e) h)
  unfolding after
  IsFifo-written {config} e h policy f =
      elim (Bool-cases (ltb (length h.channel.queue) h.channel.config.queue_depth)) [
        | inl room ↦
            let below = ltb→lt (length h.channel.queue) h.channel.config.queue_depth room in
            let becomes = write-room h.channel e below in
            let depth = ap (λ c. c.queue_depth) f.same_config in
            record {
              same_config = ap (λ c. c.config) becomes ∙ f.same_config;
              in_order =
                  ap (λ c. h.delivered ++ c.queue) becomes
                  ∙ sym (append_assoc h.delivered h.channel.queue (e ∷ []))
                  ∙ ap (λ xs. xs ++ e ∷ []) f.in_order
                  ∙ ap (λ b. h.accepted ++ (if b then e ∷ [] else [])) (sym room);
              bounded =
                  rw becomes (omega (arith, below, depth, length-append h.channel.queue (e ∷ [])));
            }
        | inr full ↦
            let above = at_least (length h.channel.queue) h.channel.config.queue_depth full in
            let becomes =
              write-keep h.channel e
                (λ p. policy (sym (ap (λ c. c.queue_policy) f.same_config) ∙ p)) above in
            record {
              same_config = ap (λ c. c.config) becomes ∙ f.same_config;
              in_order =
                  ap (λ c. h.delivered ++ c.queue) becomes
                  ∙ f.in_order
                  ∙ sym (append-nil h.accepted)
                  ∙ ap (λ b. h.accepted ++ (if b then e ∷ [] else [])) (sym full);
              bounded = rw becomes f.bounded;
            }
      ]

  IsFifo-read :
      {config : StreamConfig} (h : History C) → IsFifo config h → IsFifo config (after reads h)
  unfolding after read pop
  IsFifo-read {config} h f = popped h.channel.queue refl
    where
      popped :
          (q : List Entry)
          → h.channel.queue ≡ q
          → IsFifo config (record h {
            channel = (pop_from q h.channel).0;
            delivered = h.delivered ++ of_option (pop_from q h.channel).1;
          })
      popped [] e = record {
        same_config = f.same_config;
        in_order = ap (λ xs. xs ++ h.channel.queue) (append-nil h.delivered) ∙ f.in_order;
        bounded = f.bounded;
      }
      popped (m ∷ q) e = record {
        same_config = f.same_config;
        in_order = append_assoc h.delivered (m ∷ []) q ∙ ap (◌++◌ h.delivered) (sym e) ∙ f.in_order;
        bounded = omega (arith, f.bounded, ap length e);
      }

  IsFifo-after :
      {config : StreamConfig} (o : Operation C) (h : History C)
      → config.queue_policy ≢ QueuePolicy.drop_oldest
      → IsFifo config h
      → IsFifo config (after o h)
  unfolding after subscribe drop_reader
  IsFifo-after (writes e) h policy f = IsFifo-written e h policy f
  IsFifo-after reads h policy f = IsFifo-read h f
  IsFifo-after (subscribes cb) h policy f = record {
    same_config = f.same_config;
    in_order = f.in_order;
    bounded = f.bounded;
  }
  IsFifo-after drops_reader h policy f = record {
    same_config = f.same_config;
    in_order = f.in_order;
    bounded = f.bounded;
  }

  IsFifo-after_all :
      {config : StreamConfig} (os : List (Operation C)) (h : History C)
      → config.queue_policy ≢ QueuePolicy.drop_oldest
      → IsFifo config h
      → IsFifo config (after_all os h)
  unfolding after_all
  IsFifo-after_all [] h policy f = f
  IsFifo-after_all (o ∷ os) h policy f =
      IsFifo-after_all os (after o h) policy (IsFifo-after o h policy f)

-- Over any sequence of operations on a new channel that does not drop its oldest message, the
-- messages that were read and those still queued are, in order, those that found room, and no more
-- are queued than the depth allows.
pub after_all-IsFifo :
    {C : Type 0} (config : StreamConfig) (os : List (Operation C))
    → config.queue_policy ≢ QueuePolicy.drop_oldest
    → IsFifo config (after_all os (begin config))
after_all-IsFifo config os policy =
    IsFifo-after_all os (begin config) policy
      record { same_config = refl; in_order = refl; bounded = omega arith }

-- A drop-oldest channel of depth 0 keeps a message after every write.
pub write-depth_zero :
    {C : Type 0} (inner : StreamChannel C) (e : Entry)
    → inner.config.queue_policy ≡ QueuePolicy.drop_oldest
    → inner.config.queue_depth ≡ 0
    → inner.queue ≡ []
    → (write inner e).0.queue ≡ e ∷ []
write-depth_zero inner e policy none_fits empty =
    ap (λ c. c.queue) (write-drop_oldest inner e policy (rw none_fits (omega arith)))
    ∙ ap (λ q. tail_of q ++ e ∷ []) empty
