-- ===== src/Amw/Stream/Writes.antt =====
-- crates/audesys-amw-inproc/src/stream.rs: runs of writes to a channel that nobody reads.
use audesys.Base.{
  ℕ, zero, suc, ◌+◌, ◌-◌, ◌<◌, ◌≤◌, ◌≡◌, ◌≢◌, refl, sym, ◌∙◌, ap, ap₂, false, inl, inr, Bool-cases,
  List, [], ◌∷◌, ◌++◌, length, take, drop, length-append, append_snoc, ltb, ltb→lt, leb, le→leb,
  le→ltb, arith,
}
use mathlib.Core.List.{append-nil}
use audesys.Base.Slices.{take-append}
use audesys.Hal.Error.{error, internal, Message}
use audesys.Hal.Stream.{QueuePolicy}
use audesys.Amw.Stream.{
  StreamChannel, Entry, push_back, drop_front, tail_of, overflow, retry, push, write,
  backpressure_max_retries,
}

pub at_least : (a b : ℕ) → ltb a b ≡ false → b ≤ a
at_least a b h = grind arith

take_all : (xs : List Entry) (d : ℕ) → length xs ≤ d → take d xs ≡ xs
take_all [] zero h = refl
take_all [] (suc d) h = refl
take_all (x ∷ xs) zero h = absurd (omega arith)
take_all (x ∷ xs) (suc d) h = ap (◌∷◌ x) (take_all xs d (omega arith))

-- The newest messages of a queue that has room for one more, once it is there.
appended :
    (q : List Entry) (e : Entry) (es : List Entry) (d : ℕ)
    → drop (length (q ++ e ∷ []) + length es - d) ((q ++ e ∷ []) ++ es)
      ≡ drop (length q + length (e ∷ es) - d) (q ++ e ∷ es)
appended q e es d = ap₂ drop (omega (arith, length-append q (e ∷ []))) (append_snoc q e es)

pub shifted_fits :
    (q : List Entry) (e : Entry) (d : ℕ) → 1 ≤ d → length q ≤ d → length (tail_of q ++ e ∷ []) ≤ d
shifted_fits [] e d h k = h
shifted_fits (y ∷ q) e d h k = omega (arith, length-append q (e ∷ []))

-- The same for a full queue whose oldest message gives way.
shifted :
    (q : List Entry) (e : Entry) (es : List Entry) (d : ℕ)
    → 1 ≤ d
    → length q ≤ d
    → d ≤ length q
    → drop (length (tail_of q ++ e ∷ []) + length es - d) ((tail_of q ++ e ∷ []) ++ es)
      ≡ drop (length q + length (e ∷ es) - d) (q ++ e ∷ es)
shifted [] e es d h k l = absurd (omega arith)
shifted (y ∷ q) e es d h k l =
    ap₂ drop (omega (arith, length-append q (e ∷ []))) (append_snoc q e es)
    ∙ ap (λ n. drop n (y ∷ (q ++ e ∷ es))) exceeding
  where
    exceeding : suc (length es) ≡ suc (length q) + suc (length es) - d
    exceeding = omega arith

module _ {C : Type 0} where
  -- The channel after the writes.
  unfoldable pub write_all : List Entry → StreamChannel C → StreamChannel C
  write_all [] inner = inner
  write_all (e ∷ es) inner = write_all es (write inner e).0

  retry_fails :
      (n : ℕ) (inner : StreamChannel C) (e : Entry)
      → ltb (length inner.queue) inner.config.queue_depth ≡ false
      → retry n inner e ≡ (inner, error (internal Message.backpressure_timeout))
  unfolding retry
  retry_fails zero inner e h = refl
  retry_fails (suc n) inner e h = rw h (retry_fails n inner e h)

  pub write-room :
      (inner : StreamChannel C) (e : Entry)
      → length inner.queue < inner.config.queue_depth
      → (write inner e).0 ≡ push_back inner e
  unfolding write push
  write-room inner e h = rw (below inner.config.queue_depth (length inner.queue) h) refl
    where
      below : (a b : ℕ) → b < a → leb a b ≡ false
      below a b h = grind arith

  write-full :
      (inner : StreamChannel C) (e : Entry)
      → inner.config.queue_depth ≤ length inner.queue
      → (write inner e).0 ≡ (overflow inner.config.queue_policy inner e).0
  unfolding write push
  write-full inner e h = rw (le→leb inner.config.queue_depth (length inner.queue) h) refl

  -- A write to a full channel that drops its oldest message.
  pub write-drop_oldest :
      (inner : StreamChannel C) (e : Entry)
      → inner.config.queue_policy ≡ QueuePolicy.drop_oldest
      → inner.config.queue_depth ≤ length inner.queue
      → (write inner e).0 ≡ push_back (drop_front inner) e
  write-drop_oldest inner e policy full =
      write-full inner e full ∙ ap (λ p. (overflow p inner e).0) policy

  -- A write to a full channel that drops its newest message, or waits for room.
  pub write-keep :
      (inner : StreamChannel C) (e : Entry)
      → inner.config.queue_policy ≢ QueuePolicy.drop_oldest
      → inner.config.queue_depth ≤ length inner.queue
      → (write inner e).0 ≡ inner
  write-keep inner e policy full = write-full inner e full ∙ kept inner.config.queue_policy policy
    where
      kept : (p : QueuePolicy) → p ≢ QueuePolicy.drop_oldest → (overflow p inner e).0 ≡ inner
      kept QueuePolicy.drop_oldest ne = absurd (ne refl)
      kept QueuePolicy.drop_newest ne = refl
      kept QueuePolicy.backpressure ne =
          ap (λ r. r.0)
            (retry_fails backpressure_max_retries inner e
              (le→ltb (length inner.queue) inner.config.queue_depth full))

  keeps_newest :
      (es : List Entry) (inner : StreamChannel C)
      → inner.config.queue_policy ≡ QueuePolicy.drop_oldest
      → 1 ≤ inner.config.queue_depth
      → length inner.queue ≤ inner.config.queue_depth
      → (write_all es inner).queue
        ≡ drop (length inner.queue + length es - inner.config.queue_depth) (inner.queue ++ es)
  unfolding write_all
  keeps_newest [] inner policy some_room fits =
      sym (append-nil inner.queue)
      ∙ ap (λ n. drop n (inner.queue ++ []))
          (nothing_over (length inner.queue) inner.config.queue_depth fits)
    where
      nothing_over : (n d : ℕ) → n ≤ d → 0 ≡ n + 0 - d
      nothing_over n d h = omega arith
  keeps_newest (e ∷ es) inner policy some_room fits =
      elim (Bool-cases (ltb (length inner.queue) inner.config.queue_depth)) [
        | inl room ↦
            let below = ltb→lt (length inner.queue) inner.config.queue_depth room in
            ap (λ c. (write_all es c).queue) (write-room inner e below)
            ∙ keeps_newest es (push_back inner e) policy some_room
                (omega (arith, below, length-append inner.queue (e ∷ [])))
            ∙ appended inner.queue e es inner.config.queue_depth
        | inr full ↦
            let above = at_least (length inner.queue) inner.config.queue_depth full in
            ap (λ c. (write_all es c).queue) (write-drop_oldest inner e policy above)
            ∙ keeps_newest es (push_back (drop_front inner) e) policy some_room
                (shifted_fits inner.queue e inner.config.queue_depth some_room fits)
            ∙ shifted inner.queue e es inner.config.queue_depth some_room fits above
      ]

  -- The writes to an empty drop-oldest channel that has room for a message leave its newest
  -- messages, as many as the depth allows.
  pub write_all-newest :
      (inner : StreamChannel C) (es : List Entry)
      → inner.queue ≡ []
      → inner.config.queue_policy ≡ QueuePolicy.drop_oldest
      → 1 ≤ inner.config.queue_depth
      → (write_all es inner).queue ≡ drop (length es - inner.config.queue_depth) es
  write_all-newest inner es empty policy some_room =
      keeps_newest es inner policy some_room (rw empty (omega arith))
      ∙ rw empty (ap (λ n. drop (n - inner.config.queue_depth) es) (from_zero (length es)))
    where
      from_zero : (n : ℕ) → 0 + n ≡ n
      from_zero n = omega arith

  keeps_oldest :
      (es : List Entry) (inner : StreamChannel C)
      → inner.config.queue_policy ≢ QueuePolicy.drop_oldest
      → length inner.queue ≤ inner.config.queue_depth
      → (write_all es inner).queue ≡ take inner.config.queue_depth (inner.queue ++ es)
  unfolding write_all
  keeps_oldest [] inner policy fits =
      sym (take_all inner.queue inner.config.queue_depth fits)
      ∙ ap (take inner.config.queue_depth) (sym (append-nil inner.queue))
  keeps_oldest (e ∷ es) inner policy fits =
      elim (Bool-cases (ltb (length inner.queue) inner.config.queue_depth)) [
        | inl room ↦
            let below = ltb→lt (length inner.queue) inner.config.queue_depth room in
            ap (λ c. (write_all es c).queue) (write-room inner e below)
            ∙ keeps_oldest es (push_back inner e) policy
                (omega (arith, below, length-append inner.queue (e ∷ [])))
            ∙ ap (take inner.config.queue_depth) (append_snoc inner.queue e es)
        | inr full ↦
            let above = at_least (length inner.queue) inner.config.queue_depth full in
            let exact : length inner.queue ≡ inner.config.queue_depth = omega arith in
            ap (λ c. (write_all es c).queue) (write-keep inner e policy above)
            ∙ keeps_oldest es inner policy fits
            ∙ take-append inner.queue es exact
            ∙ sym (take-append inner.queue (e ∷ es) exact)
      ]

  -- The writes to an empty channel with another policy leave its oldest messages.
  pub write_all-oldest :
      (inner : StreamChannel C) (es : List Entry)
      → inner.queue ≡ []
      → inner.config.queue_policy ≢ QueuePolicy.drop_oldest
      → (write_all es inner).queue ≡ take inner.config.queue_depth es
  write_all-oldest inner es empty policy =
      keeps_oldest es inner policy (rw empty (omega arith))
      ∙ ap (λ q. take inner.config.queue_depth (q ++ es)) empty
