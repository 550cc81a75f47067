-- ===== src/Stream/Invariant.antt =====
-- What every step of `pump` in src/core/chunk_stream.cpp keeps, besides the order of the chunks.
use Prim.Native.String.{String}
use water_structure_cpp.Common.{
  ℕ, ◌≤◌, ◌<◌, ◌≡◌, refl, ap, Bool, true, false, List, [], ◌∷◌, Option, none, some, length,
  length-append, arith, ◌||◌, Bool-cases, inl, inr, ltb,
}
use water_structure_cpp.Result.{success, failure, Status}
use water_structure_cpp.Stream.{
  Stream, Producer, returns, throws, throws_unknown, pushes, ProducerAt, running, sleeping,
  signalling, failing, announcing_failure, closing, announcing, joining, finished, ConsumerAt,
  awake, asleep, signals, delivering, fails, announces, returned, has_value, make_stream, push,
  push_section, fail_section, join, pump_result, producer_step_at, producer_step, consume_section,
  deliver, consumer_step_at, consumer_step, Step, produces, consumes, producer_wakes,
  consumer_wakes, Reach, here, next,
}

abbrev is_failure : Status → Bool
is_failure (success u) = false
is_failure (failure e) = true

module _ {C : Type 0} where
  -- The producer has passed `close`.
  abbrev pub is_late : ProducerAt C → Bool
  is_late (announcing r) = true
  is_late (joining r) = true
  is_late (finished r) = true
  is_late _ = false

  -- The producer has recorded its error.
  abbrev has_failed : ProducerAt C → Bool
  has_failed (announcing_failure r) = true
  has_failed (closing r) = is_failure r
  has_failed (announcing r) = is_failure r
  has_failed (joining r) = is_failure r
  has_failed _ = false

  -- The producer is about to notify mReady.
  abbrev wakes_consumer : ProducerAt C → Bool
  wakes_consumer (signalling p) = true
  wakes_consumer (announcing_failure r) = true
  wakes_consumer (announcing r) = true
  wakes_consumer _ = false

  abbrev pub is_sleeping : ProducerAt C → Bool
  is_sleeping (sleeping c k) = true
  is_sleeping _ = false

  abbrev pub is_finished_ok : ProducerAt C → Bool
  is_finished_ok (finished (success u)) = true
  is_finished_ok _ = false

  -- The consumer is about to notify mSpace.
  abbrev wakes_producer : ConsumerAt C → Bool
  wakes_producer (signals c) = true
  wakes_producer (announces e) = true
  wakes_producer _ = false

  abbrev pub is_asleep : ConsumerAt C → Bool
  is_asleep asleep = true
  is_asleep _ = false

  abbrev pub is_returned_ok : ConsumerAt C → Bool
  is_returned_ok (returned (success u)) = true
  is_returned_ok _ = false

  -- The consumer has recorded the downstream error.
  abbrev pub is_past_failure : ConsumerAt C → Bool
  is_past_failure (announces e) = true
  is_past_failure (returned (failure e)) = true
  is_past_failure _ = false

  pub record Inv (s : Stream C) : Type 0 where
    pub roomy : 0 < s.capacity
    pub bounded : length s.queue ≤ s.capacity
    pub closed_why : s.closed ≡ true → (has_value s.error || is_late s.producer) ≡ true
    pub error_closed : has_value s.error ≡ true → (s.closed ≡ true) × (length s.queue ≡ 0)
    pub late_closed : is_late s.producer ≡ true → s.closed ≡ true
    pub producer_failed : has_failed s.producer ≡ true → has_value s.error ≡ true
    pub consumer_failed : is_past_failure s.consumer ≡ true → has_value s.error ≡ true
    pub consumer_done :
        is_returned_ok s.consumer ≡ true
        → (is_late s.producer ≡ true) × (has_value s.error ≡ false) × (length s.queue ≡ 0)
    pub all_done : is_finished_ok s.producer ≡ true → is_returned_ok s.consumer ≡ true
    pub consumer_called :
        is_asleep s.consumer ≡ true
        → wakes_consumer s.producer ≡ false
        → (length s.queue ≡ 0) × (s.closed ≡ false)
    pub producer_called :
        is_sleeping s.producer ≡ true
        → wakes_producer s.consumer ≡ false
        → (s.capacity ≤ length s.queue) × (s.closed ≡ false) × (has_value s.error ≡ false)

  make_stream-Inv : (capacity : ℕ) (p : Producer C) → Inv (make_stream capacity p)
  unfolding make_stream
  make_stream-Inv capacity p = ground arith

  push_section-Inv :
      (error : Option String) (c : C) (k : Status → Producer C) (s : Stream C)
      → s.error ≡ error
      → s.producer ≡ running (pushes c k)
      → (s.closed ≡ false → length s.queue < s.capacity)
      → Inv s
      → Inv (push_section error c k s)
  unfolding push_section
  push_section-Inv (some e) c k s he hp room v = ground arith
  push_section-Inv none c k s he hp room v = ground (arith, length-append s.queue (c ∷ []))

  push-Inv :
      (c : C) (k : Status → Producer C) (s : Stream C)
      → s.producer ≡ running (pushes c k)
      → Inv s
      → Inv (push c k s)
  unfolding push
  push-Inv c k s hp v =
      elim (Bool-cases (s.closed || (has_value s.error || ltb (length s.queue) s.capacity))) [
        | inl go ↦ rw go (push_section-Inv s.error c k s refl hp (λ not_closed. ground arith) v)
        | inr wait ↦ rw wait (ground arith)
      ]

  join-Inv :
      (r finish : Status) (at : ConsumerAt C) (s : Stream C)
      → s.producer ≡ joining r
      → s.consumer ≡ at
      → Inv s
      → Inv (join r finish at s)
  unfolding join pump_result
  join-Inv (failure e) finish (returned (success u)) s hp hc v = ground arith
  join-Inv (failure e) finish (returned (failure f)) s hp hc v = ground arith
  join-Inv (success u) finish (returned (success w)) s hp hc v = ground arith
  join-Inv (success u) finish (returned (failure f)) s hp hc v = ground arith
  join-Inv r finish _ s hp hc v = v

  producer_step_at-Inv :
      (finish : Status) (at : ProducerAt C) (s : Stream C)
      → s.producer ≡ at
      → Inv s
      → Inv (producer_step_at finish at s)
  unfolding producer_step_at
  producer_step_at-Inv finish (running (returns (success u))) s h v = ground arith
  producer_step_at-Inv finish (running (returns (failure e))) s h v = ground arith
  producer_step_at-Inv finish (running (throws e)) s h v = ground arith
  producer_step_at-Inv finish (running throws_unknown) s h v = ground arith
  producer_step_at-Inv finish (running (pushes c k)) s h v = push-Inv c k s h v
  producer_step_at-Inv finish (sleeping c k) s h v = v
  producer_step_at-Inv finish (signalling p) s h v = ground arith
  producer_step_at-Inv finish (failing e r) s h v = unfold fail_section in ground arith
  producer_step_at-Inv finish (announcing_failure r) s h v = ground arith
  producer_step_at-Inv finish (closing r) s h v = ground arith
  producer_step_at-Inv finish (announcing r) s h v = ground arith
  producer_step_at-Inv finish (joining r) s h v = join-Inv r finish s.consumer s h refl v
  producer_step_at-Inv finish (finished r) s h v = v

  consume_section-Inv :
      (queue : List C) (error : Option String) (s : Stream C)
      → s.queue ≡ queue
      → s.error ≡ error
      → s.consumer ≡ awake
      → Inv s
      → Inv (consume_section queue error s)
  unfolding consume_section
  consume_section-Inv [] (some e) s hq he hc v = ground (arith, ap length hq)
  consume_section-Inv [] none s hq he hc v = ground (arith, ap length hq)
  consume_section-Inv (c ∷ rest) error s hq he hc v = ground (arith, ap length hq)

  consumer_step_at-Inv :
      (pushed : Status) (at : ConsumerAt C) (s : Stream C)
      → s.consumer ≡ at
      → Inv s
      → Inv (consumer_step_at pushed at s)
  unfolding consumer_step_at
  consumer_step_at-Inv pushed awake s h v = consume_section-Inv s.queue s.error s refl refl h v
  consumer_step_at-Inv pushed asleep s h v = v
  consumer_step_at-Inv pushed (signals c) s h v = ground arith
  consumer_step_at-Inv (success u) (delivering c) s h v = unfold deliver in ground arith
  consumer_step_at-Inv (failure e) (delivering c) s h v = unfold deliver in ground arith
  consumer_step_at-Inv pushed (fails c e) s h v = unfold fail_section in ground arith
  consumer_step_at-Inv pushed (announces e) s h v = ground arith
  consumer_step_at-Inv pushed (returned r) s h v = v

  Step-Inv : (s t : Stream C) → Step s t → Inv s → Inv t
  Step-Inv s t (produces finish e) v =
      rw e (unfold producer_step in producer_step_at-Inv finish s.producer s refl v)
  Step-Inv s t (consumes pushed e) v =
      rw e (unfold consumer_step in consumer_step_at-Inv pushed s.consumer s refl v)
  Step-Inv s t (producer_wakes e) v = rw e (ground arith)
  Step-Inv s t (consumer_wakes e) v = rw e (ground arith)

  Reach-Inv : (s t : Stream C) → Inv s → Reach s t → Inv t
  Reach-Inv s t v here = v
  Reach-Inv s t v (next {t = u} reach step) = Step-Inv u t step (Reach-Inv s u v reach)

  -- Whatever the producer does, whatever the sink answers and however the two threads interleave,
  -- the queue never holds more than its capacity, an error closes and empties it, and each thread
  -- that sleeps has nothing to do or is about to be notified.
  pub reachable_stream-Inv :
      (capacity : ℕ) (p : Producer C) (s : Stream C) → Reach (make_stream capacity p) s → Inv s
  reachable_stream-Inv capacity p s r =
      Reach-Inv (make_stream capacity p) s (make_stream-Inv capacity p) r
