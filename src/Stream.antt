-- ===== src/Stream.antt =====
-- src/core/chunk_stream.cpp: the bounded queue between a producer, which runs in the thread that
-- calls `pump`, and the one consumer thread, which hands each chunk to the downstream sink. Chunks
-- are moved and never looked into. The code under the mutex is one step; a notification, a push
-- downstream and all else that stands between two such sections is a step of its own.
pub mod Capacity
pub mod Invariant
pub mod Order
pub mod Outcome
pub mod Batches
mod Runs
use Prim.Native.String.{String, ◌++◌ as str_append}
use water_structure_cpp.Common.{
  ℕ, zero, suc, ◌+◌, ◌<◌, max, ◌≡◌, Bool, true, false, not, ◌||◌, List, [], ◌∷◌, ◌++◌, Option, none,
  some, length, ltb, if◌then◌else◌,
}
use water_structure_cpp.Result.{Result, success, failure, Status, done}

-- What the producer function does: it pushes chunks, sees each push's result, and returns or throws.
pub data Producer (C : Type 0) : Type 0 where
  returns : Status → Producer C
  throws : String → Producer C
  throws_unknown : Producer C
  pushes : C → (Status → Producer C) → Producer C

-- Where the producer thread stands in `pump`.
pub data ProducerAt (C : Type 0) : Type 0 where
  running : Producer C → ProducerAt C
  sleeping : C → (Status → Producer C) → ProducerAt C
  signalling : Producer C → ProducerAt C
  failing : String → Status → ProducerAt C
  announcing_failure : Status → ProducerAt C
  closing : Status → ProducerAt C
  announcing : Status → ProducerAt C
  joining : Status → ProducerAt C
  finished : Status → ProducerAt C

-- Where the consumer thread stands in `consume`.
pub data ConsumerAt (C : Type 0) : Type 0 where
  awake : ConsumerAt C
  asleep : ConsumerAt C
  signals : C → ConsumerAt C
  delivering : C → ConsumerAt C
  fails : C → String → ConsumerAt C
  announces : String → ConsumerAt C
  returned : Status → ConsumerAt C

pub record Stream (C : Type 0) : Type 0 where
  -- mCapacity, mQueue (oldest first), mError, mClosed
  pub capacity : ℕ
  pub queue : List C
  pub error : Option String
  pub closed : Bool
  -- the two threads
  pub producer : ProducerAt C
  pub consumer : ConsumerAt C
  -- the chunks whose push returned success, and those that the sink took with success, in order
  pub accepted : List C
  pub delivered : List C

abbrev pub has_value : Option String → Bool
has_value none = false
has_value (some e) = true

-- The first error stays.
abbrev pub first_error : Option String → String → Option String
first_error none e = some e
first_error (some old) e = some old

-- The end of `pump`, after the join; `finish` is the result of `sink.finish()`.
pub pump_result : Status → Status → Option String → Status → Status
pump_result (failure e) consumer_result error finish = failure e
pump_result (success u) (failure e) error finish = failure e
pump_result (success u) (success v) (some e) finish = failure e
pump_result (success u) (success v) none finish = finish

module _ {C : Type 0} where
  pub make_stream : ℕ → Producer C → Stream C
  make_stream capacity producer = record {
    capacity = max capacity 1;
    queue = [];
    error = none;
    closed = false;
    producer = running producer;
    consumer = awake;
    accepted = [];
    delivered = [];
  }

  abbrev wake_consumer : ConsumerAt C → ConsumerAt C
  wake_consumer asleep = awake
  wake_consumer other = other

  abbrev wake_producer : ProducerAt C → ProducerAt C
  wake_producer (sleeping c k) = running (pushes c k)
  wake_producer other = other

  -- `push` under the mutex, where the wait's predicate holds.
  push_section : Option String → C → (Status → Producer C) → Stream C → Stream C
  push_section (some e) c k s = record s { producer = running (k (failure e)) }
  push_section none c k s =
      if s.closed
      then record s { producer = running (k (failure "chunk stream 已取消")) }
      else record s {
        queue = s.queue ++ c ∷ [];
        accepted = s.accepted ++ c ∷ [];
        producer = signalling (k done);
      }

  pub push : C → (Status → Producer C) → Stream C → Stream C
  unfolding push_section
  push c k s =
      if not (s.closed || (has_value s.error || ltb (length s.queue) s.capacity))
      then record s { producer = sleeping c k }
      else push_section s.error c k s

  -- `fail` under the mutex: what is queued is dropped. The `cancel` of the sink that follows gives
  -- nothing back, and is left out.
  fail_section : String → Stream C → Stream C
  fail_section e s = record s { error = first_error s.error e; closed = true; queue = [] }

  -- What `pump` does with the producer's result: `fail` on an error, and `close` in any case.
  abbrev after_producer : Status → ProducerAt C
  after_producer (success u) = closing (success u)
  after_producer (failure e) = failing e (failure e)

  join : Status → Status → ConsumerAt C → Stream C → Stream C
  unfolding pump_result
  join r finish (returned c) s = record s { producer = finished (pump_result r c s.error finish) }
  join r finish other s = s

  -- One step of the producer thread, by where it stands. Asleep it does nothing.
  producer_step_at : Status → ProducerAt C → Stream C → Stream C
  unfolding push fail_section join
  producer_step_at finish (running (returns r)) s = record s { producer = after_producer r }
  producer_step_at finish (running (throws e)) s = record s {
    producer = after_producer (failure (str_append "chunk stream producer exception: " e));
  }
  producer_step_at finish (running throws_unknown) s = record s {
    producer = after_producer (failure "chunk stream producer exception");
  }
  producer_step_at finish (running (pushes c k)) s = push c k s
  producer_step_at finish (sleeping c k) s = s
  producer_step_at finish (signalling p) s = record s {
    producer = running p;
    consumer = wake_consumer s.consumer;
  }
  producer_step_at finish (failing e r) s = record (fail_section e s) {
    producer = announcing_failure r;
  }
  producer_step_at finish (announcing_failure r) s = record s {
    producer = closing r;
    consumer = wake_consumer s.consumer;
  }
  producer_step_at finish (closing r) s = record s { closed = true; producer = announcing r }
  producer_step_at finish (announcing r) s = record s {
    producer = joining r;
    consumer = wake_consumer s.consumer;
  }
  producer_step_at finish (joining r) s = join r finish s.consumer s
  producer_step_at finish (finished r) s = s

  pub producer_step : Status → Stream C → Stream C
  unfolding producer_step_at
  producer_step finish s = producer_step_at finish s.producer s

  -- `consume` under the mutex, by the queue and the error that it finds.
  consume_section : List C → Option String → Stream C → Stream C
  consume_section [] (some e) s =
      if s.closed
      then record s { consumer = returned (failure e) }
      else record s { consumer = asleep }
  consume_section [] none s =
      if s.closed then record s { consumer = returned done } else record s { consumer = asleep }
  consume_section (c ∷ rest) error s = record s { queue = rest; consumer = signals c }

  deliver : Status → C → Stream C → Stream C
  deliver (success u) c s = record s { consumer = awake; delivered = s.delivered ++ c ∷ [] }
  deliver (failure e) c s = record s { consumer = fails c e }

  -- One step of the consumer thread; `pushed` is what the downstream sink answers to a push.
  consumer_step_at : Status → ConsumerAt C → Stream C → Stream C
  unfolding consume_section deliver fail_section
  consumer_step_at pushed awake s = consume_section s.queue s.error s
  consumer_step_at pushed asleep s = s
  consumer_step_at pushed (signals c) s = record s {
    consumer = delivering c;
    producer = wake_producer s.producer;
  }
  consumer_step_at pushed (delivering c) s = deliver pushed c s
  consumer_step_at pushed (fails c e) s = record (fail_section e s) { consumer = announces e }
  consumer_step_at pushed (announces e) s = record s {
    consumer = returned (failure e);
    producer = wake_producer s.producer;
  }
  consumer_step_at pushed (returned r) s = s

  pub consumer_step : Status → Stream C → Stream C
  unfolding consumer_step_at
  consumer_step pushed s = consumer_step_at pushed s.consumer s

-- A step of either thread, whatever the sink answers, or a wake-up with no notification.
pub data Step {C : Type 0} (s t : Stream C) : Type 0 where
  produces : (finish : Status) → t ≡ producer_step finish s → Step s t
  consumes : (pushed : Status) → t ≡ consumer_step pushed s → Step s t
  producer_wakes : t ≡ record s { producer = wake_producer s.producer } → Step s t
  consumer_wakes : t ≡ record s { consumer = wake_consumer s.consumer } → Step s t

pub data Reach {C : Type 0} (s : Stream C) : Stream C → Type 0 where
  here : Reach s s
  next : {t u : Stream C} → Reach s t → Step t u → Reach s u
