-- ===== src/Stream/Order.antt =====
-- The order of the chunks in `pump` of src/core/chunk_stream.cpp.
use Prim.Native.String.{String}
use water_structure_cpp.Common.{
  ℕ, ◌≡◌, refl, sym, ap, ◌∙◌, false, List, [], ◌∷◌, ◌++◌, Option, none, some, length, append_assoc,
  arith, ◌||◌, Bool-cases, inl, inr, ltb,
}
use water_structure_cpp.Result.{success, failure, Status}
use water_structure_cpp.Stream.{
  Stream, Producer, returns, throws, throws_unknown, pushes, ProducerAt, running, signalling,
  failing, announcing_failure, announcing, joining, ConsumerAt, awake, asleep, signals, delivering,
  fails, announces, returned, has_value, make_stream, push, push_section, fail_section, join,
  producer_step_at, producer_step, consume_section, deliver, consumer_step_at, consumer_step,
  wake_consumer, Step, produces, consumes, producer_wakes, consumer_wakes, Reach, here, next,
}
use water_structure_cpp.Stream.Invariant.{Inv, reachable_stream-Inv}

module _ {C : Type 0} where
  -- The chunk that the consumer has taken from the queue and that the sink has not yet accepted.
  abbrev pub in_hand : ConsumerAt C → List C
  in_hand (signals c) = c ∷ []
  in_hand (delivering c) = c ∷ []
  in_hand (fails c e) = c ∷ []
  in_hand _ = []

  -- The chunks delivered, then the one in hand, then others, are the chunks accepted; the others are
  -- the queue as long as there is no error.
  abbrev pub IsOrdered : Stream C → Type 0
  IsOrdered s =
      (rest : List C) × (s.delivered ++ (in_hand s.consumer ++ rest) ≡ s.accepted)
      × (has_value s.error ≡ false → rest ≡ s.queue)

  -- The equation at a consumer whose place is known.
  pub moved :
      (s : Stream C) (rest : List C) {at : ConsumerAt C}
      → s.consumer ≡ at
      → s.delivered ++ (in_hand s.consumer ++ rest) ≡ s.accepted
      → s.delivered ++ (in_hand at ++ rest) ≡ s.accepted
  moved s rest h p = ap (λ at. s.delivered ++ (in_hand at ++ rest)) (sym h) ∙ p

  in_hand-wake_consumer : (at : ConsumerAt C) → in_hand (wake_consumer at) ≡ in_hand at
  in_hand-wake_consumer asleep = refl
  in_hand-wake_consumer _ = refl

  push_section-IsOrdered :
      (error : Option String) (c : C) (k : Status → Producer C) (s : Stream C)
      → s.error ≡ error
      → IsOrdered s
      → IsOrdered (push_section error c k s)
  unfolding push_section
  push_section-IsOrdered (some e) c k s he o = o
  push_section-IsOrdered none c k s he (rest, e, q) = elim (Bool-cases s.closed) [
    | inl shut ↦ rw shut (rest, e, q)
    | inr not_shut ↦ rw not_shut (
      rest ++ c ∷ [],
      ap (λ l. s.delivered ++ l) (sym (append_assoc (in_hand s.consumer) rest (c ∷ [])))
          ∙ sym (append_assoc s.delivered (in_hand s.consumer ++ rest) (c ∷ []))
          ∙ ap (λ l. l ++ c ∷ []) e,
      λ h. ap (λ l. l ++ c ∷ []) (q h),
    )
  ]

  push-IsOrdered :
      (c : C) (k : Status → Producer C) (s : Stream C) → IsOrdered s → IsOrdered (push c k s)
  unfolding push
  push-IsOrdered c k s o =
      elim (Bool-cases (s.closed || (has_value s.error || ltb (length s.queue) s.capacity))) [
        | inl go ↦ rw go (push_section-IsOrdered s.error c k s refl o)
        | inr wait ↦ rw wait o
      ]

  fail_section-IsOrdered : (e : String) (s : Stream C) → IsOrdered s → IsOrdered (fail_section e s)
  unfolding fail_section
  fail_section-IsOrdered e s (rest, p, q) = (rest, p, ground arith)

  join-IsOrdered :
      (r finish : Status) (at : ConsumerAt C) (s : Stream C)
      → IsOrdered s
      → IsOrdered (join r finish at s)
  unfolding join
  join-IsOrdered r finish (returned x) s o = o
  join-IsOrdered r finish _ s o = o

  producer_step_at-IsOrdered :
      (finish : Status) (at : ProducerAt C) (s : Stream C)
      → IsOrdered s
      → IsOrdered (producer_step_at finish at s)
  unfolding producer_step_at
  producer_step_at-IsOrdered finish (running (pushes c k)) s o = push-IsOrdered c k s o
  producer_step_at-IsOrdered finish (running (returns r)) s o = o
  producer_step_at-IsOrdered finish (running (throws e)) s o = o
  producer_step_at-IsOrdered finish (running throws_unknown) s o = o
  producer_step_at-IsOrdered finish (failing e r) s o = fail_section-IsOrdered e s o
  producer_step_at-IsOrdered finish (joining r) s o = join-IsOrdered r finish s.consumer s o
  producer_step_at-IsOrdered finish (signalling p) s o = rw (in_hand-wake_consumer s.consumer) o
  producer_step_at-IsOrdered finish (announcing_failure r) s o =
      rw (in_hand-wake_consumer s.consumer) o
  producer_step_at-IsOrdered finish (announcing r) s o = rw (in_hand-wake_consumer s.consumer) o
  producer_step_at-IsOrdered finish _ s o = o

  consume_section-IsOrdered :
      (queue : List C) (error : Option String) (s : Stream C)
      → s.queue ≡ queue
      → s.error ≡ error
      → s.consumer ≡ awake
      → Inv s
      → IsOrdered s
      → IsOrdered (consume_section queue error s)
  unfolding consume_section
  consume_section-IsOrdered [] (some e) s hq he hc v (rest, p, q) =
      (rest, ground arith, ground arith)
  consume_section-IsOrdered [] none s hq he hc v (rest, p, q) = (rest, ground arith, ground arith)
  consume_section-IsOrdered (c ∷ rest) (some e) s hq he hc v o =
      absurd (ground (arith, ap length hq))
  consume_section-IsOrdered (c ∷ queue) none s hq he hc v (rest, p, q) = (
    queue,
    ap (λ l. s.delivered ++ l) (sym (q (ap has_value he) ∙ hq)) ∙ moved s rest hc p,
    λ _. refl,
  )

  consumer_step_at-IsOrdered :
      (pushed : Status) (at : ConsumerAt C) (s : Stream C)
      → s.consumer ≡ at
      → Inv s
      → IsOrdered s
      → IsOrdered (consumer_step_at pushed at s)
  unfolding consumer_step_at
  consumer_step_at-IsOrdered pushed awake s h v o =
      consume_section-IsOrdered s.queue s.error s refl refl h v o
  consumer_step_at-IsOrdered pushed asleep s h v o = o
  consumer_step_at-IsOrdered pushed (signals c) s h v (rest, p, q) = (rest, moved s rest h p, q)
  consumer_step_at-IsOrdered (success u) (delivering c) s h v (rest, p, q) =
      unfold deliver in (rest, append_assoc s.delivered (c ∷ []) rest ∙ moved s rest h p, q)
  consumer_step_at-IsOrdered (failure e) (delivering c) s h v (rest, p, q) =
      unfold deliver in (rest, moved s rest h p, q)
  consumer_step_at-IsOrdered pushed (fails c e) s h v (rest, p, q) =
      unfold fail_section in (c ∷ rest, moved s rest h p, ground arith)
  consumer_step_at-IsOrdered pushed (announces e) s h v (rest, p, q) = (rest, moved s rest h p, q)
  consumer_step_at-IsOrdered pushed (returned r) s h v o = o

  Step-IsOrdered : (s t : Stream C) → Step s t → Inv s → IsOrdered s → IsOrdered t
  Step-IsOrdered s t (produces finish e) v o =
      rw e (unfold producer_step in producer_step_at-IsOrdered finish s.producer s o)
  Step-IsOrdered s t (consumes pushed e) v o =
      rw e (unfold consumer_step in consumer_step_at-IsOrdered pushed s.consumer s refl v o)
  Step-IsOrdered s t (producer_wakes e) v o = rw e o
  Step-IsOrdered s t (consumer_wakes e) v o = rw (e, in_hand-wake_consumer s.consumer) o

  make_stream-IsOrdered : (capacity : ℕ) (p : Producer C) → IsOrdered (make_stream capacity p)
  unfolding make_stream
  make_stream-IsOrdered capacity p = ([], refl, λ _. refl)

  -- In every reachable state the chunks that the sink took are the first of the chunks whose push
  -- succeeded, in the same order, whatever errors occurred; and while no error is recorded, what is
  -- not yet delivered is in the consumer's hand or in the queue.
  pub reachable-IsOrdered :
      (capacity : ℕ) (p : Producer C) (s : Stream C)
      → Reach (make_stream capacity p) s
      → IsOrdered s
  reachable-IsOrdered capacity p s here = make_stream-IsOrdered capacity p
  reachable-IsOrdered capacity p s (next {t = u} reach step) =
      Step-IsOrdered u s step (reachable_stream-Inv capacity p u reach)
        (reachable-IsOrdered capacity p u reach)
