-- ===== src/Stream/Outcome.antt =====
-- How `pump` of src/core/chunk_stream.cpp ends.
use Prim.Native.String.{String}
use water_structure_cpp.Common.{
  ℕ, ◌≡◌, refl, sym, ap, ◌∙◌, ◌⊎◌, inl, Bool, true, false, [], ◌++◌, Option, none, some, not,
  length-eq-zero, append-nil, arith,
}
use water_structure_cpp.Result.{success, failure, done}
use water_structure_cpp.Stream.{
  Stream, Producer, ProducerAt, sleeping, joining, finished, ConsumerAt, asleep, returned,
  has_value, make_stream, Reach,
}
use water_structure_cpp.Stream.Invariant.{Inv, reachable_stream-Inv, is_returned_ok}
use water_structure_cpp.Stream.Order.{IsOrdered, reachable-IsOrdered, moved}

none_of_has_value : (e : Option String) → has_value e ≡ false → e ≡ none
none_of_has_value none h = refl
none_of_has_value (some e) h = cc

module _ {C : Type 0} where
  abbrev is_returned : ConsumerAt C → Bool
  is_returned (returned r) = true
  is_returned _ = false

  -- The producer thread waits: on mSpace, or for the consumer to return.
  abbrev pub producer_blocked : ProducerAt C → ConsumerAt C → Bool
  producer_blocked (sleeping c k) at = true
  producer_blocked (joining r) at = not (is_returned at)
  producer_blocked _ at = false

  -- The consumer thread waits on mReady, or has returned.
  abbrev pub consumer_blocked : ConsumerAt C → Bool
  consumer_blocked asleep = true
  consumer_blocked (returned r) = true
  consumer_blocked _ = false

  Inv-unblocked :
      (s : Stream C) (p : ProducerAt C) (c : ConsumerAt C)
      → s.producer ≡ p
      → s.consumer ≡ c
      → Inv s
      → (producer_blocked p c ≡ false) ⊎ (consumer_blocked c ≡ false)
  Inv-unblocked s (sleeping d k) asleep hp hc v = ground arith
  Inv-unblocked s (sleeping d k) (returned (success u)) hp hc v = ground arith
  Inv-unblocked s (sleeping d k) (returned (failure e)) hp hc v = ground arith
  Inv-unblocked s (joining r) asleep hp hc v = ground arith
  Inv-unblocked s (joining r) (returned x) hp hc v = inl refl
  Inv-unblocked s p c hp hc v = ground arith

  -- The two threads never wait for one another: in every reachable state one of them can go on, by
  -- itself and without a spurious wake-up, until `pump` has its result.
  pub reachable_unblocked :
      (capacity : ℕ) (p : Producer C) (s : Stream C)
      → Reach (make_stream capacity p) s
      → (producer_blocked s.producer s.consumer ≡ false) ⊎ (consumer_blocked s.consumer ≡ false)
  reachable_unblocked capacity p s r =
      Inv-unblocked s s.producer s.consumer refl refl (reachable_stream-Inv capacity p s r)

  finished_all :
      (s : Stream C) (at : ConsumerAt C)
      → s.producer ≡ finished done
      → s.consumer ≡ at
      → Inv s
      → IsOrdered s
      → (s.delivered ≡ s.accepted) × (s.error ≡ none) × (s.consumer ≡ returned done)
  finished_all s (returned (success u)) hp hc v (rest, e, q) =
      let (late, clean, empty) = v.consumer_done (ap is_returned_ok hc) in
      let queue_empty : rest ≡ [] = q clean ∙ length-eq-zero s.queue empty in
      (
        sym (append-nil s.delivered)
            ∙ ap (λ l. s.delivered ++ l) (sym queue_empty)
            ∙ moved s rest hc e,
        none_of_has_value s.error clean,
        hc,
      )
  finished_all s _ hp hc v o = absurd (ground arith)

  -- When `pump` reports success, every chunk whose push succeeded has been taken by the sink, once
  -- and in order, no error was recorded, and the consumer ended without one; so no failure of a push
  -- downstream is ever reported as a success.
  pub success_delivers_all :
      (capacity : ℕ) (p : Producer C) (s : Stream C)
      → Reach (make_stream capacity p) s
      → s.producer ≡ finished done
      → (s.delivered ≡ s.accepted) × (s.error ≡ none) × (s.consumer ≡ returned done)
  success_delivers_all capacity p s r h =
      finished_all s s.consumer h refl (reachable_stream-Inv capacity p s r)
        (reachable-IsOrdered capacity p s r)
