-- ===== src/Stream/Runs.antt =====
-- Runs of src/core/chunk_stream.cpp: schedules of the two threads, and a reader with every chunk.
use Prim.Native.String.{String}
use water_structure_cpp.Common.{
  ℕ, ◌≡◌, refl, ◌⊎◌, false, List, [], ◌∷◌, Option, none, some, map, ◌*◌, ◌^◌, ◌≤◌, ◌≢◌, max, ltb,
  if◌then◌else◌,
}
use water_structure_cpp.Common.Int.{pos, pos_part}
use water_structure_cpp.Coordinates.{ChunkPos, Size, chunk_x_count, chunk_z_count}
use water_structure_cpp.Result.{success, failure, Status, done}
use water_structure_cpp.Stream.{
  Producer, returns, pushes, finished, returned, Stream, make_stream, producer_step,
  producer_step_at, consumer_step, consumer_step_at, consume_section, deliver, push, push_section,
  join, pump_result, fail_section, Reach, here, next, produces, consumes,
}
use water_structure_cpp.Stream.Invariant.{Inv, reachable_stream-Inv}
use water_structure_cpp.Stream.Order.{IsOrdered, reachable-IsOrdered}
use water_structure_cpp.Stream.Outcome.{
  producer_blocked, consumer_blocked, reachable_unblocked, success_delivers_all,
}
use water_structure_cpp.Stream.Capacity.{
  ChunkStreamOptions, stream_capacity, bytes_per_chunk, stream_capacity_bounds,
}
use water_structure_cpp.Stream.Batches.{Structure, from_structure, from_structure_grid}
use water_structure_cpp.Stream.Batches.Complete.{
  Serves, unless_thrown, yields, grid, from_structure_complete, from_structure_grid_complete,
}

-- Whose turn it is, with what the sink answers.
data Turn : Type 0 where
  of_producer : Status → Turn
  of_consumer : Status → Turn

abbrev turn : {C : Type 0} → Turn → Stream C → Stream C
turn (of_producer finish) s = producer_step finish s
turn (of_consumer pushed) s = consumer_step pushed s

abbrev play : {C : Type 0} → List Turn → Stream C → Stream C
play [] s = s
play (t ∷ ts) s = turn t (play ts s)

play-Reach : {C : Type 0} (ts : List Turn) (s : Stream C) → Reach s (play ts s)
play-Reach [] s = here
play-Reach (of_producer finish ∷ ts) s = next (play-Reach ts s) (produces finish refl)
play-Reach (of_consumer pushed ∷ ts) s = next (play-Reach ts s) (consumes pushed refl)

-- It pushes 5 and 6, and goes on after a failed push to return its error.
abbrev two_chunks : Producer ℕ
two_chunks = pushes 5 λ a. pushes 6 λ b. returns b

abbrev p : Turn
p = of_producer done

abbrev c : Turn
c = of_consumer done

-- The last turn first: the producer finds the queue full once, and the consumer delivers both.
abbrev good_turns : List Turn
good_turns = p ∷ c ∷ c ∷ c ∷ c ∷ p ∷ p ∷ p ∷ p ∷ p ∷ c ∷ c ∷ c ∷ p ∷ p ∷ p ∷ []

abbrev good_end : Stream ℕ
good_end = play good_turns (make_stream 1 two_chunks)

-- The sink refuses the first chunk while the producer is asleep.
abbrev bad_turns : List Turn
bad_turns = of_consumer (failure "disk full") ∷ c ∷ c ∷ p ∷ p ∷ p ∷ []

abbrev bad_end : Stream ℕ
bad_end = play bad_turns (make_stream 1 two_chunks)

good_end_finished : good_end.producer ≡ finished done
unfolding make_stream producer_step producer_step_at consumer_step consumer_step_at consume_section
    deliver push push_section join pump_result fail_section
good_end_finished = refl

success_delivers_all_example :
    (good_end.delivered ≡ good_end.accepted)
    × (good_end.error ≡ none)
    × (good_end.consumer ≡ returned done)
success_delivers_all_example =
    success_delivers_all 1 two_chunks good_end (play-Reach good_turns (make_stream 1 two_chunks))
      good_end_finished

reachable-IsOrdered_example : IsOrdered bad_end
reachable-IsOrdered_example =
    reachable-IsOrdered 1 two_chunks bad_end (play-Reach bad_turns (make_stream 1 two_chunks))

reachable_unblocked_example :
    (producer_blocked bad_end.producer bad_end.consumer ≡ false)
    ⊎ (consumer_blocked bad_end.consumer ≡ false)
reachable_unblocked_example =
    reachable_unblocked 1 two_chunks bad_end (play-Reach bad_turns (make_stream 1 two_chunks))

reachable_stream-Inv_example : Inv bad_end
reachable_stream-Inv_example =
    reachable_stream-Inv 1 two_chunks bad_end (play-Reach bad_turns (make_stream 1 two_chunks))

abbrev options : ChunkStreamOptions
options = record { max_in_flight_chunks = 300; soft_memory_budget_bytes = 7 * bytes_per_chunk }

stream_capacity_bounds_example :
    (1 ≤ stream_capacity options)
    × (stream_capacity options ≤ 128)
    × (stream_capacity options * bytes_per_chunk
        ≤ max options.soft_memory_budget_bytes bytes_per_chunk)
    × (options.max_in_flight_chunks ≢ 0 → stream_capacity options ≤ options.max_in_flight_chunks)
stream_capacity_bounds_example = stream_capacity_bounds options

-- A chunk is its position here, and holds no entity.
abbrev mirror : Structure ChunkPos ℕ
mirror = record {
  get_chunks = λ ps. success (map (λ q. (q, q)) ps);
  get_chunk_nbt = λ ps. success (map (λ q. (q, [])) ps);
}

mirror-Serves : Serves mirror (λ q. q)
mirror-Serves = record { chunks = λ q. refl; entities = λ ps. (map (λ q. (q, [])) ps, refl) }

abbrev two_positions : List ChunkPos
two_positions = record { x = pos 4; z = pos 0 } ∷ record { x = pos 1; z = pos 2 } ∷ []

from_structure_complete_example :
    yields (from_structure mirror two_positions 1) ≡ (map (λ q. (q, q)) two_positions, done)
from_structure_complete_example =
    from_structure_complete mirror (λ q. q) mirror-Serves two_positions 1

-- A std::vector of 2 ^ 60 chunk positions would not fit.
abbrev reserve : ℕ → Option String
reserve n = if ltb n (2 ^ 60) then none else some "vector::reserve"

abbrev three_by_two : Size
three_by_two = record { width = pos 40; height = pos 9; length = pos 17 }

from_structure_grid_complete_example :
    yields (from_structure_grid reserve mirror three_by_two 4)
    ≡ unless_thrown (reserve 4) (
        yields (
          from_structure mirror
            (grid (pos_part (chunk_x_count three_by_two)) 0 (pos_part (chunk_z_count three_by_two)))
            2))
from_structure_grid_complete_example =
    from_structure_grid_complete mirror (λ q. q) mirror-Serves reserve three_by_two 4 2
