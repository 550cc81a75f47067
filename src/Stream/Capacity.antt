-- ===== src/Stream/Capacity.antt =====
-- The size of the queue that `pump` of src/core/chunk_stream.cpp makes.
use water_structure_cpp.Common.{ℕ, ◌*◌, ◌/◌, ◌≤◌, min, max, ◌≢◌, arith, ◌==◌, if◌then◌else◌}

-- include/WaterStructure/chunk_stream.hpp; `worker_count` is not read here.
pub record ChunkStreamOptions : Type 0 where
  pub max_in_flight_chunks : ℕ
  pub soft_memory_budget_bytes : ℕ

abbrev pub bytes_per_chunk : ℕ
bytes_per_chunk = 2 * 1024 * 1024

-- `std::clamp`.
abbrev clamp : ℕ → ℕ → ℕ → ℕ
clamp v lo hi = min (max v lo) hi

unfoldable pub stream_capacity : ChunkStreamOptions → ℕ
stream_capacity options =
    let budget = max options.soft_memory_budget_bytes bytes_per_chunk in
    let budget_capacity = clamp (budget / bytes_per_chunk) 1 128 in
    if options.max_in_flight_chunks == 0
    then budget_capacity
    else min (clamp options.max_in_flight_chunks 1 4096) budget_capacity

-- The window holds 1 to 128 chunks; at 2 MiB a chunk they fit the memory budget, or are the one
-- chunk that is always allowed; and an explicit window is never exceeded.
pub stream_capacity_bounds :
    (o : ChunkStreamOptions)
    → (1 ≤ stream_capacity o)
      × (stream_capacity o ≤ 128)
      × (stream_capacity o * bytes_per_chunk ≤ max o.soft_memory_budget_bytes bytes_per_chunk)
      × (o.max_in_flight_chunks ≢ 0 → stream_capacity o ≤ o.max_in_flight_chunks)
unfolding stream_capacity
stream_capacity_bounds o = ground arith
