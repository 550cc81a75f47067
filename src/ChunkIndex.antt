-- ===== src/ChunkIndex.antt =====
-- include/WaterStructure/chunk_index.hpp: the indices of a reader's blocks, by the chunk that the
-- block stands in. The blocks are known by their positions, which is what `position` reads.
pub mod Finds
mod Runs
use water_structure_cpp.Common.{
  ℕ, suc, ◌+◌, ◌-◌, ◌%◌, ◌^◌, Bool, true, false, List, [], ◌∷◌, ◌++◌, Option, none, some, length,
  ltb, if◌then◌else◌,
}
use water_structure_cpp.Coordinates.{BlockPos, ChunkPos, chunk_eq, block_to_chunk}
use water_structure_cpp.Chunk.{find_chunk}
use water_structure_cpp.Store.Chunks.{world_of}

abbrev pub Buckets : Type 0
Buckets = List (ChunkPos × List ℕ)

pub record ChunkBlockIndex : Type 0 where
  pub ready : Bool
  pub buckets : Buckets

abbrev pub clear : ChunkBlockIndex → ChunkBlockIndex
clear index = record { ready = false; buckets = [] }

-- `mBuckets[chunk].push_back(index)`.
push_index : ChunkPos → ℕ → Buckets → Buckets
push_index p i [] = (p, i ∷ []) ∷ []
push_index p i ((q, is) ∷ m) =
    if chunk_eq q p then (q, is ++ i ∷ []) ∷ m else (q, is) ∷ push_index p i m

-- The loop over the blocks, from the index `i` on; an index is a uint32_t.
index_blocks : BlockPos → ℕ → List BlockPos → Buckets → Buckets
unfolding push_index
index_blocks offset i [] m = m
index_blocks offset i (p ∷ ps) m =
    index_blocks offset (i + 1) ps (push_index (block_to_chunk (world_of offset p)) (i % 2 ^ 32) m)

-- What `ensure` returns, and the index after it.
unfoldable pub ensure : ChunkBlockIndex → List BlockPos → BlockPos → Bool × ChunkBlockIndex
unfolding index_blocks
ensure index blocks offset =
    if index.ready
    then (true, index)
    else if ltb (2 ^ 32 - 1) (length blocks)
    then (false, index)
    else (true, record { ready = true; buckets = index_blocks offset 0 blocks [] })

unfoldable pub find_bucket : ChunkBlockIndex → ChunkPos → Option (List ℕ)
find_bucket index p = find_chunk p index.buckets
