-- ===== src/Stream/Batches.antt =====
-- The producers that src/core/chunk_stream.cpp makes from a structure, and the default
-- `visit_chunks` of include/WaterStructure/structure.hpp that they drive. The formats' readers are
-- the two functions of `Structure`; what a chunk and an entity are does not matter here.
pub mod Complete
use Prim.Native.String.{String}
use water_structure_cpp.Common.{
  ℕ, zero, suc, ◌+◌, max, Bool, true, false, List, [], ◌∷◌, ◌++◌, Option, none, some, length, take,
  drop, ltb, if◌then◌else◌,
}
use water_structure_cpp.Common.Int.{pos, pos_part}
use water_structure_cpp.Coordinates.{ChunkPos, Size, chunk_eq, chunk_x_count, chunk_z_count}
use water_structure_cpp.Result.{Result, success, failure, Status, done}
use water_structure_cpp.Stream.{Producer, returns, throws, pushes}

pub record Structure (Blocks Entity : Type 0) : Type 0 where
  pub get_chunks : List ChunkPos → Result (List (ChunkPos × Blocks))
  pub get_chunk_nbt : List ChunkPos → Result (List (ChunkPos × List Entity))

pub record StreamChunk (Blocks Entity : Type 0) : Type 0 where
  pub position : ChunkPos
  pub blocks : Blocks
  pub entities : List Entity

-- `find` on the map that a reader returned.
unfoldable pub find {ℓ} : {V : Type ℓ} → ChunkPos → List (ChunkPos × V) → Option V
find p [] = none
find p ((q, v) ∷ m) = if chunk_eq q p then some v else find p m

-- The entities of a position are moved out of the map, and leave an empty list behind.
pub take_entities :
    {Entity : Type 0}
    → ChunkPos
    → List (ChunkPos × List Entity)
    → List Entity × List (ChunkPos × List Entity)
take_entities p [] = ([], [])
take_entities p ((q, v) ∷ m) =
    let (found, rest) = take_entities p m in
    if chunk_eq q p then (v, (q, []) ∷ m) else (found, (q, v) ∷ rest)

module _ {Blocks Entity : Type 0} where
  -- `visit_chunks` with the visitor of `produce_structure_batch`; `k` is what follows its return.
  pub visit_chunks :
      Structure Blocks Entity
      → List (ChunkPos × List Entity)
      → List ChunkPos
      → (Status → Producer (StreamChunk Blocks Entity))
      → Producer (StreamChunk Blocks Entity)
  visit_chunks st entities [] k = k done
  visit_chunks st entities (p ∷ ps) k = elim (st.get_chunks (p ∷ [])) [
    | failure e ↦ k (failure e)
    | success chunks ↦ elim (find p chunks) [
      | none ↦ visit_chunks st entities ps k
      | some blocks ↦
          let (mine, others) = take_entities p entities in
          pushes (record { position = p; blocks = blocks; entities = mine })
            λ pushed. elim pushed [
              | failure e ↦ k (failure e)
              | success u ↦ visit_chunks st others ps k
            ]
    ]
  ]

  pub produce_structure_batch :
      Structure Blocks Entity
      → List ChunkPos
      → (Status → Producer (StreamChunk Blocks Entity))
      → Producer (StreamChunk Blocks Entity)
  unfolding visit_chunks
  produce_structure_batch st batch k = elim (st.get_chunk_nbt batch) [
    | failure e ↦ k (failure e)
    | success entities ↦ visit_chunks st entities batch k
  ]

  -- The loop over `begin`: `rest` is what the batches before have left of the positions, and each
  -- batch takes one of them at least, so their number is fuel enough.
  from_positions_loop :
      ℕ → Structure Blocks Entity → ℕ → List ChunkPos → Producer (StreamChunk Blocks Entity)
  unfolding produce_structure_batch
  from_positions_loop fuel st size [] = returns done
  from_positions_loop zero st size (p ∷ ps) = returns (failure "out of fuel")
  from_positions_loop (suc fuel) st size (p ∷ ps) =
      produce_structure_batch st (take size (p ∷ ps)) λ visited. elim visited [
        | failure e ↦ returns (failure e)
        | success u ↦ from_positions_loop fuel st size (drop size (p ∷ ps))
      ]

  pub from_structure :
      Structure Blocks Entity → List ChunkPos → ℕ → Producer (StreamChunk Blocks Entity)
  unfolding from_positions_loop
  from_structure st positions source_batch_size =
      from_positions_loop (length positions) st (max source_batch_size 1) positions

  -- The inner loop of `from_structure_grid`: `left` columns of the row `z` remain, from `x` on; `k`
  -- goes on with the batch that the row leaves.
  grid_row :
      Structure Blocks Entity
      → ℕ
      → ℕ
      → ℕ
      → ℕ
      → List ChunkPos
      → (List ChunkPos → Producer (StreamChunk Blocks Entity))
      → Producer (StreamChunk Blocks Entity)
  unfolding produce_structure_batch
  grid_row st size z x zero batch k = k batch
  grid_row st size z x (suc left) batch k =
      let batch' = batch ++ record { x = pos x; z = pos z } ∷ [] in
      let more = grid_row st size z (x + 1) left batch' k in
      let full = produce_structure_batch st batch' λ visited. elim visited [
        | failure e ↦ returns (failure e)
        | success u ↦ grid_row st size z (x + 1) left [] k
      ] in
      if ltb (length batch') size then more else full

  grid_rows :
      Structure Blocks Entity → ℕ → ℕ → ℕ → ℕ → List ChunkPos → Producer (StreamChunk Blocks Entity)
  unfolding grid_row produce_structure_batch
  grid_rows st size x_count z zero [] = returns done
  grid_rows st size x_count z zero (p ∷ batch) =
      produce_structure_batch st (p ∷ batch) (λ visited. returns visited)
  grid_rows st size x_count z (suc left) batch =
      grid_row st size z 0 x_count batch (λ rest. grid_rows st size x_count (z + 1) left rest)

  -- The rest of a producer, behind an allocation that may throw.
  abbrev pub reserved :
      Option String → Producer (StreamChunk Blocks Entity) → Producer (StreamChunk Blocks Entity)
  reserved none rest = rest
  reserved (some e) rest = throws e

  -- `reserve` says what `batch.reserve` throws for so many positions, if it throws: a
  -- std::length_error or a std::bad_alloc, from a size on that the machine sets.
  pub from_structure_grid :
      (ℕ → Option String)
      → Structure Blocks Entity
      → Size
      → ℕ
      → Producer (StreamChunk Blocks Entity)
  unfolding grid_rows
  from_structure_grid reserve st size source_batch_size =
      let batch_size = max source_batch_size 1 in
      reserved (reserve batch_size) (
        grid_rows st batch_size (pos_part (chunk_x_count size)) 0 (pos_part (chunk_z_count size))
          [])
