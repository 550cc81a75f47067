-- ===== src/Chunk.antt =====
-- The chunks of include/WaterStructure/types.hpp and include/WaterStructure/structure.hpp. A layer of
-- 4096 blocks is a function of the index; an unordered map is the list of its entries.
use water_structure_cpp.Common.{ℕ, ◌^◌, List, [], ◌∷◌, Option, none, some, if◌then◌else◌}
use water_structure_cpp.Common.Int.{ℤ, pos, ◌+ℤ◌, ◌-ℤ◌, ◌*ℤ◌, eqb_ℤ, to_unsigned, wrap32}
use water_structure_cpp.Coordinates.{ChunkPos, chunk_eq, floor_div, floor_mod}

abbrev pub BlockLayer : Type 0
BlockLayer = ℕ → ℕ

pub record SubChunkData : Type 0 where
  pub layer0 : BlockLayer
  pub layer1 : BlockLayer

pub data BlockLayerLayout : Type 0 where
  internal native : BlockLayerLayout

abbrev pub SubChunks : Type 0
SubChunks = List (ℤ × SubChunkData)

pub record ChunkData : Type 0 where
  pub sub_chunks : SubChunks
  pub layout : BlockLayerLayout

abbrev pub empty_chunk : ChunkData
empty_chunk = record { sub_chunks = []; layout = BlockLayerLayout.internal }

abbrev pub ChunkMap : Type 0
ChunkMap = List (ChunkPos × ChunkData)

unfoldable pub find_chunk {ℓ} : {V : Type ℓ} → ChunkPos → List (ChunkPos × V) → Option V
find_chunk p [] = none
find_chunk p ((q, v) ∷ m) = if chunk_eq q p then some v else find_chunk p m

unfoldable pub find_sub_chunk : ℤ → SubChunks → Option SubChunkData
find_sub_chunk y [] = none
find_sub_chunk y ((k, sub) ∷ m) = if eqb_ℤ k y then some sub else find_sub_chunk y m

-- `(ly * 16 + lz) * 16 + lx`, of numbers from 0 to 15.
unfoldable pub layer_index : ℤ → ℤ → ℤ → ℕ
layer_index ly lz lx = to_unsigned (2 ^ 64) ((ly *ℤ pos 16 +ℤ lz) *ℤ pos 16 +ℤ lx)

-- `block_at` of src/formats/schematic_writer.cpp: what a writer reads at a world position, by the
-- subchunk and by the chunk found there.
abbrev pub layer0_at : ℕ → ℕ → Option SubChunkData → ℕ
layer0_at air index none = air
layer0_at air index (some sub) = sub.layer0 index

unfoldable pub block_in : ℕ → ℤ → ℤ → ℤ → Option ChunkData → ℕ
block_in air x y z none = air
block_in air x y z (some chunk) =
    let sub_y = floor_div (wrap32 (y -ℤ pos 64)) (pos 16) in
    let local_y = wrap32 (y -ℤ wrap32 (wrap32 (sub_y *ℤ pos 16) +ℤ pos 64)) in
    layer0_at air (layer_index local_y (floor_mod z (pos 16)) (floor_mod x (pos 16)))
      (find_sub_chunk sub_y chunk.sub_chunks)

unfoldable pub block_at : ℕ → ChunkMap → ℤ → ℤ → ℤ → ℕ
unfolding block_in find_chunk
block_at air chunks x y z =
    block_in air x y z
      (find_chunk (record { x = floor_div x (pos 16); z = floor_div z (pos 16) }) chunks)
