-- ===== src/Store/Chunks.antt =====
-- `get_chunks_impl` of src/core/decoded_structure.cpp.
pub mod Local
pub mod Place
pub mod Loops
pub mod Window
pub mod Effects
pub mod Read
pub mod RoundTrip
use water_structure_cpp.Common.{
  ℕ, zero, suc, ◌+◌, ◌-◌, Bool, true, false, not, ◌&&◌, ◌||◌, List, [], ◌∷◌, Option, none, some,
  ◌==◌, if◌then◌else◌,
}
use water_structure_cpp.Common.Int.{ℤ, pos, ◌+ℤ◌, ◌-ℤ◌, ◌*ℤ◌, ltb_ℤ, leb_ℤ, eqb_ℤ, wrap32, pos_part}
use water_structure_cpp.Coordinates.{BlockPos, ChunkPos, Size, chunk_eq, floor_div, floor_mod}
use water_structure_cpp.Result.{Result, success, failure, ◌>>=◌}
use water_structure_cpp.Chunk.{
  SubChunkData, ChunkData, SubChunks, ChunkMap, empty_chunk, layer_index,
}
use water_structure_cpp.Store.{Store}
use water_structure_cpp.Store.Map.{Entries, range}

-- `for` over a sequence, left by the first failure.
unfoldable pub for_each {ℓ} : {A : Type ℓ} {S : Type 0} → List A → (A → S → Result S) → S → Result S
for_each [] body s = success s
for_each (a ∷ rest) body s = body a s >>= λ s'. for_each rest body s'

-- `n` integers from `lo` on.
unfoldable pub int_range : ℤ → ℕ → List ℤ
int_range lo zero = []
int_range lo (suc n) = lo ∷ int_range (lo +ℤ pos 1) n

abbrev pub max_ℤ : ℤ → ℤ → ℤ
max_ℤ a b = if ltb_ℤ a b then b else a

abbrev pub min_ℤ : ℤ → ℤ → ℤ
min_ℤ a b = if ltb_ℤ b a then b else a

-- `try_emplace`, the fill of a new subchunk, and the write to its first layer.
unfoldable pub write_block : ℕ → Bool → ℤ → ℕ → ℕ → SubChunks → SubChunks
write_block air include_layer1 sub_y index id [] =
    (
      sub_y,
      record {
        layer0 = λ i. if i == index then id else air;
        layer1 = λ i. if include_layer1 then air else 0;
      },
    )
    ∷ []
write_block air include_layer1 sub_y index id ((k, sub) ∷ m) =
    if eqb_ℤ k sub_y
    then (k, record sub { layer0 = λ i. if i == index then id else sub.layer0 i }) ∷ m
    else (k, sub) ∷ write_block air include_layer1 sub_y index id m

-- local + mOffset
unfoldable pub world_of : BlockPos → BlockPos → BlockPos
world_of offset local = record {
  x = wrap32 (local.x +ℤ offset.x);
  y = wrap32 (local.y +ℤ offset.y);
  z = wrap32 (local.z +ℤ offset.z);
}

abbrev pub is_local : ℤ → Bool
is_local n = not (ltb_ℤ n (pos 0) || leb_ℤ (pos 16) n)

-- The body of the loops over the blocks inside the declared size.
unfoldable pub place_block : Store → Bool → ChunkPos → BlockPos × ℕ → SubChunks → Result SubChunks
place_block s include_layer1 chunk_pos (local, id) subs =
    let w = world_of s.offset local in
    let sub_y = floor_div (wrap32 (w.y -ℤ pos 64)) (pos 16) in
    let lx = wrap32 (w.x -ℤ wrap32 (chunk_pos.x *ℤ pos 16)) in
    let ly = wrap32 (w.y -ℤ wrap32 (wrap32 (sub_y *ℤ pos 16) +ℤ pos 64)) in
    let lz = wrap32 (w.z -ℤ wrap32 (chunk_pos.z *ℤ pos 16)) in
    if is_local lx && (is_local ly && is_local lz)
    then success (write_block s.air include_layer1 sub_y (layer_index ly lz lx) id subs)
    else failure "稀疏方块坐标 materialize 越界"

-- The body of the loop over the blocks outside the declared size, which looks for those of the chunk.
unfoldable pub place_outside : Store → Bool → ChunkPos → BlockPos × ℕ → SubChunks → Result SubChunks
place_outside s include_layer1 chunk_pos (local, id) subs =
    let w = world_of s.offset local in
    let below = wrap32 (w.y -ℤ pos 64) in
    let lx = floor_mod w.x (pos 16) in
    let ly = floor_mod below (pos 16) in
    let lz = floor_mod w.z (pos 16) in
    if not (eqb_ℤ (floor_div w.x (pos 16)) chunk_pos.x)
      || not (eqb_ℤ (floor_div w.z (pos 16)) chunk_pos.z)
    then success subs
    else success
        (write_block s.air include_layer1 (floor_div below (pos 16)) (layer_index ly lz lx) id subs)

-- The structure's columns that can lie in the chunk, along one axis: `source_min` and `source_max`.
unfoldable pub source_min : ℤ → ℤ → ℤ
source_min chunk offset = max_ℤ (pos 0) (chunk *ℤ pos 16 -ℤ offset)

unfoldable pub source_max : ℤ → ℤ → ℤ → ℤ
source_max chunk offset extent = min_ℤ (extent -ℤ pos 1) (chunk *ℤ pos 16 +ℤ pos 15 -ℤ offset)

-- One column of blocks at (x, y), between two values of z.
unfoldable pub place_column : Store → Bool → ChunkPos → ℤ → ℤ → ℤ → ℤ → SubChunks → Result SubChunks
unfolding for_each
place_column s include_layer1 chunk_pos min_z max_z x y =
    for_each
      (range (record { x = wrap32 x; y = wrap32 y; z = wrap32 min_z })
        (record { x = wrap32 x; y = wrap32 y; z = wrap32 max_z }) s.blocks)
      (place_block s include_layer1 chunk_pos)

-- The count of the integers from `lo` to `hi`, both included.
abbrev pub span : ℤ → ℤ → ℕ
span lo hi = pos_part (hi -ℤ lo +ℤ pos 1)

unfoldable pub fill_chunk : Store → Bool → ChunkPos → Result ChunkData
unfolding for_each int_range
fill_chunk s include_layer1 chunk_pos =
    let min_x = source_min chunk_pos.x s.offset.x in
    let max_x = source_max chunk_pos.x s.offset.x s.original_size.width in
    let min_z = source_min chunk_pos.z s.offset.z in
    let max_z = source_max chunk_pos.z s.offset.z s.original_size.length in
    let inside =
      for_each (int_range min_x (span min_x max_x))
        (λ x.
          for_each (int_range (pos 0) (pos_part s.original_size.height))
            (λ y. place_column s include_layer1 chunk_pos min_z max_z x y))
        [] in
    if ltb_ℤ max_x min_x || ltb_ℤ max_z min_z then success empty_chunk else do
      subs ← inside
      all ←
          if s.include_out_of_bounds
          then for_each s.out_of_bounds_blocks (place_outside s include_layer1 chunk_pos) subs
          else success subs
      success (record empty_chunk { sub_chunks = all })

-- The keys that `emplace` makes of the positions asked for: each once.
abbrev pub without : ChunkPos → List ChunkPos → List ChunkPos
without p [] = []
without p (q ∷ qs) = if chunk_eq q p then without p qs else q ∷ without p qs

unfoldable pub keys : List ChunkPos → List ChunkPos
keys [] = []
keys (p ∷ ps) = p ∷ without p (keys ps)

-- The loop over the map: each chunk by itself, left by the first failure.
unfoldable pub fill_all : (ChunkPos → Result ChunkData) → List ChunkPos → Result ChunkMap
fill_all fill [] = success []
fill_all fill (p ∷ ps) = do chunk ← fill p; rest ← fill_all fill ps; success ((p, chunk) ∷ rest)

unfoldable pub get_chunks_impl : Store → List ChunkPos → Bool → Result ChunkMap
unfolding fill_chunk keys fill_all
get_chunks_impl s positions include_layer1 = fill_all (fill_chunk s include_layer1) (keys positions)

pub get_chunks : Store → List ChunkPos → Result ChunkMap
unfolding get_chunks_impl
get_chunks s positions = get_chunks_impl s positions true

pub get_chunks_layer0 : Store → List ChunkPos → Result ChunkMap
unfolding get_chunks_impl
get_chunks_layer0 s positions = get_chunks_impl s positions false
