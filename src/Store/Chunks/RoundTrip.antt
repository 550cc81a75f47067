-- ===== src/Store/Chunks/RoundTrip.antt =====
-- From the store of src/core/decoded_structure.cpp through its chunks to `block_at` of
-- src/formats/schematic_writer.cpp.
use water_structure_cpp.Common.{
  ℕ, ◌≡◌, refl, ap, ◌∙◌, Bool, true, false, [], ◌∷◌, some, arith, All, Bool-cases, inl, inr,
}
use water_structure_cpp.Common.Int.{
  ℤ, pos, ◌+ℤ◌, ◌-ℤ◌, ◌*ℤ◌, ◌≤ℤ◌, ◌<ℤ◌, IsInt32, wrap32_of_IsInt32, ltb_ℤ,
}
use water_structure_cpp.Coordinates.{BlockPos, ChunkPos, chunk_eq}
use water_structure_cpp.Result.{success}
use water_structure_cpp.Chunk.{ChunkMap, ChunkData, empty_chunk, find_chunk, block_in, block_at}
use water_structure_cpp.Store.{Store, is_outside}
use water_structure_cpp.Store.Map.{lookup, IsSorted}
use water_structure_cpp.Store.Chunks.{get_chunks_impl, fill_chunk, source_min, source_max}
use water_structure_cpp.Store.Chunks.Local.{local_y_lem}
use water_structure_cpp.Store.Chunks.Place.{Fits, chunk_of, sub_of, index_of, read}
use water_structure_cpp.Store.Chunks.Window.{value_or, source_min_lem, source_max_lem}
use water_structure_cpp.Store.Chunks.Read.{fill_chunk_reads}

-- The declared size is made of int32_t, the maps are in order, no block overflows on its way to its
-- chunk, and the blocks kept apart lie outside.
pub record IsReady (s : Store) : Type 0 where
  pub width32 : IsInt32 s.original_size.width
  pub height32 : IsInt32 s.original_size.height
  pub length32 : IsInt32 s.original_size.length
  pub sorted : IsSorted s.blocks
  pub all_fit : All (λ e. Fits s.offset e.0) s.blocks
  pub outside_fit : All (λ e. Fits s.offset e.0) s.out_of_bounds_blocks
  pub outside : All (λ e. is_outside s.original_size e.0 ≡ true) s.out_of_bounds_blocks

get_own_chunk :
    (s : Store) (l1 : Bool) (c : ChunkPos) {chunk : ChunkData}
    → fill_chunk s l1 c ≡ success chunk
    → get_chunks_impl s (c ∷ []) l1 ≡ success ((c, chunk) ∷ [])
unfolding get_chunks_impl
get_own_chunk s l1 c e = simp e

pub chunk_eq_self : (p : ChunkPos) → chunk_eq p p ≡ true
unfolding chunk_eq
chunk_eq_self p = ground arith

pub find_own {ℓ} : {V : Type ℓ} (c : ChunkPos) (v : V) → find_chunk c ((c, v) ∷ []) ≡ some v
unfolding find_chunk
find_own c v = rw (chunk_eq_self c)

pub block_at-read :
    (air : ℕ) (offset p : BlockPos) (chunk : ChunkData)
    → Fits offset p
    → block_at air
        ((chunk_of offset p, chunk) ∷ [])
        (p.x +ℤ offset.x)
        (p.y +ℤ offset.y)
        (p.z +ℤ offset.z)
      ≡ read air chunk.sub_chunks (sub_of offset p) (index_of offset p)
unfolding block_at
block_at-read air offset p chunk f =
    ap (block_in air (p.x +ℤ offset.x) (p.y +ℤ offset.y) (p.z +ℤ offset.z))
      (find_own (chunk_of offset p) chunk)
    ∙ rw (
      local_y_lem (p.y +ℤ offset.y) f.fits_y f.fits_below,
      wrap32_of_IsInt32 (p.y +ℤ offset.y -ℤ pos 64) f.fits_below,
    )

-- What was put at a position of the declared size is what a writer reads at that position moved by
-- the offset, from the chunk that `get_chunks` makes for it: the entry of the map of blocks, or air
-- where there is none. The request succeeds, with both layers or one.
pub get_chunks_reads :
    (s : Store) (include_layer1 : Bool) (p : BlockPos)
    → IsReady s
    → Fits s.offset p
    → is_outside s.original_size p ≡ false
    → (chunks : ChunkMap) × (get_chunks_impl s (chunk_of s.offset p ∷ []) include_layer1
        ≡ success chunks)
      × (block_at s.air chunks (p.x +ℤ s.offset.x) (p.y +ℤ s.offset.y) (p.z +ℤ s.offset.z)
          ≡ value_or (lookup p s.blocks) s.air)
get_chunks_reads s l1 p r fits inside =
    let (chunk, made, found) =
      fill_chunk_reads s l1 p fits r.all_fit r.sorted r.width32 r.height32 r.length32 inside
        r.outside_fit r.outside in
    (
      (chunk_of s.offset p, chunk) ∷ [],
      get_own_chunk s l1 (chunk_of s.offset p) made,
      block_at-read s.air s.offset p chunk fits ∙ found,
    )

-- A column of the declared size, moved by the offset, that stands in the chunk.
pub record Meets (s : Store) (c : ChunkPos) (x z : ℤ) : Type 0 where
  pub from_x : pos 0 ≤ℤ x
  pub to_x : x <ℤ s.original_size.width
  pub from_z : pos 0 ≤ℤ z
  pub to_z : z <ℤ s.original_size.length
  pub west : c.x *ℤ pos 16 ≤ℤ x +ℤ s.offset.x
  pub east : x +ℤ s.offset.x ≤ℤ c.x *ℤ pos 16 +ℤ pos 15
  pub north : c.z *ℤ pos 16 ≤ℤ z +ℤ s.offset.z
  pub south : z +ℤ s.offset.z ≤ℤ c.z *ℤ pos 16 +ℤ pos 15

-- Between the ends of a window stands its first column.
first_column :
    (c o extent : ℤ)
    → ltb_ℤ (source_max c o extent) (source_min c o) ≡ false
    → (x : ℤ) × (pos 0 ≤ℤ x)
      × (x <ℤ extent)
      × (c *ℤ pos 16 ≤ℤ x +ℤ o)
      × (x +ℤ o ≤ℤ c *ℤ pos 16 +ℤ pos 15)
first_column c o extent h =
    let x = source_min c o in
    let (from, west) = (source_min_lem c o x).0 (omega arith) in
    let (to, east) = (source_max_lem c o extent x).0 (ground (arith, h)) in
    (x, from, to, west, east)

-- A chunk in which no column of the declared size stands is left empty, also where the store was told
-- to include the blocks outside that size and holds such a block in that chunk.
pub outside_chunk_empty :
    (s : Store) (include_layer1 : Bool) (c : ChunkPos)
    → ((x z : ℤ) → ¬ Meets s c x z)
    → get_chunks_impl s (c ∷ []) include_layer1 ≡ success ((c, empty_chunk) ∷ [])
unfolding fill_chunk
outside_chunk_empty s l1 c none_meets =
    let no_x =
      ltb_ℤ (source_max c.x s.offset.x s.original_size.width) (source_min c.x s.offset.x) in
    let no_z =
      ltb_ℤ (source_max c.z s.offset.z s.original_size.length) (source_min c.z s.offset.z) in
    get_own_chunk s l1 c (elim (Bool-cases no_x) [
      | inl apart ↦ rw apart refl
      | inr near_x ↦ elim (Bool-cases no_z) [
        | inl apart ↦ rw (near_x, apart) refl
        | inr near_z ↦
            let (x, from_x, to_x, west, east) =
              first_column c.x s.offset.x s.original_size.width near_x in
            let (z, from_z, to_z, north, south) =
              first_column c.z s.offset.z s.original_size.length near_z in
            absurd (
              none_meets x z (record {
                from_x = from_x;
                to_x = to_x;
                from_z = from_z;
                to_z = to_z;
                west = west;
                east = east;
                north = north;
                south = south;
              }))
      ]
    ])
