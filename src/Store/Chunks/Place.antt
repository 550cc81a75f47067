-- ===== src/Store/Chunks/Place.antt =====
-- One block of src/core/decoded_structure.cpp, written to its chunk and read back.
use water_structure_cpp.Common.{
  ℕ, ◌+◌, ◌*◌, ◌≡◌, sym, ap, subst, ◌∙◌, Bool, true, false, [], ◌∷◌, ◌==◌, if◌then◌else◌, ◌&&◌,
  arith, Bool-cases, inl, inr,
}
use water_structure_cpp.Common.Int.{
  ℤ, pos, ◌+ℤ◌, ◌-ℤ◌, eqb_ℤ, IsInt32, wrap32_of_IsInt32, eq_of_parts,
}
use water_structure_cpp.Coordinates.{BlockPos, ChunkPos, floor_div, floor_mod, block_eq}
use water_structure_cpp.Result.{success}
use water_structure_cpp.Chunk.{SubChunks, find_sub_chunk, layer_index, layer0_at}
use water_structure_cpp.Store.{Store}
use water_structure_cpp.Store.Map.{block_eq→eq, EqualZ→block_eq}
use water_structure_cpp.Store.Chunks.{write_block, world_of, place_block, place_outside}
use water_structure_cpp.Store.Chunks.Local.{
  rem16, rem16_lem, local_x_lem, +ℤ_cancel_parts, -ℤ_cancel, split16_unique, local_y_lem,
  layer_index_lem,
}

-- What a reader of the chunk finds: air where there is no subchunk.
abbrev pub read : ℕ → SubChunks → ℤ → ℕ → ℕ
read air subs sub_y index = layer0_at air index (find_sub_chunk sub_y subs)

pub read-write_block :
    (air : ℕ) (l1 : Bool) (y : ℤ) (index id : ℕ) (subs : SubChunks) (y' : ℤ) (index' : ℕ)
    → read air (write_block air l1 y index id subs) y' index'
      ≡ (if eqb_ℤ y y' && (index' == index) then id else read air subs y' index')
unfolding write_block find_sub_chunk
read-write_block air l1 y index id [] y' index' = ground arith
read-write_block air l1 y index id ((k, sub) ∷ m) y' index' =
    ground (arith, read-write_block air l1 y index id m y' index')

-- No coordinate of the block overflows on its way to the chunk.
pub record Fits (offset local : BlockPos) : Type 0 where
  pub fits_x : IsInt32 (local.x +ℤ offset.x)
  pub fits_y : IsInt32 (local.y +ℤ offset.y)
  pub fits_z : IsInt32 (local.z +ℤ offset.z)
  pub fits_below : IsInt32 (local.y +ℤ offset.y -ℤ pos 64)

-- The chunk of a block, its subchunk, and its index there.
abbrev pub chunk_of : BlockPos → BlockPos → ChunkPos
chunk_of offset local = record {
  x = floor_div (local.x +ℤ offset.x) (pos 16);
  z = floor_div (local.z +ℤ offset.z) (pos 16);
}

abbrev pub sub_of : BlockPos → BlockPos → ℤ
sub_of offset local = floor_div (local.y +ℤ offset.y -ℤ pos 64) (pos 16)

abbrev pub index_of : BlockPos → BlockPos → ℕ
index_of offset local =
    layer_index (floor_mod (local.y +ℤ offset.y -ℤ pos 64) (pos 16))
      (floor_mod (local.z +ℤ offset.z) (pos 16)) (floor_mod (local.x +ℤ offset.x) (pos 16))

pub world_of_lem :
    (offset local : BlockPos)
    → Fits offset local
    → world_of offset local
      ≡ record { x = local.x +ℤ offset.x; y = local.y +ℤ offset.y; z = local.z +ℤ offset.z }
unfolding world_of
world_of_lem offset local f = rw (
  wrap32_of_IsInt32 (local.x +ℤ offset.x) f.fits_x,
  wrap32_of_IsInt32 (local.y +ℤ offset.y) f.fits_y,
  wrap32_of_IsInt32 (local.z +ℤ offset.z) f.fits_z,
)

-- In its own chunk a block passes the range check and is written at its index.
pub place_block_lem :
    (s : Store) (l1 : Bool) (local : BlockPos) (id : ℕ) (subs : SubChunks)
    → Fits s.offset local
    → place_block s l1 (chunk_of s.offset local) (local, id) subs
      ≡ success (write_block s.air l1 (sub_of s.offset local) (index_of s.offset local) id subs)
unfolding place_block
place_block_lem s l1 local id subs f =
    rw
      (
        world_of_lem s.offset local f,
        local_x_lem (local.x +ℤ s.offset.x),
        local_x_lem (local.z +ℤ s.offset.z),
        local_y_lem (local.y +ℤ s.offset.y) f.fits_y f.fits_below,
        wrap32_of_IsInt32 (local.y +ℤ s.offset.y -ℤ pos 64) f.fits_below,
      )
      (ground (
        arith,
        rem16_lem (local.x +ℤ s.offset.x) f.fits_x,
        rem16_lem (local.y +ℤ s.offset.y -ℤ pos 64) f.fits_below,
        rem16_lem (local.z +ℤ s.offset.z) f.fits_z,
      ))

pub place_outside_lem :
    (s : Store) (l1 : Bool) (local : BlockPos) (id : ℕ) (subs : SubChunks)
    → Fits s.offset local
    → place_outside s l1 (chunk_of s.offset local) (local, id) subs
      ≡ success (write_block s.air l1 (sub_of s.offset local) (index_of s.offset local) id subs)
unfolding place_outside
place_outside_lem s l1 local id subs f =
    rw
      (
        world_of_lem s.offset local f,
        wrap32_of_IsInt32 (local.y +ℤ s.offset.y -ℤ pos 64) f.fits_below,
      )
      (ground arith)

abbrev pub same_chunk : ChunkPos → ChunkPos → Bool
same_chunk a b = eqb_ℤ a.x b.x && eqb_ℤ a.z b.z

-- A block of another chunk is passed over.
pub place_outside_skips :
    (s : Store) (l1 : Bool) (chunk : ChunkPos) (local : BlockPos) (id : ℕ) (subs : SubChunks)
    → Fits s.offset local
    → same_chunk (chunk_of s.offset local) chunk ≡ false
    → place_outside s l1 chunk (local, id) subs ≡ success subs
unfolding place_outside
place_outside_skips s l1 chunk local id subs f h = rw (world_of_lem s.offset local f) (ground arith)

pub same_position_chunk :
    (offset p q : BlockPos)
    → block_eq q p ≡ true
    → same_chunk (chunk_of offset q) (chunk_of offset p) ≡ true
same_position_chunk offset p q h =
    subst (λ r. same_chunk (chunk_of offset r) (chunk_of offset p) ≡ true) (sym (block_eq→eq q p h))
      (ground arith)

index_of_lem :
    (offset p : BlockPos)
    → Fits offset p
    → index_of offset p
      ≡ (rem16 (p.y +ℤ offset.y -ℤ pos 64) * 16 + rem16 (p.z +ℤ offset.z)) * 16
        + rem16 (p.x +ℤ offset.x)
index_of_lem offset p f =
    let (ex, hx, _) = rem16_lem (p.x +ℤ offset.x) f.fits_x in
    let (ey, hy, _) = rem16_lem (p.y +ℤ offset.y -ℤ pos 64) f.fits_below in
    let (ez, hz, _) = rem16_lem (p.z +ℤ offset.z) f.fits_z in
    rw (ex, ey, ez) (layer_index_lem _ _ _ hy hz hx)

-- Blocks of one chunk at the same subchunk and index are at the same position.
same_place :
    (offset p q : BlockPos)
    → Fits offset p
    → Fits offset q
    → chunk_of offset p ≡ chunk_of offset q
    → sub_of offset p ≡ sub_of offset q
    → index_of offset p ≡ index_of offset q
    → block_eq q p ≡ true
same_place offset p q fp fq c y i =
    let numbers = sym (index_of_lem offset p fp) ∙ i ∙ index_of_lem offset q fq in
    let bounds_px = (rem16_lem (p.x +ℤ offset.x) fp.fits_x).1 in
    let bounds_pz = (rem16_lem (p.z +ℤ offset.z) fp.fits_z).1 in
    let bounds_qx = (rem16_lem (q.x +ℤ offset.x) fq.fits_x).1 in
    let bounds_qz = (rem16_lem (q.z +ℤ offset.z) fq.fits_z).1 in
    EqualZ→block_eq q p
      (+ℤ_cancel_parts q.x p.x offset.x
        (sym (split16_unique _ _ fp.fits_x fq.fits_x (ap (λ k. k.x) c) (omega arith))))
      (+ℤ_cancel_parts q.y p.y offset.y (
        sym (
          -ℤ_cancel _ _ (pos 64) (split16_unique _ _ fp.fits_below fq.fits_below y (omega arith)))))
      (+ℤ_cancel_parts q.z p.z offset.z
        (sym (split16_unique _ _ fp.fits_z fq.fits_z (ap (λ k. k.z) c) (omega arith))))

pub place_unique :
    (offset p q : BlockPos)
    → Fits offset p
    → Fits offset q
    → chunk_of offset p ≡ chunk_of offset q
    → (eqb_ℤ (sub_of offset q) (sub_of offset p) && (index_of offset p == index_of offset q))
      ≡ block_eq q p
place_unique offset p q fp fq e = elim (Bool-cases (block_eq q p)) [
  | inl same ↦ rw same (
      subst
        (λ r.
          (eqb_ℤ (sub_of offset r) (sub_of offset p) && (index_of offset p == index_of offset r))
          ≡ true)
        (sym (block_eq→eq q p same)) (ground arith))
  | inr other ↦ rw other (
      ground
        (arith, same_place offset p q fp fq e, eq_of_parts (sub_of offset p) (sub_of offset q)))
]
