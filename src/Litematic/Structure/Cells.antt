-- ===== src/Litematic/Structure/Cells.antt =====
-- What the body of the loops of `get_chunks_impl` in src/formats/litematic.cpp does to one position.
use water_structure_cpp.Common.{
  ℕ, ◌≡◌, refl, sym, ap, ◌∙◌, Bool, ◌&&◌, Option, none, some, arith, ◌==◌, Bool-cases, inl, inr,
  if◌then◌else◌,
}
use water_structure_cpp.Common.Int.{
  ℤ, pos, ◌+ℤ◌, ◌-ℤ◌, ◌*ℤ◌, eqb_ℤ, IsInt32, wrap32, wrap32_of_IsInt32, -ℤ_parts, eq_of_parts,
}
use water_structure_cpp.Coordinates.{BlockPos, floor_div, floor_mod, block_eq}
use water_structure_cpp.Result.{success}
use water_structure_cpp.Chunk.{SubChunks}
use water_structure_cpp.Store.Chunks.Local.{rem16, rem16_lem, mul16_parts, local_y_lem}
use water_structure_cpp.Store.Chunks.Place.{
  Fits, chunk_of, sub_of, index_of, read, read-write_block, place_unique,
}
use water_structure_cpp.Store.Chunks.Loops.{Does}
use water_structure_cpp.Litematic.Structure.{
  LitematicStructure, block_of, cell_index, place_cell, write_solid,
}

-- The offset in its chunk, computed in 64 bits.
local_x64_lem :
    (v : ℤ) → IsInt32 v → wrap32 (v -ℤ floor_div v (pos 16) *ℤ pos 16) ≡ floor_mod v (pos 16)
local_x64_lem v h =
    let q = floor_div v (pos 16) in
    let (e, small, parts) = rem16_lem v h in
    let difference : v -ℤ q *ℤ pos 16 ≡ pos (rem16 v) =
      eq_of_parts (v -ℤ q *ℤ pos 16) (pos (rem16 v))
        (omega (arith, parts, -ℤ_parts v (q *ℤ pos 16), mul16_parts q)) in
    ap wrap32 difference ∙ wrap32_of_IsInt32 (pos (rem16 v)) (omega arith) ∙ sym e

-- A block in place of what stands, unless it is air or none.
abbrev pub over : ℕ → Option ℕ → ℕ → ℕ
over air none d = d
over air (some id) d = if id == air then d else id

-- What the loops find at a position of the structure.
abbrev pub block_here : LitematicStructure → BlockPos → Option ℕ
block_here s q =
    block_of s.palette s.packed_states s.bits_per_block (cell_index s.original_size q.x q.y q.z)

place_cell_lem :
    (air : ℕ) (l1 : Bool) (s : LitematicStructure) (q : BlockPos) (subs : SubChunks)
    → Fits s.offset q
    → place_cell air l1 s (chunk_of s.offset q) q.y q.z q.x subs
      ≡ write_solid air l1 (sub_of s.offset q) (index_of s.offset q) (block_here s q) subs
unfolding place_cell
place_cell_lem air l1 s q subs f = rw (
  wrap32_of_IsInt32 (q.y +ℤ s.offset.y) f.fits_y,
  local_y_lem (q.y +ℤ s.offset.y) f.fits_y f.fits_below,
  local_x64_lem (q.x +ℤ s.offset.x) f.fits_x,
  local_x64_lem (q.z +ℤ s.offset.z) f.fits_z,
  wrap32_of_IsInt32 (q.y +ℤ s.offset.y -ℤ pos 64) f.fits_below,
)

read-write_solid :
    (air : ℕ) (l1 : Bool) (b : Option ℕ) (subs : SubChunks) (y : ℤ) (index : ℕ) (y' : ℤ)
    (index' : ℕ)
    → read air (write_solid air l1 y index b subs) y' index' ≡ (
        if eqb_ℤ y y' && (index' == index)
        then over air b (read air subs y' index')
        else read air subs y' index')
read-write_solid air l1 none subs y index y' index' = ground arith
read-write_solid air l1 (some id) subs y index y' index' = elim (Bool-cases (id == air)) [
  | inl same ↦ rw same (ground arith)
  | inr other ↦ rw other (read-write_block air l1 y index id subs y' index')
]

module _ (air : ℕ) (l1 : Bool) (s : LitematicStructure) (p : BlockPos)
    (fits : Fits s.offset p) where
  abbrev pub stands : SubChunks → ℕ
  stands subs = read air subs (sub_of s.offset p) (index_of s.offset p)

  -- The body for a block of the same chunk.
  pub cell-Does :
      (q : BlockPos)
      → Fits s.offset q
      → chunk_of s.offset q ≡ chunk_of s.offset p
      → Does stands
          (λ subs. success (place_cell air l1 s (chunk_of s.offset p) q.y q.z q.x subs))
          (λ d. if block_eq q p then over air (block_here s q) d else d)
  cell-Does q fq c subs = (
    place_cell air l1 s (chunk_of s.offset p) q.y q.z q.x subs,
    refl,
    ap (λ k. stands (place_cell air l1 s k q.y q.z q.x subs)) (sym c)
        ∙ ap stands (place_cell_lem air l1 s q subs fq)
        ∙ read-write_solid air l1 (block_here s q) subs (sub_of s.offset q) (index_of s.offset q)
            (sub_of s.offset p) (index_of s.offset p)
        ∙ ap (λ b. if b then over air (block_here s q) (stands subs) else stands subs)
            (place_unique s.offset p q fits fq (sym c)),
  )
