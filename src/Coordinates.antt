-- ===== src/Coordinates.antt =====
-- include/WaterStructure/coordinates.hpp and the positions and sizes of
-- include/WaterStructure/types.hpp. An int32_t or int64_t is the integer that it stands for, and an
-- operation that can leave the type wraps; in C++ that overflow is undefined, so the theorems say
-- where it does not happen.
pub mod Floor
pub mod Floor64
pub mod Extent
mod Runs
use water_structure_cpp.Common.{
  ℕ, ◌+◌, ◌-◌, ◌*◌, ◌/◌, ◌%◌, ◌^◌, Bool, true, false, ◌&&◌, ◌||◌, not, ltb, leb, differ,
  if◌then◌else◌,
}
use water_structure_cpp.Common.Int.{
  ℤ, pos, negsuc, ◌+ℤ◌, ◌-ℤ◌, ◌*ℤ◌, neg_ℤ, ltb_ℤ, leb_ℤ, eqb_ℤ, tdiv, trem, wrap32, wrap64,
  pos_part,
}

pub record BlockPos : Type 0 where
  pub x : ℤ
  pub y : ℤ
  pub z : ℤ

pub record ChunkPos : Type 0 where
  pub x : ℤ
  pub z : ℤ

pub record Size : Type 0 where
  pub width : ℤ
  pub height : ℤ
  pub length : ℤ

-- The defaulted `<=>` compares x, then y, then z; this is its `<` and its `==`.
unfoldable pub block_lt : BlockPos → BlockPos → Bool
block_lt a b =
    ltb_ℤ a.x b.x || (eqb_ℤ a.x b.x && (ltb_ℤ a.y b.y || (eqb_ℤ a.y b.y && ltb_ℤ a.z b.z)))

unfoldable pub block_eq : BlockPos → BlockPos → Bool
block_eq a b = eqb_ℤ a.x b.x && (eqb_ℤ a.y b.y && eqb_ℤ a.z b.z)

unfoldable pub chunk_eq : ChunkPos → ChunkPos → Bool
chunk_eq a b = eqb_ℤ a.x b.x && eqb_ℤ a.z b.z

abbrev pub overworld_min_y : ℤ
overworld_min_y = negsuc 63

unfoldable pub floor_div : ℤ → ℤ → ℤ
floor_div value divisor =
    let quotient = tdiv value divisor in
    let remainder = trem value divisor in
    wrap32 (quotient -ℤ (if ltb_ℤ remainder (pos 0) then pos 1 else pos 0))

unfoldable pub floor_mod : ℤ → ℤ → ℤ
floor_mod value divisor = wrap32 (value -ℤ wrap32 (floor_div value divisor *ℤ divisor))

unfoldable pub floor_div64 : ℤ → ℤ → ℤ
floor_div64 value divisor =
    let quotient = tdiv value divisor in
    let remainder = trem value divisor in
    wrap64 (
      quotient
      -ℤ (if not (eqb_ℤ remainder (pos 0))
            && differ (ltb_ℤ remainder (pos 0)) (ltb_ℤ divisor (pos 0))
          then pos 1
          else pos 0))

unfoldable pub floor_mod64 : ℤ → ℤ → ℤ
floor_mod64 value divisor = wrap64 (value -ℤ wrap64 (floor_div64 value divisor *ℤ divisor))

unfoldable pub block_to_chunk : BlockPos → ChunkPos
block_to_chunk p = record { x = floor_div p.x (pos 16); z = floor_div p.z (pos 16) }

unfoldable pub world_y_to_subchunk : ℤ → ℤ
world_y_to_subchunk y = floor_div y (pos 16)

unfoldable pub structure_y_to_chunk_local : ℤ → ℤ
structure_y_to_chunk_local y = wrap32 (y +ℤ overworld_min_y)

-- `chunk_x_count` and `chunk_z_count` have one body, over the width and over the length.
unfoldable pub chunk_count : ℤ → ℤ
chunk_count n =
    if leb_ℤ n (pos 0)
    then pos 0
    else wrap32
        (tdiv n (pos 16) +ℤ (if not (eqb_ℤ (trem n (pos 16)) (pos 0)) then pos 1 else pos 0))

unfoldable pub chunk_x_count : Size → ℤ
chunk_x_count s = chunk_count s.width

unfoldable pub chunk_z_count : Size → ℤ
chunk_z_count s = chunk_count s.length

abbrev pub int64_max : ℕ
int64_max = 2 ^ 63 - 1

-- The product, or the greatest int64_t where it does not fit.
unfoldable pub volume : Size → ℤ
volume s =
    if leb_ℤ s.width (pos 0) || (leb_ℤ s.height (pos 0) || leb_ℤ s.length (pos 0))
    then pos 0
    else if ltb_ℤ (tdiv (pos int64_max) s.height) s.width
    then pos int64_max
    else let wh = wrap64 (s.width *ℤ s.height) in
      if ltb_ℤ (tdiv (pos int64_max) s.length) wh then pos int64_max else wrap64 (wh *ℤ s.length)
