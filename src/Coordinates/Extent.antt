-- ===== src/Coordinates/Extent.antt =====
-- The sizes of include/WaterStructure/types.hpp: chunk counts and the saturating volume.
use native.Mathlib.Nat.{div-add-mod, mod-lt}
use water_structure_cpp.Common.{
  ℕ, zero, suc, ◌*◌, ◌/◌, ◌≤◌, ◌<◌, ◌≡◌, ◌↔◌, min, arith, ltb, if◌then◌else◌,
}
use water_structure_cpp.Common.Int.{
  ℤ, pos, negsuc, ◌+ℤ◌, ◌*ℤ◌, tdiv, trem, wrap32, IsInt32, pos_part, wrap64_of_IsInt64,
}
use water_structure_cpp.Coordinates.{
  Size, chunk_count, chunk_x_count, chunk_z_count, volume, int64_max,
}

count_exact : (n : ℤ) (k : ℕ) → IsInt32 n → (k < pos_part (chunk_count n)) ↔ (16 * k < pos_part n)
unfolding chunk_count tdiv trem wrap32 ◌+ℤ◌
count_exact (pos n) k h = ground arith
count_exact (negsuc n) k h = ground arith

-- A chunk column along an axis holds some of the structure exactly when its number is below the
-- count, for both axes and also where a dimension is not positive.
pub chunk_counts_exact :
    (s : Size) (k : ℕ)
    → IsInt32 s.width
    → IsInt32 s.length
    → ((k < pos_part (chunk_x_count s)) ↔ (16 * k < pos_part s.width))
      × ((k < pos_part (chunk_z_count s)) ↔ (16 * k < pos_part s.length))
unfolding chunk_x_count chunk_z_count
chunk_counts_exact s k hw hl = (count_exact s.width k hw, count_exact s.length k hl)

-- A product that the guard `w > max / h` lets through is the product itself.
guard_exceeds : (m h w : ℕ) → 0 < h → m / h < w → m < w * h
guard_exceeds m h w hh p = grind (arith, div-add-mod m h, mod-lt m hh)

guard_passes : (m h w : ℕ) → 0 < h → w ≤ m / h → w * h ≤ m
guard_passes m h w hh p = grind (arith, div-add-mod m h)

product_grows : (p l : ℕ) → p ≤ p * suc l
product_grows p l = grind arith

-- The guard and the product that it guards, at the greatest value `m`.
guarded : (m a b : ℕ) → 0 < b → min (a * b) m ≡ (if ltb (m / b) a then m else a * b)
guarded m a b hb = ground (arith, guard_exceeds m b a hb, guard_passes m b a hb)

volume_positive :
    (w h l : ℕ)
    → volume (record { width = pos (suc w); height = pos (suc h); length = pos (suc l) })
      ≡ pos (min (suc w * suc h * suc l) int64_max)
unfolding volume tdiv ◌*ℤ◌
volume_positive w h l = ground (
  arith,
  guarded int64_max (suc w) (suc h) (omega arith),
  guarded int64_max (suc w * suc h) (suc l) (omega arith),
  product_grows (suc w * suc h) l,
  wrap64_of_IsInt64 (pos (suc w * suc h)),
  wrap64_of_IsInt64 (pos (suc w * suc h * suc l)),
)

volume_parts :
    (w h l : ℤ)
    → volume (record { width = w; height = h; length = l })
      ≡ pos (min (pos_part w * pos_part h * pos_part l) int64_max)
unfolding volume
volume_parts (negsuc w) h l = ground arith
volume_parts (pos zero) h l = ground arith
volume_parts (pos (suc w)) (negsuc h) l = ground arith
volume_parts (pos (suc w)) (pos zero) l = ground arith
volume_parts (pos (suc w)) (pos (suc h)) (negsuc l) = ground arith
volume_parts (pos (suc w)) (pos (suc h)) (pos zero) = ground arith
volume_parts (pos (suc w)) (pos (suc h)) (pos (suc l)) = volume_positive w h l

-- The volume is the exact product of the dimensions, saturated at the greatest int64_t, and 0 where
-- a dimension is not positive; no intermediate product overflows.
pub volume_saturates :
    (s : Size)
    → volume s ≡ pos (min (pos_part s.width * pos_part s.height * pos_part s.length) int64_max)
volume_saturates s = volume_parts s.width s.height s.length
