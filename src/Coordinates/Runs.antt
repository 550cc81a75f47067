-- ===== src/Coordinates/Runs.antt =====
-- Runs of include/WaterStructure/coordinates.hpp and of the sizes of include/WaterStructure/types.hpp.
use water_structure_cpp.Common.{◌-◌, ◌*◌, ◌^◌, ◌<◌, ◌≡◌, ◌↔◌, min, arith}
use water_structure_cpp.Common.Int.{pos, negsuc, ◌-ℤ◌, ◌*ℤ◌, ◌≤ℤ◌, ◌<ℤ◌, pos_part}
use water_structure_cpp.Coordinates.{
  Size, floor_div, floor_mod, chunk_x_count, chunk_z_count, volume, int64_max,
}
use water_structure_cpp.Coordinates.Floor.{IsFloor, floor_div-IsFloor, floor_mod_bounds}
use water_structure_cpp.Coordinates.Extent.{chunk_counts_exact, volume_saturates}

-- -17 is in chunk -2, at 15.
floor_div-IsFloor_example : IsFloor (negsuc 16) 16 (floor_div (negsuc 16) (pos 16))
floor_div-IsFloor_example = floor_div-IsFloor (negsuc 16) 16 (omega arith) (omega arith)

floor_mod_bounds_example :
    (floor_mod (negsuc 16) (pos 16) ≡ negsuc 16 -ℤ floor_div (negsuc 16) (pos 16) *ℤ pos 16)
    × (pos 0 ≤ℤ floor_mod (negsuc 16) (pos 16))
    × (floor_mod (negsuc 16) (pos 16) <ℤ pos 16)
floor_mod_bounds_example = floor_mod_bounds (negsuc 16) 16 (omega arith) (omega arith) (omega arith)

abbrev huge : Size
huge = record { width = pos (2 ^ 31 - 1); height = pos (2 ^ 31 - 1); length = pos 17 }

chunk_counts_exact_example :
    ((1 < pos_part (chunk_x_count huge)) ↔ (16 * 1 < pos_part huge.width))
    × ((1 < pos_part (chunk_z_count huge)) ↔ (16 * 1 < pos_part huge.length))
chunk_counts_exact_example = chunk_counts_exact huge 1 (omega arith) (omega arith)

volume_saturates_example :
    volume huge
    ≡ pos (min (pos_part huge.width * pos_part huge.height * pos_part huge.length) int64_max)
volume_saturates_example = volume_saturates huge
