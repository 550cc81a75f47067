-- ===== src/Coordinates/Floor.antt =====
-- Floor division and remainder of include/WaterStructure/coordinates.hpp.
use native.Mathlib.Nat.{div-add-mod, mod-lt}
use water_structure_cpp.Common.{
  ℕ, suc, ◌+◌, ◌-◌, ◌*◌, ◌/◌, ◌%◌, ◌^◌, ◌≤◌, ◌<◌, ◌≡◌, sym, ◌≢◌, arith,
}
use water_structure_cpp.Common.Int.{
  ℤ, pos, negsuc, ◌+ℤ◌, ◌-ℤ◌, ◌*ℤ◌, ◌≤ℤ◌, ◌<ℤ◌, tdiv, trem, wrap32, IsInt32, wrap32-sub-wrap32,
  +ℤ_parts,
}
use water_structure_cpp.Coordinates.{floor_div, floor_mod}

-- `q` is the greatest integer with `q * d ≤ v`.
abbrev pub IsFloor : ℤ → ℕ → ℤ → Type 0
IsFloor v d q = (q *ℤ pos d ≤ℤ v) × (v <ℤ q *ℤ pos d +ℤ pos d)

pub next_div : (n d : ℕ) → 0 < d → suc n % d ≡ 0 → suc n / d ≡ suc (n / d)
next_div n d hd e = grind (arith, div-add-mod n d, div-add-mod (suc n) d, mod-lt n hd)

pub next_div_same : (n d : ℕ) → 0 < d → suc n % d ≢ 0 → suc n / d ≡ n / d
next_div_same n d hd e =
    grind (arith, div-add-mod n d, div-add-mod (suc n) d, mod-lt n hd, mod-lt (suc n) hd)

pub floor_div-pos : (n d : ℕ) → n < 2 ^ 31 → 0 < d → floor_div (pos n) (pos d) ≡ pos (n / d)
unfolding floor_div tdiv trem wrap32 ◌-ℤ◌
floor_div-pos n d h hd = ground (arith)

pub floor_div-negsuc :
    (n d : ℕ) → n < 2 ^ 31 → 0 < d → floor_div (negsuc n) (pos d) ≡ negsuc (n / d)
unfolding floor_div tdiv trem wrap32 ◌-ℤ◌
floor_div-negsuc n d h hd = ground (arith, next_div n d hd, next_div_same n d hd)

-- The bounds of a quotient, in the shape that the integers' parts take.
pub quotient_bounds : (n d : ℕ) → 0 < d → (n / d * d ≤ n) × (n < n / d * d + d)
quotient_bounds n d hd = grind (arith, div-add-mod n d, mod-lt n hd)

product_grows : (q d : ℕ) → 0 < d → q ≤ q * d
product_grows q d hd = grind arith

pub div-le : (n d : ℕ) → 0 < d → n / d ≤ n
div-le n d hd = omega (arith, quotient_bounds n d hd, product_grows (n / d) d hd)

-- By a positive divisor `floor_div` rounds towards minus infinity, on every int32_t.
pub floor_div-IsFloor : (v : ℤ) (d : ℕ) → IsInt32 v → 0 < d → IsFloor v d (floor_div v (pos d))
unfolding ◌*ℤ◌
floor_div-IsFloor (pos n) d h hd =
    rw (floor_div-pos n d h.0 hd)
      (ground (arith, quotient_bounds n d hd, +ℤ_parts (pos (n / d) *ℤ pos d) (pos d)))
floor_div-IsFloor (negsuc n) d h hd =
    rw (floor_div-negsuc n d (omega arith) hd)
      (ground (arith, quotient_bounds n d hd, +ℤ_parts (negsuc (n / d) *ℤ pos d) (pos d)))

next_mod : (n d : ℕ) → 0 < d → suc n % d ≡ 0 → n % d ≡ d - 1
next_mod n d hd e = grind (arith, div-add-mod n d, div-add-mod (suc n) d, mod-lt n hd)

difference_pos : (n d : ℕ) → 0 < d → pos n -ℤ pos (n / d) *ℤ pos d ≡ pos (n % d)
unfolding ◌-ℤ◌ ◌*ℤ◌
difference_pos n d hd = ground (arith, div-add-mod n d)

difference_negsuc : (n d : ℕ) → 0 < d → negsuc n -ℤ negsuc (n / d) *ℤ pos d ≡ pos (d - 1 - n % d)
unfolding ◌-ℤ◌ ◌*ℤ◌
difference_negsuc n d hd = ground (arith, div-add-mod n d, mod-lt n hd)

pub floor_mod-pos : (n d : ℕ) → n < 2 ^ 31 → 0 < d → floor_mod (pos n) (pos d) ≡ pos (n % d)
unfolding floor_mod
floor_mod-pos n d h hd = rw (floor_div-pos n d h hd) (
    wrap32-sub-wrap32 (pos n) (pos (n / d) *ℤ pos d) (pos (n % d)) (omega arith)
      (difference_pos n d hd))

pub floor_mod-negsuc :
    (n d : ℕ) → n < 2 ^ 31 → 0 < d → d < 2 ^ 31 → floor_mod (negsuc n) (pos d) ≡ pos (d - 1 - n % d)
unfolding floor_mod
floor_mod-negsuc n d h hd hb = rw (floor_div-negsuc n d h hd) (
    wrap32-sub-wrap32 (negsuc n) (negsuc (n / d) *ℤ pos d) (pos (d - 1 - n % d)) (omega arith)
      (difference_negsuc n d hd))

-- The remainder is `v - floor_div v d * d`, and lies in [0, d): the wraps cancel.
pub floor_mod_bounds :
    (v : ℤ) (d : ℕ)
    → IsInt32 v
    → 0 < d
    → d < 2 ^ 31
    → (floor_mod v (pos d) ≡ v -ℤ floor_div v (pos d) *ℤ pos d)
      × (pos 0 ≤ℤ floor_mod v (pos d))
      × (floor_mod v (pos d) <ℤ pos d)
floor_mod_bounds (pos n) d h hd hb =
    rw (floor_mod-pos n d h.0 hd, floor_div-pos n d h.0 hd)
      (sym (difference_pos n d hd), omega arith, omega (arith, mod-lt n hd))
floor_mod_bounds (negsuc n) d h hd hb =
    let hn : n < 2 ^ 31 = omega arith in
    rw (floor_mod-negsuc n d hn hd hb, floor_div-negsuc n d hn hd)
      (sym (difference_negsuc n d hd), omega arith, omega (arith, mod-lt n hd))
