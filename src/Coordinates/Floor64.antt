-- ===== src/Coordinates/Floor64.antt =====
-- floor_div64 of include/WaterStructure/coordinates.hpp, for divisors of either sign.
use water_structure_cpp.Common.{
  ℕ, zero, suc, ◌-◌, ◌*◌, ◌/◌, ◌^◌, ◌≤◌, ◌<◌, ◌≡◌, refl, sym, ap, ◌∙◌, ◌≢◌, arith,
}
use water_structure_cpp.Common.Int.{
  ℤ, pos, negsuc, ◌+ℤ◌, ◌-ℤ◌, ◌*ℤ◌, ◌≤ℤ◌, ◌<ℤ◌, tdiv, trem, wrap64, IsInt32, IsInt64, +ℤ_parts,
}
use water_structure_cpp.Coordinates.{floor_div, floor_div64}
use water_structure_cpp.Coordinates.Floor.{
  next_div, next_div_same, floor_div-pos, floor_div-negsuc, quotient_bounds, div-le,
}

floor_div64-pos : (n d : ℕ) → n < 2 ^ 63 → 0 < d → floor_div64 (pos n) (pos d) ≡ pos (n / d)
unfolding floor_div64 tdiv trem wrap64 ◌-ℤ◌
floor_div64-pos n d h hd = ground (arith, div-le n d hd)

floor_div64-negsuc :
    (n d : ℕ) → n < 2 ^ 63 → 0 < d → floor_div64 (negsuc n) (pos d) ≡ negsuc (n / d)
unfolding floor_div64 tdiv trem wrap64 ◌-ℤ◌
floor_div64-negsuc n d h hd = ground (arith, next_div n d hd, next_div_same n d hd, div-le n d hd)

floor_div64_down :
    (n e : ℕ) → n < 2 ^ 63 → floor_div64 (pos (suc n)) (negsuc e) ≡ negsuc (n / suc e)
unfolding floor_div64 tdiv trem wrap64 ◌-ℤ◌
floor_div64_down n e h = ground (
  arith,
  next_div n (suc e) (omega arith),
  next_div_same n (suc e) (omega arith),
  div-le n (suc e) (omega arith),
)

floor_div64_zero : (e : ℕ) → floor_div64 (pos 0) (negsuc e) ≡ pos 0
unfolding floor_div64 tdiv trem wrap64 ◌-ℤ◌
floor_div64_zero e = ground (arith, div-le 0 (suc e) (omega arith))

floor_div64_up :
    (n e : ℕ) → suc n / suc e < 2 ^ 63 → floor_div64 (negsuc n) (negsuc e) ≡ pos (suc n / suc e)
unfolding floor_div64 tdiv trem wrap64 ◌-ℤ◌
floor_div64_up n e h = ground (arith)

-- On an int32_t and a positive divisor the 64-bit function agrees with the 32-bit one.
pub floor_div64_agrees :
    (v : ℤ) (d : ℕ) → IsInt32 v → 0 < d → floor_div64 v (pos d) ≡ floor_div v (pos d)
floor_div64_agrees (pos n) d h hd =
    floor_div64-pos n d (omega arith) hd ∙ sym (floor_div-pos n d h.0 hd)
floor_div64_agrees (negsuc n) d h hd =
    floor_div64-negsuc n d (omega arith) hd ∙ sym (floor_div-negsuc n d (omega arith) hd)

-- The one quotient that does not fit is 2 ^ 63 / 1.
quotient_fits : (n e : ℕ) → n < 2 ^ 63 → (n ≡ 2 ^ 63 - 1 → e ≢ 0) → suc n / suc e < 2 ^ 63
quotient_fits n zero h hm = omega (arith, apart)
  where
    apart : n ≢ 2 ^ 63 - 1
    apart e = hm e refl
quotient_fits n (suc e) h hm =
    omega
      (arith, quotient_bounds (suc n) (suc (suc e)) (omega arith), twice (suc n / suc (suc e)) e)
  where
    twice : (q k : ℕ) → 2 * q ≤ q * suc (suc k)
    twice q k = grind arith

-- `q` is `v / d` rounded down, where `d` may be negative.
abbrev pub IsFloorOf : ℤ → ℤ → ℤ → Type 0
IsFloorOf v (pos d) q = (q *ℤ pos d ≤ℤ v) × (v <ℤ q *ℤ pos d +ℤ pos d)
IsFloorOf v (negsuc e) q = (v ≤ℤ q *ℤ negsuc e) × (q *ℤ negsuc e +ℤ negsuc e <ℤ v)

-- For every int64_t and every divisor but 0 the quotient is rounded down, unless the quotient
-- itself does not fit (the least int64_t by -1).
pub floor_div64-IsFloorOf :
    (v d : ℤ)
    → IsInt64 v
    → d ≢ pos 0
    → (v ≡ negsuc (2 ^ 63 - 1) → d ≢ negsuc 0)
    → IsFloorOf v d (floor_div64 v d)
unfolding ◌*ℤ◌
floor_div64-IsFloorOf v (pos zero) h hd hm = absurd (hd refl)
floor_div64-IsFloorOf (pos n) (pos (suc d)) h hd hm =
    rw (floor_div64-pos n (suc d) h.0 (omega arith)) (
      ground (
        arith,
        quotient_bounds n (suc d) (omega arith),
        +ℤ_parts (pos (n / suc d) *ℤ pos (suc d)) (pos (suc d)),
      ))
floor_div64-IsFloorOf (negsuc n) (pos (suc d)) h hd hm =
    rw (floor_div64-negsuc n (suc d) (omega arith) (omega arith)) (
      ground (
        arith,
        quotient_bounds n (suc d) (omega arith),
        +ℤ_parts (negsuc (n / suc d) *ℤ pos (suc d)) (pos (suc d)),
      ))
floor_div64-IsFloorOf (pos zero) (negsuc e) h hd hm =
    rw (floor_div64_zero e) (ground (arith, +ℤ_parts (pos 0 *ℤ negsuc e) (negsuc e)))
floor_div64-IsFloorOf (pos (suc n)) (negsuc e) h hd hm = rw (floor_div64_down n e (omega arith)) (
    ground (
      arith,
      quotient_bounds n (suc e) (omega arith),
      +ℤ_parts (negsuc (n / suc e) *ℤ negsuc e) (negsuc e),
    ))
floor_div64-IsFloorOf (negsuc n) (negsuc e) h hd hm =
    rw
      (floor_div64_up n e (quotient_fits n e (omega arith) (λ a b. hm (ap negsuc a) (ap negsuc b))))
      (ground (
        arith,
        quotient_bounds (suc n) (suc e) (omega arith),
        +ℤ_parts (pos (suc n / suc e) *ℤ negsuc e) (negsuc e),
      ))
