-- ===== src/Litematic/Packed/Bits.antt =====
-- `bits_for_palette` of src/formats/litematic.cpp and src/formats/litematic_writer.cpp.
use native.Mathlib.Nat.{pow-suc, pow-le-pow_right}
use water_structure_cpp.Common.{
  ℕ, zero, suc, ◌+◌, ◌-◌, ◌*◌, ◌/◌, ◌%◌, ◌^◌, ◌≤◌, ◌<◌, ◌≡◌, ap, arith, max, ltb, ◌==◌, Bool-cases,
  inl, inr, if◌then◌else◌,
}
use water_structure_cpp.Litematic.Packed.{count_bits, bits_for_palette}

-- With enough fuel the loop adds the least number of digits that the value fits.
count_bits_lem :
    (fuel bits value : ℕ)
    → bits + fuel < 256
    → value < 2 ^ fuel
    → (d : ℕ) × (count_bits fuel bits value ≡ bits + d)
      × (d ≤ fuel)
      × (value < 2 ^ d)
      × (0 < d → 2 ^ d ≤ 2 * value)
unfolding count_bits
count_bits_lem zero bits value h v = (0, omega arith, omega arith, v, λ p. omega arith)
count_bits_lem (suc fuel) bits value h v = elim (Bool-cases (value == 0)) [
  | inl none ↦ (0, ground (arith, none), omega arith, ground arith, λ p. omega arith)
  | inr more ↦
      let (d, e, small, fits, least) =
        count_bits_lem fuel ((bits + 1) % 256) (value / 2) (omega arith)
          (omega (arith, v, pow-suc 2 fuel)) in
      (
        suc d,
        ground (arith, more, e),
        omega arith,
        omega (arith, fits, pow-suc 2 d),
        λ p. least_step d value (ground arith) least,
      )
]
  where
    least_step :
        (d value : ℕ) → 0 < value → (0 < d → 2 ^ d ≤ 2 * (value / 2)) → 2 ^ suc d ≤ 2 * value
    least_step zero value p least = omega arith
    least_step (suc d) value p least = omega (arith, least (omega arith), pow-suc 2 (suc d))

-- The indices of a palette of fewer than 2 ^ 64 blocks fit the bits that are chosen for it, which are
-- at least 2 and at most 64, and one bit fewer would not do, where that leaves 2.
pub bits_for_palette_fit :
    (size : ℕ)
    → size < 2 ^ 64
    → let bits = bits_for_palette size in
      (size ≤ 2 ^ bits) × (2 ≤ bits) × (bits ≤ 64) × (2 < bits → 2 ^ bits < 2 * size)
unfolding bits_for_palette
bits_for_palette_fit size h =
    let last = if ltb 0 size then size - 1 else 0 in
    let (d, e, small, fits, least) = count_bits_lem 64 0 last (omega arith) (ground arith) in
    let bits = max 2 (0 + d) in
    let more : 2 ^ d ≤ 2 ^ bits =
      pow-le-pow_right {n = 2} (omega arith) {i = d} {j = bits} (omega arith) in
    rw e (
      ground (arith, more, fits),
      omega arith,
      omega arith,
      λ p.
          let same : bits ≡ d = omega arith in
          ground (arith, ap (λ (k : ℕ). 2 ^ k) same, least (omega arith)),
    )
