-- ===== src/Store/Chunks/Local.antt =====
-- Where a world position stands in its chunk: the arithmetic of src/core/decoded_structure.cpp.
use water_structure_cpp.Common.{ℕ, ◌+◌, ◌*◌, ◌<◌, ◌≡◌, refl, sym, ap, ◌∙◌, arith}
use water_structure_cpp.Common.Int.{
  ℤ, pos, negsuc, ◌+ℤ◌, ◌-ℤ◌, ◌*ℤ◌, ◌≤ℤ◌, pos_part, neg_part, IsInt32, wrap32, +ℤ_parts, -ℤ_parts,
  eq_of_parts, parts_apart, wrap32-sub-add-wrap32, wrap32_of_IsInt32,
}
use water_structure_cpp.Coordinates.{floor_div, floor_mod}
use water_structure_cpp.Coordinates.Floor.{floor_div-IsFloor, floor_mod_bounds}
use water_structure_cpp.Chunk.{layer_index}

-- A product by 16, part by part.
pub mul16_parts :
    (a : ℤ)
    → (pos_part (a *ℤ pos 16) ≡ 16 * pos_part a) × (neg_part (a *ℤ pos 16) ≡ 16 * neg_part a)
unfolding ◌*ℤ◌
mul16_parts (pos n) = ground arith
mul16_parts (negsuc n) = ground arith

-- The remainder by 16 as a number from 0 to 15.
abbrev pub rem16 : ℤ → ℕ
rem16 v = pos_part (floor_mod v (pos 16))

pub rem16_lem :
    (v : ℤ)
    → IsInt32 v
    → (floor_mod v (pos 16) ≡ pos (rem16 v))
      × (rem16 v < 16)
      × (pos_part v + 16 * neg_part (floor_div v (pos 16))
          ≡ neg_part v + 16 * pos_part (floor_div v (pos 16)) + rem16 v)
rem16_lem v h =
    let (e, lo, hi) = floor_mod_bounds v 16 h (omega arith) (omega arith) in
    let q = floor_div v (pos 16) in
    let one_part = parts_apart (floor_mod v (pos 16)) in
    (
      eq_of_parts (floor_mod v (pos 16)) (pos (rem16 v)) (omega arith),
      omega arith,
      omega (arith, -ℤ_parts v (q *ℤ pos 16), mul16_parts q, ap pos_part e, ap neg_part e),
    )

-- Quotient and remainder by 16 determine an int32_t.
pub split16_unique :
    (v w : ℤ)
    → IsInt32 v
    → IsInt32 w
    → floor_div v (pos 16) ≡ floor_div w (pos 16)
    → rem16 v ≡ rem16 w
    → v ≡ w
split16_unique v w hv hw q r =
    eq_of_parts v w (omega (arith, rem16_lem v hv, rem16_lem w hw, ap pos_part q, ap neg_part q))

-- The integer between two multiples of 16 has the lower one's quotient.
pub floor_div16_unique :
    (v c : ℤ) → IsInt32 v → c *ℤ pos 16 ≤ℤ v → v ≤ℤ c *ℤ pos 16 +ℤ pos 15 → floor_div v (pos 16) ≡ c
floor_div16_unique v c hv lo hi =
    let q = floor_div v (pos 16) in
    let (flo, fhi) = floor_div-IsFloor v 16 hv (omega arith) in
    eq_of_parts q c (
      omega (
        arith,
        flo,
        fhi,
        mul16_parts q,
        mul16_parts c,
        +ℤ_parts (c *ℤ pos 16) (pos 15),
        +ℤ_parts (q *ℤ pos 16) (pos 16),
      ))

pub layer_index_lem :
    (a b c : ℕ)
    → a < 16
    → b < 16
    → c < 16
    → layer_index (pos a) (pos b) (pos c) ≡ (a * 16 + b) * 16 + c
unfolding layer_index ◌+ℤ◌ ◌*ℤ◌
layer_index_lem a b c ha hb hc = ground arith

regroup : (y q : ℤ) → y -ℤ (q *ℤ pos 16 +ℤ pos 64) ≡ y -ℤ pos 64 -ℤ q *ℤ pos 16
regroup y q = eq_of_parts _ _ (
    omega (
      arith,
      -ℤ_parts y (q *ℤ pos 16 +ℤ pos 64),
      +ℤ_parts (q *ℤ pos 16) (pos 64),
      -ℤ_parts (y -ℤ pos 64) (q *ℤ pos 16),
      -ℤ_parts y (pos 64),
    ))

-- `ly` by the formula with 64, where nothing overflows.
pub local_y_lem :
    (y : ℤ)
    → IsInt32 y
    → IsInt32 (y -ℤ pos 64)
    → let sub_y = floor_div (wrap32 (y -ℤ pos 64)) (pos 16) in
      wrap32 (y -ℤ wrap32 (wrap32 (sub_y *ℤ pos 16) +ℤ pos 64)) ≡ floor_mod (y -ℤ pos 64) (pos 16)
local_y_lem y hy h64 =
    let v = y -ℤ pos 64 in
    let q = floor_div v (pos 16) in
    let (e, lo, hi) = floor_mod_bounds v 16 h64 (omega arith) (omega arith) in
    let (r, small, _) = rem16_lem v h64 in
    rw (wrap32_of_IsInt32 v h64) (
      wrap32-sub-add-wrap32 y (q *ℤ pos 16) (pos 64) (floor_mod v (pos 16)) (rw r (omega arith))
        (regroup y q ∙ sym e))

-- `lx` and `lz` in the chunk of the position.
pub local_x_lem :
    (v : ℤ) → wrap32 (v -ℤ wrap32 (floor_div v (pos 16) *ℤ pos 16)) ≡ floor_mod v (pos 16)
unfolding floor_mod
local_x_lem v = refl

-- Equal sums with one offset come from equal terms.
pub +ℤ_cancel_parts :
    (a b o : ℤ) → a +ℤ o ≡ b +ℤ o → pos_part a + neg_part b ≡ pos_part b + neg_part a
+ℤ_cancel_parts a b o e = omega (arith, +ℤ_parts a o, +ℤ_parts b o, ap pos_part e, ap neg_part e)

pub -ℤ_cancel : (a b k : ℤ) → a -ℤ k ≡ b -ℤ k → a ≡ b
-ℤ_cancel a b k e =
    eq_of_parts a b (omega (arith, -ℤ_parts a k, -ℤ_parts b k, ap pos_part e, ap neg_part e))
