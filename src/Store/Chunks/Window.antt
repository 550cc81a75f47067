-- ===== src/Store/Chunks/Window.antt =====
-- The window of columns of `get_chunks_impl` in src/core/decoded_structure.cpp, and the entries that
-- one column of it takes from the map.
use water_structure_cpp.Common.{
  ℕ, ◌≡◌, refl, ap, subst, false, [], ◌∷◌, Option, none, some, if◌then◌else◌, arith, Bool-cases,
  inl, inr, All,
}
use water_structure_cpp.Common.Int.{
  ℤ, pos, ◌+ℤ◌, ◌*ℤ◌, ◌≤ℤ◌, ◌<ℤ◌, pos_part, neg_part, IsInt32, +ℤ_parts, -ℤ_parts,
}
use water_structure_cpp.Coordinates.{BlockPos, floor_div, block_eq, block_lt}
use water_structure_cpp.Coordinates.Floor.{floor_div-IsFloor}
use water_structure_cpp.Store.Map.{
  Entries, EqualZ, lookup, range, Above, IsSorted, lookup-Above, block_eq→eq, Above→IsSorted,
}
use water_structure_cpp.Store.Chunks.{source_min, source_max}

-- The value that the last entry for `p` gives, or `d`.
abbrev pub last_value : BlockPos → Entries ℕ → ℕ → ℕ
last_value p [] d = d
last_value p ((q, v) ∷ m) d = last_value p m (if block_eq q p then v else d)

abbrev pub value_or : Option ℕ → ℕ → ℕ
value_or none d = d
value_or (some v) d = v

pub last_absent :
    (p : BlockPos) (m : Entries ℕ) (d : ℕ)
    → All (λ e. block_eq e.0 p ≡ false) m
    → last_value p m d ≡ d
last_absent p [] d h = refl
last_absent p ((q, v) ∷ m) d (h, others) = rw h (last_absent p m d others)

pub All-range :
    (P Q : BlockPos × ℕ → Type 0) (lo hi : BlockPos) (m : Entries ℕ)
    → ((e : BlockPos × ℕ) → P e → block_lt e.0 lo ≡ false → block_lt hi e.0 ≡ false → Q e)
    → All P m
    → All Q (range lo hi m)
unfolding range
All-range P Q lo hi [] h a = tt
All-range P Q lo hi ((q, v) ∷ m) h (a, others) =
    ground (arith, h (q, v) a, All-range P Q lo hi m h others)

-- In a sorted map the range holds what the map holds, between its ends.
pub last_range :
    (p lo hi : BlockPos) (m : Entries ℕ) (d : ℕ)
    → IsSorted m
    → block_lt p lo ≡ false
    → block_lt hi p ≡ false
    → last_value p (range lo hi m) d ≡ value_or (lookup p m) d
unfolding range lookup
last_range p lo hi [] d sorted above below = refl
last_range p lo hi ((q, v) ∷ m) d sorted above below = elim (Bool-cases (block_eq q p)) [
  | inl same ↦
      let e = block_eq→eq q p same in
      let rest = last_range p lo hi m v (Above→IsSorted q m sorted) above below in
      let absent : lookup p m ≡ none = lookup-Above p m (subst (λ r. Above r m) e sorted) in
      ground (arith, same, rest, absent, ap (λ r. block_lt r lo) e, ap (block_lt hi) e)
  | inr other ↦
      ground (arith, other, last_range p lo hi m d (Above→IsSorted q m sorted) above below)
]

-- What lies between two keys that differ in z alone.
pub between_keys :
    (q lo hi : BlockPos)
    → lo.x ≡ hi.x
    → lo.y ≡ hi.y
    → block_lt q lo ≡ false
    → block_lt hi q ≡ false
    → EqualZ q.x lo.x × EqualZ q.y lo.y × (lo.z ≤ℤ q.z) × (q.z ≤ℤ hi.z)
unfolding block_lt
between_keys q lo hi ex ey h k =
    ground (arith, ap pos_part ex, ap neg_part ex, ap pos_part ey, ap neg_part ey)

pub source_min_lem :
    (c o x : ℤ)
    → (source_min c o ≤ℤ x → (pos 0 ≤ℤ x) × (c *ℤ pos 16 ≤ℤ x +ℤ o))
      × (pos 0 ≤ℤ x → c *ℤ pos 16 ≤ℤ x +ℤ o → source_min c o ≤ℤ x)
unfolding source_min
source_min_lem c o x = ground (arith, +ℤ_parts x o, -ℤ_parts (c *ℤ pos 16) o)

pub source_max_lem :
    (c o extent x : ℤ)
    → (x ≤ℤ source_max c o extent → (x <ℤ extent) × (x +ℤ o ≤ℤ c *ℤ pos 16 +ℤ pos 15))
      × (x <ℤ extent → x +ℤ o ≤ℤ c *ℤ pos 16 +ℤ pos 15 → x ≤ℤ source_max c o extent)
unfolding source_max
source_max_lem c o extent x =
    ground (arith, +ℤ_parts x o, -ℤ_parts (c *ℤ pos 16 +ℤ pos 15) o, -ℤ_parts extent (pos 1))

-- An int32_t lies between the ends of its own chunk.
pub own_chunk :
    (v : ℤ)
    → IsInt32 v
    → let c = floor_div v (pos 16) in (c *ℤ pos 16 ≤ℤ v) × (v ≤ℤ c *ℤ pos 16 +ℤ pos 15)
own_chunk v h =
    let (lo, hi) = floor_div-IsFloor v 16 h (omega arith) in
    let p = floor_div v (pos 16) *ℤ pos 16 in
    (lo, omega (arith, hi, +ℤ_parts p (pos 16), +ℤ_parts p (pos 15)))
