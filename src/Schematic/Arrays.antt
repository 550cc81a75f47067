-- ===== src/Schematic/Arrays.antt =====
-- The arrays that src/formats/schematic_writer.cpp writes are as long as it says.
use native.Mathlib.Nat.{add-mul, mul-le-mul_right}
use water_structure_cpp.Common.{
  ℕ, zero, suc, ◌+◌, ◌*◌, ◌^◌, ◌<◌, ◌≡◌, refl, sym, ap, subst, ◌∙◌, List, [], ◌∷◌, Option, length,
  length-append, arith, get_elem?, get_elem?-append_left, get_elem?-append_right, some,
}
use water_structure_cpp.Common.Int.{
  ℤ, pos, negsuc, ◌<ℤ◌, pos_part, IsInt32, wrap32, wrap32_of_IsInt32,
}
use water_structure_cpp.Coordinates.{ChunkPos, Size, volume}
use water_structure_cpp.Coordinates.Extent.{volume_saturates}
use water_structure_cpp.Result.{Result, success, failure, Status, done, ◌>>=◌, ◌>>◌}
use water_structure_cpp.Chunk.{ChunkMap}
use water_structure_cpp.Schematic.{
  ConversionOptions, Schematic, check_size, for_range, block_bytes, fields_of, write_schematic,
  check_budget, read_all, all_positions, wrap16,
}

length-for_range :
    {A : Type 0} (i n k : ℕ) (body : ℕ → List A)
    → ((j : ℕ) → length (body j) ≡ k)
    → length (for_range i n body) ≡ n * k
unfolding for_range
length-for_range i zero k body h = omega arith
length-for_range i (suc n) k body h = omega (
  arith,
  length-append (body i) (for_range (i + 1) n body),
  h i,
  length-for_range (i + 1) n k body h,
)

pub length-block_bytes :
    (byte_at : ℕ → ℕ → ℕ → ℕ) (s : Size)
    → length (block_bytes byte_at s)
      ≡ pos_part s.height * (pos_part s.length * (pos_part s.width * 1))
unfolding block_bytes
length-block_bytes byte_at s = length-for_range 0 (pos_part s.height) _ _ (λ y.
    length-for_range 0 (pos_part s.length) _ _
      (λ z. length-for_range 0 (pos_part s.width) 1 (λ x. byte_at x y z ∷ []) (λ x. refl)))

elem-for_range :
    {A : Type 0} (lo n k i j : ℕ) (body : ℕ → List A)
    → ((m : ℕ) → length (body m) ≡ k)
    → i < n
    → j < k
    → get_elem? (for_range lo n body) (i * k + j) ≡ get_elem? (body (lo + i)) j
unfolding for_range
elem-for_range lo zero k i j body h p q = absurd (omega arith)
elem-for_range lo (suc n) k zero j body h p q =
    get_elem?-append_left (body lo) (for_range (lo + 1) n body) (0 * k + j) (omega (arith, h lo))
    ∙ ap (get_elem? (body lo)) {x = 0 * k + j} {y = j} (omega arith)
    ∙ ap (λ (m : ℕ). get_elem? (body m) j) {x = lo} {y = lo + 0} (omega arith)
elem-for_range lo (suc n) k (suc i) j body h p q =
    get_elem?-append_right (body lo) (for_range (lo + 1) n body) (i * k + j) (suc i * k + j)
      (omega (arith, h lo, add-mul i 1 k))
    ∙ elem-for_range (lo + 1) n k i j body h (omega arith) q
    ∙ ap (λ (m : ℕ). get_elem? (body m) j) {x = lo + 1 + i} {y = lo + suc i} (omega arith)

zero_before : (n : ℕ) → 0 + n ≡ n
zero_before n = omega arith

-- What stands at a block's place in the order of the loops.
pub elem-block_bytes :
    (byte_at : ℕ → ℕ → ℕ → ℕ) (s : Size) (x y z : ℕ)
    → x < pos_part s.width
    → y < pos_part s.height
    → z < pos_part s.length
    → get_elem? (block_bytes byte_at s) (
        y * (pos_part s.length * (pos_part s.width * 1))
        + (z * (pos_part s.width * 1) + (x * 1 + 0)))
      ≡ some (byte_at x y z)
unfolding block_bytes
elem-block_bytes byte_at s x y z hx hy hz =
    let w = pos_part s.width in
    let l = pos_part s.length in
    let row = λ (y : ℕ) (z : ℕ). length-for_range 0 w 1 (λ x. byte_at x y z ∷ []) (λ x. refl) in
    let in_row : z * (w * 1) + (x * 1 + 0) < l * (w * 1) =
      omega (arith, add-mul z 1 w, mul-le-mul_right {m = z + 1} {n = l} w (omega arith)) in
    elem-for_range 0 (pos_part s.height) (l * (w * 1)) y (z * (w * 1) + (x * 1 + 0)) _
      (λ y. length-for_range 0 l _ _ (row y)) hy in_row
    ∙ elem-for_range 0 l (w * 1) z (x * 1 + 0) _ (row (0 + y)) hz (omega arith)
    ∙ elem-for_range 0 w 1 x 0 (λ x. byte_at x (0 + y) (0 + z) ∷ []) (λ x. refl) hx (omega arith)
    ∙ (λ i. some (byte_at (zero_before x i) (zero_before y i) (zero_before z i)))

wrap16_of_small : (z : ℤ) → (pos 0 <ℤ z) × (pos_part z < 2 ^ 15) → wrap16 z ≡ z
unfolding wrap16
wrap16_of_small (pos n) h = ground arith
wrap16_of_small (negsuc n) h = ground arith

small_size :
    (s : Size)
    → check_size s ≡ done
    → (volume s ≡ pos (pos_part s.width * pos_part s.height * pos_part s.length))
      × IsInt32 (volume s)
      × ((pos 0 <ℤ s.width) × (pos_part s.width < 2 ^ 15))
      × ((pos 0 <ℤ s.height) × (pos_part s.height < 2 ^ 15))
      × ((pos 0 <ℤ s.length) × (pos_part s.length < 2 ^ 15))
unfolding check_size
small_size s h = ground (arith, h, volume_saturates s)

-- A size that is accepted has dimensions that fit an int16_t, and its volume is their product.
accepted_size :
    (s : Size)
    → check_size s ≡ done
    → (volume s ≡ pos (pos_part s.width * pos_part s.height * pos_part s.length))
      × (wrap32 (volume s) ≡ volume s)
      × (wrap16 s.width ≡ s.width)
      × (wrap16 s.height ≡ s.height)
      × (wrap16 s.length ≡ s.length)
unfolding check_size
accepted_size s h =
    let (exact, fits, w, ht, l) = small_size s h in
    (
      exact,
      wrap32_of_IsInt32 (volume s) fits,
      wrap16_of_small s.width w,
      wrap16_of_small s.height ht,
      wrap16_of_small s.length l,
    )

-- A chain of checks that succeeds has passed the first.
pub chain_ends :
    {F : Type 0} (a b : Status) (c : Result ChunkMap) (make : ChunkMap → F) (out : F)
    → (a >> (b >> (c >>= λ chunks. success (make chunks)))) ≡ success out
    → (a ≡ done) × ((chunks : ChunkMap) × (c ≡ success chunks) × (make chunks ≡ out))
chain_ends (failure e) b c make out h = absurd (ground arith)
chain_ends (success u) (failure e) c make out h = absurd (ground arith)
chain_ends (success u) (success v) (failure e) make out h = absurd (ground arith)
chain_ends (success u) (success v) (success chunks) make out h = (refl, (chunks, refl, cc))

fields_lengths :
    (schematic_block : ℕ → Option (ℕ × ℕ)) (air : ℕ) (s : Size) (chunks : ChunkMap)
    → check_size s ≡ done
    → ((fields_of schematic_block air s chunks).blocks_length
        ≡ pos (length (fields_of schematic_block air s chunks).blocks))
      × ((fields_of schematic_block air s chunks).data_length
          ≡ pos (length (fields_of schematic_block air s chunks).data_bytes))
      × ((fields_of schematic_block air s chunks).width ≡ s.width)
      × ((fields_of schematic_block air s chunks).height ≡ s.height)
      × ((fields_of schematic_block air s chunks).length ≡ s.length)
unfolding fields_of
fields_lengths schematic_block air s chunks h =
    let (exact, fits, width, height, long) = accepted_size s h in
    let v = fits ∙ exact in
    let w = pos_part s.width in
    let ht = pos_part s.height in
    let l = pos_part s.length in
    let same : ht * (l * (w * 1)) ≡ w * ht * l = grind arith in
    (
      v ∙ ap pos (sym (length-block_bytes _ s ∙ same)),
      v ∙ ap pos (sym (length-block_bytes _ s ∙ same)),
      width,
      height,
      long,
    )

-- Where the writer succeeds, the lengths that it writes before the two arrays are the numbers of the
-- bytes that follow, and the dimensions that it writes are those of the structure, whatever the chunks
-- and the registry give: the loops make the product of the dimensions, no product has overflowed, and
-- no cast to an int32_t or an int16_t has changed a value.
pub written_lengths :
    (get_chunks_layer0 : List ChunkPos → Result ChunkMap) (schematic_block : ℕ → Option (ℕ × ℕ))
    (air : ℕ) (s : Size) (options : ConversionOptions) (out : Schematic)
    → write_schematic get_chunks_layer0 schematic_block air s options ≡ success out
    → (out.blocks_length ≡ pos (length out.blocks))
      × (out.data_length ≡ pos (length out.data_bytes))
      × (out.width ≡ s.width)
      × (out.height ≡ s.height)
      × (out.length ≡ s.length)
unfolding write_schematic
written_lengths get_chunks_layer0 schematic_block air s options out h =
    let (ok, (chunks, answer, made)) =
      chain_ends (check_size s) (check_budget options s)
        (read_all (get_chunks_layer0 (all_positions s))) (fields_of schematic_block air s) out h in
    subst
      (λ o.
        (o.blocks_length ≡ pos (length o.blocks))
        × (o.data_length ≡ pos (length o.data_bytes))
        × (o.width ≡ s.width)
        × (o.height ≡ s.height)
        × (o.length ≡ s.length))
      made (fields_lengths schematic_block air s chunks ok)
