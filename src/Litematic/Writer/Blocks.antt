-- ===== src/Litematic/Writer/Blocks.antt =====
-- Each block of a structure that src/formats/litematic_writer.cpp writes, read back by its index.
use Prim.Native.String.{String}
use native.Mathlib.Nat.{add-mul, mul-le-mul_right, mod-eq_of_lt, mul_comm}
use water_structure_cpp.Common.{
  ℕ, zero, suc, ◌+◌, ◌*◌, ◌%◌, ◌^◌, ◌<◌, ◌≡◌, ap, ◌∙◌, subst, List, [], ◌∷◌, map, length-map,
  Option, some, length, get_elem?, arith,
}
use water_structure_cpp.Common.Int.{ℤ, pos, pos_part}
use water_structure_cpp.Coordinates.{ChunkPos, Size}
use water_structure_cpp.Coordinates.Extent.{volume_saturates}
use water_structure_cpp.Result.{Result, success, failure, done}
use water_structure_cpp.Chunk.{ChunkMap, block_at}
use water_structure_cpp.Canonical.States.{BlockState}
use water_structure_cpp.Schematic.{ConversionOptions, block_bytes, all_positions}
use water_structure_cpp.Schematic.Arrays.{chain_ends, length-block_bytes, elem-block_bytes}
use water_structure_cpp.Litematic.Packed.{bits_for_palette, palette_index_at}
use water_structure_cpp.Litematic.Structure.{cell_index}
use water_structure_cpp.Litematic.Writer.{
  LitematicFields, refuse_size, refuse_budget, prefixed, litematic_fields, block_states_of,
  java_palette_state, palette_key, write_litematic,
}
use water_structure_cpp.Litematic.Writer.Palette.{Holds}
use water_structure_cpp.Litematic.Writer.RoundTrip.{encode_states_lem}

-- The dimensions of a size that is written, and their product.
accepted_volume :
    (s : Size)
    → refuse_size s ≡ done
    → let v = pos_part s.width * pos_part s.height * pos_part s.length in v < 2 ^ 31
unfolding refuse_size
accepted_volume s h = ground (arith, h, volume_saturates s)

same_volume : (w h l : ℕ) → h * (l * (w * 1)) ≡ w * h * l
same_volume w h l = grind arith

-- The index of a block, as a plain number.
abbrev plain_index : Size → ℕ → ℕ → ℕ → ℕ
plain_index s x y z =
    y * (pos_part s.length * (pos_part s.width * 1)) + (z * (pos_part s.width * 1) + (x * 1 + 0))

index_below :
    (h l w x y z : ℕ)
    → x < w
    → y < h
    → z < l
    → y * (l * (w * 1)) + (z * (w * 1) + (x * 1 + 0)) < h * (l * (w * 1))
index_below h l w x y z hx hy hz = omega (
  arith,
  add-mul z 1 w,
  mul-le-mul_right {m = z + 1} {n = l} w (omega arith),
  add-mul y 1 (l * w),
  mul-le-mul_right {m = y + 1} {n = h} (l * w) (omega arith),
)

pub cell_index_lem :
    (s : Size) (x y z : ℕ)
    → x < pos_part s.width
    → y < pos_part s.height
    → z < pos_part s.length
    → pos_part s.width * pos_part s.height * pos_part s.length < 2 ^ 31
    → cell_index s (pos x) (pos y) (pos z) ≡ plain_index s x y z
unfolding cell_index
cell_index_lem s x y z hx hy hz small =
    let w = pos_part s.width in
    let h = pos_part s.height in
    let l = pos_part s.length in
    let below = index_below h l w x y z hx hy hz in
    let layer : w * l % 2 ^ 64 ≡ l * (w * 1) =
      mod-eq_of_lt {n = w * l} {m = 2 ^ 64} (
        omega (
          arith,
          small,
          same_volume w h l,
          mul-le-mul_right {m = 1} {n = h} (l * w) (omega arith),
          mul_comm w l,
        ))
      ∙ mul_comm w l
      ∙ ap (λ (k : ℕ). l * k) {x = w} {y = w * 1} (omega arith) in
    let plain : y * (w * l % 2 ^ 64) + z * w + x ≡ plain_index s x y z =
      omega (arith, ap (λ (k : ℕ). y * k) layer) in
    ap (λ (k : ℕ). k % 2 ^ 64) plain
    ∙ mod-eq_of_lt {n = plain_index s x y z} {m = 2 ^ 64}
        (omega (arith, below, same_volume w h l, small))

get_elem?-map :
    {A B : Type 0} (f : A → B) (xs : List A) (i : ℕ) {a : A}
    → get_elem? xs i ≡ some a
    → get_elem? (map f xs) i ≡ some (f a)
get_elem?-map f [] i h = absurd (ground arith)
get_elem?-map f (x ∷ xs) zero {a} h = let e : x ≡ a = cc in ap (λ b. some (f b)) e
get_elem?-map f (x ∷ xs) (suc i) h = get_elem?-map f xs i h

block_states_lem :
    (java_state : ℕ → Option BlockState) (air : ℕ) (s : Size) (chunks : ChunkMap) (x y z : ℕ)
    → x < pos_part s.width
    → y < pos_part s.height
    → z < pos_part s.length
    → pos_part s.width * pos_part s.height * pos_part s.length < 2 ^ 31
    → (get_elem? (block_states_of java_state air s chunks) (cell_index s (pos x) (pos y) (pos z))
        ≡ some (java_palette_state java_state (block_at air chunks (pos x) (pos y) (pos z))))
      × (length (block_states_of java_state air s chunks) < 2 ^ 31)
unfolding block_states_of
block_states_lem java_state air s chunks x y z hx hy hz small =
    let ids = block_bytes (λ x y z. block_at air chunks (pos x) (pos y) (pos z)) s in
    (
      ap (get_elem? (map (java_palette_state java_state) ids))
            (cell_index_lem s x y z hx hy hz small)
          ∙ get_elem?-map (java_palette_state java_state) ids (plain_index s x y z) (
              elem-block_bytes (λ x y z. block_at air chunks (pos x) (pos y) (pos z)) s x y z hx hy
                hz),
      omega (
        arith,
        length-map ids (java_palette_state java_state),
        length-block_bytes (λ x y z. block_at air chunks (pos x) (pos y) (pos z)) s,
        same_volume (pos_part s.width) (pos_part s.height) (pos_part s.length),
        small,
      ),
    )

-- The palette of the file has, at the index that a reader unpacks for a block, a state with the key
-- of the block's state.
abbrev pub ReadsBack :
    (ℕ → Option BlockState) → ℕ → Size → ChunkMap → LitematicFields → ℕ → ℕ → ℕ → Type 0
ReadsBack java_state air s chunks out x y z =
    Holds palette_key out.block_state_palette
      (palette_index_at out.block_states (bits_for_palette (length out.block_state_palette))
        (cell_index s (pos x) (pos y) (pos z)))
      (palette_key (java_palette_state java_state (block_at air chunks (pos x) (pos y) (pos z))))

fields-ReadsBack :
    (to_string : ℤ → String) (java_state : ℕ → Option BlockState) (air : ℕ) (s : Size)
    (chunks : ChunkMap) (x y z : ℕ)
    → x < pos_part s.width
    → y < pos_part s.height
    → z < pos_part s.length
    → pos_part s.width * pos_part s.height * pos_part s.length < 2 ^ 31
    → ReadsBack java_state air s chunks (litematic_fields to_string java_state air s chunks) x y z
unfolding litematic_fields
fields-ReadsBack to_string java_state air s chunks x y z hx hy hz small =
    let (here, few) = block_states_lem java_state air s chunks x y z hx hy hz small in
    encode_states_lem palette_key (java_palette_state java_state air)
      (java_palette_state java_state (block_at air chunks (pos x) (pos y) (pos z)))
      (block_states_of java_state air s chunks) (cell_index s (pos x) (pos y) (pos z)) few here

prefixed_lem :
    (r : Result ChunkMap) (chunks : ChunkMap) → prefixed r ≡ success chunks → r ≡ success chunks
unfolding prefixed
prefixed_lem (success c) chunks h = h
prefixed_lem (failure e) chunks h = absurd (ground arith)

-- Where the writer succeeds, the chunks that it asked for were given, and for each block of the
-- declared size the reader's index arithmetic finds, in the packed states that are written, an index
-- of the written palette whose state has the same key as the state of the block in those chunks.
-- Nothing is asked of the structure, the registry or the number of bits.
pub written_blocks :
    (to_string : ℤ → String) (get_chunks_layer0 : List ChunkPos → Result ChunkMap)
    (java_state : ℕ → Option BlockState) (air : ℕ) (s : Size) (options : ConversionOptions)
    (out : LitematicFields)
    → write_litematic to_string get_chunks_layer0 java_state air s options ≡ success out
    → (chunks : ChunkMap) × (get_chunks_layer0 (all_positions s) ≡ success chunks)
      × ((x y z : ℕ)
          → x < pos_part s.width
          → y < pos_part s.height
          → z < pos_part s.length
          → ReadsBack java_state air s chunks out x y z)
unfolding write_litematic
written_blocks to_string get_chunks_layer0 java_state air s options out h =
    let (ok, (chunks, answer, made)) =
      chain_ends (refuse_size s) (refuse_budget options s)
        (prefixed (get_chunks_layer0 (all_positions s)))
        (litematic_fields to_string java_state air s) out h in
    (
      chunks,
      prefixed_lem (get_chunks_layer0 (all_positions s)) chunks answer,
      λ x y z hx hy hz.
          subst (λ o. ReadsBack java_state air s chunks o x y z) made
            (fields-ReadsBack to_string java_state air s chunks x y z hx hy hz
              (accepted_volume s ok)),
    )
