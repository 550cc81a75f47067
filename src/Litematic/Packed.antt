-- ===== src/Litematic/Packed.antt =====
-- The packed block states of src/formats/litematic.cpp and src/formats/litematic_writer.cpp. An
-- int64_t of the array is the uint64_t that the code casts it to.
pub mod Arith
pub mod Unpack
pub mod Pack
pub mod Bits
use Prim.Native.Nat.{bit_and, bit_or}
use water_structure_cpp.Common.{
  ℕ, zero, suc, ◌+◌, ◌-◌, ◌*◌, ◌/◌, ◌%◌, ◌^◌, max, Bool, true, false, List, [], ◌∷◌, length, get_or,
  set, replicate, ◌&&◌, ltb, leb, ◌==◌, if◌then◌else◌,
}

-- The loop that counts the binary digits, on fuel.
unfoldable pub count_bits : ℕ → ℕ → ℕ → ℕ
count_bits zero bits value = bits
count_bits (suc fuel) bits value = elim (value == 0) [
  | true ↦ bits
  | false ↦ count_bits fuel ((bits + 1) % 256) (value / 2)
]

unfoldable pub bits_for_palette : ℕ → ℕ
unfolding count_bits
bits_for_palette size = max 2 (count_bits 64 0 (if ltb 0 size then size - 1 else 0))

abbrev pub shift_left : ℕ → ℕ → ℕ
shift_left value n = value * 2 ^ n % 2 ^ 64

-- What stands at a bit of a word, and in the word behind where it does not end there.
unfoldable pub field_at : List ℕ → ℕ → ℕ → ℕ → ℕ
field_at packed bits word offset =
    let value = get_or packed word 0 / 2 ^ offset in
    if ltb 64 (offset + bits) && ltb (word + 1) (length packed)
    then bit_or value (shift_left (get_or packed (word + 1) 0) (64 - offset))
    else value

-- `start_bit` is a uint64_t, and the result a uint32_t.
unfoldable pub palette_index_at : List ℕ → ℕ → ℕ → ℕ
unfolding field_at
palette_index_at packed bits index =
    let start_bit = index * bits % 2 ^ 64 in
    if leb (length packed) (start_bit / 64)
    then 0
    else bit_and (field_at packed bits (start_bit / 64) (start_bit % 64)) (2 ^ bits - 1) % 2 ^ 32

-- The writes of one value, from a bit of a word on.
unfoldable pub put_field : ℕ → ℕ → ℕ → ℕ → List ℕ → List ℕ
put_field bits word offset value packed =
    let first = set packed word (bit_or (get_or packed word 0) (shift_left value offset)) in
    if ltb 64 (offset + bits)
    then set first (word + 1) (bit_or (get_or first (word + 1) 0) (value / 2 ^ (64 - offset)))
    else first

unfoldable pub put_value : ℕ → ℕ → ℕ → List ℕ → List ℕ
unfolding put_field
put_value bits index value packed =
    let start_bit = index * bits % 2 ^ 64 in
    put_field bits (start_bit / 64) (start_bit % 64) value packed

-- The body of the writer's loops, for the values of the blocks in their order.
unfoldable pub put_values : ℕ → ℕ → List ℕ → List ℕ → List ℕ
unfolding put_value
put_values bits index [] packed = packed
put_values bits index (value ∷ values) packed =
    put_values bits (index + 1) values (put_value bits index value packed)

unfoldable pub word_count : ℕ → ℕ → ℕ
word_count volume bits = (volume * bits % 2 ^ 64 + 63) % 2 ^ 64 / 64

unfoldable pub pack : ℕ → List ℕ → List ℕ
unfolding put_values word_count
pack bits values = put_values bits 0 values (replicate (word_count (length values) bits) 0)
