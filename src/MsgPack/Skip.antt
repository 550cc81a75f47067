-- ===== src/MsgPack/Skip.antt =====
-- `skip_value` and `data` of `StreamDecoder` in src/formats/msgpack_structure.cpp.
use Prim.Native.String.{String, ◌++◌ as str_append}
use water_structure_cpp.Common.{
  ℕ, zero, suc, ◌+◌, ◌*◌, ◌/◌, ◌%◌, ◌&&◌, ◌||◌, List, ltb, leb, ◌==◌, if◌then◌else◌,
}
use water_structure_cpp.Common.Int.{ℤ}
use water_structure_cpp.MsgPack.{
  StreamDecoder, Read, got, and_then, fail, byte, unsigned_be, skip_bytes, integer_after,
  string_after, max_container_items, max_nesting_depth,
}

-- What follows a marker, as the branches of `skip_after` tell them apart.
pub data Shape : Type 0 where
  nothing : Shape
  payload : ℕ → Shape
  -- a length of so many bytes, and then that many bytes and `extra`
  counted_bytes : (width extra : ℕ) → Shape
  values : ℕ → Shape
  -- a count of so many bytes, and then that many values or pairs
  counted_values : (width each : ℕ) → Shape
  reserved : Shape
  unsupported : Shape

-- The cases of the switch.
unfoldable pub listed : ℕ → Shape
listed marker =
    if marker == 204 || marker == 208
    then payload 1
    else if marker == 202
    then payload 4
    else if marker == 203
    then payload 8
    else if marker == 193
    then reserved
    else if marker == 196
    then counted_bytes 1 0
    else if marker == 197
    then counted_bytes 2 0
    else if marker == 198
    then counted_bytes 4 0
    else if marker == 199
    then counted_bytes 1 1
    else if marker == 200
    then counted_bytes 2 1
    else if marker == 201
    then counted_bytes 4 1
    else if marker == 217
    then counted_bytes 1 0
    else if marker == 218
    then counted_bytes 2 0
    else if marker == 219
    then counted_bytes 4 0
    else if marker == 220
    then counted_values 2 1
    else if marker == 221
    then counted_values 4 1
    else if marker == 222
    then counted_values 2 2
    else if marker == 223
    then counted_values 4 2
    else if marker == 205
    then payload 2
    else if marker == 206
    then payload 4
    else if marker == 207
    then payload 8
    else if marker == 209
    then payload 2
    else if marker == 210
    then payload 4
    else if marker == 211
    then payload 8
    else if marker == 212
    then payload 2
    else if marker == 213
    then payload 3
    else if marker == 214
    then payload 5
    else if marker == 215
    then payload 9
    else if marker == 216
    then payload 17
    else unsupported

unfoldable pub shape_of : ℕ → Shape
unfolding listed
shape_of marker =
    if (leb marker 127 || leb 224 marker) || (marker == 192 || (marker == 194 || marker == 195))
    then nothing
    else if marker / 32 == 5
    then payload (marker % 32)
    else if marker / 16 == 9
    then values (marker % 16)
    else if marker / 16 == 8
    then values (marker % 16 * 2)
    else listed marker

-- `skip`, `n` times.
unfoldable pub skip_n : (StreamDecoder → Read (Unit {0})) → ℕ → StreamDecoder → Read (Unit {0})
skip_n skip zero d = got tt d
skip_n skip (suc n) d = and_then (skip d) λ u d1. skip_n skip n d1

-- What `skip_after` does with a shape, where `skip` skips a value one level deeper.
unfoldable pub skip_shape :
    (StreamDecoder → Read (Unit {0})) → String → Shape → StreamDecoder → Read (Unit {0})
unfolding skip_n unsigned_be skip_bytes
skip_shape skip field nothing d = got tt d
skip_shape skip field (payload n) d = skip_bytes field n d
skip_shape skip field (counted_bytes width extra) d =
    and_then (unsigned_be width field d) λ n d1. skip_bytes field (extra + n) d1
skip_shape skip field (values n) d = skip_n skip n d
skip_shape skip field (counted_values width each) d =
    and_then (unsigned_be width field d)
      λ n d1. if ltb max_container_items n then fail field d1 else skip_n skip (n * each) d1
skip_shape skip field reserved d = fail "reserved marker" d
skip_shape skip field unsupported d = fail (str_append field " has unsupported marker") d

-- `left` counts from the nesting depth down: it is `max_nesting_depth + 1 - depth`.
unfoldable pub skip_after : ℕ → String → ℕ → StreamDecoder → Read (Unit {0})
unfolding shape_of skip_shape byte
skip_after zero field marker d = fail (str_append field " nesting is too deep") d
skip_after (suc left) field marker d =
    skip_shape (λ d1. and_then (byte field d1) (skip_after left field)) field (shape_of marker) d

unfoldable pub skip_value : String → StreamDecoder → Read (Unit {0})
unfolding skip_after byte
skip_value field d = and_then (byte field d) (skip_after (max_nesting_depth + 1) field)

pub data Data : Type 0 where
  other_data : Data
  integer_data : ℤ → Data
  string_data : List ℕ → Data

unfoldable pub read_data : String → StreamDecoder → Read Data
unfolding byte integer_after string_after skip_after
read_data field d = and_then (byte field d) λ marker d1.
    if (leb marker 127 || leb 224 marker) || (leb 204 marker && leb marker 211)
    then and_then (integer_after marker field d1) (λ z d2. got (integer_data z) d2)
    else if marker / 32 == 5 || (marker == 217 || (marker == 218 || marker == 219))
    then and_then (string_after marker field d1) (λ s d2. got (string_data s) d2)
    else and_then (skip_after (max_nesting_depth + 1) field marker d1) (λ u d2. got other_data d2)
