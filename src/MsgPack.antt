-- ===== src/MsgPack.antt =====
-- `StreamDecoder` of src/formats/msgpack_structure.cpp: a reader of MessagePack values from a file of
-- known size. What is left of the stream is a list of bytes, which may end before the size says. A
-- test of a marker's high bits is its quotient, and the low bits are the remainder. A failure holds
-- the text and the offset that the exception's message is made of.
pub mod Skip
pub mod Bounds
pub mod Agree
mod Runs
use Prim.Native.String.{String, ◌++◌ as str_append}
use water_structure_cpp.Common.{
  ℕ, zero, suc, ◌+◌, ◌-◌, ◌*◌, ◌/◌, ◌%◌, ◌^◌, Bool, true, false, not, ◌&&◌, ◌||◌, List, [], ◌∷◌,
  length, take, drop, ltb, leb, ◌==◌, if◌then◌else◌,
}
use water_structure_cpp.Common.Int.{ℤ, pos, to_signed}

abbrev pub max_container_items : ℕ
max_container_items = 8 * 1024 * 1024

abbrev pub max_string_bytes : ℕ
max_string_bytes = 16 * 1024 * 1024

abbrev pub max_nesting_depth : ℕ
max_nesting_depth = 128

pub record StreamDecoder : Type 0 where
  pub size : ℕ
  pub position : ℕ
  pub rest : List ℕ

pub data Read (A : Type 0) : Type 0 where
  got : A → StreamDecoder → Read A
  fails : String → ℕ → Read A

abbrev pub and_then : {A B : Type 0} → Read A → (A → StreamDecoder → Read B) → Read B
and_then (got a d) f = f a d
and_then (fails field at) f = fails field at

abbrev pub fail : {A : Type 0} → String → StreamDecoder → Read A
fail field d = fails field d.position

-- `n` bytes are gone from the stream.
abbrev pub advance : ℕ → StreamDecoder → StreamDecoder
advance n d = record d { position = d.position + n; rest = drop n d.rest }

byte_of : List ℕ → String → StreamDecoder → Read ℕ
byte_of [] field d = fail field d
byte_of (b ∷ rest) field d = got b (record d { position = d.position + 1; rest = rest })

pub byte : String → StreamDecoder → Read ℕ
unfolding byte_of
byte field d = if leb d.size d.position then fail field d else byte_of d.rest field d

-- The highest byte first, in a uint64_t.
big_endian : ℕ → List ℕ → ℕ
big_endian sum [] = sum
big_endian sum (b ∷ bytes) = big_endian ((sum * 256 + b) % 2 ^ 64) bytes

-- `width` is a constant from 1 to 8 here, so the first test of the code is left to those.
pub unsigned_be : ℕ → String → StreamDecoder → Read ℕ
unfolding big_endian
unsigned_be width field d =
    if (width == 0 || ltb 8 width) || (ltb d.size d.position || ltb (d.size - d.position) width)
    then fail field d
    else if ltb (length d.rest) width
    then fail field d
    else got (big_endian 0 (take width d.rest)) (advance width d)

at_most : ℕ → String → ℕ → StreamDecoder → Read ℕ
at_most limit field n d = if ltb limit n then fail field d else got n d

array_count : ℕ → String → StreamDecoder → Read ℕ
unfolding unsigned_be
array_count marker field d =
    if marker / 16 == 9
    then got (marker % 16) d
    else if marker == 220
    then unsigned_be 2 field d
    else if marker == 221
    then unsigned_be 4 field d
    else fail (str_append field " is not an array") d

pub array_length : String → StreamDecoder → Read ℕ
unfolding byte array_count at_most
array_length field d = and_then (byte field d) λ marker d1.
    and_then (array_count marker field d1)
      (at_most max_container_items (str_append field " exceeds item limit"))

string_length : ℕ → String → StreamDecoder → Read ℕ
unfolding unsigned_be
string_length marker field d =
    if marker / 32 == 5
    then got (marker % 32) d
    else if marker == 217
    then unsigned_be 1 field d
    else if marker == 218
    then unsigned_be 2 field d
    else if marker == 219
    then unsigned_be 4 field d
    else fail (str_append field " is not a string") d

string_body : String → ℕ → StreamDecoder → Read (List ℕ)
string_body field n d =
    if ltb d.size d.position || (ltb max_string_bytes n || ltb (d.size - d.position) n)
    then fail (str_append field " exceeds length limit") d
    else if ltb (length d.rest) n
    then fail field d
    else got (take n d.rest) (advance n d)

string_after : ℕ → String → StreamDecoder → Read (List ℕ)
unfolding string_length string_body
string_after marker field d = and_then (string_length marker field d) (string_body field)

pub string : String → StreamDecoder → Read (List ℕ)
unfolding byte string_after
string field d = and_then (byte field d) λ marker d1. string_after marker field d1

checked_unsigned : String → ℕ → StreamDecoder → Read ℤ
checked_unsigned field n d =
    if ltb (2 ^ 63 - 1) n then fail (str_append field " exceeds int64") d else got (pos n) d

signed_be : ℕ → String → StreamDecoder → Read ℤ
unfolding unsigned_be
signed_be width field d =
    and_then (unsigned_be width field d) λ n d1. got (to_signed (2 ^ (width * 8)) n) d1

pub integer_after : ℕ → String → StreamDecoder → Read ℤ
unfolding unsigned_be checked_unsigned signed_be
integer_after marker field d =
    if leb marker 127
    then got (pos marker) d
    else if leb 224 marker
    then got (to_signed 256 marker) d
    else if marker == 204
    then and_then (unsigned_be 1 field d) (checked_unsigned field)
    else if marker == 205
    then and_then (unsigned_be 2 field d) (checked_unsigned field)
    else if marker == 206
    then and_then (unsigned_be 4 field d) (checked_unsigned field)
    else if marker == 207
    then and_then (unsigned_be 8 field d) (checked_unsigned field)
    else if marker == 208
    then signed_be 1 field d
    else if marker == 209
    then signed_be 2 field d
    else if marker == 210
    then signed_be 4 field d
    else if marker == 211
    then signed_be 8 field d
    else fail (str_append field " is not an integer") d

pub integer : String → StreamDecoder → Read ℤ
unfolding byte integer_after
integer field d = and_then (byte field d) λ marker d1. integer_after marker field d1

pub boolean : String → StreamDecoder → Read Bool
unfolding byte
boolean field d = and_then (byte field d) λ marker d1.
    if marker == 194
    then got false d1
    else if marker == 195
    then got true d1
    else fail (str_append field " is not a boolean") d1

pub skip_bytes : String → ℕ → StreamDecoder → Read (Unit {0})
skip_bytes field n d =
    if ltb d.size d.position || (ltb (d.size - d.position) n || ltb (2 ^ 63 - 1) n)
    then fail field d
    else got tt (advance n d)
