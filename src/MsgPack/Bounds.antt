-- ===== src/MsgPack/Bounds.antt =====
-- No operation of `StreamDecoder` in src/formats/msgpack_structure.cpp leaves the file.
use Prim.Native.String.{String, ◌++◌ as str_append}
use water_structure_cpp.Common.{
  ℕ, zero, suc, ◌+◌, ◌*◌, ◌≤◌, ◌<◌, ◌≡◌, List, [], ◌∷◌, ltb, if◌then◌else◌, arith,
}
use water_structure_cpp.MsgPack.{
  StreamDecoder, Read, got, fails, and_then, fail, byte_of, byte, unsigned_be, at_most, array_count,
  array_length, string_length, string_body, string_after, string, checked_unsigned, signed_be,
  integer_after, integer, boolean, skip_bytes, max_container_items, max_nesting_depth,
}
use water_structure_cpp.MsgPack.Skip.{
  Shape, nothing, payload, counted_bytes, values, counted_values, reserved, unsupported, shape_of,
  skip_n, skip_shape, skip_after, skip_value, read_data, integer_data, string_data, other_data,
}

-- From `d` to `e` the decoder goes forward, and stays inside the file.
abbrev pub Forward : StreamDecoder → StreamDecoder → Type 0
Forward d e = (e.size ≡ d.size) × (d.position ≤ e.position) × (e.position ≤ e.size)

-- A result keeps the decoder inside, if it is one.
abbrev pub StaysInside : {A : Type 0} → StreamDecoder → Read A → Type 0
StaysInside d (got a e) = Forward d e
StaysInside d (fails field at) = Unit {0}

-- At least one byte further.
abbrev pub Advances : {A : Type 0} → StreamDecoder → Read A → Type 0
Advances d (got a e) = (e.size ≡ d.size) × (d.position < e.position) × (e.position ≤ e.size)
Advances d (fails field at) = Unit {0}

-- What stays inside from a later state stays inside from an earlier one.
later-inside :
    {A : Type 0} (d e : StreamDecoder) (r : Read A)
    → Forward d e
    → StaysInside e r
    → StaysInside d r
later-inside d e (fails field at) h i = tt
later-inside d e (got a g) h i = omega (arith, h, i)

and_then-inside :
    {A B : Type 0} (d : StreamDecoder) (r : Read A) (f : A → StreamDecoder → Read B)
    → StaysInside d r
    → ((a : A) (e : StreamDecoder) → e.position ≤ e.size → StaysInside e (f a e))
    → StaysInside d (and_then r f)
and_then-inside d (fails field at) f h k = tt
and_then-inside d (got a e) f h k = later-inside d e (f a e) h (k a e (omega (arith, h)))

later-Advances :
    {A : Type 0} (d e : StreamDecoder) (r : Read A)
    → (e.size ≡ d.size) × (d.position < e.position) × (e.position ≤ e.size)
    → StaysInside e r
    → Advances d r
later-Advances d e (fails field at) h i = tt
later-Advances d e (got b g) h i = omega (arith, h, i)

-- What follows an advance advances.
and_then-Advances :
    {A B : Type 0} (d : StreamDecoder) (r : Read A) (f : A → StreamDecoder → Read B)
    → Advances d r
    → ((a : A) (e : StreamDecoder) → e.position ≤ e.size → StaysInside e (f a e))
    → Advances d (and_then r f)
and_then-Advances d (fails field at) f h k = tt
and_then-Advances d (got a e) f h k = later-Advances d e (f a e) h (k a e (omega (arith, h)))

byte_of-Advances :
    (rest : List ℕ) (field : String) (d : StreamDecoder)
    → d.position < d.size
    → Advances d (byte_of rest field d)
unfolding byte_of
byte_of-Advances [] field d h = tt
byte_of-Advances (b ∷ rest) field d h = omega (arith, h)

byte-Advances : (field : String) (d : StreamDecoder) → Advances d (byte field d)
unfolding byte
byte-Advances field d = ground (arith, byte_of-Advances d.rest field d)

Advances-inside : {A : Type 0} (d : StreamDecoder) (r : Read A) → Advances d r → StaysInside d r
Advances-inside d (fails field at) h = tt
Advances-inside d (got a e) h = omega (arith, h)

byte-inside : (field : String) (d : StreamDecoder) → StaysInside d (byte field d)
byte-inside field d = Advances-inside d (byte field d) (byte-Advances field d)

unsigned_be-inside :
    (width : ℕ) (field : String) (d : StreamDecoder) → StaysInside d (unsigned_be width field d)
unfolding unsigned_be
unsigned_be-inside width field d = ground arith

skip_bytes-inside :
    (field : String) (n : ℕ) (d : StreamDecoder) → StaysInside d (skip_bytes field n d)
unfolding skip_bytes
skip_bytes-inside field n d = ground arith

string_body-inside :
    (field : String) (n : ℕ) (d : StreamDecoder) → StaysInside d (string_body field n d)
unfolding string_body
string_body-inside field n d = ground arith

checked_unsigned-inside :
    (field : String) (n : ℕ) (d : StreamDecoder)
    → d.position ≤ d.size
    → StaysInside d (checked_unsigned field n d)
unfolding checked_unsigned
checked_unsigned-inside field n d h = ground arith

at_most-inside :
    (limit : ℕ) (field : String) (n : ℕ) (d : StreamDecoder)
    → d.position ≤ d.size
    → StaysInside d (at_most limit field n d)
unfolding at_most
at_most-inside limit field n d h = ground arith

string_length-inside :
    (marker : ℕ) (field : String) (d : StreamDecoder)
    → d.position ≤ d.size
    → StaysInside d (string_length marker field d)
unfolding string_length
string_length-inside marker field d h = ground (
  arith,
  h,
  unsigned_be-inside 1 field d,
  unsigned_be-inside 2 field d,
  unsigned_be-inside 4 field d,
)

signed_be-inside :
    (width : ℕ) (field : String) (d : StreamDecoder) → StaysInside d (signed_be width field d)
unfolding signed_be
signed_be-inside width field d =
    and_then-inside d (unsigned_be width field d) _ (unsigned_be-inside width field d)
      (λ n e h. omega (arith, h))

checked_be-inside :
    (width : ℕ) (field : String) (d : StreamDecoder)
    → StaysInside d (and_then (unsigned_be width field d) (checked_unsigned field))
checked_be-inside width field d =
    and_then-inside d (unsigned_be width field d) (checked_unsigned field)
      (unsigned_be-inside width field d) (checked_unsigned-inside field)

integer_after-inside :
    (marker : ℕ) (field : String) (d : StreamDecoder)
    → d.position ≤ d.size
    → StaysInside d (integer_after marker field d)
unfolding integer_after
integer_after-inside marker field d h = ground (
  arith,
  h,
  checked_be-inside 1 field d,
  checked_be-inside 2 field d,
  checked_be-inside 4 field d,
  checked_be-inside 8 field d,
  signed_be-inside 1 field d,
  signed_be-inside 2 field d,
  signed_be-inside 4 field d,
  signed_be-inside 8 field d,
)

string_after-inside :
    (marker : ℕ) (field : String) (d : StreamDecoder)
    → d.position ≤ d.size
    → StaysInside d (string_after marker field d)
unfolding string_after
string_after-inside marker field d h =
    and_then-inside d (string_length marker field d) (string_body field)
      (string_length-inside marker field d h) (λ n e k. string_body-inside field n e)

skip_n-inside :
    (skip : StreamDecoder → Read (Unit {0})) (n : ℕ) (d : StreamDecoder)
    → ((e : StreamDecoder) → StaysInside e (skip e))
    → d.position ≤ d.size
    → StaysInside d (skip_n skip n d)
unfolding skip_n
skip_n-inside skip zero d k h = omega (arith, h)
skip_n-inside skip (suc n) d k h =
    and_then-inside d (skip d) (λ u e. skip_n skip n e) (k d) (λ u e i. skip_n-inside skip n e k i)

counted-inside :
    (skip : StreamDecoder → Read (Unit {0})) (field : String) (each n : ℕ) (d : StreamDecoder)
    → ((e : StreamDecoder) → StaysInside e (skip e))
    → d.position ≤ d.size
    → StaysInside d (if ltb max_container_items n then fail field d else skip_n skip (n * each) d)
counted-inside skip field each n d k h = ground (arith, skip_n-inside skip (n * each) d k h)

skip_shape-inside :
    (skip : StreamDecoder → Read (Unit {0})) (field : String) (s : Shape) (d : StreamDecoder)
    → ((e : StreamDecoder) → StaysInside e (skip e))
    → d.position ≤ d.size
    → StaysInside d (skip_shape skip field s d)
unfolding skip_shape
skip_shape-inside skip field nothing d k h = omega (arith, h)
skip_shape-inside skip field (payload n) d k h = skip_bytes-inside field n d
skip_shape-inside skip field (counted_bytes width extra) d k h =
    and_then-inside d (unsigned_be width field d) _ (unsigned_be-inside width field d)
      (λ n e i. skip_bytes-inside field (extra + n) e)
skip_shape-inside skip field (values n) d k h = skip_n-inside skip n d k h
skip_shape-inside skip field (counted_values width each) d k h =
    and_then-inside d (unsigned_be width field d) _ (unsigned_be-inside width field d)
      (λ n e i. counted-inside skip field each n e k i)
skip_shape-inside skip field reserved d k h = tt
skip_shape-inside skip field unsupported d k h = tt

skip_after-inside :
    (left : ℕ) (field : String) (marker : ℕ) (d : StreamDecoder)
    → d.position ≤ d.size
    → StaysInside d (skip_after left field marker d)
unfolding skip_after
skip_after-inside zero field marker d h = tt
skip_after-inside (suc left) field marker d h =
    skip_shape-inside (λ e. and_then (byte field e) (skip_after left field)) field (shape_of marker)
      d
      (λ e.
        and_then-inside e (byte field e) (skip_after left field) (byte-inside field e)
          (skip_after-inside left field))
      h

integer-Advances : (field : String) (d : StreamDecoder) → Advances d (integer field d)
unfolding integer
integer-Advances field d =
    and_then-Advances d (byte field d) _ (byte-Advances field d)
      (λ m e h. integer_after-inside m field e h)

string-Advances : (field : String) (d : StreamDecoder) → Advances d (string field d)
unfolding string
string-Advances field d =
    and_then-Advances d (byte field d) _ (byte-Advances field d)
      (λ m e h. string_after-inside m field e h)

boolean-Advances : (field : String) (d : StreamDecoder) → Advances d (boolean field d)
unfolding boolean
boolean-Advances field d =
    and_then-Advances d (byte field d) _ (byte-Advances field d) (λ m e h. ground (arith, h))

array_count-inside :
    (marker : ℕ) (field : String) (d : StreamDecoder)
    → d.position ≤ d.size
    → StaysInside d (array_count marker field d)
unfolding array_count
array_count-inside marker field d h =
    ground (arith, h, unsigned_be-inside 2 field d, unsigned_be-inside 4 field d)

array_length-Advances : (field : String) (d : StreamDecoder) → Advances d (array_length field d)
unfolding array_length
array_length-Advances field d =
    and_then-Advances d (byte field d) _ (byte-Advances field d) (λ m e h.
      and_then-inside e (array_count m field e)
        (at_most max_container_items (str_append field " exceeds item limit"))
        (array_count-inside m field e h)
        (at_most-inside max_container_items (str_append field " exceeds item limit")))

skip_value-Advances : (field : String) (d : StreamDecoder) → Advances d (skip_value field d)
unfolding skip_value
skip_value-Advances field d =
    and_then-Advances d (byte field d) (skip_after (max_nesting_depth + 1) field)
      (byte-Advances field d) (skip_after-inside (max_nesting_depth + 1) field)

wrapped-inside :
    {A B : Type 0} (d : StreamDecoder) (r : Read A) (make : A → B)
    → StaysInside d r
    → StaysInside d (and_then r (λ a e. got (make a) e))
wrapped-inside d (got a e) make h = h
wrapped-inside d (fails field at) make h = tt

read_data-Advances : (field : String) (d : StreamDecoder) → Advances d (read_data field d)
unfolding read_data
read_data-Advances field d = and_then-Advances d (byte field d) _ (byte-Advances field d) (λ m e h.
    ground (
      arith,
      wrapped-inside e (integer_after m field e) integer_data (integer_after-inside m field e h),
      wrapped-inside e (string_after m field e) string_data (string_after-inside m field e h),
      wrapped-inside e (skip_after (max_nesting_depth + 1) field m e) (λ u. other_data)
          (skip_after-inside (max_nesting_depth + 1) field m e h),
    ))

-- Whatever the bytes are, an operation of the decoder ends, and where it succeeds it has moved
-- forward by a byte at least and stands inside the file; the size never changes.
pub operations_stay_inside :
    (field : String) (d : StreamDecoder)
    → Advances d (integer field d)
      × Advances d (string field d)
      × Advances d (boolean field d)
      × Advances d (array_length field d)
      × Advances d (skip_value field d)
      × Advances d (read_data field d)
operations_stay_inside field d = (
  integer-Advances field d,
  string-Advances field d,
  boolean-Advances field d,
  array_length-Advances field d,
  skip_value-Advances field d,
  read_data-Advances field d,
)
