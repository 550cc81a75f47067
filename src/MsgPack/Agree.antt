-- ===== src/MsgPack/Agree.antt =====
-- Reading and skipping in `StreamDecoder` of src/formats/msgpack_structure.cpp go equally far.
use Prim.Native.String.{String, ◌++◌ as str_append}
use water_structure_cpp.Common.{
  ℕ, ◌+◌, ◌*◌, ◌^◌, ◌≡◌, refl, Bool, true, false, leb, ◌==◌, if◌then◌else◌, arith,
}
use water_structure_cpp.Common.Int.{pos, to_signed}
use water_structure_cpp.MsgPack.{
  StreamDecoder, Read, got, fails, and_then, fail, byte, unsigned_be, checked_unsigned, signed_be,
  integer_after, integer, boolean, skip_bytes, max_nesting_depth,
}
use water_structure_cpp.MsgPack.Skip.{
  Shape, nothing, payload, shape_of, listed, skip_shape, skip_after, skip_value,
}

-- Where the first succeeds, the second does too, and ends at the same place.
abbrev pub SkipsAlike : {A : Type 0} → Read A → Read (Unit {0}) → Type 0
SkipsAlike (got a e) s = s ≡ got tt e
SkipsAlike (fails field at) s = Unit {0}

unsigned_be-alike :
    (width : ℕ) (field : String) (d : StreamDecoder)
    → SkipsAlike (unsigned_be width field d) (skip_bytes field width d)
unfolding unsigned_be skip_bytes
unsigned_be-alike width field d = ground arith

-- A value made of what was read moves nothing.
mapped-alike :
    {A B : Type 0} (r : Read A) (s : Read (Unit {0})) (make : A → B)
    → SkipsAlike r s
    → SkipsAlike (and_then r (λ a e. got (make a) e)) s
mapped-alike (got a e) s make h = h
mapped-alike (fails field at) s make h = tt

checked-alike :
    (r : Read ℕ) (s : Read (Unit {0})) (field : String)
    → SkipsAlike r s
    → SkipsAlike (and_then r (checked_unsigned field)) s
unfolding checked_unsigned
checked-alike (got n e) s field h = ground (arith, h)
checked-alike (fails text at) s field h = tt

signed-alike :
    (width : ℕ) (field : String) (d : StreamDecoder)
    → SkipsAlike (signed_be width field d) (skip_bytes field width d)
unfolding signed_be
signed-alike width field d =
    mapped-alike (unsigned_be width field d) (skip_bytes field width d)
      (λ n. to_signed (2 ^ (width * 8)) n) (unsigned_be-alike width field d)

unsigned-alike :
    (width : ℕ) (field : String) (d : StreamDecoder)
    → SkipsAlike
        (and_then (unsigned_be width field d) (checked_unsigned field))
        (skip_bytes field width d)
unsigned-alike width field d =
    checked-alike (unsigned_be width field d) (skip_bytes field width d) field
      (unsigned_be-alike width field d)

if_alike :
    {A : Type 0} (b : Bool) (r s : Read A) (skipped : Read (Unit {0}))
    → (b ≡ true → SkipsAlike r skipped)
    → (b ≡ false → SkipsAlike s skipped)
    → SkipsAlike (if b then r else s) skipped
if_alike true r s skipped h k = h refl
if_alike false r s skipped h k = k refl

shape_alike :
    {A : Type 0} (skip : StreamDecoder → Read (Unit {0})) (marker : ℕ) (s : Shape) (field : String)
    (d : StreamDecoder) (r : Read A)
    → shape_of marker ≡ s
    → SkipsAlike r (skip_shape skip field s d)
    → SkipsAlike r (skip_shape skip field (shape_of marker) d)
shape_alike skip marker s field d r e h = rw e h

-- The shape of a marker that a test has found.
shape_at : (marker n : ℕ) (s : Shape) → shape_of n ≡ s → (marker == n) ≡ true → shape_of marker ≡ s
shape_at marker n s e h = let same : marker ≡ n = ground (arith, h) in rw same e

small_shape : (marker : ℕ) → leb marker 127 ≡ true → shape_of marker ≡ nothing
unfolding shape_of
small_shape marker h = rw h refl

negative_shape :
    (marker : ℕ) → leb marker 127 ≡ false → leb 224 marker ≡ true → shape_of marker ≡ nothing
unfolding shape_of
negative_shape marker h k = rw (h, k) refl

integer_after-alike :
    (skip : StreamDecoder → Read (Unit {0})) (marker : ℕ) (field : String) (d : StreamDecoder)
    → SkipsAlike (integer_after marker field d) (skip_shape skip field (shape_of marker) d)
unfolding integer_after skip_shape shape_of listed
integer_after-alike skip marker field d =
    if_alike (leb marker 127) _ _ _
      (λ h.
        shape_alike skip marker nothing field d (got (pos marker) d) (small_shape marker h) refl)
      λ a.
        if_alike (leb 224 marker) _ _ _
          (λ h.
            shape_alike skip marker nothing field d (got (to_signed 256 marker) d)
              (negative_shape marker a h) refl)
          λ _.
            if_alike (marker == 204) _ _ _
              (λ h.
                shape_alike skip marker (payload 1) field d _
                  (shape_at marker 204 (payload 1) refl h) (unsigned-alike 1 field d))
              λ _.
                if_alike (marker == 205) _ _ _
                  (λ h.
                    shape_alike skip marker (payload 2) field d _
                      (shape_at marker 205 (payload 2) refl h) (unsigned-alike 2 field d))
                  λ _.
                    if_alike (marker == 206) _ _ _
                      (λ h.
                        shape_alike skip marker (payload 4) field d _
                          (shape_at marker 206 (payload 4) refl h) (unsigned-alike 4 field d))
                      λ _.
                        if_alike (marker == 207) _ _ _
                          (λ h.
                            shape_alike skip marker (payload 8) field d _
                              (shape_at marker 207 (payload 8) refl h) (unsigned-alike 8 field d))
                          λ _.
                            if_alike (marker == 208) _ _ _
                              (λ h.
                                shape_alike skip marker (payload 1) field d _
                                  (shape_at marker 208 (payload 1) refl h) (signed-alike 1 field d))
                              λ _.
                                if_alike (marker == 209) _ _ _
                                  (λ h.
                                    shape_alike skip marker (payload 2) field d _
                                      (shape_at marker 209 (payload 2) refl h)
                                      (signed-alike 2 field d))
                                  λ _.
                                    if_alike (marker == 210) _ _ _
                                      (λ h.
                                        shape_alike skip marker (payload 4) field d _
                                          (shape_at marker 210 (payload 4) refl h)
                                          (signed-alike 4 field d))
                                      λ _.
                                        if_alike (marker == 211) _ _ _
                                          (λ h.
                                            shape_alike skip marker (payload 8) field d _
                                              (shape_at marker 211 (payload 8) refl h)
                                              (signed-alike 8 field d))
                                          λ _. tt

-- The continuation of a byte that was read.
byte-alike :
    {A : Type 0} (r : Read ℕ) (f : ℕ → StreamDecoder → Read A)
    (g : ℕ → StreamDecoder → Read (Unit {0}))
    → ((n : ℕ) (e : StreamDecoder) → SkipsAlike (f n e) (g n e))
    → SkipsAlike (and_then r f) (and_then r g)
byte-alike (got n e) f g k = k n e
byte-alike (fails field at) f g k = tt

boolean_after-alike :
    (skip : StreamDecoder → Read (Unit {0})) (marker : ℕ) (field : String) (d : StreamDecoder)
    → SkipsAlike
        (if marker == 194
          then got false d
          else if marker == 195
          then got true d
          else fail (str_append field " is not a boolean") d)
        (skip_shape skip field (shape_of marker) d)
unfolding skip_shape
boolean_after-alike skip marker field d = ground (arith, simple_shapes marker)
  where
    simple_shapes :
        (marker : ℕ)
        → (marker ≡ 194 → shape_of marker ≡ nothing) × (marker ≡ 195 → shape_of marker ≡ nothing)
    simple_shapes marker =
        (λ h. rw h (unfold shape_of in refl), λ h. rw h (unfold shape_of in refl))

-- Where an integer or a Boolean is read, skipping the same value succeeds as well and ends at the
-- same place: a field that is not wanted may be skipped without losing the track.
pub skip_value_agrees :
    (field : String) (d : StreamDecoder)
    → SkipsAlike (integer field d) (skip_value field d)
      × SkipsAlike (boolean field d) (skip_value field d)
unfolding integer boolean skip_value skip_after
skip_value_agrees field d = (
  byte-alike (byte field d) (λ m e. integer_after m field e)
      (skip_after (max_nesting_depth + 1) field)
      (λ m e.
        integer_after-alike (λ g. and_then (byte field g) (skip_after max_nesting_depth field)) m
          field e),
  byte-alike (byte field d) _ (skip_after (max_nesting_depth + 1) field) (λ m e.
      boolean_after-alike (λ g. and_then (byte field g) (skip_after max_nesting_depth field)) m
        field e),
)
