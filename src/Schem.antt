-- ===== src/Schem.antt =====
-- The readers of the block data of src/formats/schem.cpp: `EncodedReader`, on a file, and
-- `LimitedEncodedReader`, on a part of a stream. What a buffer still holds and what is left behind it
-- are lists of bytes; the two readers differ in the refill alone.
pub mod Feed
pub mod Varint
pub mod Read
pub mod Bulk
pub mod Values
mod Runs
use Prim.Native.Nat.{bit_and, bit_or}
use water_structure_cpp.Common.{
  ℕ, zero, suc, ◌+◌, ◌-◌, ◌*◌, ◌/◌, ◌%◌, ◌^◌, min, Bool, true, false, not, ◌&&◌, ◌||◌, List, [],
  ◌∷◌, ◌++◌, Option, none, some, length, take, drop, ltb, leb, ◌==◌, if◌then◌else◌,
}

-- What is behind the buffer: the stream, and how much of it the limited reader may still take.
pub record Tail : Type 0 where
  pub input : List ℕ
  pub remaining : ℕ

-- The buffer from its position on.
pub record Reader : Type 0 where
  pub buffered : List ℕ
  pub tail : Tail

abbrev pub Refill : Type 0
Refill = Tail → Option (List ℕ × Tail)

abbrev pub buffer_size : ℕ
buffer_size = 2 ^ 20

-- The refill of `EncodedReader`, which fails where nothing came.
pub refill_file : Refill
refill_file t =
    if length t.input == 0
    then none
    else some (take buffer_size t.input, record t { input = drop buffer_size t.input })

-- The refill of `LimitedEncodedReader`.
pub refill_limited : Refill
refill_limited t =
    let amount = min t.remaining buffer_size in
    if t.remaining == 0
    then none
    else if ltb (length t.input) amount
    then none
    else some (
      take amount t.input,
      record t { input = drop amount t.input; remaining = t.remaining - amount },
    )

abbrev pub first_of : Option (List ℕ × Tail) → Option (ℕ × Reader)
first_of none = none
first_of (some ([], t)) = none
first_of (some (b ∷ bs, t)) = some (b, record { buffered = bs; tail = t })

abbrev pub next_of : Refill → List ℕ → Tail → Option (ℕ × Reader)
next_of refill [] t = first_of (refill t)
next_of refill (b ∷ bs) t = some (b, record { buffered = bs; tail = t })

-- `get`.
unfoldable pub next_byte : Refill → Reader → Option (ℕ × Reader)
next_byte refill r = next_of refill r.buffered r.tail

abbrev pub and_then : {A B : Type 0} → Option A → (A → Option B) → Option B
and_then none f = none
and_then (some a) f = f a

-- The value fits an uint32_t, or the reading fails.
abbrev pub fitting : {S : Type 0} → ℕ → S → Option (ℕ × S)
fitting v s = if ltb (2 ^ 32 - 1) v then none else some (v, s)

abbrev pub add_digits : ℕ → ℕ → ℕ → ℕ
add_digits value byte shift = bit_or value (bit_and byte 127 * 2 ^ shift % 2 ^ 64)

-- The loop that reads byte by byte; it leaves at a shift of 35, so five rounds are enough.
unfoldable pub slow_varint : Refill → ℕ → ℕ → ℕ → Reader → Option (ℕ × Reader)
unfolding next_byte
slow_varint refill zero value shift r = none
slow_varint refill (suc rounds) value shift r = and_then (next_byte refill r) λ (b, r').
    let v = add_digits value b shift in
    let more = slow_varint refill rounds v (shift + 7) r' in
    if bit_and b 128 == 0 then fitting v r' else if leb 35 (shift + 7) then none else more

-- The loop over the bytes of the buffer, behind the first.
unfoldable pub fast_varint : ℕ → ℕ → ℕ → List ℕ → Option (ℕ × List ℕ)
fast_varint zero value shift bytes = none
fast_varint (suc rounds) value shift [] = none
fast_varint (suc rounds) value shift (b ∷ bytes) =
    let v = add_digits value b shift in
    let more = fast_varint rounds v (shift + 7) bytes in
    if bit_and b 128 == 0 then fitting v bytes else more

abbrev pub in_buffer : Tail → Option (ℕ × List ℕ) → Option (ℕ × Reader)
in_buffer t o = and_then o λ (v, rest). some (v, record { buffered = rest; tail = t })

abbrev pub varint_of : Refill → List ℕ → Tail → Option (ℕ × Reader)
varint_of refill [] t = slow_varint refill 5 0 0 (record { buffered = []; tail = t })
varint_of refill (first ∷ rest) t =
    if bit_and first 128 == 0
    then some (first, record { buffered = rest; tail = t })
    else if leb 5 (length (first ∷ rest))
    then in_buffer t (fast_varint 4 (bit_and first 127) 7 rest)
    else slow_varint refill 5 0 0 (record { buffered = first ∷ rest; tail = t })

unfoldable pub read_varint_u32 : Refill → Reader → Option (ℕ × Reader)
unfolding slow_varint fast_varint
read_varint_u32 refill r = varint_of refill r.buffered r.tail

-- The bytes of a word in memory, the lowest first.
unfoldable pub little_endian : List ℕ → ℕ
little_endian [] = 0
little_endian (b ∷ bytes) = b + 256 * little_endian bytes

abbrev pub continuation_bits : ℕ
continuation_bits = 0x8080808080808080

abbrev pub within : ℕ → List ℕ → Bool
within max_value [] = true
within max_value (b ∷ bytes) = if ltb max_value b then false else within max_value bytes

-- Eight bytes at a time, as long as none continues: what they give, or none where one is too great.
unfoldable pub bulk : ℕ → ℕ → ℕ → List ℕ → Option (List ℕ)
unfolding little_endian
bulk zero max_value available bytes = some []
bulk (suc rounds) max_value available bytes =
    let eight = take 8 bytes in
    let rest = bulk rounds max_value (available - 8) (drop 8 bytes) in
    if leb 8 available && (bit_and (little_endian eight) continuation_bits == 0)
    then if within max_value eight then and_then rest (λ more. some (eight ++ more)) else none
    else some []

-- The refill where the buffer is used up.
abbrev pub filled : Refill → List ℕ → Tail → Option Reader
filled refill [] t =
    and_then (refill t) λ (bytes, t'). some (record { buffered = bytes; tail = t' })
filled refill (b ∷ bs) t = some (record { buffered = b ∷ bs; tail = t })

abbrev pub prepend : List ℕ → Option (List ℕ × Reader) → Option (List ℕ × Reader)
prepend vs o = and_then o λ (more, r). some (vs ++ more, r)

-- One value by itself.
abbrev pub scalar :
    ℕ → Option (ℕ × Reader) → (Reader → Option (List ℕ × Reader)) → Option (List ℕ × Reader)
scalar max_value o more =
    and_then o λ (v, r). if ltb max_value v then none else prepend (v ∷ []) (more r)

-- One round of the loop, by the function for what is left of the output.
abbrev pub round :
    Refill
    → ℕ
    → ℕ
    → (ℕ → Reader → Option (List ℕ × Reader))
    → Reader
    → Option (List ℕ)
    → Option (List ℕ × Reader)
round refill max_value n more r none = none
round refill max_value n more r (some []) =
    scalar max_value (read_varint_u32 refill r) (more (n - 1))
round refill max_value n more r (some (v ∷ vs)) =
    prepend (v ∷ vs)
      (more (n - length (v ∷ vs)) (record r { buffered = drop (length (v ∷ vs)) r.buffered }))

-- The loop over the output, of which `n` places are left.
unfoldable pub read_values : Refill → ℕ → ℕ → ℕ → Reader → Option (List ℕ × Reader)
unfolding read_varint_u32 bulk
read_values refill zero max_value n r = some ([], r)
read_values refill (suc rounds) max_value n r =
    if n == 0
    then some ([], r)
    else and_then (filled refill r.buffered r.tail) λ r'.
      let available = min (length r'.buffered) n in
      round refill max_value n (read_values refill rounds max_value) r'
        (bulk (available / 8) max_value available r'.buffered)

-- Each round fills a place, so there are as many as the output has.
unfoldable pub read_varints_u16 : Refill → ℕ → ℕ → Reader → Option (List ℕ × Reader)
unfolding read_values
read_varints_u16 refill max_value n r = read_values refill n max_value n r
