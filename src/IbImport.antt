-- ===== src/IbImport.antt =====
-- The segments of src/formats/ibimport.cpp and src/formats/ibimport_writer.cpp: a length in variable
-- form, a key, and the bytes under the key. What a file holds from a place on is a list of bytes, and
-- the file that is written takes every byte.
pub mod Key
pub mod Length
pub mod Writing
pub mod Reading
pub mod Segment
mod Runs
use Prim.Native.Nat.{bit_and, bit_or, bit_xor}
use water_structure_cpp.Common.{
  ℕ, zero, suc, ◌+◌, ◌-◌, ◌*◌, ◌/◌, ◌%◌, ◌^◌, min, Bool, true, false, not, ◌&&◌, List, [], ◌∷◌,
  ◌++◌, map, Option, none, some, length, take, drop, replicate, ltb, ◌==◌, if◌then◌else◌,
}
use water_structure_cpp.Result.{Result, success, failure, ◌>>=◌}

-- The loop of `varint`, whose shift grows from 0 to 63 in ten rounds; the next byte is the first.
unfoldable pub varint_from : ℕ → ℕ → ℕ → List ℕ → Result (Option ℕ × List ℕ)
varint_from rounds value shift [] = failure "IBImport varint truncated"
varint_from zero value shift (byte ∷ bytes) = failure "IBImport 变长整数过长"
varint_from (suc rounds) value shift (byte ∷ bytes) =
    let v = bit_or value (bit_and byte 127 * 2 ^ shift % 2 ^ 64) in
    let more = varint_from rounds v (shift + 7) bytes in
    if (shift == 63) && not (bit_and byte 126 == 0)
    then failure "IBImport 变长整数溢出"
    else if bit_and byte 128 == 0
    then success (some v, bytes)
    else more

unfoldable pub varint : List ℕ → Result (Option ℕ × List ℕ)
unfolding varint_from
varint [] = success (none, [])
varint (byte ∷ bytes) = varint_from 10 0 0 (byte ∷ bytes)

-- The bytes of `fixed_varint`, all but the last with the highest bit.
unfoldable pub varint_bytes : ℕ → ℕ → List ℕ
varint_bytes zero value = []
varint_bytes (suc zero) value = bit_and value 127 ∷ []
varint_bytes (suc (suc n)) value =
    bit_or (bit_and value 127) 128 ∷ varint_bytes (suc n) (value / 2 ^ 7)

unfoldable pub fixed_varint : ℕ → Result (List ℕ)
unfolding varint_bytes
fixed_varint value =
    if ltb (2 ^ 35 - 1) value
    then failure "IBImport 段长度超过 35-bit varint"
    else success (varint_bytes 5 value)

abbrev pub xor_key : ℕ
xor_key = 193

-- `SegmentWriter`, with what the file holds.
pub record SegmentWriter : Type 0 where
  pub output : List ℕ
  pub length_position : ℕ
  pub buffered : List ℕ
  pub written : ℕ
  pub closed : Bool

abbrev pub writer_buffer_size : ℕ
writer_buffer_size = 256 * 1024

unfoldable pub open_segment : List ℕ → Result SegmentWriter
unfolding fixed_varint
open_segment output = fixed_varint 0 >>= λ placeholder. success (record {
  output = output ++ placeholder ++ xor_key ∷ [];
  length_position = length output;
  buffered = [];
  written = 0;
  closed = false;
})

unfoldable pub flush : SegmentWriter → SegmentWriter
flush w = record w { output = w.output ++ w.buffered; buffered = [] }

-- One round of the loop of `write`: what of the bytes fits the buffer, emptied where it is full.
abbrev pub fill : ℕ → SegmentWriter → List ℕ → SegmentWriter
fill count w bytes = record w {
  buffered = w.buffered ++ map (λ b. bit_xor b xor_key) (take count bytes);
  written = (w.written + count) % 2 ^ 64;
}

abbrev pub make_room : SegmentWriter → SegmentWriter
unfolding flush
make_room w = if length w.buffered == writer_buffer_size then flush w else w

-- The loop of `write`; each round takes a byte at least, so there are as many as there are bytes.
unfoldable pub write_from : ℕ → SegmentWriter → List ℕ → SegmentWriter
unfolding flush
write_from zero w bytes = w
write_from (suc rounds) w bytes =
    let w' = make_room w in
    let count = min (writer_buffer_size - length w'.buffered) (length bytes) in
    let more = write_from rounds (fill count w' bytes) (drop count bytes) in
    if length bytes == 0 then w else more

unfoldable pub write : SegmentWriter → List ℕ → SegmentWriter
unfolding write_from
write w bytes = write_from (length bytes) w bytes

-- Bytes over those from a place on.
abbrev pub overwrite : ℕ → List ℕ → List ℕ → List ℕ
overwrite position bytes file = take position file ++ bytes ++ drop (position + length bytes) file

unfoldable pub close : SegmentWriter → Result SegmentWriter
unfolding fixed_varint flush
close w =
    let flushed = flush w in
    if w.closed
    then success w
    else fixed_varint w.written >>= λ prefix. success (record flushed {
      output = overwrite w.length_position prefix flushed.output;
      closed = true;
    })

-- `XorSegmentBuffer`: what is left of the file, and how much of that is the segment.
pub record SegmentBuffer : Type 0 where
  pub input : List ℕ
  pub remaining : ℕ
  pub key : ℕ
  pub truncated : Bool

abbrev pub reader_buffer_size : ℕ
reader_buffer_size = 64 * 1024

-- The bytes that come next, none at the end.
unfoldable pub underflow : SegmentBuffer → List ℕ × SegmentBuffer
underflow s =
    let count = min s.remaining reader_buffer_size in
    let received = take count s.input in
    if s.remaining == 0
    then ([], s)
    else if length received == 0
    then ([], record s { remaining = 0; truncated = true })
    else (
      map (λ b. bit_xor b s.key) received,
      record s {
        input = drop count s.input;
        remaining = s.remaining - length received;
        truncated = if length received == count then s.truncated else true;
      },
    )

-- What a stream on the buffer reads to its end; each round but the last gives a byte.
unfoldable pub read_all : ℕ → SegmentBuffer → List ℕ × SegmentBuffer
unfolding underflow
read_all zero s = ([], s)
read_all (suc rounds) s =
    let (bytes, s') = underflow s in
    let (more, end) = read_all rounds s' in
    if length bytes == 0 then ([], s') else (bytes ++ more, end)

-- What is left of the segment is passed over.
unfoldable pub finish_from : ℕ → SegmentBuffer → SegmentBuffer
finish_from zero s = s
finish_from (suc rounds) s =
    let count = min s.remaining reader_buffer_size in
    let rest = drop count s.input in
    let more = finish_from rounds (record s { input = rest; remaining = s.remaining - count }) in
    if s.remaining == 0
    then s
    else if length (take count s.input) == count
    then more
    else record s { input = rest; remaining = 0; truncated = true }

-- `finish`; each round takes a byte at least.
unfoldable pub finish : SegmentBuffer → Result SegmentBuffer
unfolding finish_from
finish s =
    let end = finish_from s.remaining s in
    if end.truncated then failure "IBImport 段数据截断" else success end

abbrev pub max_segments : ℕ
max_segments = 4096

abbrev pub start_segment : ℕ → Option ℕ → List ℕ → Result (Option SegmentBuffer)
start_segment index none rest = success none
start_segment index (some n) [] = failure "IBImport 段密钥截断"
start_segment index (some n) (key ∷ rest) =
    if not (ltb index max_segments)
    then failure "IBImport 数据段数量超过限制"
    else if ltb (length rest) n
    then failure "IBImport 段数据截断: 段长度超过文件剩余数据"
    else success (some (record { input = rest; remaining = n; key = key; truncated = false }))

-- The head of a segment: a length that the file has room for, and the key.
unfoldable pub read_segment_head : ℕ → List ℕ → Result (Option SegmentBuffer)
unfolding varint
read_segment_head index input = varint input >>= λ (n, rest). start_segment index n rest

abbrev pub read_to_end : Option SegmentBuffer → Result (Option (List ℕ × SegmentBuffer))
unfolding read_all finish
read_to_end none = success none
read_to_end (some s) =
    let (bytes, end) = read_all (s.remaining + 1) s in
    finish end >>= λ finished. success (some (bytes, finished))

-- A segment read to its end.
unfoldable pub read_segment : ℕ → List ℕ → Result (Option (List ℕ × SegmentBuffer))
unfolding read_segment_head read_all finish
read_segment index input = read_segment_head index input >>= read_to_end

unfoldable pub write_pieces : SegmentWriter → List (List ℕ) → SegmentWriter
unfolding write
write_pieces w [] = w
write_pieces w (piece ∷ pieces) = write_pieces (write w piece) pieces

-- A segment opened, written piece by piece and closed, behind what the file holds.
unfoldable pub write_segment : List ℕ → List (List ℕ) → Result (List ℕ)
unfolding open_segment write_pieces close
write_segment output pieces =
    open_segment output >>= λ w. close (write_pieces w pieces) >>= λ closed. success closed.output
