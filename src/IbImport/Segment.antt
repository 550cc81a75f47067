-- ===== src/IbImport/Segment.antt =====
-- A segment of src/formats/ibimport_writer.cpp is read back by src/formats/ibimport.cpp.
use Prim.Native.Nat.{bit_xor}
use water_structure_cpp.Common.{
  ℕ, suc, ◌+◌, ◌-◌, ◌^◌, ◌<◌, ◌≡◌, refl, sym, ap, ◌∙◌, subst, true, false, List, [], ◌∷◌, ◌++◌,
  append-nil, append_assoc, map, length, take, drop, ltb, some, arith, length-append, length-map,
}
use water_structure_cpp.Result.{success, ◌>>=◌}
use water_structure_cpp.IbImport.{
  SegmentWriter, xor_key, fixed_varint, varint_bytes, open_segment, flush, overwrite, close,
  write_pieces, write_segment, read_all, read_segment_head, read_segment, max_segments, finish,
  finish_from,
}
use water_structure_cpp.IbImport.Key.{map-bit_xor_twice}
use water_structure_cpp.IbImport.Length.{varint-bytes, length-varint_bytes}
use water_structure_cpp.IbImport.Reading.{read_all_lem}
use water_structure_cpp.IbImport.Writing.{Holds, write-Holds}

abbrev pub joined : List (List ℕ) → List ℕ
joined [] = []
joined (piece ∷ pieces) = piece ++ joined pieces

abbrev keyed : List ℕ → List ℕ
keyed bytes = map (λ b. bit_xor b xor_key) bytes

take-front : (xs ys : List ℕ) → take (length xs) (xs ++ ys) ≡ xs
take-front [] ys = refl
take-front (x ∷ xs) ys = ap (λ (l : List ℕ). x ∷ l) (take-front xs ys)

drop-front : (xs ys : List ℕ) (n : ℕ) → drop (length xs + n) (xs ++ ys) ≡ drop n ys
drop-front [] ys n = ap (λ (k : ℕ). drop k ys) {x = 0 + n} {y = n} (omega arith)
drop-front (x ∷ xs) ys n =
    ap (λ (k : ℕ). drop k (x ∷ (xs ++ ys))) {x = suc (length xs) + n} {y = suc (length xs + n)}
      (omega arith)
    ∙ drop-front xs ys n

write_pieces-Holds :
    (position : ℕ) (head : List ℕ) (pieces : List (List ℕ)) (w : SegmentWriter) (bytes : List ℕ)
    → Holds position head w bytes
    → Holds position head (write_pieces w pieces) (bytes ++ joined pieces)
unfolding write_pieces
write_pieces-Holds position head [] w bytes h =
    subst (Holds position head w) (sym (append-nil bytes)) h
write_pieces-Holds position head (piece ∷ pieces) w bytes h =
    subst (Holds position head (write_pieces w (piece ∷ pieces)))
      (append_assoc bytes piece (joined pieces))
      (write_pieces-Holds position head pieces _ (bytes ++ piece)
        (write-Holds position head w bytes piece h))

fixed_varint_lem : (v : ℕ) → v < 2 ^ 35 → fixed_varint v ≡ success (varint_bytes 5 v)
unfolding fixed_varint
fixed_varint_lem v h = let fits : ltb (2 ^ 35 - 1) v ≡ false = ground (arith, h) in rw fits refl

-- The bytes of a segment.
abbrev segment_of : List ℕ → List ℕ
segment_of bytes = varint_bytes 5 (length bytes) ++ xor_key ∷ keyed bytes

overwrite_lem :
    (before old new rest : List ℕ)
    → length old ≡ length new
    → overwrite (length before) new ((before ++ old) ++ rest) ≡ before ++ (new ++ rest)
overwrite_lem before old new rest same =
    rw (append_assoc before old rest, take-front before (old ++ rest))
      (append_assoc before new (drop (length before + length new) (before ++ (old ++ rest)))
        ∙ ap (λ (l : List ℕ). before ++ (new ++ l))
            (drop-front before (old ++ rest) (length new)
              ∙ ap (λ (k : ℕ). drop k (old ++ rest)) {x = length new} {y = length old + 0}
                  (omega (arith, same))
              ∙ drop-front old rest 0))

close_lem :
    (before old : List ℕ) (w : SegmentWriter) (bytes : List ℕ)
    → Holds (length before) ((before ++ old) ++ xor_key ∷ []) w bytes
    → length old ≡ 5
    → length bytes < 2 ^ 35
    → (close w >>= λ (closed : SegmentWriter). success closed.output)
      ≡ success (before ++ segment_of bytes)
unfolding close flush
close_lem before old w bytes h five small =
    let count : w.written ≡ length bytes = omega (arith, h.count, small) in
    rw
      (
        h.going_on,
        count,
        fixed_varint_lem (length bytes) small,
        h.place,
        h.content,
        append_assoc (before ++ old) (xor_key ∷ []) (keyed bytes),
      )
      (ap success (
        overwrite_lem before old (varint_bytes 5 (length bytes)) (xor_key ∷ keyed bytes)
          (omega (arith, five, length-varint_bytes 5 (length bytes)))))

written :
    (before : List ℕ) (pieces : List (List ℕ))
    → length (joined pieces) < 2 ^ 35
    → write_segment before pieces ≡ success (before ++ segment_of (joined pieces))
unfolding write_segment open_segment
written before pieces small =
    let placeholder = varint_bytes 5 0 in
    let w : SegmentWriter = record {
      output = (before ++ placeholder) ++ xor_key ∷ [];
      length_position = length before;
      buffered = [];
      written = 0;
      closed = false;
    } in
    let start : Holds (length before) ((before ++ placeholder) ++ xor_key ∷ []) w [] = record {
      content = refl;
      place = refl;
      count = refl;
      going_on = refl;
      room = omega arith;
    } in
    close_lem before placeholder (write_pieces w pieces) (joined pieces)
      (write_pieces-Holds (length before) ((before ++ placeholder) ++ xor_key ∷ []) pieces w []
        start)
      (length-varint_bytes 5 0) small

read_to_end_lem :
    (bytes behind : List ℕ)
    → read_all (length bytes + 1) (record {
      input = keyed bytes ++ behind;
      remaining = length bytes;
      key = xor_key;
      truncated = false;
    })
      ≡ (bytes, record { input = behind; remaining = 0; key = xor_key; truncated = false })
read_to_end_lem bytes behind =
    let same : length (keyed bytes) ≡ length bytes = length-map bytes (λ b. bit_xor b xor_key) in
    let front : take (length bytes) (keyed bytes ++ behind) ≡ keyed bytes =
      ap (λ (k : ℕ). take k (keyed bytes ++ behind)) (sym same) ∙ take-front (keyed bytes) behind in
    let back : drop (length bytes) (keyed bytes ++ behind) ≡ behind =
      ap (λ (k : ℕ). drop k (keyed bytes ++ behind)) {x = length bytes}
        {y = length (keyed bytes) + 0} (omega (arith, same))
      ∙ drop-front (keyed bytes) behind 0 in
    read_all_lem (length bytes + 1)
      (record {
        input = keyed bytes ++ behind;
        remaining = length bytes;
        key = xor_key;
        truncated = false;
      })
      (omega (arith, same, length-append (keyed bytes) behind)) (omega arith)
    ∙ λ i. (
      (ap keyed front ∙ map-bit_xor_twice xor_key bytes) i,
      record { input = back i; remaining = 0; key = xor_key; truncated = false },
    )

read_back :
    (index : ℕ) (bytes behind : List ℕ)
    → index < max_segments
    → length bytes < 2 ^ 35
    → read_segment index (segment_of bytes ++ behind)
      ≡ success
          (some (bytes, record { input = behind; remaining = 0; key = xor_key; truncated = false }))
unfolding read_segment read_segment_head finish finish_from
read_back index bytes behind few small =
    let enough : ltb (length (keyed bytes ++ behind)) (length bytes) ≡ false =
      ground
        (arith, length-append (keyed bytes) behind, length-map bytes (λ b. bit_xor b xor_key)) in
    let within : ltb index max_segments ≡ true = ground (arith, few) in
    rw
      (
        append_assoc (varint_bytes 5 (length bytes)) (xor_key ∷ keyed bytes) behind,
        varint-bytes (length bytes) (xor_key ∷ (keyed bytes ++ behind)) small,
        within,
        enough,
        read_to_end_lem bytes behind,
      )
      refl

-- Where the pieces written into a segment are fewer than 2 ^ 35 bytes together, opening, writing and
-- closing it succeed and add to what the file holds bytes that the reader reads back, whatever follows
-- them, unless it has read 4096 segments before: the pieces one behind the other, the segment at its
-- end and not truncated, and what follows.
pub segment_reads_back :
    (before : List ℕ) (pieces : List (List ℕ)) (behind : List ℕ) (index : ℕ)
    → index < max_segments
    → length (joined pieces) < 2 ^ 35
    → (added : List ℕ) × (write_segment before pieces ≡ success (before ++ added))
      × (read_segment index (added ++ behind)
          ≡ success (
              some (
                joined pieces,
                record { input = behind; remaining = 0; key = xor_key; truncated = false },
              )))
segment_reads_back before pieces behind index few small = (
  segment_of (joined pieces),
  written before pieces small,
  read_back index (joined pieces) behind few small,
)
