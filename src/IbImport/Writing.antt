-- ===== src/IbImport/Writing.antt =====
-- What `SegmentWriter` of src/formats/ibimport_writer.cpp holds while it writes.
use Prim.Native.Nat.{bit_xor}
use water_structure_cpp.Common.{
  ℕ, zero, suc, ◌+◌, ◌-◌, ◌%◌, ◌^◌, min, ◌≤◌, ◌<◌, ◌≡◌, sym, ap, ◌∙◌, subst, false, List, [], ◌∷◌,
  ◌++◌, append-nil, append_assoc, map, length, take, drop, ◌==◌, arith, Bool-cases, inl, inr,
  length-take, length-drop, length-map, length-append, take-append-drop,
}
use water_structure_cpp.IbImport.{
  SegmentWriter, xor_key, writer_buffer_size, flush, fill, make_room, write_from, write,
}
use water_structure_cpp.IbImport.Reading.{map-append}

-- The file, then the buffer: a head, then the bytes under the key.
pub record Holds (position : ℕ) (head : List ℕ) (w : SegmentWriter) (bytes : List ℕ) : Type 0 where
  pub content : w.output ++ w.buffered ≡ head ++ map (λ b. bit_xor b xor_key) bytes
  pub place : w.length_position ≡ position
  pub count : w.written ≡ length bytes % 2 ^ 64
  pub going_on : w.closed ≡ false
  pub room : length w.buffered ≤ writer_buffer_size

module _ (position : ℕ) (head : List ℕ) where
  flush-Holds :
      (w : SegmentWriter) (bytes : List ℕ)
      → Holds position head w bytes
      → Holds position head (flush w) bytes
  unfolding flush
  flush-Holds w bytes h = record {
    content = append-nil (w.output ++ w.buffered) ∙ h.content;
    place = h.place;
    count = h.count;
    going_on = h.going_on;
    room = omega arith;
  }

  make_room-Holds :
      (w : SegmentWriter) (bytes : List ℕ)
      → Holds position head w bytes
      → Holds position head (make_room w) bytes
        × (length (make_room w).buffered < writer_buffer_size)
  unfolding make_room flush
  make_room-Holds w bytes h = elim (Bool-cases (length w.buffered == writer_buffer_size)) [
    | inl full ↦ rw full (flush-Holds w bytes h, omega arith)
    | inr some_room ↦ rw some_room (h, ground (arith, some_room, h.room))
  ]

  fill-Holds :
      (n : ℕ) (w : SegmentWriter) (bytes more : List ℕ)
      → Holds position head w bytes
      → length w.buffered + n ≤ writer_buffer_size
      → n ≤ length more
      → Holds position head (fill n w more) (bytes ++ take n more)
  fill-Holds n w bytes more h fits enough =
      let key = λ (b : ℕ). bit_xor b xor_key in
      let taken : length (take n more) ≡ n = omega (arith, length-take n more) in
      record {
        content =
            sym (append_assoc w.output w.buffered (map key (take n more)))
            ∙ ap (λ (l : List ℕ). l ++ map key (take n more)) h.content
            ∙ append_assoc head (map key bytes) (map key (take n more))
            ∙ ap (λ (l : List ℕ). head ++ l) (sym (map-append key bytes (take n more)));
        place = h.place;
        count = omega (arith, h.count, taken, length-append bytes (take n more));
        going_on = h.going_on;
        room = omega (
          arith,
          length-append w.buffered (map key (take n more)),
          length-map (take n more) key,
          taken,
          fits,
        );
      }

  write_from-Holds :
      (rounds : ℕ) (w : SegmentWriter) (bytes more : List ℕ)
      → Holds position head w bytes
      → length more ≤ rounds
      → Holds position head (write_from rounds w more) (bytes ++ more)
  unfolding write_from
  write_from-Holds zero w bytes [] h fits = subst (Holds position head w) (sym (append-nil bytes)) h
  write_from-Holds zero w bytes (b ∷ more) h fits = absurd (omega arith)
  write_from-Holds (suc rounds) w bytes [] h fits =
      subst (Holds position head w) (sym (append-nil bytes)) h
  write_from-Holds (suc rounds) w bytes (b ∷ more) h fits =
      let (h', space) = make_room-Holds w bytes h in
      let all = b ∷ more in
      let n = min (writer_buffer_size - length (make_room w).buffered) (length all) in
      let some_left : (length all == 0) ≡ false = ground arith in
      rw some_left (
        subst (Holds position head (write_from rounds (fill n (make_room w) all) (drop n all)))
          (append_assoc bytes (take n all) (drop n all)
            ∙ ap (λ (l : List ℕ). bytes ++ l) (take-append-drop n all))
          (write_from-Holds rounds (fill n (make_room w) all) (bytes ++ take n all) (drop n all)
            (fill-Holds n (make_room w) bytes all h' (omega arith) (omega arith))
            (omega (arith, length-drop n all, space, fits))))

  pub write-Holds :
      (w : SegmentWriter) (bytes more : List ℕ)
      → Holds position head w bytes
      → Holds position head (write w more) (bytes ++ more)
  unfolding write
  write-Holds w bytes more h = write_from-Holds (length more) w bytes more h (omega arith)
