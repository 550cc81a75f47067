-- ===== src/IbImport/Reading.antt =====
-- What `XorSegmentBuffer` of src/formats/ibimport.cpp gives to its end.
use Prim.Native.Nat.{bit_xor}
use water_structure_cpp.Common.{
  ℕ, zero, suc, ◌-◌, min, ◌≤◌, ◌<◌, ◌≡◌, refl, sym, ap, ◌∙◌, true, false, List, [], ◌∷◌, ◌++◌, map,
  length, take, drop, ◌==◌, arith, Bool-cases, inl, inr, length-take, length-drop, length-map,
}
use water_structure_cpp.Schem.Feed.{take-take}
use water_structure_cpp.IbImport.{SegmentBuffer, reader_buffer_size, underflow, read_all}

pub drop-drop : (n m : ℕ) (bytes : List ℕ) → n ≤ m → drop (m - n) (drop n bytes) ≡ drop m bytes
drop-drop zero m bytes h = ap (λ (k : ℕ). drop k bytes) {x = m - 0} {y = m} (omega arith)
drop-drop (suc n) zero bytes h = absurd (omega arith)
drop-drop (suc n) (suc m) [] h = drop_nil (suc m - suc n)
  where
    drop_nil : (k : ℕ) → drop {A = ℕ} k [] ≡ []
    drop_nil zero = refl
    drop_nil (suc k) = refl
drop-drop (suc n) (suc m) (b ∷ bytes) h =
    ap (λ (k : ℕ). drop k (drop n bytes)) {x = suc m - suc n} {y = m - n} (omega arith)
    ∙ drop-drop n m bytes (omega arith)

pub map-append : (f : ℕ → ℕ) (xs ys : List ℕ) → map f (xs ++ ys) ≡ map f xs ++ map f ys
map-append f [] ys = refl
map-append f (x ∷ xs) ys = ap (λ (l : List ℕ). f x ∷ l) (map-append f xs ys)

abbrev at_end : SegmentBuffer → SegmentBuffer
at_end s = record s { input = drop s.remaining s.input; remaining = 0 }

underflow_lem :
    (s : SegmentBuffer)
    → 0 < s.remaining
    → s.remaining ≤ length s.input
    → let count = min s.remaining reader_buffer_size in
      underflow s ≡ (
        map (λ b. bit_xor b s.key) (take count s.input),
        record s { input = drop count s.input; remaining = s.remaining - count },
      )
unfolding underflow
underflow_lem s some_left enough =
    let count = min s.remaining reader_buffer_size in
    let all : length (take count s.input) ≡ count = omega (arith, length-take count s.input) in
    let left : (s.remaining == 0) ≡ false = ground arith in
    let got : (count == 0) ≡ false = ground arith in
    let same : (count == count) ≡ true = ground arith in rw (left, all, got, same) refl

underflow_end : (s : SegmentBuffer) → (s.remaining == 0) ≡ true → underflow s ≡ ([], s)
unfolding underflow
underflow_end s none_left = rw none_left refl

pub read_all_lem :
    (rounds : ℕ) (s : SegmentBuffer)
    → s.remaining ≤ length s.input
    → s.remaining < rounds
    → read_all rounds s ≡ (map (λ b. bit_xor b s.key) (take s.remaining s.input), at_end s)
unfolding read_all
read_all_lem zero s enough h = absurd (omega arith)
read_all_lem (suc rounds) s enough h = elim (Bool-cases (s.remaining == 0)) [
  | inl none_left ↦
      let nothing : s.remaining ≡ 0 = ground (arith, none_left) in
      rw (underflow_end s none_left) (
        ap (λ (k : ℕ). ([], record s { remaining = k })) nothing
        ∙ ap
            (λ (k : ℕ). (
              map (λ b. bit_xor b s.key) (take k s.input),
              record s { input = drop k s.input; remaining = 0 },
            ))
            (sym nothing))
  | inr some_left ↦
      let count = min s.remaining reader_buffer_size in
      let left : 0 < s.remaining = ground (arith, some_left) in
      let given = map (λ b. bit_xor b s.key) (take count s.input) in
      let got : (length given == 0) ≡ false = ground (
        arith,
        length-map (take count s.input) (λ b. bit_xor b s.key),
        length-take count s.input,
        left,
        enough,
      ) in
      let s' : SegmentBuffer = record s {
        input = drop count s.input;
        remaining = s.remaining - count;
      } in
      let rest : s'.remaining ≤ length s'.input = omega (arith, length-drop count s.input) in
      rw (underflow_lem s left enough, got, read_all_lem rounds s' rest (omega arith))
        (λ i. (
          (sym (
                  map-append (λ b. bit_xor b s.key) (take count s.input)
                    (take (s.remaining - count) (drop count s.input)))
                ∙ ap (map (λ b. bit_xor b s.key))
                    (sym (take-take count s.remaining s.input (omega arith))))
              i,
          ap (λ (l : List ℕ). record s { input = l; remaining = 0 })
              (drop-drop count s.remaining s.input (omega arith)) i,
        ))
]
