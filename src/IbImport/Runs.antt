-- ===== src/IbImport/Runs.antt =====
-- Runs of the segments of src/formats/ibimport.cpp: two pieces behind a header, and a byte behind them.
use water_structure_cpp.Common.{ℕ, ◌≡◌, refl, List, [], ◌∷◌, ◌++◌, arith, some, false}
use water_structure_cpp.Result.{success}
use water_structure_cpp.IbImport.{xor_key, varint, write_segment, read_segment}
use water_structure_cpp.IbImport.Segment.{joined, segment_reads_back}

abbrev pieces : List (List ℕ)
pieces = (115 ∷ 101 ∷ []) ∷ (116 ∷ []) ∷ []

written_pieces :
    write_segment (73 ∷ []) pieces
    ≡ success (73 ∷ 131 ∷ 128 ∷ 128 ∷ 128 ∷ 0 ∷ 193 ∷ 178 ∷ 164 ∷ 181 ∷ [])
unfolding write_segment
written_pieces = refl

short_varint : varint (131 ∷ 0 ∷ 7 ∷ []) ≡ success (some 3, 7 ∷ [])
unfolding varint
short_varint = refl

segment_reads_back_example :
    (added : List ℕ) × (write_segment (73 ∷ []) pieces ≡ success (73 ∷ [] ++ added))
    × (read_segment 0 (added ++ 9 ∷ [])
        ≡ success (
            some (
              joined pieces,
              record { input = 9 ∷ []; remaining = 0; key = xor_key; truncated = false },
            )))
segment_reads_back_example =
    segment_reads_back (73 ∷ []) pieces (9 ∷ []) 0 (omega arith) (omega arith)
