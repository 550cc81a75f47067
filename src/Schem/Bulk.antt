-- ===== src/Schem/Bulk.antt =====
-- The eight bytes at a time of `read_varints_u16` of src/formats/schem.cpp.
use Prim.Native.Nat.{bit_and}
use water_structure_cpp.Common.{
  ℕ, zero, suc, ◌+◌, ◌-◌, ◌*◌, ◌^◌, ◌≤◌, ◌<◌, ◌≡◌, refl, sym, ap, ◌∙◌, subst, Bool, true, false,
  ◌&&◌, List, [], ◌∷◌, ◌++◌, append_assoc, Option, none, some, length, take, drop, ltb, leb, ◌==◌,
  All, arith, Bool-cases, inl, inr, if◌then◌else◌, leb→le, take-append-drop, length-take,
  length-drop, length-append,
}
use water_structure_cpp.Litematic.Packed.Arith.{and_split}
use water_structure_cpp.Schem.{and_then, little_endian, continuation_bits, within, bulk}
use water_structure_cpp.Schem.Varint.{IsByte, decode, high_bit, decode_last}

abbrev pub pre : List ℕ → Option (List ℕ × List ℕ) → Option (List ℕ × List ℕ)
pre vs none = none
pre vs (some (ws, rest)) = some (vs ++ ws, rest)

-- So many numbers one behind the other, none of them too great.
unfoldable pub decode_all : ℕ → ℕ → List ℕ → Option (List ℕ × List ℕ)
unfolding decode
decode_all max_value zero bytes = some ([], bytes)
decode_all max_value (suc n) bytes =
    and_then (decode bytes)
      λ (v, rest). if ltb max_value v then none else pre (v ∷ []) (decode_all max_value n rest)

pub pre-nil : (o : Option (List ℕ × List ℕ)) → pre [] o ≡ o
pre-nil none = refl
pre-nil (some (ws, rest)) = refl

pre-append : (us vs : List ℕ) (o : Option (List ℕ × List ℕ)) → pre us (pre vs o) ≡ pre (us ++ vs) o
pre-append us vs none = refl
pre-append us vs (some (ws, rest)) =
    ap (λ (l : List ℕ). some (l, rest)) (sym (append_assoc us vs ws))

-- The bits that `n` bytes are tested for.
abbrev mask : ℕ → ℕ
mask zero = 0
mask (suc n) = 128 + 256 * mask n

abbrev Small : ℕ → Type 0
Small b = b < 128

bit_and-Small :
    (bytes : List ℕ)
    → All IsByte bytes
    → bit_and (little_endian bytes) (mask (length bytes)) ≡ 0
    → All Small bytes
unfolding little_endian
bit_and-Small [] all h = tt
bit_and-Small (b ∷ bytes) (p, all) h =
    let split : bit_and (b + 256 * little_endian bytes) (128 + 256 * mask (length bytes))
        ≡ bit_and b 128 + bit_and (little_endian bytes) (mask (length bytes)) * 2 ^ 8 =
      ap (λ (n : ℕ). bit_and n (128 + 256 * mask (length bytes)))
        {x = b + 256 * little_endian bytes} {y = b + little_endian bytes * 2 ^ 8} (omega arith)
      ∙ ap (bit_and (b + little_endian bytes * 2 ^ 8)) {x = 128 + 256 * mask (length bytes)}
          {y = 128 + mask (length bytes) * 2 ^ 8} (omega arith)
      ∙ and_split 8 b (little_endian bytes) 128 (mask (length bytes)) p (omega arith) in
    (omega (arith, split, h, high_bit b p), bit_and-Small bytes all (omega (arith, split, h)))

decode_all-Small :
    (max_value k : ℕ) (bytes more : List ℕ)
    → All Small bytes
    → length bytes ≤ k
    → decode_all max_value k (bytes ++ more) ≡ (
        if within max_value bytes
        then pre bytes (decode_all max_value (k - length bytes) more)
        else none)
unfolding decode_all
decode_all-Small max_value k [] more all h =
    ap (λ (n : ℕ). decode_all max_value n more) {x = k} {y = k - 0} (omega arith)
    ∙ sym (pre-nil (decode_all max_value (k - 0) more))
decode_all-Small max_value zero (b ∷ bytes) more all h = absurd (omega arith)
decode_all-Small max_value (suc k) (b ∷ bytes) more (p, all) h =
    rw (decode_last b (bytes ++ more) (omega (arith, p)) (ground (arith, p)))
      (elim (Bool-cases (ltb max_value b)) [
        | inl over ↦ rw over refl
        | inr fits ↦
            rw (fits, decode_all-Small max_value k bytes more all (omega arith))
              (elim (Bool-cases (within max_value bytes)) [
                | inl all_fit ↦ rw all_fit (
                    pre-append (b ∷ []) bytes (decode_all max_value (k - length bytes) more)
                    ∙ ap (λ (n : ℕ). pre (b ∷ bytes) (decode_all max_value n more))
                        {x = k - length bytes} {y = suc k - suc (length bytes)} (omega arith))
                | inr one_over ↦ rw one_over refl
              ])
      ])

-- What is decoded after a run of the loop.
abbrev pub after : ℕ → ℕ → List ℕ → List ℕ → Option (List ℕ) → Option (List ℕ × List ℕ)
after max_value k bytes more none = none
after max_value k bytes more (some vs) =
    pre vs (decode_all max_value (k - length vs) (drop (length vs) bytes ++ more))

drop-drop :
    (us vs : List ℕ) (bytes : List ℕ)
    → drop (length vs) (drop (length us) bytes) ≡ drop (length (us ++ vs)) bytes
drop-drop [] vs bytes = refl
drop-drop (u ∷ us) [] [] = refl
drop-drop (u ∷ us) (v ∷ vs) [] = refl
drop-drop (u ∷ us) vs (b ∷ bytes) = drop-drop us vs bytes

after-eight :
    (max_value k : ℕ) (eight bytes more : List ℕ) (o : Option (List ℕ))
    → pre eight (after max_value (k - length eight) (drop (length eight) bytes) more o)
      ≡ after max_value k bytes more (and_then o (λ vs. some (eight ++ vs)))
after-eight max_value k eight bytes more none = refl
after-eight max_value k eight bytes more (some vs) =
    rw
      (
        drop-drop eight vs bytes,
        pre-append eight vs (
            decode_all max_value (k - length eight - length vs)
              (drop (length (eight ++ vs)) bytes ++ more)),
      )
      (ap
        (λ (n : ℕ).
          pre (eight ++ vs) (decode_all max_value n (drop (length (eight ++ vs)) bytes ++ more)))
        {x = k - length eight - length vs} {y = k - length (eight ++ vs)}
        (omega (arith, length-append eight vs)))

All-take :
    (n : ℕ) (bytes : List ℕ)
    → All IsByte bytes
    → All IsByte (take n bytes) × All IsByte (drop n bytes)
All-take zero bytes all = (tt, all)
All-take (suc n) [] all = (tt, tt)
All-take (suc n) (b ∷ bytes) (h, all) =
    let (front, back) = All-take n bytes all in ((h, front), back)

after-none :
    (max_value k : ℕ) (bytes more : List ℕ)
    → decode_all max_value k (bytes ++ more) ≡ after max_value k bytes more (some [])
after-none max_value k bytes more =
    ap (λ (n : ℕ). decode_all max_value n (bytes ++ more)) {x = k} {y = k - 0} (omega arith)
    ∙ sym (pre-nil (decode_all max_value (k - 0) (bytes ++ more)))

-- Eight bytes that pass the test.
eight_lem :
    (max_value k : ℕ) (bytes more : List ℕ)
    → All IsByte bytes
    → 8 ≤ length bytes
    → 8 ≤ k
    → bit_and (little_endian (take 8 bytes)) continuation_bits ≡ 0
    → decode_all max_value k (bytes ++ more) ≡ (
        if within max_value (take 8 bytes)
        then pre (take 8 bytes) (decode_all max_value (k - 8) (drop 8 bytes ++ more))
        else none)
eight_lem max_value k bytes more all long enough test =
    let eight : length (take 8 bytes) ≡ 8 = omega (arith, length-take 8 bytes) in
    let mask_of : mask (length (take 8 bytes)) ≡ continuation_bits = ap mask eight in
    let (front, back) = All-take 8 bytes all in
    let small =
      bit_and-Small (take 8 bytes) front
        (ap (bit_and (little_endian (take 8 bytes))) mask_of ∙ test) in
    ap (decode_all max_value k) (
      ap (λ (l : List ℕ). l ++ more) (sym (take-append-drop 8 bytes))
      ∙ append_assoc (take 8 bytes) (drop 8 bytes) more)
    ∙ decode_all-Small max_value k (take 8 bytes) (drop 8 bytes ++ more) small
        (omega (arith, eight))
    ∙ ap
        (λ (n : ℕ).
          if within max_value (take 8 bytes)
          then pre (take 8 bytes) (decode_all max_value (k - n) (drop 8 bytes ++ more))
          else none)
        eight

and_true : (a b : Bool) → (a && b) ≡ true → (a ≡ true) × (b ≡ true)
and_true true b h = (refl, h)
and_true false b h = absurd cc

pub bulk_lem :
    (rounds max_value k available : ℕ) (bytes more : List ℕ)
    → All IsByte bytes
    → available ≤ length bytes
    → available ≤ k
    → decode_all max_value k (bytes ++ more)
      ≡ after max_value k bytes more (bulk rounds max_value available bytes)
unfolding bulk
bulk_lem zero max_value k available bytes more all long enough = after-none max_value k bytes more
bulk_lem (suc rounds) max_value k available bytes more all long enough =
    elim (Bool-cases
      (leb 8 available && (bit_and (little_endian (take 8 bytes)) continuation_bits == 0))) [
        | inr stop ↦ rw stop (after-none max_value k bytes more)
        | inl go ↦
            let eight = take 8 bytes in
            let rest = bulk rounds max_value (available - 8) (drop 8 bytes) in
            let (room, test) =
              and_true (leb 8 available) (bit_and (little_endian eight) continuation_bits == 0)
                go in
            let fits = leb→le 8 available room in
            let is_eight : length eight ≡ 8 = omega (arith, length-take 8 bytes) in
            rw
              (
                go,
                eight_lem max_value k bytes more all (omega arith) (omega arith)
                    (ground (arith, test)),
                bulk_lem rounds max_value (k - 8) (available - 8) (drop 8 bytes) more
                    (All-take 8 bytes all).1 (omega (arith, length-drop 8 bytes)) (omega arith),
              )
              (elim (Bool-cases (within max_value (take 8 bytes))) [
                | inr one_over ↦ rw one_over refl
                | inl all_fit ↦ rw all_fit (
                    subst
                      (λ n.
                        pre eight (after max_value (k - n) (drop n bytes) more rest)
                        ≡ after max_value k bytes more (and_then rest (λ vs. some (eight ++ vs))))
                      is_eight (after-eight max_value k eight bytes more rest))
              ])
      ]
