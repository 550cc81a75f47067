-- ===== src/IbImport/Length.antt =====
-- `varint` of src/formats/ibimport.cpp reads what `fixed_varint` gives.
use Prim.Native.Nat.{bit_and, bit_or}
use native.Mathlib.Nat.{pow-suc, add-mul, mul_comm, mul_assoc}
use water_structure_cpp.Common.{
  ℕ, zero, suc, ◌+◌, ◌*◌, ◌/◌, ◌%◌, ◌^◌, ◌≤◌, ◌<◌, ◌≡◌, refl, ap, ◌∙◌, subst, true, false, List,
  ◌++◌, some, length, ltb, ◌==◌, arith,
}
use water_structure_cpp.Result.{success}
use water_structure_cpp.Litematic.Packed.Arith.{or_fields, and_mask, pow_add}
use water_structure_cpp.Schem.Varint.{add_digits_lem, last_digit, continues}
use water_structure_cpp.IbImport.{varint_from, varint, varint_bytes}

-- What is read of a number after its lowest digit.
digit_sum :
    (acc v shift : ℕ) → acc + v % 128 * 2 ^ shift + v / 128 * 2 ^ (shift + 7) ≡ acc + v * 2 ^ shift
digit_sum acc v shift = omega (
  arith,
  ap (λ (n : ℕ). v / 128 * n) (pow_add shift 7),
  mul_comm (2 ^ shift) 128,
  ap (λ (n : ℕ). v / 128 * n) (mul_comm (2 ^ shift) 128),
  mul_assoc (v / 128) 128 (2 ^ shift),
  add-mul (v % 128) (v / 128 * 128) (2 ^ shift),
  ap (λ (n : ℕ). n * 2 ^ shift) {x = v} {y = v % 128 + v / 128 * 128} (omega arith),
)

varint_from-bytes :
    (n rounds acc shift v : ℕ) (rest : List ℕ)
    → acc < 2 ^ shift
    → shift + 7 * suc n ≤ 63
    → v < 128 ^ suc n
    → n < rounds
    → varint_from rounds acc shift (varint_bytes (suc n) v ++ rest)
      ≡ success (some (acc + v * 2 ^ shift), rest)
unfolding varint_from varint_bytes
varint_from-bytes n zero acc shift v rest a fits small h = absurd (omega arith)
varint_from-bytes zero (suc rounds) acc shift v rest a fits small h =
    let before : (shift == 63) ≡ false = ground arith in
    let byte : bit_and v 127 ≡ v = omega (arith, and_mask 7 v, small) in
    let last : ltb v 128 ≡ true = ground (arith, small) in
    rw
      (
        byte,
        before,
        continues v (omega (arith, small)),
        last,
        last_digit acc v shift a (omega (arith, small)) (omega arith) last,
      )
      refl
varint_from-bytes (suc n) (suc rounds) acc shift v rest a fits small h =
    let before : (shift == 63) ≡ false = ground arith in
    let byte : bit_or (bit_and v 127) 128 ≡ v % 128 + 128 =
      ap (λ (t : ℕ). bit_or t 128) (and_mask 7 v) ∙ or_fields 7 (v % 128) 1 (omega arith) in
    let more : ltb (v % 128 + 128) 128 ≡ false = ground arith in
    let (sum, below) = add_digits_lem acc (v % 128 + 128) shift a (omega arith) (omega arith) in
    let low : (v % 128 + 128) % 128 ≡ v % 128 = omega arith in
    rw (byte, before, continues (v % 128 + 128) (omega arith), more, sum, low)
      (varint_from-bytes n rounds (acc + v % 128 * 2 ^ shift) (shift + 7) (v / 128) rest
          (subst (λ (d : ℕ). acc + d * 2 ^ shift < 2 ^ (shift + 7)) low below) (omega arith)
          (omega (arith, small, pow-suc 128 (suc n))) (omega arith)
        ∙ ap (λ (t : ℕ). success (some t, rest)) (digit_sum acc v shift))

pub varint-bytes :
    (v : ℕ) (rest : List ℕ)
    → v < 2 ^ 35
    → varint (varint_bytes 5 v ++ rest) ≡ success (some v, rest)
unfolding varint varint_bytes
varint-bytes v rest small =
    varint_from-bytes 4 10 0 0 v rest (omega arith) (omega arith) small (omega arith)
    ∙ ap (λ (t : ℕ). success (some t, rest)) {x = 0 + v * 2 ^ 0} {y = v} (omega arith)

pub length-varint_bytes : (n v : ℕ) → length (varint_bytes n v) ≡ n
unfolding varint_bytes
length-varint_bytes zero v = refl
length-varint_bytes (suc zero) v = refl
length-varint_bytes (suc (suc n)) v = ap suc (length-varint_bytes (suc n) (v / 2 ^ 7))
