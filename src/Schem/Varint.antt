-- ===== src/Schem/Varint.antt =====
-- `read_varint_u32` of src/formats/schem.cpp decodes as arithmetic says, wherever its buffer ends.
use Prim.Native.Nat.{bit_and, bit_or}
use native.Mathlib.Nat.{
  mod-eq_of_lt, pow-le-pow_right, mul-le-mul_right, add-mul, mul_assoc, mul_comm,
}
use water_structure_cpp.Common.{
  ℕ, zero, suc, ◌+◌, ◌-◌, ◌*◌, ◌/◌, ◌%◌, ◌^◌, ◌≤◌, ◌<◌, ◌≡◌, refl, ap, ◌∙◌, true, false, List, [],
  ◌∷◌, ◌++◌, Option, none, some, ltb, ◌==◌, All, arith, Bool-cases, inl, inr, if◌then◌else◌,
  not_ltb→le,
}
use water_structure_cpp.Litematic.Packed.Arith.{
  or_fields, and_mask, pow_add, pow_pos, and_split, and-zero_right,
}
use water_structure_cpp.Schem.{and_then, fitting, add_digits, fast_varint}

abbrev pub IsByte : ℕ → Type 0
IsByte b = b < 256

abbrev pub with_digit : ℕ → Option (ℕ × List ℕ) → Option (ℕ × List ℕ)
with_digit b none = none
with_digit b (some (v, rest)) = some (b - 128 + 128 * v, rest)

-- The number that at most so many bytes write to the base 128, the lowest digit first, the last byte
-- the one below 128, and what is behind it.
unfoldable pub number_at : ℕ → List ℕ → Option (ℕ × List ℕ)
number_at zero bytes = none
number_at (suc n) [] = none
number_at (suc n) (b ∷ bytes) =
    if ltb b 128 then some (b, bytes) else with_digit b (number_at n bytes)

-- An uint32_t in at most five bytes.
unfoldable pub decode : List ℕ → Option (ℕ × List ℕ)
unfolding number_at
decode bytes = and_then (number_at 5 bytes) λ (v, rest). fitting v rest

-- The highest bit of a byte, and the others.
pub high_bit : (b : ℕ) → b < 256 → bit_and b 128 ≡ b / 128 * 128
high_bit b h =
    ap (λ (n : ℕ). bit_and n 128) {x = b} {y = b % 128 + b / 128 * 2 ^ 7} (omega arith)
    ∙ and_split 7 (b % 128) (b / 128) 0 1 (omega arith) (omega arith)
    ∙ omega (arith, and-zero_right (b % 128), and_mask 1 (b / 128))

pub continues : (b : ℕ) → b < 256 → (bit_and b 128 == 0) ≡ ltb b 128
continues b h = ground (arith, high_bit b h)

-- A digit above what is there.
pub add_digits_lem :
    (value b shift : ℕ)
    → value < 2 ^ shift
    → b < 256
    → shift + 7 ≤ 64
    → (add_digits value b shift ≡ value + b % 128 * 2 ^ shift)
      × (value + b % 128 * 2 ^ shift < 2 ^ (shift + 7))
add_digits_lem value b shift v h fits =
    let power : 2 ^ (shift + 7) ≡ 2 ^ shift * 128 = pow_add shift 7 in
    let most = pow-le-pow_right {n = 2} (omega arith) {i = shift + 7} {j = 64} fits in
    let digit = mul-le-mul_right {m = b % 128} {n = 127} (2 ^ shift) (omega arith) in
    let whole : bit_and b 127 * 2 ^ shift % 2 ^ 64 ≡ b % 128 * 2 ^ shift =
      ap (λ (n : ℕ). n * 2 ^ shift % 2 ^ 64) (and_mask 7 b)
      ∙ mod-eq_of_lt {n = b % 128 * 2 ^ shift} {m = 2 ^ 64}
          (omega (arith, power, most, digit, pow_pos shift)) in
    (ap (bit_or value) whole ∙ or_fields shift value (b % 128) v, omega (arith, power, digit))

-- The last digit.
pub last_digit :
    (value b shift : ℕ)
    → value < 2 ^ shift
    → b < 256
    → shift + 7 ≤ 64
    → ltb b 128 ≡ true
    → add_digits value b shift ≡ value + b * 2 ^ shift
last_digit value b shift v h fits last =
    (add_digits_lem value b shift v h fits).0
    ∙ ap (λ (n : ℕ). value + n * 2 ^ shift) {x = b % 128} {y = b} (ground (arith, last))

-- What is read into a value so far.
abbrev pub onto : {S : Type 0} → ℕ → ℕ → Option (ℕ × S) → Option (ℕ × S)
onto value shift none = none
onto value shift (some (v, rest)) = fitting (value + v * 2 ^ shift) rest

pub onto-digit :
    (value b shift : ℕ) (o : Option (ℕ × List ℕ))
    → 128 ≤ b
    → b < 256
    → onto (value + b % 128 * 2 ^ shift) (shift + 7) o ≡ onto value shift (with_digit b o)
onto-digit value b shift none h k = refl
onto-digit value b shift (some (v, rest)) h k =
    let sum : value + b % 128 * 2 ^ shift + v * 2 ^ (shift + 7)
        ≡ value + (b - 128 + 128 * v) * 2 ^ shift =
      omega (
        arith,
        ap (λ (n : ℕ). v * n) (pow_add shift 7),
        add-mul (b - 128) (128 * v) (2 ^ shift),
        ap (λ (n : ℕ). n * 2 ^ shift) {x = b % 128} {y = b - 128} (omega arith),
        mul_comm (2 ^ shift) 128,
        mul_assoc v 128 (2 ^ shift),
        ap (λ (n : ℕ). v * n) (mul_comm (2 ^ shift) 128),
        ap (λ (n : ℕ). n * 2 ^ shift) (mul_comm 128 v),
      ) in
    ap (λ (n : ℕ). fitting n rest) sum

pub fast_varint_lem :
    (rounds value shift : ℕ) (bytes : List ℕ)
    → All IsByte bytes
    → value < 2 ^ shift
    → shift + 7 * rounds ≤ 64
    → fast_varint rounds value shift bytes ≡ onto value shift (number_at rounds bytes)
unfolding fast_varint number_at
fast_varint_lem zero value shift bytes all v fits = refl
fast_varint_lem (suc rounds) value shift [] all v fits = refl
fast_varint_lem (suc rounds) value shift (b ∷ bytes) (h, all) v fits =
    let (sum, below) = add_digits_lem value b shift v h (omega arith) in
    elim (Bool-cases (ltb b 128)) [
      | inl last ↦
          rw (continues b h, last)
            (ap (λ (n : ℕ). fitting n bytes) (last_digit value b shift v h (omega arith) last))
      | inr more ↦
          rw (continues b h, more)
            (ap (λ (n : ℕ). fast_varint rounds n (shift + 7) bytes) sum
              ∙ fast_varint_lem rounds (value + b % 128 * 2 ^ shift) (shift + 7) bytes all below
                  (omega arith)
              ∙ onto-digit value b shift (number_at rounds bytes) (not_ltb→le b 128 more) h)
    ]

pub decode_last :
    (b : ℕ) (rest : List ℕ) → b < 256 → ltb b 128 ≡ true → decode (b ∷ rest) ≡ some (b, rest)
unfolding decode number_at
decode_last b rest h last =
    let fits : ltb (2 ^ 32 - 1) b ≡ false = ground (arith, h) in rw (last, fits) refl

pub All-front : (bytes more : List ℕ) → All IsByte (bytes ++ more) → All IsByte bytes
All-front [] more all = tt
All-front (b ∷ bytes) more (h, all) = (h, All-front bytes more all)
