-- ===== src/Litematic/Packed/Arith.antt =====
-- `|` of separate binary fields, a mask, and powers of two, as arithmetic.
use Prim.Native.Nat.{
  bit_and, bit_or, bit_or-bitwise, bit_and-bitwise, min, max, digits, bit_xor, bit_xor-bitwise,
  differ,
}
use native.Mathlib.Nat.{pow-suc, one-le-pow, mod-add-div', mod-lt, mul_right_comm, le_refl}
use water_structure_cpp.Common.{
  ℕ, zero, suc, ◌+◌, ◌-◌, ◌*◌, ◌/◌, ◌%◌, ◌^◌, ◌≤◌, ◌<◌, ◌≡◌, refl, sym, ap, ◌∙◌, arith,
}

-- Two counts of digits that are both enough.
module _ (z : ℕ → ℕ) (f : ℕ → ℕ → ℕ) where
  enough_digits : (a b k n : ℕ) → a ≤ k → a ≤ n → digits z f k a b ≡ digits z f n a b
  enough_digits a b zero zero h p = refl
  enough_digits zero b zero (suc n) h p = refl
  enough_digits zero b (suc k) zero h p = refl
  enough_digits zero b (suc k) (suc n) h p = refl
  enough_digits (suc a) b zero n h p = absurd (omega arith)
  enough_digits (suc a) b (suc k) zero h p = absurd (omega arith)
  enough_digits (suc a) b (suc k) (suc n) h p =
      ap (λ (d : ℕ). d * 2 + f (suc a % 2) (b % 2))
        (enough_digits (suc a / 2) (b / 2) k n (omega arith) (omega arith))

lowest_or : (a b : ℕ) → bit_or a b ≡ bit_or (a / 2) (b / 2) * 2 + max (a % 2) (b % 2)
lowest_or zero b = simp bit_or-bitwise (omega arith)
lowest_or (suc a) b =
    let halves =
      enough_digits (λ y. y) max (suc a / 2) (b / 2) a (suc a / 2) (omega arith) (omega arith) in
    simp bit_or-bitwise (omega (arith, halves))

lowest_and : (a b : ℕ) → bit_and a b ≡ bit_and (a / 2) (b / 2) * 2 + min (a % 2) (b % 2)
lowest_and zero b = simp bit_and-bitwise (omega arith)
lowest_and (suc a) b =
    let halves =
      enough_digits (λ y. 0) min (suc a / 2) (b / 2) a (suc a / 2) (omega arith) (omega arith) in
    simp bit_and-bitwise (omega (arith, halves))

pub zero-or : (b : ℕ) → bit_or 0 b ≡ b
zero-or b = simp bit_or-bitwise refl

and-zero : (k a : ℕ) → a ≤ k → bit_and a 0 ≡ 0
and-zero zero a h = ground (arith, lowest_and a 0)
and-zero (suc k) zero h = simp bit_and-bitwise refl
and-zero (suc k) (suc a) h =
    omega (arith, lowest_and (suc a) 0, and-zero k (suc a / 2) (omega arith))

double : (q k : ℕ) → q * 2 ^ suc k ≡ q * 2 ^ k * 2
double q k = omega (arith, ap (λ (t : ℕ). q * t) (pow-suc 2 k))

-- Two fields that do not meet.
pub or_fields : (k low high : ℕ) → low < 2 ^ k → bit_or low (high * 2 ^ k) ≡ low + high * 2 ^ k
or_fields zero low high h = ground (arith, zero-or (high * 1))
or_fields (suc k) low high h = ground (
  arith,
  lowest_or low (high * 2 ^ suc k),
  double high k,
  pow-suc 2 k,
  or_fields k (low / 2) high (omega (arith, pow-suc 2 k)),
)

and_fields : (k low high : ℕ) → low < 2 ^ k → bit_and (low + high * 2 ^ k) (2 ^ k - 1) ≡ low
and_fields zero low high h = ground (arith, and-zero (low + high * 1) (low + high * 1))
and_fields (suc k) low high h = ground (
  arith,
  lowest_and (low + high * 2 ^ suc k) (2 ^ suc k - 1),
  double high k,
  pow-suc 2 k,
  one-le-pow k 2,
  and_fields k (low / 2) high (omega (arith, pow-suc 2 k)),
)

pub pow_pos : (k : ℕ) → 0 < 2 ^ k
pow_pos k = omega (arith, one-le-pow k 2)

pub and_mask : (k a : ℕ) → bit_and a (2 ^ k - 1) ≡ a % 2 ^ k
and_mask k a =
    ap (λ (n : ℕ). bit_and n (2 ^ k - 1)) (sym (mod-add-div' a (2 ^ k)))
    ∙ and_fields k (a % 2 ^ k) (a / 2 ^ k) (mod-lt a (pow_pos k))

pub pow_add : (a b : ℕ) → 2 ^ (a + b) ≡ 2 ^ a * 2 ^ b
pow_add zero b = ap (λ (n : ℕ). 2 ^ n) {x = 0 + b} {y = b} (omega arith) ∙ omega arith
pow_add (suc a) b =
    ap (λ (n : ℕ). 2 ^ n) {x = suc a + b} {y = suc (a + b)} (omega arith)
    ∙ pow-suc 2 (a + b)
    ∙ ap (λ (n : ℕ). n * 2) (pow_add a b)
    ∙ mul_right_comm (2 ^ a) (2 ^ b) 2
    ∙ ap (λ (n : ℕ). n * 2 ^ b) (sym (pow-suc 2 a))

pub and-zero_right : (a : ℕ) → bit_and a 0 ≡ 0
and-zero_right a = and-zero a a (le_refl a)

-- `&` of two numbers, field by field.
pub and_split :
    (k a b c d : ℕ)
    → a < 2 ^ k
    → c < 2 ^ k
    → bit_and (a + b * 2 ^ k) (c + d * 2 ^ k) ≡ bit_and a c + bit_and b d * 2 ^ k
and_split zero a b c d h j =
    let left : a + b * 2 ^ 0 ≡ b = omega arith in
    let right : c + d * 2 ^ 0 ≡ d = omega arith in
    let low : bit_and a c ≡ 0 = ap (bit_and a) {x = c} {y = 0} (omega arith) ∙ and-zero_right a in
    ap (λ (n : ℕ). bit_and n (c + d * 2 ^ 0)) left ∙ ap (bit_and b) right ∙ omega (arith, low)
and_split (suc k) a b c d h j = omega (
  arith,
  lowest_and (a + b * 2 ^ suc k) (c + d * 2 ^ suc k),
  lowest_and a c,
  double b k,
  double d k,
  double (bit_and b d) k,
  ap (λ (n : ℕ). bit_and n ((c + d * 2 ^ suc k) / 2)) {x = (a + b * 2 ^ suc k) / 2}
      {y = a / 2 + b * 2 ^ k} (omega (arith, double b k)),
  ap (bit_and (a / 2 + b * 2 ^ k)) {x = (c + d * 2 ^ suc k) / 2} {y = c / 2 + d * 2 ^ k}
      (omega (arith, double d k)),
  and_split k (a / 2) b (c / 2) d (omega (arith, pow-suc 2 k)) (omega (arith, pow-suc 2 k)),
)

pub lowest_xor : (a b : ℕ) → bit_xor a b ≡ bit_xor (a / 2) (b / 2) * 2 + differ (a % 2) (b % 2)
lowest_xor zero b = simp bit_xor-bitwise (omega arith)
lowest_xor (suc a) b =
    let halves =
      enough_digits (λ y. y) differ (suc a / 2) (b / 2) a (suc a / 2) (omega arith) (omega arith) in
    simp bit_xor-bitwise (omega (arith, halves))
