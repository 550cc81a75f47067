-- ===== src/IbImport/Key.antt =====
-- The key of src/formats/ibimport.cpp put on twice.
use Prim.Native.Nat.{bit_xor, differ}
use water_structure_cpp.Common.{
  ℕ, zero, suc, ◌+◌, ◌/◌, ◌%◌, ◌≤◌, ◌<◌, ◌≡◌, refl, ap, ◌∙◌, List, [], ◌∷◌, map, arith,
}
use water_structure_cpp.Litematic.Packed.Arith.{lowest_xor}

differ_again : (x y : ℕ) → x < 2 → y < 2 → (differ (differ x y) y ≡ x) × (differ x y < 2)
differ_again zero zero h p = (refl, h)
differ_again zero (suc zero) h p = (refl, p)
differ_again (suc zero) zero h p = (refl, h)
differ_again (suc zero) (suc zero) h p = (refl, omega arith)
differ_again (suc (suc x)) y h p = absurd (omega arith)
differ_again zero (suc (suc y)) h p = absurd (omega arith)
differ_again (suc zero) (suc (suc y)) h p = absurd (omega arith)

bit_xor_twice_up_to : (n a b : ℕ) → a ≤ n → b ≤ n → bit_xor (bit_xor a b) b ≡ a
bit_xor_twice_up_to zero zero zero h p = refl
bit_xor_twice_up_to zero (suc a) b h p = absurd (omega arith)
bit_xor_twice_up_to zero zero (suc b) h p = absurd (omega arith)
bit_xor_twice_up_to (suc n) a b h p =
    let x = bit_xor a b in
    let half = bit_xor (a / 2) (b / 2) in
    let (again, below) = differ_again (a % 2) (b % 2) (omega arith) (omega arith) in
    let low : x % 2 ≡ differ (a % 2) (b % 2) = omega (arith, lowest_xor a b, below) in
    let high : x / 2 ≡ half = omega (arith, lowest_xor a b, below) in
    let halves : bit_xor (x / 2) (b / 2) ≡ a / 2 =
      ap (λ (t : ℕ). bit_xor t (b / 2)) high
      ∙ bit_xor_twice_up_to n (a / 2) (b / 2) (omega arith) (omega arith) in
    let digit : differ (x % 2) (b % 2) ≡ a % 2 = ap (λ (t : ℕ). differ t (b % 2)) low ∙ again in
    omega (arith, lowest_xor x b, halves, digit)

pub bit_xor_twice : (a b : ℕ) → bit_xor (bit_xor a b) b ≡ a
bit_xor_twice a b = bit_xor_twice_up_to (a + b) a b (omega arith) (omega arith)

pub map-bit_xor_twice :
    (key : ℕ) (bytes : List ℕ) → map (λ b. bit_xor b key) (map (λ b. bit_xor b key) bytes) ≡ bytes
map-bit_xor_twice key [] = refl
map-bit_xor_twice key (b ∷ bytes) = rw (bit_xor_twice b key, map-bit_xor_twice key bytes) refl
