-- ===== src/Litematic/Packed/Unpack.antt =====
-- `palette_index_at` of src/formats/litematic.cpp reads a field of the array as one number.
use Prim.Native.Nat.{bit_and, bit_or}
use native.Mathlib.Nat.{
  div-div-eq-div-mul, add-mul-div_right, mod-add-div', mod-lt, mod-eq_of_lt, mul_assoc,
  pow-le-pow_right, div-lt_iff_lt-mul, mul_comm, add-mul-mod_self_right, mul-lt-mul_of_pos_right,
  add-mul,
}
use water_structure_cpp.Common.{
  ℕ, zero, suc, ◌+◌, ◌-◌, ◌*◌, ◌/◌, ◌%◌, ◌^◌, ◌≤◌, ◌<◌, ◌≡◌, sym, ap, ◌∙◌, arith, List, [], subst,
  ◌∷◌, length, All, Bool-cases, inl, inr, ltb, leb, if◌then◌else◌, not_ltb→le,
}
use water_structure_cpp.Litematic.Packed.{field_at, palette_index_at, shift_left}
use water_structure_cpp.Litematic.Packed.Arith.{or_fields, and_mask, pow_add, pow_pos}

-- The array as one number, the first word lowest.
abbrev pub number : List ℕ → ℕ
number [] = 0
number (w ∷ ws) = w + number ws * 2 ^ 64

abbrev pub Word : ℕ → Type 0
Word w = w < 2 ^ 64

-- A number above `n` bits of a word, and the word as a product of two powers.
pub word_split : (n : ℕ) → n ≤ 64 → 2 ^ (64 - n) * 2 ^ n ≡ 2 ^ 64
word_split n h =
    sym (pow_add (64 - n) n) ∙ ap (λ (k : ℕ). 2 ^ k) {x = 64 - n + n} {y = 64} (omega arith)

pub shifted : (x r n : ℕ) → n ≤ 64 → (x + r * 2 ^ 64) / 2 ^ n ≡ x / 2 ^ n + r * 2 ^ (64 - n)
shifted x r n h =
    ap (λ (k : ℕ). (x + k) / 2 ^ n)
      (ap (λ (k : ℕ). r * k) (sym (word_split n h)) ∙ sym (mul_assoc r (2 ^ (64 - n)) (2 ^ n)))
    ∙ add-mul-div_right x (r * 2 ^ (64 - n)) (pow_pos n)

-- What a multiple of a greater power of two adds is masked.
pub masked : (x r n bits : ℕ) → bits ≤ n → (x + r * 2 ^ n) % 2 ^ bits ≡ x % 2 ^ bits
masked x r n bits h =
    ap (λ (k : ℕ). (x + k) % 2 ^ bits)
      (ap (λ (k : ℕ). r * k)
          (ap (λ (k : ℕ). 2 ^ k) {x = n} {y = n - bits + bits} (omega arith)
            ∙ pow_add (n - bits) bits)
        ∙ sym (mul_assoc r (2 ^ (n - bits)) (2 ^ bits)))
    ∙ add-mul-mod_self_right x (r * 2 ^ (n - bits)) (2 ^ bits)

-- Shifted in 64 bits, a value keeps what is below.
pub shift_left_lem : (v n : ℕ) → n ≤ 64 → shift_left v n ≡ v % 2 ^ (64 - n) * 2 ^ n
shift_left_lem v n h =
    let b = 2 ^ (64 - n) in
    let a = 2 ^ n in
    let split : v * a ≡ v % b * a + v / b * 2 ^ 64 =
      ap (λ (k : ℕ). k * a) (sym (mod-add-div' v b))
      ∙ add-mul (v % b) (v / b * b) a
      ∙ ap (λ (k : ℕ). v % b * a + k)
          (mul_assoc (v / b) b a ∙ ap (λ (k : ℕ). v / b * k) (word_split n h)) in
    let small : v % b * a < 2 ^ 64 =
      subst (λ (k : ℕ). v % b * a < k) (word_split n h)
        (mul-lt-mul_of_pos_right (mod-lt v (pow_pos (64 - n))) (pow_pos n)) in
    ap (λ (k : ℕ). k % 2 ^ 64) split
    ∙ add-mul-mod_self_right (v % b * a) (v / b) (2 ^ 64)
    ∙ mod-eq_of_lt small

field-cons :
    (w : ℕ) (ws : List ℕ) (bits word o : ℕ)
    → field_at (w ∷ ws) bits (suc word) o ≡ field_at ws bits word o
unfolding field_at
field-cons w ws bits word o = ground arith

number-cons : (w n k : ℕ) → w < 2 ^ 64 → (w + n * 2 ^ 64) / 2 ^ (64 + k) ≡ n / 2 ^ k
number-cons w n k h =
    ap (λ (d : ℕ). (w + n * 2 ^ 64) / d) (pow_add 64 k)
    ∙ sym (div-div-eq-div-mul (w + n * 2 ^ 64) (2 ^ 64) (2 ^ k))
    ∙ ap (λ (d : ℕ). d / 2 ^ k) (omega arith)

-- A field that lies in one word.
field_within :
    (cur n o bits : ℕ)
    → o + bits ≤ 64
    → cur / 2 ^ o % 2 ^ bits ≡ (cur + n * 2 ^ 64) / 2 ^ o % 2 ^ bits
field_within cur n o bits h =
    sym (masked (cur / 2 ^ o) n (64 - o) bits (omega arith))
    ∙ ap (λ (d : ℕ). d % 2 ^ bits) (sym (shifted cur n o (omega arith)))

-- A field that goes on in the next word.
field_across :
    (cur next more o bits : ℕ)
    → cur < 2 ^ 64
    → o < 64
    → bits ≤ 64
    → bit_or (cur / 2 ^ o) (shift_left next (64 - o)) % 2 ^ bits
      ≡ (cur + (next + more * 2 ^ 64) * 2 ^ 64) / 2 ^ o % 2 ^ bits
field_across cur next more o bits c h k =
    let a = 2 ^ o in
    let b = 2 ^ (64 - o) in
    let low : cur / a < b =
      (div-lt_iff_lt-mul {k = a} {x = cur} {y = b} (pow_pos o)).1
        (subst (λ (d : ℕ). cur < d) (sym (word_split o (omega arith))) c) in
    let joined : bit_or (cur / a) (shift_left next (64 - o)) ≡ cur / a + next % a * b =
      ap (bit_or (cur / a)) (
        shift_left_lem next (64 - o) (omega arith)
        ∙ ap (λ (d : ℕ). next % 2 ^ d * b) {x = 64 - (64 - o)} {y = o} (omega arith))
      ∙ or_fields (64 - o) (cur / a) (next % a) low in
    let top = next / a + more * b in
    let whole : next + more * 2 ^ 64 ≡ next % a + top * a = omega (
      arith,
      mod-add-div' next a,
      add-mul (next / a) (more * b) a,
      mul_assoc more b a,
      ap (λ (d : ℕ). more * d) (word_split o (omega arith)),
    ) in
    let parts : cur / a + (next + more * 2 ^ 64) * b ≡ (cur / a + next % a * b) + top * 2 ^ 64 =
      omega (
        arith,
        ap (λ (d : ℕ). d * b) whole,
        add-mul (next % a) (top * a) b,
        mul_assoc top a b,
        mul_comm a b,
        ap (λ (d : ℕ). top * d) (mul_comm a b ∙ word_split o (omega arith)),
      ) in
    ap (λ (d : ℕ). d % 2 ^ bits) joined
    ∙ sym (masked (cur / a + next % a * b) top 64 bits k)
    ∙ ap (λ (d : ℕ). d % 2 ^ bits)
        (sym parts ∙ sym (shifted cur (next + more * 2 ^ 64) o (omega arith)))

field-number :
    (word o bits : ℕ) (ws : List ℕ)
    → All Word ws
    → o < 64
    → bits ≤ 64
    → 0 < bits
    → 64 * word + (o + bits) ≤ 64 * length ws
    → field_at ws bits word o % 2 ^ bits ≡ number ws / 2 ^ (64 * word + o) % 2 ^ bits
unfolding field_at
field-number word o bits [] a h k p fits = absurd (omega arith)
field-number zero o bits (w ∷ []) (a, _) h k p fits =
    let at : number (w ∷ []) / 2 ^ o ≡ number (w ∷ []) / 2 ^ (64 * 0 + o) =
      ap (λ (d : ℕ). number (w ∷ []) / 2 ^ d) (omega arith) in
    ground (arith, field_within w 0 o bits (omega arith), at)
field-number zero o bits (w ∷ next ∷ ws) (a, _) h k p fits =
    let all = number (w ∷ next ∷ ws) in
    let at : all / 2 ^ o ≡ all / 2 ^ (64 * 0 + o) =
      ap (λ (d : ℕ). all / 2 ^ d) {x = o} {y = 64 * 0 + o} (omega arith) in
    elim (Bool-cases (ltb 64 (o + bits))) [
      | inl over ↦ ground (arith, over, field_across w next (number ws) o bits a h k, at)
      | inr within ↦ ground (
        arith,
        within,
        field_within w (number (next ∷ ws)) o bits (not_ltb→le 64 (o + bits) within),
        at,
      )
    ]
field-number (suc word) o bits (w ∷ ws) (a, all) h k p fits =
    ap (λ (d : ℕ). d % 2 ^ bits) (field-cons w ws bits word o)
    ∙ field-number word o bits ws all h k p (omega arith)
    ∙ ap (λ (d : ℕ). d % 2 ^ bits)
        (sym (number-cons w (number ws) (64 * word + o) a)
          ∙ ap (λ (d : ℕ). number (w ∷ ws) / 2 ^ d) (omega arith))

small_field : (v bits : ℕ) → bits ≤ 32 → bit_and v (2 ^ bits - 1) % 2 ^ 32 ≡ v % 2 ^ bits
small_field v bits h =
    let bound : 2 ^ bits ≤ 2 ^ 32 = pow-le-pow_right {n = 2} (omega arith) {i = bits} {j = 32} h in
    ap (λ (d : ℕ). d % 2 ^ 32) (and_mask bits v)
    ∙ mod-eq_of_lt (omega (arith, mod-lt v (pow_pos bits)))

field_from :
    (s bits : ℕ) (ws : List ℕ)
    → All Word ws
    → bits ≤ 32
    → 0 < bits
    → s + bits ≤ 64 * length ws
    → (if leb (length ws) (s / 64)
        then 0
        else bit_and (field_at ws bits (s / 64) (s % 64)) (2 ^ bits - 1) % 2 ^ 32)
      ≡ number ws / 2 ^ s % 2 ^ bits
field_from s bits ws all h p fits =
    let v = field_at ws bits (s / 64) (s % 64) in
    let found : v % 2 ^ bits ≡ number ws / 2 ^ s % 2 ^ bits =
      field-number (s / 64) (s % 64) bits ws all (omega arith) (omega arith) p (omega arith)
      ∙ ap (λ (d : ℕ). number ws / 2 ^ d % 2 ^ bits) {x = 64 * (s / 64) + s % 64} {y = s}
          (omega arith) in
    ground (arith, small_field v bits h, found)

-- A whole field is that many binary digits of the array as one number.
pub palette_index_at_lem :
    (ws : List ℕ) (bits index : ℕ)
    → All Word ws
    → bits ≤ 32
    → 0 < bits
    → index * bits + bits ≤ 64 * length ws
    → 64 * length ws < 2 ^ 64
    → palette_index_at ws bits index ≡ number ws / 2 ^ (index * bits) % 2 ^ bits
unfolding palette_index_at
palette_index_at_lem ws bits index all h p fits small =
    rw (mod-eq_of_lt {n = index * bits} {m = 2 ^ 64} (omega arith))
      (field_from (index * bits) bits ws all h p fits)
