-- ===== src/Litematic/Packed/Pack.antt =====
-- What src/formats/litematic_writer.cpp packs is one number, in the base of the field width.
use Prim.Native.Nat.{bit_or}
use native.Mathlib.Nat.{
  add-mul-div_right, add-mul-mod_self_right, zero-div, zero-mod, mul-le-mul, mod-add-div', mod-lt,
  mod-eq_of_lt, mul_assoc, add-mul, pow-le-pow_right, mul-le-mul_right, div-le_self, div-eq_of_lt,
  div-div-eq-div-mul,
}
use water_structure_cpp.Common.{
  ℕ, zero, suc, ◌+◌, ◌-◌, ◌*◌, ◌/◌, ◌%◌, ◌^◌, ◌≤◌, ◌<◌, ◌≡◌, refl, sym, ap, ◌∙◌, arith, List, [],
  ◌∷◌, length, get_or, replicate, All, Bool-cases, inl, inr, ltb, not_ltb→le, ltb→lt, subst,
  length-replicate,
}
use water_structure_cpp.Litematic.Packed.{
  put_field, put_value, put_values, pack, word_count, shift_left, palette_index_at,
}
use water_structure_cpp.Litematic.Packed.Arith.{or_fields, zero-or, pow_add, pow_pos}
use water_structure_cpp.Litematic.Packed.Unpack.{
  number, Word, word_split, shift_left_lem, palette_index_at_lem,
}

-- What a write of a field leaves of the array.
abbrev Put : List ℕ → List ℕ → ℕ → Type 0
Put before after n =
    (number after ≡ number before + n) × All Word after × (length after ≡ length before)

-- The part of a value that stays in its word.
low_part :
    (cur v o : ℕ)
    → cur < 2 ^ o
    → o < 64
    → (bit_or cur (shift_left v o) ≡ cur + v % 2 ^ (64 - o) * 2 ^ o)
      × (cur + v % 2 ^ (64 - o) * 2 ^ o < 2 ^ 64)
low_part cur v o c h =
    let b = 2 ^ (64 - o) in
    let below =
      mul-le-mul_right {m = v % b + 1} {n = b} (2 ^ o)
        (omega (arith, mod-lt v (pow_pos (64 - o)))) in
    (
      ap (bit_or cur) (shift_left_lem v o (omega arith)) ∙ or_fields o cur (v % b) c,
      omega (arith, below, add-mul (v % b) 1 (2 ^ o), word_split o (omega arith)),
    )

put-cons :
    (w : ℕ) (ws : List ℕ) (bits word o v : ℕ)
    → put_field bits (suc word) o v (w ∷ ws) ≡ w ∷ put_field bits word o v ws
unfolding put_field
put-cons w ws bits word o v = ground arith

Put-within :
    (w : ℕ) (ws : List ℕ) (bits o v : ℕ)
    → All Word ws
    → w < 2 ^ o
    → number ws ≡ 0
    → v < 2 ^ bits
    → o + bits ≤ 64
    → o < 64
    → Put (w ∷ ws) (bit_or w (shift_left v o) ∷ ws) (v * 2 ^ o)
Put-within w ws bits o v all small empty value fits h =
    let (e, bound) = low_part w v o small h in
    let whole : v % 2 ^ (64 - o) ≡ v = mod-eq_of_lt (
      omega
        (arith, pow-le-pow_right {n = 2} (omega arith) {i = bits} {j = 64 - o} (omega arith))) in
    let product = ap (λ (d : ℕ). d * 2 ^ o) whole in
    (omega (arith, e, product), (omega (arith, e, bound), all), refl)

Put-across :
    (w next : ℕ) (ws : List ℕ) (bits o v : ℕ)
    → All Word ws
    → w < 2 ^ o
    → number (next ∷ ws) ≡ 0
    → v < 2 ^ bits
    → bits ≤ 64
    → o < 64
    → Put
        (w ∷ next ∷ ws)
        (bit_or w (shift_left v o) ∷ bit_or next (v / 2 ^ (64 - o)) ∷ ws)
        (v * 2 ^ o)
Put-across w next ws bits o v all small empty value fits h =
    let b = 2 ^ (64 - o) in
    let (e, bound) = low_part w v o small h in
    let none_yet : next ≡ 0 = omega (arith, empty) in
    let e' : bit_or next (v / b) ≡ v / b = rw none_yet (zero-or (v / b)) in
    let split : v * 2 ^ o ≡ v % b * 2 ^ o + v / b * 2 ^ 64 =
      ap (λ (d : ℕ). d * 2 ^ o) (sym (mod-add-div' v b))
      ∙ add-mul (v % b) (v / b * b) (2 ^ o)
      ∙ ap (λ (d : ℕ). v % b * 2 ^ o + d)
          (mul_assoc (v / b) b (2 ^ o) ∙ ap (λ (d : ℕ). v / b * d) (word_split o (omega arith))) in
    let high : v / b < 2 ^ 64 =
      omega
        (arith, div-le_self v b, pow-le-pow_right {n = 2} (omega arith) {i = bits} {j = 64} fits) in
    (
      omega (arith, e, e', split, empty),
      (omega (arith, e, bound), (omega (arith, e', high), all)),
      refl,
    )

top_empty : (w n o : ℕ) → o < 64 → w + n * 2 ^ 64 < 2 ^ o → (n ≡ 0) × (w < 2 ^ o)
top_empty w n o h below =
    omega (arith, pow-le-pow_right {n = 2} (omega arith) {i = o} {j = 64} (omega arith))

Put-first :
    (o bits v : ℕ) (ws : List ℕ)
    → All Word ws
    → number ws < 2 ^ o
    → v < 2 ^ bits
    → bits ≤ 64
    → 0 < bits
    → o < 64
    → o + bits ≤ 64 * length ws
    → Put ws (put_field bits 0 o v ws) (v * 2 ^ o)
unfolding put_field
Put-first o bits v [] all below value h p k fits = absurd (omega arith)
Put-first o bits v (w ∷ []) (a, all) below value h p k fits =
    let (empty, small) = top_empty w 0 o k below in
    let r = Put-within w [] bits o v all small refl value (omega arith) k in
    elim (Bool-cases (ltb 64 (o + bits))) [
      | inl over ↦ absurd (omega (arith, ltb→lt 64 (o + bits) over))
      | inr within ↦ rw within r
    ]
Put-first o bits v (w ∷ next ∷ ws) (a, all) below value h p k fits =
    let (empty, small) = top_empty w (number (next ∷ ws)) o k below in
    elim (Bool-cases (ltb 64 (o + bits))) [
      | inl over ↦ rw over (Put-across w next ws bits o v all.1 small empty value h k)
      | inr within ↦ rw within (
          Put-within w (next ∷ ws) bits o v all small empty value (not_ltb→le 64 (o + bits) within)
            k)
    ]

-- A field is added above what is there.
put_field_lem :
    (word o bits v : ℕ) (ws : List ℕ)
    → All Word ws
    → number ws < 2 ^ (64 * word + o)
    → v < 2 ^ bits
    → bits ≤ 64
    → 0 < bits
    → o < 64
    → 64 * word + (o + bits) ≤ 64 * length ws
    → Put ws (put_field bits word o v ws) (v * 2 ^ (64 * word + o))
put_field_lem zero o bits v ws all below value h p k fits =
    let at : o ≡ 64 * 0 + o = omega arith in
    subst (λ (d : ℕ). Put ws (put_field bits 0 o v ws) (v * 2 ^ d)) at
      (Put-first o bits v ws all (subst (λ (d : ℕ). number ws < 2 ^ d) (sym at) below) value h p k
        (omega arith))
put_field_lem (suc word) o bits v [] all below value h p k fits = absurd (omega arith)
put_field_lem (suc word) o bits v (w ∷ ws) (a, all) below value h p k fits =
    let d = 2 ^ (64 * word + o) in
    let power : 2 ^ (64 * suc word + o) ≡ d * 2 ^ 64 =
      ap (λ (k : ℕ). 2 ^ k) {x = 64 * suc word + o} {y = 64 * word + o + 64} (omega arith)
      ∙ pow_add (64 * word + o) 64 in
    let (sum, words, count) =
      put_field_lem word o bits v ws all (omega (arith, below, power)) value h p k (omega arith) in
    let product : v * 2 ^ (64 * suc word + o) ≡ v * d * 2 ^ 64 =
      ap (λ (k : ℕ). v * k) power ∙ sym (mul_assoc v d (2 ^ 64)) in
    subst (λ l. Put (w ∷ ws) l (v * 2 ^ (64 * suc word + o))) (sym (put-cons w ws bits word o v))
      (omega (arith, sum, product), (a, words), ap suc count)

put_value_lem :
    (bits index v : ℕ) (ws : List ℕ)
    → All Word ws
    → number ws < 2 ^ (index * bits)
    → v < 2 ^ bits
    → bits ≤ 64
    → 0 < bits
    → index * bits + bits ≤ 64 * length ws
    → 64 * length ws < 2 ^ 64
    → Put ws (put_value bits index v ws) (v * 2 ^ (index * bits))
unfolding put_value
put_value_lem bits index v ws all below value h p fits small =
    let s = index * bits in
    let at : 64 * (s / 64) + s % 64 ≡ s = omega arith in
    rw (mod-eq_of_lt {n = index * bits} {m = 2 ^ 64} (omega arith)) (
      subst (λ (d : ℕ). Put ws (put_field bits (s / 64) (s % 64) v ws) (v * 2 ^ d)) at
        (put_field_lem (s / 64) (s % 64) bits v ws all
          (subst (λ (d : ℕ). number ws < 2 ^ d) (sym at) below) value h p (omega arith)
          (omega arith)))

-- The values as digits of one number, the first lowest.
abbrev fields : ℕ → List ℕ → ℕ
fields bits [] = 0
fields bits (v ∷ vs) = v + fields bits vs * 2 ^ bits

put_values_lem :
    (bits index : ℕ) (vs ws : List ℕ)
    → All Word ws
    → number ws < 2 ^ (index * bits)
    → All (λ v. v < 2 ^ bits) vs
    → bits ≤ 64
    → 0 < bits
    → (index + length vs) * bits ≤ 64 * length ws
    → 64 * length ws < 2 ^ 64
    → Put ws (put_values bits index vs ws) (fields bits vs * 2 ^ (index * bits))
unfolding put_values
put_values_lem bits index [] ws all below values h p fits small = (omega arith, all, refl)
put_values_lem bits index (v ∷ vs) ws all below (value, values) h p fits small =
    let d = 2 ^ (index * bits) in
    let power : 2 ^ ((index + 1) * bits) ≡ 2 ^ bits * d =
      ap (λ (k : ℕ). 2 ^ k) {x = (index + 1) * bits} {y = bits + index * bits}
        (omega (arith, add-mul index 1 bits))
      ∙ pow_add bits (index * bits) in
    let room = mul-le-mul_right {m = index + 1} {n = index + suc (length vs)} bits (omega arith) in
    let (sum, words, count) =
      put_value_lem bits index v ws all below value h p (omega (arith, room, add-mul index 1 bits))
        small in
    let filled : number (put_value bits index v ws) < 2 ^ ((index + 1) * bits) = omega (
      arith,
      sum,
      below,
      power,
      mul-le-mul_right {m = v + 1} {n = 2 ^ bits} d (omega arith),
      add-mul v 1 d,
    ) in
    let (sum', words', count') =
      put_values_lem bits (index + 1) vs (put_value bits index v ws) words filled values h p
        (omega (
          arith,
          count,
          ap (λ (k : ℕ). k * bits) {x = index + 1 + length vs} {y = index + suc (length vs)}
              (omega arith),
          fits,
        ))
        (omega (arith, count)) in
    (
      omega (
        arith,
        sum,
        sum',
        ap (λ (k : ℕ). fields bits vs * k) power,
        add-mul v (fields bits vs * 2 ^ bits) d,
        mul_assoc (fields bits vs) (2 ^ bits) d,
      ),
      words',
      count' ∙ count,
    )

nothing_there : (d m : ℕ) → 0 < m → 0 / d % m ≡ 0
nothing_there d m p = ap (λ (k : ℕ). k % m) (zero-div d) ∙ zero-mod m

field-of :
    (bits i : ℕ) (vs : List ℕ)
    → All (λ v. v < 2 ^ bits) vs
    → fields bits vs / 2 ^ (i * bits) % 2 ^ bits ≡ get_or vs i 0
field-of bits i [] h = nothing_there (2 ^ (i * bits)) (2 ^ bits) (pow_pos bits)
field-of bits zero (v ∷ vs) (h, hs) =
    let n = v + fields bits vs * 2 ^ bits in
    ap (λ (k : ℕ). n / 2 ^ k % 2 ^ bits) {x = 0 * bits} {y = 0} (omega arith)
    ∙ ap (λ (k : ℕ). k % 2 ^ bits) {x = n / 1} {y = n} (omega arith)
    ∙ add-mul-mod_self_right v (fields bits vs) (2 ^ bits)
    ∙ mod-eq_of_lt h
field-of bits (suc i) (v ∷ vs) (h, hs) =
    let n = v + fields bits vs * 2 ^ bits in
    let rest : n / 2 ^ bits ≡ fields bits vs =
      add-mul-div_right v (fields bits vs) (pow_pos bits)
      ∙ ap (λ (k : ℕ). k + fields bits vs) (div-eq_of_lt h)
      ∙ omega arith in
    ap (λ (k : ℕ). n / 2 ^ k % 2 ^ bits) {x = suc i * bits} {y = bits + i * bits}
      (omega (arith, add-mul i 1 bits))
    ∙ ap (λ (k : ℕ). n / k % 2 ^ bits) (pow_add bits (i * bits))
    ∙ ap (λ (k : ℕ). k % 2 ^ bits) (sym (div-div-eq-div-mul n (2 ^ bits) (2 ^ (i * bits))))
    ∙ ap (λ (k : ℕ). k / 2 ^ (i * bits) % 2 ^ bits) rest
    ∙ field-of bits i vs hs

no_words : (n : ℕ) → (number (replicate n 0) ≡ 0) × All Word (replicate n 0)
no_words zero = (refl, tt)
no_words (suc n) = let (empty, words) = no_words n in (omega (arith, empty), (omega arith, words))

enough_for :
    (p : ℕ)
    → p ≤ 2 ^ 36
    → (p ≤ 64 * ((p % 2 ^ 64 + 63) % 2 ^ 64 / 64))
      × (64 * ((p % 2 ^ 64 + 63) % 2 ^ 64 / 64) < 2 ^ 64)
enough_for p h = omega arith

-- The words are enough for the fields, and few enough to be counted in 64 bits.
enough_words :
    (n bits : ℕ)
    → n < 2 ^ 31
    → bits ≤ 32
    → (n * bits ≤ 64 * word_count n bits) × (64 * word_count n bits < 2 ^ 64)
unfolding word_count
enough_words n bits h k =
    enough_for (n * bits) (mul-le-mul {n₁ = n} {m₁ = bits} {n₂ = 2 ^ 31} {m₂ = 32} (omega arith) k)

-- Packing any values below `2 ^ bits`, and reading the field of one of them, gives it back.
pub unpack-pack :
    (bits index : ℕ) (values : List ℕ)
    → All (λ v. v < 2 ^ bits) values
    → bits ≤ 32
    → 0 < bits
    → length values < 2 ^ 31
    → index < length values
    → palette_index_at (pack bits values) bits index ≡ get_or values index 0
unfolding pack
unpack-pack bits index values all h p small inside =
    let count = word_count (length values) bits in
    let empty : List ℕ = replicate count 0 in
    let (none_yet, words) = no_words count in
    let (enough, few) = enough_words (length values) bits small h in
    let size : length empty ≡ count = length-replicate {A = ℕ} count 0 in
    let (sum, words', count') =
      put_values_lem bits 0 values empty words (omega (arith, none_yet, pow_pos (0 * bits))) all
        (omega arith) p (omega (arith, size, enough)) (omega (arith, size, few)) in
    let room = mul-le-mul_right {m = index + 1} {n = length values} bits (omega arith) in
    let unit : fields bits values * 2 ^ (0 * bits) ≡ fields bits values =
      ap (λ (k : ℕ). fields bits values * 2 ^ k) {x = 0 * bits} {y = 0} (omega arith)
      ∙ omega arith in
    palette_index_at_lem (put_values bits 0 values empty) bits index words' h p
      (omega (arith, room, add-mul index 1 bits, enough, size, count'))
      (omega (arith, size, few, count'))
    ∙ ap (λ (k : ℕ). k / 2 ^ (index * bits) % 2 ^ bits) (omega (arith, sum, none_yet, unit))
    ∙ field-of bits index values all
