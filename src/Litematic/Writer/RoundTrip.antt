-- ===== src/Litematic/Writer/RoundTrip.antt =====
-- What src/formats/litematic_writer.cpp packs, read by `palette_index_at` of src/formats/litematic.cpp.
use native.Mathlib.Nat.{pow-le-pow_right}
use water_structure_cpp.Common.{
  ℕ, zero, suc, ◌^◌, ◌≤◌, ◌<◌, ◌≡◌, refl, sym, ap, ◌∙◌, subst, List, [], ◌∷◌, map, length-map, some,
  length, get_elem?, get_or, All, arith, leb, Bool-cases, inl, inr, leb→le,
}
use water_structure_cpp.Canonical.{ByteList}
use water_structure_cpp.Canonical.States.{BlockState}
use water_structure_cpp.Litematic.Packed.{bits_for_palette, palette_index_at, pack}
use water_structure_cpp.Litematic.Packed.Bits.{bits_for_palette_fit}
use water_structure_cpp.Litematic.Packed.Pack.{unpack-pack}
use water_structure_cpp.Litematic.Writer.{
  PaletteTable, add_states, start_palette, value_of, or_zero, encode_states,
}
use water_structure_cpp.Litematic.Writer.Palette.{
  Holds, IsSound, Has, add_states-IsSound, add_states-All, length-add_states, start-IsSound,
}

inside_of_elem {ℓ} :
    {A : Type ℓ} (xs : List A) (i : ℕ) {a : A} → get_elem? xs i ≡ some a → i < length xs
inside_of_elem [] i h = absurd (ground arith)
inside_of_elem (x ∷ xs) zero h = omega arith
inside_of_elem (x ∷ xs) (suc i) h = omega (arith, inside_of_elem xs i h)

get_or-map :
    {A : Type 0} (f : A → ℕ) (xs : List A) (i : ℕ) {a : A}
    → get_elem? xs i ≡ some a
    → get_or (map f xs) i 0 ≡ f a
get_or-map f [] i h = absurd (ground arith)
get_or-map f (x ∷ xs) zero {a} h = let e : x ≡ a = cc in ap f e
get_or-map f (x ∷ xs) (suc i) h = get_or-map f xs i h

-- Few bits where the palette is small.
few_bits : (size : ℕ) → size ≤ 2 ^ 31 → bits_for_palette size ≤ 32
few_bits size h =
    let bits = bits_for_palette size in
    let (fit, two, most, least) = bits_for_palette_fit size (omega arith) in
    elim (Bool-cases (leb 33 bits)) [
      | inl many ↦
          let big : 2 ^ 33 ≤ 2 ^ bits =
            pow-le-pow_right {n = 2} (omega arith) {i = 33} {j = bits} (leb→le 33 bits many) in
          absurd
            (omega (arith, leb→le 33 bits many, least (omega (arith, leb→le 33 bits many)), big))
      | inr few ↦ ground (arith, few)
    ]

module _ (key_of : BlockState → ByteList) where
  value-Holds :
      (p : PaletteTable) (state : BlockState)
      → IsSound key_of p
      → Has key_of p (key_of state)
      → Holds key_of p.states (value_of key_of p.indices state) (key_of state)
  unfolding value_of
  value-Holds p state sound (i, e) =
      subst (λ o. Holds key_of p.states (or_zero o) (key_of state)) (sym e)
        (sound (key_of state) i e)

  values_fit :
      (p : PaletteTable) (bits : ℕ) (states : List BlockState)
      → IsSound key_of p
      → length p.states ≤ 2 ^ bits
      → All (λ state. Has key_of p (key_of state)) states
      → All (λ v. v < 2 ^ bits) (map (value_of key_of p.indices) states)
  values_fit p bits [] sound fit has = tt
  values_fit p bits (state ∷ rest) sound fit (h, has) =
      let (found, here, keyed) = value-Holds p state sound h in
      (
        omega (arith, fit, inside_of_elem p.states (value_of key_of p.indices state) here),
        values_fit p bits rest sound fit has,
      )

  elem-All :
      (P : BlockState → Type 0) (states : List BlockState) (i : ℕ) {state : BlockState}
      → All P states
      → get_elem? states i ≡ some state
      → P state
  elem-All P [] i a h = absurd (ground arith)
  elem-All P (x ∷ xs) zero {state} (p, _) h = let e : x ≡ state = cc in subst P e p
  elem-All P (x ∷ xs) (suc i) (_, ps) h = elem-All P xs i ps h

  one_state : (air_state : BlockState) → length (start_palette key_of air_state).states ≡ 1
  unfolding start_palette
  one_state air_state = refl

  pub encode_states_lem :
      (air_state state : BlockState) (states : List BlockState) (index : ℕ)
      → length states < 2 ^ 31
      → get_elem? states index ≡ some state
      → let encoded = encode_states key_of air_state states in
        Holds key_of encoded.0
          (palette_index_at encoded.1 (bits_for_palette (length encoded.0)) index)
          (key_of state)
  unfolding encode_states
  encode_states_lem air_state state states index few here =
      let start = start_palette key_of air_state in
      let p = add_states key_of states start in
      let size = length p.states in
      let bits = bits_for_palette size in
      let sound = add_states-IsSound key_of states start (start-IsSound key_of air_state) in
      let has = add_states-All key_of states start in
      let (fit, two, most, least) =
        bits_for_palette_fit size
          (omega (arith, length-add_states key_of states start, one_state air_state)) in
      let values = map (value_of key_of p.indices) states in
      let value = value_of key_of p.indices state in
      let read : palette_index_at (pack bits values) bits index ≡ value =
        unpack-pack bits index values (values_fit p bits states sound fit has)
          (few_bits size
            (omega (arith, length-add_states key_of states start, one_state air_state)))
          (omega arith) (omega (arith, length-map states (value_of key_of p.indices)))
          (omega (
            arith,
            inside_of_elem states index here,
            length-map states (value_of key_of p.indices),
          ))
        ∙ get_or-map (value_of key_of p.indices) states index here in
      subst (λ (v : ℕ). Holds key_of p.states v (key_of state)) (sym read)
        (value-Holds p state sound
          (elem-All (λ st. Has key_of p (key_of st)) states index has here))
