-- ===== src/Litematic/Writer/Palette.antt =====
-- The palette that src/formats/litematic_writer.cpp collects has each block's state under its key.
use water_structure_cpp.Common.{
  ℕ, zero, suc, ◌+◌, ◌≤◌, ◌≡◌, refl, sym, subst, List, [], ◌∷◌, ◌++◌, Option, none, some, length,
  length-append, get_elem?, All, arith, Bool-cases, inl, inr,
}
use water_structure_cpp.Canonical.{ByteList}
use water_structure_cpp.Canonical.States.{BlockState, bytes_eq}
use water_structure_cpp.Canonical.States.Order.{bytes_eq→eq, bytes_eq_self}
use water_structure_cpp.Litematic.Writer.{
  PaletteTable, index_at, append_state, add_states, start_palette,
}

get_elem?-append {ℓ} :
    {A : Type ℓ} (xs ys : List A) (i : ℕ) {a : A}
    → get_elem? xs i ≡ some a
    → get_elem? (xs ++ ys) i ≡ some a
get_elem?-append [] ys i h = ground arith
get_elem?-append (x ∷ xs) ys zero h = h
get_elem?-append (x ∷ xs) ys (suc i) h = get_elem?-append xs ys i h

get_elem?-last {ℓ} :
    {A : Type ℓ} (xs : List A) (a : A) → get_elem? (xs ++ a ∷ []) (length xs) ≡ some a
get_elem?-last [] a = refl
get_elem?-last (x ∷ xs) a = get_elem?-last xs a

module _ (key_of : BlockState → ByteList) where
  -- A state of the palette at an index, with the key.
  abbrev pub Holds : List BlockState → ℕ → ByteList → Type 0
  Holds states i key =
      (state : BlockState) × (get_elem? states i ≡ some state) × (key_of state ≡ key)

  abbrev pub IsSound : PaletteTable → Type 0
  IsSound p = (key : ByteList) (i : ℕ) → index_at p.indices key ≡ some i → Holds p.states i key

  abbrev pub Has : PaletteTable → ByteList → Type 0
  Has p key = (i : ℕ) × (index_at p.indices key ≡ some i)

  add-IsSound :
      (state : BlockState) (p : PaletteTable) (known : Option ℕ)
      → IsSound p
      → IsSound (append_state p (key_of state) state known)
  unfolding index_at
  add-IsSound state p (some j) sound = sound
  add-IsSound state p none sound = λ key i e. elim (Bool-cases (bytes_eq (key_of state) key)) [
    | inl same ↦
        let at : i ≡ length p.states = ground (arith, same, e) in
        (
          state,
          subst (λ (n : ℕ). get_elem? (p.states ++ state ∷ []) n ≡ some state) (sym at)
              (get_elem?-last p.states state),
          bytes_eq→eq (key_of state) key same,
        )
    | inr other ↦
        let (found, here, keyed) = sound key i (ground (arith, other, e)) in
        (found, get_elem?-append p.states (state ∷ []) i here, keyed)
  ]

  add-Has :
      (state : BlockState) (p : PaletteTable) (known : Option ℕ) (key : ByteList)
      → Has p key
      → Has (append_state p (key_of state) state known) key
  unfolding index_at
  add-Has state p (some j) key has = has
  add-Has state p none key (i, e) = elim (Bool-cases (bytes_eq (key_of state) key)) [
    | inl same ↦ (length p.states, ground (arith, same))
    | inr other ↦ (i, ground (arith, other, e))
  ]

  added :
      (state : BlockState) (p : PaletteTable) (known : Option ℕ)
      → index_at p.indices (key_of state) ≡ known
      → Has (append_state p (key_of state) state known) (key_of state)
  unfolding index_at
  added state p (some j) e = (j, e)
  added state p none e = (length p.states, ground (arith, bytes_eq_self (key_of state)))

  length-append_state :
      (state : BlockState) (p : PaletteTable) (known : Option ℕ)
      → length (append_state p (key_of state) state known).states ≤ length p.states + 1
  length-append_state state p (some j) = omega arith
  length-append_state state p none = omega (arith, length-append p.states (state ∷ []))

  pub add_states-IsSound :
      (states : List BlockState) (p : PaletteTable)
      → IsSound p
      → IsSound (add_states key_of states p)
  unfolding add_states
  add_states-IsSound [] p sound = sound
  add_states-IsSound (state ∷ rest) p sound =
      add_states-IsSound rest
        (append_state p (key_of state) state (index_at p.indices (key_of state)))
        (add-IsSound state p (index_at p.indices (key_of state)) sound)

  add_states-Has :
      (states : List BlockState) (p : PaletteTable) (key : ByteList)
      → Has p key
      → Has (add_states key_of states p) key
  unfolding add_states
  add_states-Has [] p key has = has
  add_states-Has (state ∷ rest) p key has =
      add_states-Has rest (append_state p (key_of state) state (index_at p.indices (key_of state)))
        key (add-Has state p (index_at p.indices (key_of state)) key has)

  pub add_states-All :
      (states : List BlockState) (p : PaletteTable)
      → All (λ state. Has (add_states key_of states p) (key_of state)) states
  unfolding add_states
  add_states-All [] p = tt
  add_states-All (state ∷ rest) p =
      let known = index_at p.indices (key_of state) in
      let p' = append_state p (key_of state) state known in
      (add_states-Has rest p' (key_of state) (added state p known refl), add_states-All rest p')

  pub length-add_states :
      (states : List BlockState) (p : PaletteTable)
      → length (add_states key_of states p).states ≤ length p.states + length states
  unfolding add_states
  length-add_states [] p = omega arith
  length-add_states (state ∷ rest) p =
      let known = index_at p.indices (key_of state) in
      omega (
        arith,
        length-append_state state p known,
        length-add_states rest (append_state p (key_of state) state known),
      )

  pub start-IsSound : (air_state : BlockState) → IsSound (start_palette key_of air_state)
  unfolding start_palette index_at
  start-IsSound air_state = λ key i e. elim (Bool-cases (bytes_eq (key_of air_state) key)) [
    | inl same ↦
        let at : i ≡ 0 = ground (arith, same, e) in
        (
          air_state,
          subst (λ (n : ℕ). get_elem? (air_state ∷ []) n ≡ some air_state) (sym at) refl,
          bytes_eq→eq (key_of air_state) key same,
        )
    | inr other ↦ absurd (ground (arith, other, e))
  ]
