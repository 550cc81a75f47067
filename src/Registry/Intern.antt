-- ===== src/Registry/Intern.antt =====
-- `register_state` of src/core/runtime_registry.cpp, without upgrades, gives out ids as an interner
-- gives out positions: by the keys alone.
use native.Mathlib.Nat.{mod-eq_of_lt}
use water_structure_cpp.Common.{
  ℕ, zero, suc, ◌+◌, ◌-◌, ◌^◌, ◌≤◌, ◌<◌, ◌≡◌, refl, sym, ap, ◌∙◌, subst, List, [], ◌∷◌, ◌++◌, map,
  Option, none, some, length, length-append, get_elem?, arith, Bool-cases, Option-cases, ◌⊎◌, inl,
  inr, if◌then◌else◌,
}
use water_structure_cpp.Canonical.{ByteList}
use water_structure_cpp.Canonical.States.{BlockState, bytes_eq}
use water_structure_cpp.Canonical.States.Order.{bytes_eq→eq, bytes_eq_self}
use water_structure_cpp.Registry.{
  RuntimeRegistry, find_id, find_state, prepared, key_for, state_key_for, assign, register_state,
  or_same_state, or_assign, if_upgraded, make_registry, empty_registry, air_state, normalize_name,
  upgraded, upgraded_by,
}

abbrev pub shifted : Option ℕ → Option ℕ
shifted none = none
shifted (some i) = some (suc i)

-- The position of a key among those that were met.
pub position : ByteList → List ByteList → Option ℕ
unfolding bytes_eq
position key [] = none
position key (k ∷ ks) = if bytes_eq k key then some 0 else shifted (position key ks)

abbrev found_or_new : ByteList → List ByteList → Option ℕ → ℕ × List ByteList
found_or_new key keys (some i) = (i, keys)
found_or_new key keys none = (length keys, keys ++ key ∷ [])

-- The specification: a key's position in the order in which the keys are first met.
pub intern : ByteList → List ByteList → ℕ × List ByteList
unfolding position
intern key keys = found_or_new key keys (position key keys)

pub intern_all : List ByteList → List ByteList → List ℕ
unfolding intern
intern_all [] keys = []
intern_all (key ∷ rest) keys = let (i, keys') = intern key keys in i ∷ intern_all rest keys'

-- The ids of a sequence of calls.
pub register_all : List BlockState → RuntimeRegistry → List ℕ
unfolding register_state
register_all [] r = []
register_all (s ∷ rest) r = let (id, r') = register_state r s in id ∷ register_all rest r'

shifted-none : (o : Option ℕ) → shifted o ≡ none → o ≡ none
shifted-none none h = refl
shifted-none (some i) h = absurd (ground arith)

position-append :
    (k key : ByteList) (ks : List ByteList)
    → position key ks ≡ none
    → position k (ks ++ key ∷ []) ≡ (if bytes_eq key k then some (length ks) else position k ks)
unfolding position
position-append k key [] h = refl
position-append k key (j ∷ ks) h = elim (Bool-cases (bytes_eq j k)) [
  | inl same ↦
      let e : j ≡ k = bytes_eq→eq j k same in
      elim (Bool-cases (bytes_eq key k)) [
        | inl also ↦
            let e' : key ≡ k = bytes_eq→eq key k also in
            absurd
              (ground (arith, h, bytes_eq_self k, ap (λ z. bytes_eq z key) e, ap (bytes_eq k) e'))
        | inr other ↦ ground (arith, same, other)
      ]
  | inr different ↦
      let rest : position key ks ≡ none = elim (Bool-cases (bytes_eq j key)) [
        | inl same ↦ absurd (ground (arith, h, same))
        | inr other ↦ shifted-none (position key ks) (ground (arith, h, other))
      ] in
      ground (arith, different, position-append k key ks rest)
]

pub key_of : BlockState → ByteList
key_of s = key_for s.name s.states s.version

-- The registry has given out as many ids as there are keys, the one at position `i` is `i + 1`, and
-- its state has the key.
pub record Refines (keys : List ByteList) (r : RuntimeRegistry) : Type 0 where
  pub plain : r.upgrade ≡ none
  pub counted : r.next_runtime_id ≡ suc (length keys)
  pub keyed : (key : ByteList) → find_id r.by_key key ≡ shifted (position key keys)
  pub stated :
      (i : ℕ) (key : ByteList)
      → get_elem? keys i ≡ some key
      → (s : BlockState) × (find_state r.by_runtime_id (suc i) ≡ some s) × (key_of s ≡ key)
  pub fresh : (i : ℕ) → length keys < i → find_state r.by_runtime_id i ≡ none

position-at :
    (key : ByteList) (ks : List ByteList) (i : ℕ) → position key ks ≡ some i → i < length ks
unfolding position
position-at key [] i h = absurd (ground arith)
position-at key (k ∷ ks) i h = elim (Option-cases (position key ks)) [
  | inl none_there ↦ ground (arith, none_there)
  | inr (j, there) ↦ ground (arith, there, position-at key ks j there)
]

-- The key that `register_state` makes of a state.
pub key_by : RuntimeRegistry → BlockState → ByteList
key_by r s = key_of (prepared r s)

-- A key at a position is one of the old ones, or the new one at the end.
elem-append_one :
    (ks : List ByteList) (key k : ByteList) (i : ℕ)
    → get_elem? (ks ++ key ∷ []) i ≡ some k
    → (get_elem? ks i ≡ some k) ⊎ ((i ≡ length ks) × (key ≡ k))
elem-append_one [] key k zero h = inr (refl, cc)
elem-append_one [] key k (suc i) h = absurd (ground arith)
elem-append_one (j ∷ ks) key k zero h = inl h
elem-append_one (j ∷ ks) key k (suc i) h = elim (elem-append_one ks key k i h) [
  | inl old ↦ inl old
  | inr (at, e) ↦ inr (ap suc at, e)
]

inside : {A : Type 0} (xs : List A) (i : ℕ) {a : A} → get_elem? xs i ≡ some a → i < length xs
inside [] i h = absurd (ground arith)
inside (x ∷ xs) zero h = omega arith
inside (x ∷ xs) (suc i) h = omega (arith, inside xs i h)

assign-Refines :
    (r : RuntimeRegistry) (ks : List ByteList) (s : BlockState) (state_key : ByteList)
    → Refines ks r
    → suc (suc (length ks)) < 2 ^ 32
    → position (key_of s) ks ≡ none
    → let (id, r') = assign r s (key_of s) state_key in
      (id ≡ suc (length ks)) × Refines (ks ++ key_of s ∷ []) r'
unfolding assign
assign-Refines r ks s state_key ref small new =
    let key = key_of s in
    let id = r.next_runtime_id in
    let absent : find_id r.by_key key ≡ none = ref.keyed key ∙ ap shifted new in
    let unused : find_state r.by_runtime_id id ≡ none = ref.fresh id (omega (arith, ref.counted)) in
    let size = length-append ks (key ∷ []) in
    rw (absent, unused)
      (
        ref.counted,
        record {
          plain = ref.plain;
          counted = omega (
            arith,
            ref.counted,
            size,
            mod-eq_of_lt {n = id + 1} {m = 2 ^ 32} (omega (arith, ref.counted)),
          );
          keyed = λ k. ground (arith, position-append k key ks new, ref.keyed k, ref.counted);
          stated = λ i k at. elim (elem-append_one ks key k i at) [
            | inl old ↦
                let (st, found, e) = ref.stated i k old in
                (st, ground (arith, ref.counted, found, inside ks i old), e)
            | inr (last, e) ↦ (s, ground (arith, ref.counted, last), e)
          ];
          fresh = λ i h. ground (arith, ref.counted, size, ref.fresh i (omega (arith, h, size)));
        },
      )

found-Refines :
    (r : RuntimeRegistry) (ks : List ByteList) (s : BlockState) (state_key : ByteList)
    (at : Option ℕ)
    → Refines ks r
    → suc (suc (length ks)) < 2 ^ 32
    → position (key_of s) ks ≡ at
    → let (id, r') = or_same_state r s (key_of s) state_key (shifted at) in
      let (i, ks') = found_or_new (key_of s) ks at in (id ≡ suc i) × Refines ks' r'
found-Refines r ks s state_key (some i) ref small e = (refl, ref)
found-Refines r ks s state_key none ref small e =
    subst
      (λ u.
        let (id, r') =
          or_assign r s (key_of s) state_key (if_upgraded u (find_id r.by_state_key state_key)) in
        (id ≡ suc (length ks)) × Refines (ks ++ key_of s ∷ []) r')
      (sym ref.plain) (assign-Refines r ks s state_key ref small e)

-- One call is one step of the specification.
register_state-Refines :
    (r : RuntimeRegistry) (ks : List ByteList) (s : BlockState)
    → Refines ks r
    → suc (suc (length ks)) < 2 ^ 32
    → let (id, r') = register_state r s in
      let (i, ks') = intern (key_by r s) ks in (id ≡ suc i) × Refines ks' r'
unfolding register_state intern key_by key_of
register_state-Refines r ks s ref small =
    let p = prepared r s in
    subst
      (λ o.
        let (id, r') = or_same_state r p (key_of p) (state_key_for p.name p.states) o in
        let (i, ks') = found_or_new (key_of p) ks (position (key_of p) ks) in
        (id ≡ suc i) × Refines ks' r')
      (sym (ref.keyed (key_of p)))
      (found-Refines r ks p (state_key_for p.name p.states) (position (key_of p) ks) ref small refl)

-- The key of a state without upgrades, by its normalized name.
pub plain_key : BlockState → ByteList
plain_key s = key_for (normalize_name s.name) s.states s.version

key_by-plain : (r : RuntimeRegistry) (s : BlockState) → r.upgrade ≡ none → key_by r s ≡ plain_key s
unfolding key_by key_of plain_key prepared upgraded
key_by-plain r s e =
    ap
      (λ (u : Option (BlockState → BlockState)).
        let p = upgraded_by u s in key_for (normalize_name p.name) p.states p.version)
      e

length-intern : (key : ByteList) (ks : List ByteList) → length (intern key ks).1 ≤ length ks + 1
unfolding intern
length-intern key ks = elim (Option-cases (position key ks)) [
  | inl new ↦ rw new (omega (arith, length-append ks (key ∷ [])))
  | inr (i, old) ↦ rw old (omega arith)
]

register_all-intern_all :
    (states : List BlockState) (r : RuntimeRegistry) (ks : List ByteList)
    → Refines ks r
    → length ks + length states < 2 ^ 32 - 1
    → register_all states r ≡ map suc (intern_all (map plain_key states) ks)
unfolding register_all intern_all
register_all-intern_all [] r ks ref small = refl
register_all-intern_all (s ∷ rest) r ks ref small =
    let (id, ref') =
      subst
        (λ k.
          ((register_state r s).0 ≡ suc (intern k ks).0)
          × Refines (intern k ks).1 (register_state r s).1)
        (key_by-plain r s ref.plain) (register_state-Refines r ks s ref (omega arith)) in
    let others =
      register_all-intern_all rest (register_state r s).1 (intern (plain_key s) ks).1 ref'
        (omega (arith, length-intern (plain_key s) ks)) in
    λ i. id i ∷ others i

empty-Refines : Refines [] empty_registry
unfolding find_id find_state position
empty-Refines = record {
  plain = refl;
  counted = refl;
  keyed = λ key. refl;
  stated = λ i key h. absurd (ground arith);
  fresh = λ i h. refl;
}

start-Refines : Refines (plain_key air_state ∷ []) make_registry
unfolding make_registry intern position
start-Refines =
    let (e, ref) =
      subst
        (λ k.
          ((register_state empty_registry air_state).0 ≡ suc (intern k []).0)
          × Refines (intern k []).1 (register_state empty_registry air_state).1)
        (key_by-plain empty_registry air_state refl)
        (register_state-Refines empty_registry [] air_state empty-Refines (omega arith)) in
    record {
      plain = ref.plain;
      counted = ref.counted;
      keyed = ref.keyed;
      stated = ref.stated;
      fresh = ref.fresh;
    }

-- A registry that has loaded no upgrades gives out, for every sequence of states that is short of the
-- ids, the ids that an interner of their keys would: one more than the position of the state's key in
-- the order in which the keys are first met, where the key of air is met first. A state whose key is
-- known gets the id of that key, and no other state does.
pub register_all-interns :
    (states : List BlockState)
    → length states < 2 ^ 32 - 2
    → register_all states make_registry
      ≡ map suc (intern_all (map plain_key states) (plain_key air_state ∷ []))
register_all-interns states small =
    register_all-intern_all states make_registry (plain_key air_state ∷ []) start-Refines
      (omega arith)
