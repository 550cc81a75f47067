-- ===== src/Canonical/States/Order.antt =====
-- The comparison of block properties of src/core/canonical.cpp is a strict order whose ties are equal.
use water_structure_cpp.Common.{◌≡◌, refl, sym, ap, ◌∙◌, true, false, [], ◌∷◌, arith}
use water_structure_cpp.Canonical.{ByteList}
use water_structure_cpp.Canonical.States.{
  BlockStateValueType, kind_value, BlockStateProperty, bytes_lt, bytes_eq, property_lt,
}
use water_structure_cpp.Canonical.States.Sorted.{StrictOrder}

bytes_lt_asym : (s t : ByteList) → bytes_lt s t ≡ true → bytes_lt t s ≡ false
unfolding bytes_lt
bytes_lt_asym [] [] h = refl
bytes_lt_asym [] (d ∷ t) h = refl
bytes_lt_asym (c ∷ s) [] h = ground arith
bytes_lt_asym (c ∷ s) (d ∷ t) h = ground (arith, bytes_lt_asym s t)

bytes_lt_transitive :
    (s t u : ByteList) → bytes_lt s t ≡ true → bytes_lt t u ≡ true → bytes_lt s u ≡ true
unfolding bytes_lt
bytes_lt_transitive s [] u h k = ground arith
bytes_lt_transitive s (d ∷ t) [] h k = ground arith
bytes_lt_transitive [] (d ∷ t) (e ∷ u) h k = refl
bytes_lt_transitive (c ∷ s) (d ∷ t) (e ∷ u) h k = ground (arith, bytes_lt_transitive s t u)

bytes_lt_connected : (s t : ByteList) → bytes_lt s t ≡ false → bytes_lt t s ≡ false → s ≡ t
unfolding bytes_lt
bytes_lt_connected [] [] h k = refl
bytes_lt_connected [] (d ∷ t) h k = ground arith
bytes_lt_connected (c ∷ s) [] h k = ground arith
bytes_lt_connected (c ∷ s) (d ∷ t) h k =
    let heads : c ≡ d = ground arith in
    let tails : s ≡ t = bytes_lt_connected s t (ground arith) (ground arith) in
    λ i. heads i ∷ tails i

pub bytes_eq_self : (s : ByteList) → bytes_eq s s ≡ true
unfolding bytes_eq
bytes_eq_self [] = refl
bytes_eq_self (c ∷ s) = ground (arith, bytes_eq_self s)

pub bytes_eq→eq : (s t : ByteList) → bytes_eq s t ≡ true → s ≡ t
unfolding bytes_eq
bytes_eq→eq [] [] h = refl
bytes_eq→eq [] (d ∷ t) h = ground arith
bytes_eq→eq (c ∷ s) [] h = ground arith
bytes_eq→eq (c ∷ s) (d ∷ t) h =
    let heads : c ≡ d = ground arith in
    let tails : s ≡ t = bytes_eq→eq s t (ground arith) in λ i. heads i ∷ tails i

kind_value_injective : (j k : BlockStateValueType) → kind_value j ≡ kind_value k → j ≡ k
kind_value_injective j k h = ground arith

-- What the comparison decides by, as facts of one alternative each.
property_lt_asym : (p q : BlockStateProperty) → property_lt p q ≡ true → property_lt q p ≡ false
unfolding property_lt
property_lt_asym p q h = ground (
  arith,
  bytes_eq→eq p.name q.name,
  bytes_eq→eq q.name p.name,
  bytes_eq_self p.name,
  bytes_eq_self q.name,
  bytes_lt_asym p.name q.name,
  bytes_lt_asym p.value q.value,
)

-- Equal names may stand for one another.
bytes_eq_left :
    (s t u : ByteList)
    → bytes_eq s t ≡ true
    → (bytes_lt s u ≡ bytes_lt t u) × (bytes_eq s u ≡ bytes_eq t u)
bytes_eq_left s t u h =
    (ap (λ w. bytes_lt w u) (bytes_eq→eq s t h), ap (λ w. bytes_eq w u) (bytes_eq→eq s t h))

bytes_eq_right :
    (s t u : ByteList)
    → bytes_eq t u ≡ true
    → (bytes_lt s t ≡ bytes_lt s u) × (bytes_eq s t ≡ bytes_eq s u)
bytes_eq_right s t u h = (ap (bytes_lt s) (bytes_eq→eq t u h), ap (bytes_eq s) (bytes_eq→eq t u h))

bytes_lt-apart : (s t : ByteList) → bytes_lt s t ≡ true → bytes_eq s t ≡ false
unfolding bytes_lt bytes_eq
bytes_lt-apart [] [] h = ground arith
bytes_lt-apart [] (d ∷ t) h = refl
bytes_lt-apart (c ∷ s) [] h = ground arith
bytes_lt-apart (c ∷ s) (d ∷ t) h = ground (arith, bytes_lt-apart s t)

property_lt_transitive :
    (p q r : BlockStateProperty)
    → property_lt p q ≡ true
    → property_lt q r ≡ true
    → property_lt p r ≡ true
unfolding property_lt
property_lt_transitive p q r h k = ground (
  arith,
  h,
  k,
  bytes_eq_left p.name q.name r.name,
  bytes_eq_right p.name q.name r.name,
  bytes_lt-apart p.name r.name,
  bytes_lt_transitive p.name q.name r.name,
  bytes_lt_transitive p.value q.value r.value,
)

property_lt_connected :
    (p q : BlockStateProperty) → property_lt p q ≡ false → property_lt q p ≡ false → p ≡ q
unfolding property_lt
property_lt_connected p q h k =
    let names : p.name ≡ q.name = ground (
      arith,
      h,
      k,
      bytes_eq→eq p.name q.name,
      bytes_eq→eq q.name p.name,
      bytes_lt_connected p.name q.name,
    ) in
    let kinds : p.kind ≡ q.kind =
      kind_value_injective p.kind q.kind (ground (arith, h, k, names_equal p.name q.name names)) in
    let values : p.value ≡ q.value =
      bytes_lt_connected p.value q.value
        (ground (arith, h, k, names_equal p.name q.name names, ap kind_value kinds))
        (ground (arith, h, k, names_equal p.name q.name names, ap kind_value kinds)) in
    λ i. record { name = names i; kind = kinds i; value = values i }
  where
    names_equal : (s t : ByteList) → s ≡ t → (bytes_eq s t ≡ true) × (bytes_eq t s ≡ true)
    names_equal s t e =
        (ap (bytes_eq s) (sym e) ∙ bytes_eq_self s, ap (λ w. bytes_eq t w) e ∙ bytes_eq_self t)

pub property_lt-StrictOrder : StrictOrder property_lt
property_lt-StrictOrder = record {
  asym = property_lt_asym;
  transitive = property_lt_transitive;
  connected = property_lt_connected;
}
