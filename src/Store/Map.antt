-- ===== src/Store/Map.antt =====
-- `std::map` with block positions for keys, as the list of its entries in the order of the keys.
use water_structure_cpp.Common.{
  ◌+◌, ◌≡◌, refl, ap, ◌⊎◌, inl, inr, Bool-cases, true, false, not, ◌&&◌, List, [], ◌∷◌, Option,
  none, some, if◌then◌else◌, arith,
}
use water_structure_cpp.Common.Int.{ℤ, pos_part, neg_part, ◌<ℤ◌, eq_of_parts}
use water_structure_cpp.Coordinates.{BlockPos, block_lt, block_eq}

abbrev pub Entries {ℓ} : Type ℓ → Type ℓ
Entries V = List (BlockPos × V)

module _ {ℓ} {V : Type ℓ} where
  -- `find`
  unfoldable pub lookup : BlockPos → Entries V → Option V
  lookup p [] = none
  lookup p ((q, v) ∷ m) = if block_eq q p then some v else lookup p m

  -- `m[p] = v`
  unfoldable pub insert : BlockPos → V → Entries V → Entries V
  insert p v [] = (p, v) ∷ []
  insert p v ((q, w) ∷ m) =
      if block_lt p q
      then (p, v) ∷ (q, w) ∷ m
      else if block_eq q p
      then (p, v) ∷ m
      else (q, w) ∷ insert p v m

  unfoldable pub erase : BlockPos → Entries V → Entries V
  erase p [] = []
  erase p ((q, v) ∷ m) = if block_eq q p then erase p m else (q, v) ∷ erase p m

  -- The entries from `lower_bound(lo)` up to `upper_bound(hi)`.
  unfoldable pub range : BlockPos → BlockPos → Entries V → Entries V
  range lo hi [] = []
  range lo hi ((q, v) ∷ m) =
      if not (block_lt q lo) && not (block_lt hi q) then (q, v) ∷ range lo hi m else range lo hi m

-- Each key is greater than the one before, the first than `p`.
abbrev pub Above {ℓ} : {V : Type ℓ} → BlockPos → Entries V → Type 0
Above p [] = Unit {0}
Above p ((q, v) ∷ m) = (block_lt p q ≡ true) × Above q m

abbrev pub IsSorted {ℓ} : {V : Type ℓ} → Entries V → Type 0
IsSorted [] = Unit {0}
IsSorted ((q, v) ∷ m) = Above q m

-- The order of the keys, as a statement that arithmetic reads.
abbrev pub EqualZ : ℤ → ℤ → Type 0
EqualZ a b = pos_part a + neg_part b ≡ pos_part b + neg_part a

abbrev pub Less : BlockPos → BlockPos → Type 0
Less p q = (p.x <ℤ q.x) ⊎ (EqualZ p.x q.x × ((p.y <ℤ q.y) ⊎ (EqualZ p.y q.y × (p.z <ℤ q.z))))

pub block_lt→Less : (p q : BlockPos) → block_lt p q ≡ true → Less p q
unfolding block_lt
block_lt→Less p q h = ground arith

pub Less→block_lt : (p q : BlockPos) → Less p q → block_lt p q ≡ true
unfolding block_lt
Less→block_lt p q h = ground arith

pub block_eq→EqualZ :
    (p q : BlockPos) → block_eq p q ≡ true → EqualZ p.x q.x × EqualZ p.y q.y × EqualZ p.z q.z
unfolding block_eq
block_eq→EqualZ p q h = ground arith

pub EqualZ→block_eq :
    (p q : BlockPos) → EqualZ p.x q.x → EqualZ p.y q.y → EqualZ p.z q.z → block_eq p q ≡ true
unfolding block_eq
EqualZ→block_eq p q hx hy hz = ground arith

pub block_eq→eq : (p q : BlockPos) → block_eq p q ≡ true → p ≡ q
block_eq→eq p q h =
    let (hx, hy, hz) = block_eq→EqualZ p q h in
    position_path (eq_of_parts p.x q.x hx) (eq_of_parts p.y q.y hy) (eq_of_parts p.z q.z hz)
  where
    position_path : {p q : BlockPos} → p.x ≡ q.x → p.y ≡ q.y → p.z ≡ q.z → p ≡ q
    position_path hx hy hz = λ i. record { x = hx i; y = hy i; z = hz i }

pub block_eq_refl : (p : BlockPos) → block_eq p p ≡ true
block_eq_refl p = EqualZ→block_eq p p refl refl refl

pub Less-trans : (p q r : BlockPos) → Less p q → Less q r → Less p r
Less-trans p q r (inl a) (inl b) = inl (omega arith)
Less-trans p q r (inl a) (inr (b, c)) = inl (omega arith)
Less-trans p q r (inr (a, c)) (inl b) = inl (omega arith)
Less-trans p q r (inr (a, inl b)) (inr (c, inl d)) = inr (omega arith, inl (omega arith))
Less-trans p q r (inr (a, inl b)) (inr (c, inr (d, e))) = inr (omega arith, inl (omega arith))
Less-trans p q r (inr (a, inr (b, f))) (inr (c, inl d)) = inr (omega arith, inl (omega arith))
Less-trans p q r (inr (a, inr (b, f))) (inr (c, inr (d, e))) =
    inr (omega arith, inr (omega arith, omega arith))

pub block_lt_trans :
    (p q r : BlockPos) → block_lt p q ≡ true → block_lt q r ≡ true → block_lt p r ≡ true
block_lt_trans p q r h k =
    Less→block_lt p r (Less-trans p q r (block_lt→Less p q h) (block_lt→Less q r k))

pub block_lt_irrefl : (p q : BlockPos) → block_lt p q ≡ true → block_eq q p ≡ false
block_lt_irrefl p q h = elim (Bool-cases (block_eq q p)) [
  | inl same ↦ absurd (apart (block_lt→Less p q h) (block_eq→EqualZ q p same))
  | inr other ↦ other
]
  where
    apart : Less p q → EqualZ q.x p.x × EqualZ q.y p.y × EqualZ q.z p.z → ⊥
    apart (inl a) (hx, hy, hz) = omega arith
    apart (inr (a, inl b)) (hx, hy, hz) = omega arith
    apart (inr (a, inr (b, c))) (hx, hy, hz) = omega arith

-- Keys that are neither equal nor in order are in the other order.
pub block_lt_total :
    (p q : BlockPos) → block_lt p q ≡ false → block_eq q p ≡ false → block_lt q p ≡ true
unfolding block_lt block_eq
block_lt_total p q h k = ground arith

pub block_eq_left : (q p k : BlockPos) → block_eq q p ≡ true → block_eq q k ≡ block_eq p k
block_eq_left q p k h = ap (λ r. block_eq r k) (block_eq→eq q p h)

pub block_eq_right : (p k q : BlockPos) → block_eq p k ≡ true → block_eq q p ≡ block_eq q k
block_eq_right p k q h = ap (block_eq q) (block_eq→eq p k h)

module _ {ℓ} {V : Type ℓ} where
  pub lookup-insert :
      (p k : BlockPos) (v : V) (m : Entries V)
      → lookup k (insert p v m) ≡ (if block_eq p k then some v else lookup k m)
  unfolding lookup insert
  lookup-insert p k v [] = refl
  lookup-insert p k v ((q, w) ∷ m) =
      ground (arith, block_eq_left q p k, block_eq_right p k q, lookup-insert p k v m)

  pub lookup-erase :
      (p k : BlockPos) (m : Entries V)
      → lookup k (erase p m) ≡ (if block_eq p k then none else lookup k m)
  unfolding lookup erase
  lookup-erase p k [] = ground arith
  lookup-erase p k ((q, w) ∷ m) =
      ground (arith, block_eq_left q p k, block_eq_right p k q, lookup-erase p k m)

  Above-trans : (p q : BlockPos) (m : Entries V) → block_lt p q ≡ true → Above q m → Above p m
  Above-trans p q [] h a = tt
  Above-trans p q ((r, w) ∷ m) h (k, a) = (block_lt_trans p q r h k, a)

  -- No entry has a key at or below the bound.
  pub lookup-Above : (p : BlockPos) (m : Entries V) → Above p m → lookup p m ≡ none
  unfolding lookup
  lookup-Above p [] a = refl
  lookup-Above p ((q, w) ∷ m) (h, a) =
      rw (block_lt_irrefl p q h) (lookup-Above p m (Above-trans p q m h a))

  insert-Above :
      (b p : BlockPos) (v : V) (m : Entries V)
      → block_lt b p ≡ true
      → Above b m
      → Above b (insert p v m)
  unfolding insert
  insert-Above b p v [] h a = (h, tt)
  insert-Above b p v ((q, w) ∷ m) h (k, a) =
      ground (arith, block_eq→eq q p, block_lt_total p q, insert-Above q p v m, Above-trans p q m)

  erase-Above : (b p : BlockPos) (m : Entries V) → Above b m → Above b (erase p m)
  unfolding erase
  erase-Above b p [] a = tt
  erase-Above b p ((q, w) ∷ m) (k, a) =
      ground (arith, erase-Above q p m a, Above-trans b q (erase p m) k)

  pub Above→IsSorted : (b : BlockPos) (m : Entries V) → Above b m → IsSorted m
  Above→IsSorted b [] a = tt
  Above→IsSorted b ((r, x) ∷ m) (h, a) = a

  pub insert-IsSorted :
      (p : BlockPos) (v : V) (m : Entries V) → IsSorted m → IsSorted (insert p v m)
  unfolding insert
  insert-IsSorted p v [] a = tt
  insert-IsSorted p v ((q, w) ∷ m) a =
      ground (arith, block_eq→eq q p, block_lt_total p q, insert-Above q p v m)

  pub erase-IsSorted : (p : BlockPos) (m : Entries V) → IsSorted m → IsSorted (erase p m)
  unfolding erase
  erase-IsSorted p [] a = tt
  erase-IsSorted p ((q, w) ∷ m) a = elim (Bool-cases (block_eq q p)) [
    | inl same ↦ rw same (erase-IsSorted p m (Above→IsSorted q m a))
    | inr other ↦ rw other (erase-Above q p m a)
  ]
