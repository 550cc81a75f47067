-- ===== src/RunAway/Placement.antt =====
-- The normalization of src/formats/runaway.cpp: at each position the last entry of the file wins.
use water_structure_cpp.Common.{
  ℕ, ◌≡◌, refl, sym, ap, subst, ◌∙◌, true, false, [], ◌∷◌, Option, none, some, Bool-cases, inl, inr,
  arith, if◌then◌else◌,
}
use water_structure_cpp.Coordinates.{BlockPos, block_lt, block_eq}
use water_structure_cpp.Store.Map.{
  Entries, lookup, Above, IsSorted, block_eq→eq, block_eq_refl, Less-trans, Less→block_lt,
  block_lt→Less,
}
use water_structure_cpp.RunAway.{insert_stable, stable_sort, last_of_runs, distinct}

abbrev or_else : Option ℕ → Option ℕ → Option ℕ
or_else none o = o
or_else (some v) o = some v

-- The runtime id of the last entry at a position.
abbrev pub last_placed : BlockPos → Entries ℕ → Option ℕ
last_placed p [] = none
last_placed p ((q, v) ∷ l) = or_else (last_placed p l) (if block_eq q p then some v else none)

-- No entry is less than the one before it, the first not less than `p`.
abbrev Ascending : BlockPos → Entries ℕ → Type 0
Ascending p [] = Unit {0}
Ascending p ((q, v) ∷ l) = (block_lt q p ≡ false) × Ascending q l

abbrev IsAscending : Entries ℕ → Type 0
IsAscending [] = Unit {0}
IsAscending ((q, v) ∷ l) = Ascending q l

lt_apart : (p q : BlockPos) → block_lt p q ≡ true → (block_eq p q ≡ false) × (block_lt q p ≡ false)
unfolding block_lt block_eq
lt_apart p q h = (ground arith, ground arith)

lt_connected : (p q : BlockPos) → block_lt p q ≡ false → block_eq p q ≡ false → block_lt q p ≡ true
unfolding block_lt block_eq
lt_connected p q h k = ground arith

lt_then : (p q r : BlockPos) → block_lt p q ≡ true → block_lt r q ≡ false → block_lt p r ≡ true
lt_then p q r h k = elim (Bool-cases (block_eq r q)) [
  | inl same ↦ ap (block_lt p) (block_eq→eq r q same) ∙ h
  | inr apart ↦
      Less→block_lt p r
        (Less-trans p q r (block_lt→Less p q h) (block_lt→Less q r (lt_connected r q k apart)))
]

eq_symmetric : (p q : BlockPos) → block_eq p q ≡ block_eq q p
unfolding block_eq
eq_symmetric p q = ground arith

-- Positions are in order, and equality is what the order leaves.
order_facts :
    (p q r : BlockPos)
    → (block_lt p q ≡ true → block_eq p q ≡ false)
      × (block_lt p q ≡ true → block_lt q p ≡ false)
      × (block_lt p q ≡ true → block_lt r q ≡ false → block_lt p r ≡ true)
      × (block_lt p q ≡ false → block_eq p q ≡ false → block_lt q p ≡ true)
      × (block_eq p q ≡ true → block_eq p r ≡ block_eq q r)
      × (block_eq p q ≡ true → block_lt p r ≡ block_lt q r)
      × (block_eq p q ≡ block_eq q p)
      × (block_eq p p ≡ true)
order_facts p q r = (
  λ h. (lt_apart p q h).0,
  λ h. (lt_apart p q h).1,
  lt_then p q r,
  lt_connected p q,
  λ h. ap (λ w. block_eq w r) (block_eq→eq p q h),
  λ h. ap (λ w. block_lt w r) (block_eq→eq p q h),
  eq_symmetric p q,
  block_eq_refl p,
)

last_placed-insert_stable :
    (p q : BlockPos) (v : ℕ) (l : Entries ℕ)
    → last_placed p (insert_stable (q, v) l) ≡ last_placed p ((q, v) ∷ l)
unfolding insert_stable
last_placed-insert_stable p q v [] = refl
last_placed-insert_stable p q v ((r, w) ∷ l) = ground (
  arith,
  last_placed-insert_stable p q v l,
  order_facts r q p,
  order_facts r p q,
  order_facts q p r,
)

last_placed-stable_sort :
    (p : BlockPos) (l : Entries ℕ) → last_placed p (stable_sort l) ≡ last_placed p l
unfolding stable_sort
last_placed-stable_sort p [] = refl
last_placed-stable_sort p ((q, v) ∷ l) =
    last_placed-insert_stable p q v (stable_sort l)
    ∙ ap (λ o. or_else o (if block_eq q p then some v else none)) (last_placed-stable_sort p l)

insert_stable-Ascending :
    (p q : BlockPos) (v : ℕ) (l : Entries ℕ)
    → block_lt q p ≡ false
    → Ascending p l
    → Ascending p (insert_stable (q, v) l)
unfolding insert_stable
insert_stable-Ascending p q v [] h a = ground (arith, h)
insert_stable-Ascending p q v ((r, w) ∷ l) h (k, a) = elim (Bool-cases (block_lt r q)) [
  | inl before ↦
      rw before (k, insert_stable-Ascending r q v l (ground (arith, order_facts r q p)) a)
  | inr not_before ↦ rw not_before (h, (not_before, a))
]

insert_stable-IsAscending :
    (q : BlockPos) (v : ℕ) (l : Entries ℕ) → IsAscending l → IsAscending (insert_stable (q, v) l)
unfolding insert_stable
insert_stable-IsAscending q v [] a = tt
insert_stable-IsAscending q v ((r, w) ∷ l) a = elim (Bool-cases (block_lt r q)) [
  | inl before ↦ rw before (insert_stable-Ascending r q v l (ground (arith, order_facts r q q)) a)
  | inr not_before ↦ rw not_before (not_before, a)
]

stable_sort-IsAscending : (l : Entries ℕ) → IsAscending (stable_sort l)
unfolding stable_sort
stable_sort-IsAscending [] = tt
stable_sort-IsAscending ((q, v) ∷ l) =
    insert_stable-IsAscending q v (stable_sort l) (stable_sort-IsAscending l)

-- Beyond a position nothing is placed at it.
last_placed-beyond :
    (p q : BlockPos) (l : Entries ℕ) → block_lt p q ≡ true → Ascending q l → last_placed p l ≡ none
last_placed-beyond p q [] h a = refl
last_placed-beyond p q ((r, w) ∷ l) h (k, a) =
    let further : block_lt p r ≡ true = lt_then p q r h k in
    ground (arith, further, last_placed-beyond p r l further a, order_facts p r r)

-- Where `selected` stands at `p`, nothing after the run does.
run_ends :
    (p b s r : BlockPos) (w : ℕ) (l : Entries ℕ)
    → block_eq s b ≡ true
    → block_lt r b ≡ false
    → block_eq r b ≡ false
    → Ascending r l
    → block_eq s p ≡ true
    → last_placed p ((r, w) ∷ l) ≡ none
run_ends p b s r w l e k new a h =
    let less : block_lt b r ≡ true = lt_connected r b k new in
    let here : b ≡ p = sym (block_eq→eq s b e) ∙ block_eq→eq s p h in
    let before : block_lt p r ≡ true = ap (λ q. block_lt q r) (sym here) ∙ less in
    ground (arith, before, last_placed-beyond p r l before a, order_facts p r r)

-- The loop over the runs, where `selected` stands at the position of `begin`.
lookup-last_of_runs :
    (p b s : BlockPos) (u v : ℕ) (l : Entries ℕ)
    → block_eq s b ≡ true
    → Ascending b l
    → lookup p (last_of_runs (b, u) (s, v) l)
      ≡ or_else (last_placed p l) (if block_eq s p then some v else none)
unfolding last_of_runs lookup
lookup-last_of_runs p b s u v [] e a = ground (arith)
lookup-last_of_runs p b s u v ((r, w) ∷ l) e (k, a) = elim (Bool-cases (block_eq r b)) [
  | inl same ↦ rw same (
      lookup-last_of_runs p b r u w l same (subst (λ q. Ascending q l) (block_eq→eq r b same) a)
      ∙ ground (arith, e, same, order_facts s b p, order_facts r b p))
  | inr new ↦ rw new (
      ground (
        arith,
        lookup-last_of_runs p r r w w l (block_eq_refl r) a,
        run_ends p b s r w l e k new a,
      ))
]

Above-last_of_runs :
    (o b s : BlockPos) (u v : ℕ) (l : Entries ℕ)
    → block_eq s b ≡ true
    → block_lt o b ≡ true
    → Ascending b l
    → Above o (last_of_runs (b, u) (s, v) l)
unfolding last_of_runs
Above-last_of_runs o b s u v [] e h a = (ap (block_lt o) (block_eq→eq s b e) ∙ h, tt)
Above-last_of_runs o b s u v ((r, w) ∷ l) e h (k, a) = elim (Bool-cases (block_eq r b)) [
  | inl same ↦
      rw same (
        Above-last_of_runs o b r u w l same h (subst (λ q. Ascending q l) (block_eq→eq r b same) a))
  | inr new ↦ rw new (
    ap (block_lt o) (block_eq→eq s b e) ∙ h,
    Above-last_of_runs s r r w w l (block_eq_refl r)
        (ap (λ q. block_lt q r) (block_eq→eq s b e) ∙ lt_connected r b k new) a,
  )
]

IsSorted-last_of_runs :
    (b s : BlockPos) (u v : ℕ) (l : Entries ℕ)
    → block_eq s b ≡ true
    → Ascending b l
    → IsSorted (last_of_runs (b, u) (s, v) l)
unfolding last_of_runs
IsSorted-last_of_runs b s u v [] e a = tt
IsSorted-last_of_runs b s u v ((r, w) ∷ l) e (k, a) = elim (Bool-cases (block_eq r b)) [
  | inl same ↦
      rw same
        (IsSorted-last_of_runs b r u w l same (subst (λ q. Ascending q l) (block_eq→eq r b same) a))
  | inr new ↦ rw new (
      Above-last_of_runs s r r w w l (block_eq_refl r)
        (ap (λ q. block_lt q r) (block_eq→eq s b e) ∙ lt_connected r b k new) a)
]

distinct_lem :
    (p : BlockPos) (l : Entries ℕ)
    → IsAscending l
    → IsSorted (distinct l) × (lookup p (distinct l) ≡ last_placed p l)
unfolding distinct lookup
distinct_lem p [] a = (tt, refl)
distinct_lem p ((b, u) ∷ l) a = (
  IsSorted-last_of_runs b b u u l (block_eq_refl b) a,
  lookup-last_of_runs p b b u u l (block_eq_refl b) a,
)

-- The stable sort and the loop over the runs leave each position once, in ascending order, with the
-- runtime id that the last entry of the file for that position gives: the last placement wins.
pub last_placement_wins :
    (entries : Entries ℕ) (p : BlockPos)
    → IsSorted (distinct (stable_sort entries))
      × (lookup p (distinct (stable_sort entries)) ≡ last_placed p entries)
last_placement_wins entries p =
    let (sorted, found) = distinct_lem p (stable_sort entries) (stable_sort-IsAscending entries) in
    (sorted, found ∙ last_placed-stable_sort p entries)
