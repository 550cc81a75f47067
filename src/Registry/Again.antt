-- ===== src/Registry/Again.antt =====
-- What is registered in src/core/runtime_registry.cpp is found again.
use water_structure_cpp.Common.{
  ℕ, ◌≡◌, refl, sym, ap, ◌∙◌, subst, List, [], ◌∷◌, Option, none, some, arith, Bool-cases,
  Option-cases, inl, inr, ◌⊎◌, ◌≢◌,
}
use water_structure_cpp.Canonical.{ByteList}
use water_structure_cpp.Canonical.States.{BlockState, bytes_eq}
use water_structure_cpp.Canonical.States.Order.{bytes_eq→eq, bytes_eq_self}
use water_structure_cpp.Registry.{
  RuntimeRegistry, Ids, emplace_unless, find_id, prepared, key_for, state_key_for, assign,
  register_state, or_same_state, or_assign, if_upgraded, find_compatible, or_else, only_if,
  no_properties, upgraded, upgraded_by, normalize_name,
}

-- The second call, and the look-up, once the keys are made.
abbrev Again : RuntimeRegistry → BlockState → ByteList → ByteList → Option ℕ → Type 0
Again r p key state_key at =
    let (id, r') = or_same_state r p key state_key at in
    (or_same_state r' p key state_key (find_id r'.by_key key) ≡ (id, r'))
    × (or_else (find_id r'.by_key key) (
          or_else (find_id r'.by_state_key state_key)
            (only_if (no_properties p) (find_id r'.by_name p.name)))
        ≡ some id)
    × (r'.upgrade ≡ r.upgrade)

assigned-Again :
    (r : RuntimeRegistry) (p : BlockState) (key state_key : ByteList)
    → find_id r.by_key key ≡ none
    → find_id (assign r p key state_key).1.by_key key ≡ some (assign r p key state_key).0
unfolding assign find_id
assigned-Again r p key state_key new = rw new (ground (arith, bytes_eq_self key))

or_else-some : {o : Option ℕ} (other : Option ℕ) {id : ℕ} → o ≡ some id → or_else o other ≡ some id
or_else-some other h = ap (λ o. or_else o other) h

if_upgraded-some :
    (u : Option (BlockState → BlockState)) (found : Option ℕ) {id : ℕ}
    → if_upgraded u found ≡ some id
    → found ≡ some id
if_upgraded-some none found h = absurd (ground arith)
if_upgraded-some (some f) found h = h

-- Where the key is new: the same state is there, or an id is assigned.
new-Again :
    (r : RuntimeRegistry) (p : BlockState) (key state_key : ByteList) (seen : Option ℕ)
    → find_id r.by_key key ≡ none
    → if_upgraded r.upgrade (find_id r.by_state_key state_key) ≡ seen
    → let (id, r') = or_assign r p key state_key seen in
      (or_same_state r' p key state_key (find_id r'.by_key key) ≡ (id, r'))
      × (or_else (find_id r'.by_key key) (
            or_else
              (find_id r'.by_state_key state_key)
              (only_if (no_properties p) (find_id r'.by_name p.name)))
          ≡ some id)
      × (r'.upgrade ≡ r.upgrade)
unfolding assign
new-Again r p key state_key (some id) h e =
    let there = if_upgraded-some r.upgrade (find_id r.by_state_key state_key) e in
    (
      ap (or_same_state r p key state_key) h ∙ ap (or_assign r p key state_key) e,
      rw (h, there) refl,
      refl,
    )
new-Again r p key state_key none h e =
    let there = assigned-Again r p key state_key h in
    (
      ap (or_same_state (assign r p key state_key).1 p key state_key) there,
      or_else-some _ there,
      refl,
    )

cases-Again :
    (r : RuntimeRegistry) (p : BlockState) (key state_key : ByteList) (at : Option ℕ)
    → find_id r.by_key key ≡ at
    → Again r p key state_key at
cases-Again r p key state_key (some id) h = rw h (refl, refl, refl)
cases-Again r p key state_key none h =
    new-Again r p key state_key (if_upgraded r.upgrade (find_id r.by_state_key state_key)) h refl

prepared-upgrade :
    (r r' : RuntimeRegistry) (s : BlockState)
    → r'.upgrade ≡ r.upgrade
    → prepared r' s ≡ prepared r s
unfolding prepared upgraded
prepared-upgrade r r' s e =
    ap
      (λ (u : Option (BlockState → BlockState)).
        let p = upgraded_by u s in record p { name = normalize_name p.name })
      e

again_at_once :
    (r : RuntimeRegistry) (s : BlockState)
    → let (id, r') = register_state r s in
      (register_state r' s ≡ (id, r')) × (find_compatible r' s ≡ some id)
unfolding register_state find_compatible
again_at_once r s =
    let p = prepared r s in
    let key = key_for p.name p.states p.version in
    let state_key = state_key_for p.name p.states in
    let (again, found, same) = cases-Again r p key state_key (find_id r.by_key key) refl in
    subst
      (λ q.
        let (id, r') = or_same_state r p key state_key (find_id r.by_key key) in
        let key' = key_for q.name q.states q.version in
        let state_key' = state_key_for q.name q.states in
        (or_same_state r' q key' state_key' (find_id r'.by_key key') ≡ (id, r'))
        × (or_else (find_id r'.by_key key') (
              or_else (find_id r'.by_state_key state_key')
                (only_if (no_properties q) (find_id r'.by_name q.name)))
            ≡ some id))
      (sym (prepared-upgrade r (or_same_state r p key state_key (find_id r.by_key key)).1 s same))
      (again, found)

-- The registry after more registrations.
pub registered : List BlockState → RuntimeRegistry → RuntimeRegistry
unfolding register_state
registered [] r = r
registered (s ∷ rest) r = registered rest (register_state r s).1

-- A key that has an id keeps it, and the upgrades stay.
record Keeps (r r' : RuntimeRegistry) (key : ByteList) (id : ℕ) : Type 0 where
  keyed : find_id r'.by_key key ≡ some id
  same_upgrade : r'.upgrade ≡ r.upgrade

emplace-Keeps :
    (m : Ids) (key k : ByteList) (id new : ℕ)
    → find_id m key ≡ some id
    → find_id (emplace_unless (find_id m k) m k new) key ≡ some id
unfolding find_id
emplace-Keeps m key k id new h = elim (Option-cases (find_id m k)) [
  | inr (old, e) ↦ rw e h
  | inl e ↦ elim (Bool-cases (bytes_eq k key)) [
    | inr other ↦ rw (e, other) h
    | inl same ↦ absurd (none_not_some (sym e ∙ ap (find_id m) (bytes_eq→eq k key same) ∙ h))
  ]
]
  where
    none_not_some : {i : ℕ} → none ≢ some i
    none_not_some e = cc

module _ (r : RuntimeRegistry) (p : BlockState) (k state_key key : ByteList) (id : ℕ)
    (h : find_id r.by_key key ≡ some id) where
  or_assign-Keeps : (seen : Option ℕ) → Keeps r (or_assign r p k state_key seen).1 key id
  unfolding assign
  or_assign-Keeps (some old) = record { keyed = h; same_upgrade = refl }
  or_assign-Keeps none = record {
    keyed = emplace-Keeps r.by_key key k id r.next_runtime_id h;
    same_upgrade = refl;
  }

  or_same_state-Keeps : (at : Option ℕ) → Keeps r (or_same_state r p k state_key at).1 key id
  or_same_state-Keeps (some old) = record { keyed = h; same_upgrade = refl }
  or_same_state-Keeps none =
      or_assign-Keeps (if_upgraded r.upgrade (find_id r.by_state_key state_key))

registered-Keeps :
    (later : List BlockState) (r : RuntimeRegistry) (key : ByteList) (id : ℕ)
    → find_id r.by_key key ≡ some id
    → Keeps r (registered later r) key id
unfolding registered register_state
registered-Keeps [] r key id h = record { keyed = h; same_upgrade = refl }
registered-Keeps (s ∷ later) r key id h =
    let p = prepared r s in
    let k = key_for p.name p.states p.version in
    let once =
      or_same_state-Keeps r p k (state_key_for p.name p.states) key id h (find_id r.by_key k) in
    let rest = registered-Keeps later (register_state r s).1 key id once.keyed in
    record { keyed = rest.keyed; same_upgrade = rest.same_upgrade ∙ once.same_upgrade }

-- Without upgrades a registered state has its key.
keyed_once :
    (r : RuntimeRegistry) (p : BlockState) (key state_key : ByteList) (at : Option ℕ)
    → r.upgrade ≡ none
    → find_id r.by_key key ≡ at
    → let (id, r') = or_same_state r p key state_key at in
      (find_id r'.by_key key ≡ some id) × (r'.upgrade ≡ r.upgrade)
keyed_once r p key state_key (some id) plain h = (h, refl)
keyed_once r p key state_key none plain h =
    let new : if_upgraded r.upgrade (find_id r.by_state_key state_key) ≡ none =
      ap (λ u. if_upgraded u (find_id r.by_state_key state_key)) plain in
    rw new (assigned-Again r p key state_key h, unfold assign in refl)

-- A state whose key is there.
keyed-again :
    (r : RuntimeRegistry) (s q : BlockState) (id : ℕ)
    → prepared r s ≡ q
    → find_id r.by_key (key_for q.name q.states q.version) ≡ some id
    → (register_state r s ≡ (id, r)) × (find_compatible r s ≡ some id)
unfolding register_state find_compatible
keyed-again r s q id e h =
    let p = prepared r s in
    let there : find_id r.by_key (key_for p.name p.states p.version) ≡ some id =
      subst (λ t. find_id r.by_key (key_for t.name t.states t.version) ≡ some id) (sym e) h in
    (
      ap (or_same_state r p (key_for p.name p.states p.version) (state_key_for p.name p.states))
          there,
      or_else-some _ there,
    )

first_keyed :
    (r : RuntimeRegistry) (s : BlockState)
    → r.upgrade ≡ none
    → let p = prepared r s in
      let (id, r') = register_state r s in
      (find_id r'.by_key (key_for p.name p.states p.version) ≡ some id) × (r'.upgrade ≡ r.upgrade)
unfolding register_state
first_keyed r s plain =
    let p = prepared r s in
    let key = key_for p.name p.states p.version in
    keyed_once r p key (state_key_for p.name p.states) (find_id r.by_key key) plain refl

-- Registering a state again gives the id that it has, and leaves the registry as it is; and a look-up
-- of the state gives that id: at once, with upgrades or without, and without upgrades after any other
-- registrations as well.
pub register_state_again :
    (r : RuntimeRegistry) (s : BlockState) (later : List BlockState)
    → ((r.upgrade ≡ none) ⊎ (later ≡ []))
    → let (id, r') = register_state r s in
      let r'' = registered later r' in
      (register_state r'' s ≡ (id, r'')) × (find_compatible r'' s ≡ some id)
unfolding registered
register_state_again r s later (inr at_once) =
    subst
      (λ ss.
        let (id, r') = register_state r s in
        let r'' = registered ss r' in
        (register_state r'' s ≡ (id, r'')) × (find_compatible r'' s ≡ some id))
      (sym at_once) (again_at_once r s)
register_state_again r s later (inl plain) =
    let p = prepared r s in
    let key = key_for p.name p.states p.version in
    let (id, r') = register_state r s in
    let (keyed, same) = first_keyed r s plain in
    let kept = registered-Keeps later r' key id keyed in
    keyed-again (registered later r') s p id
      (prepared-upgrade r (registered later r') s (kept.same_upgrade ∙ same)) kept.keyed
