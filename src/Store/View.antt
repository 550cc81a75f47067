-- ===== src/Store/View.antt =====
-- What the store of src/core/decoded_structure.cpp promises of one position, whatever is done at the
-- others.
use water_structure_cpp.Common.{
  ℕ, ◌≡◌, refl, Bool, false, ◌&&◌, ◌||◌, not, Bool-cases, inl, inr, List, [], ◌∷◌, Option, none,
  some, if◌then◌else◌, arith, ltb,
}
use water_structure_cpp.Common.Int.{ℤ, pos, negsuc, ltb_ℤ, leb_ℤ, pos_part}
use water_structure_cpp.Coordinates.{BlockPos, Size, block_eq}
use water_structure_cpp.Store.Map.{
  Entries, lookup, insert, erase, lookup-insert, lookup-erase, block_eq→eq,
}
use water_structure_cpp.Store.{
  Store, NbtPayload, make_store, clear, set_size, set_offset, set_include_out_of_bounds, is_outside,
  put, put_entity,
}
use water_structure_cpp.Store.Count.{
  Call, clears, sets_size, sets_offset, includes, puts, puts_entity, perform, perform_all,
}

-- A coordinate is one of the first so many.
abbrev among : ℤ → ℤ → Bool
among (negsuc n) extent = false
among (pos n) extent = ltb n (pos_part extent)

abbrev pub is_within : Size → BlockPos → Bool
is_within size p = among p.x size.width && (among p.y size.height && among p.z size.length)

-- One position, with the size and the option that are in force.
pub record View : Type 0 where
  pub declared : Size
  pub keeps_outside : Bool
  pub block : Option ℕ
  pub kept_outside : Option ℕ
  pub entity : Option NbtPayload

abbrev payload_or_none : NbtPayload → Option NbtPayload
payload_or_none [] = none
payload_or_none (b ∷ bs) = some (b ∷ bs)

abbrev empty_view : View
empty_view = record {
  declared = record { width = pos 0; height = pos 0; length = pos 0 };
  keeps_outside = false;
  block = none;
  kept_outside = none;
  entity = none;
}

-- A call matters to a position where it is about it: the last block put stays, and is kept outside if
-- it is put while the option is set and the declared size does not reach it.
abbrev pub seen : BlockPos → View → Call → View
seen k v clears = empty_view
seen k v (sets_size size) = record v { declared = size }
seen k v (sets_offset offset) = v
seen k v (includes enabled) = record v { keeps_outside = enabled }
seen k v (puts local id) =
    if block_eq local k
    then record v {
      block = some id;
      kept_outside = if v.keeps_outside && not (is_within v.declared k) then some id else none;
    }
    else v
seen k v (puts_entity local payload) =
    if block_eq local k then record v { entity = payload_or_none payload } else v

abbrev seen_all : BlockPos → View → List Call → View
seen_all k v [] = v
seen_all k v (c ∷ cs) = seen_all k (seen k v c) cs

abbrev pub view : BlockPos → List Call → View
view k cs = seen_all k empty_view cs

record IsViewed (s : Store) (k : BlockPos) (v : View) : Type 0 where
  declared : s.original_size ≡ v.declared
  keeps : s.include_out_of_bounds ≡ v.keeps_outside
  block : lookup k s.blocks ≡ v.block
  outside : lookup k s.out_of_bounds_blocks ≡ v.kept_outside
  entity : lookup k s.entities ≡ v.entity

among_lem : (z extent : ℤ) → among z extent ≡ not (ltb_ℤ z (pos 0) || leb_ℤ extent z)
among_lem (pos n) (pos e) = ground arith
among_lem (pos n) (negsuc e) = ground arith
among_lem (negsuc n) extent = ground arith

is_outside_lem : (size : Size) (p : BlockPos) → is_outside size p ≡ not (is_within size p)
unfolding is_outside
is_outside_lem size p =
    rw (among_lem p.x size.width, among_lem p.y size.height, among_lem p.z size.length)
      (one_axis (ltb_ℤ p.x (pos 0)) (ltb_ℤ p.y (pos 0)) (ltb_ℤ p.z (pos 0)) (leb_ℤ size.width p.x)
        (leb_ℤ size.height p.y) (leb_ℤ size.length p.z))
  where
    one_axis :
        (a b c d e f : Bool)
        → (a || (b || (c || (d || (e || f)))))
          ≡ not (not (a || d) && (not (b || e) && not (c || f)))
    one_axis a b c d e f = ground arith

put-IsViewed :
    (s : Store) (k : BlockPos) (v : View) (local : BlockPos) (id : ℕ)
    → IsViewed s k v
    → IsViewed (put s local id) k (seen k v (puts local id))
unfolding put
put-IsViewed s k v local id h = elim (Bool-cases (block_eq local k)) [
  | inr apart ↦ rw apart (record {
    declared = h.declared;
    keeps = h.keeps;
    block = ground (arith, lookup-insert local k id s.blocks, apart, h.block);
    outside = ground (
      arith,
      lookup-insert local k id s.out_of_bounds_blocks,
      lookup-erase local k s.out_of_bounds_blocks,
      apart,
      h.outside,
    );
    entity = h.entity;
  })
  | inl same ↦
      let test : (s.include_out_of_bounds && is_outside s.original_size local)
          ≡ (v.keeps_outside && not (is_within v.declared k)) =
        rw (h.keeps, h.declared, block_eq→eq local k same, is_outside_lem v.declared k) refl in
      rw same (record {
        declared = h.declared;
        keeps = h.keeps;
        block = ground (arith, lookup-insert local k id s.blocks, same);
        outside = rw test (
            ground (
              arith,
              lookup-insert local k id s.out_of_bounds_blocks,
              lookup-erase local k s.out_of_bounds_blocks,
              same,
            ));
        entity = h.entity;
      })
]

-- A change of the entities at one position.
entity-IsViewed :
    (s : Store) (k : BlockPos) (v : View) (local : BlockPos) (m : Entries NbtPayload)
    (e : Option NbtPayload)
    → lookup k m ≡ (if block_eq local k then e else lookup k s.entities)
    → IsViewed s k v
    → IsViewed
        (record s { entities = m })
        k
        (if block_eq local k then record v { entity = e } else v)
entity-IsViewed s k v local m e found h = elim (Bool-cases (block_eq local k)) [
  | inl same ↦ rw same (record {
    declared = h.declared;
    keeps = h.keeps;
    block = h.block;
    outside = h.outside;
    entity = ground (arith, found, same);
  })
  | inr apart ↦ rw apart (record {
    declared = h.declared;
    keeps = h.keeps;
    block = h.block;
    outside = h.outside;
    entity = ground (arith, found, apart, h.entity);
  })
]

put_entity-IsViewed :
    (s : Store) (k : BlockPos) (v : View) (local : BlockPos) (payload : NbtPayload)
    → IsViewed s k v
    → IsViewed (put_entity s local payload) k (seen k v (puts_entity local payload))
unfolding put_entity
put_entity-IsViewed s k v local [] h =
    entity-IsViewed s k v local (erase local s.entities) none (lookup-erase local k s.entities) h
put_entity-IsViewed s k v local (b ∷ bs) h =
    entity-IsViewed s k v local (insert local (b ∷ bs) s.entities) (some (b ∷ bs))
      (lookup-insert local k (b ∷ bs) s.entities) h

perform-IsViewed :
    (s : Store) (k : BlockPos) (v : View) (c : Call)
    → IsViewed s k v
    → IsViewed (perform s c) k (seen k v c)
unfolding clear make_store set_size set_offset set_include_out_of_bounds lookup
perform-IsViewed s k v clears h = record {
  declared = refl;
  keeps = refl;
  block = refl;
  outside = refl;
  entity = refl;
}
perform-IsViewed s k v (sets_size size) h = record {
  declared = refl;
  keeps = h.keeps;
  block = h.block;
  outside = h.outside;
  entity = h.entity;
}
perform-IsViewed s k v (sets_offset offset) h = record {
  declared = h.declared;
  keeps = h.keeps;
  block = h.block;
  outside = h.outside;
  entity = h.entity;
}
perform-IsViewed s k v (includes enabled) h = record {
  declared = h.declared;
  keeps = refl;
  block = h.block;
  outside = h.outside;
  entity = h.entity;
}
perform-IsViewed s k v (puts local id) h = put-IsViewed s k v local id h
perform-IsViewed s k v (puts_entity local payload) h = put_entity-IsViewed s k v local payload h

perform_all-IsViewed :
    (s : Store) (k : BlockPos) (v : View) (cs : List Call)
    → IsViewed s k v
    → IsViewed (perform_all s cs) k (seen_all k v cs)
perform_all-IsViewed s k v [] h = h
perform_all-IsViewed s k v (c ∷ cs) h =
    perform_all-IsViewed (perform s c) k (seen k v c) cs (perform-IsViewed s k v c h)

-- After any calls the three maps give at every position what the calls about that position say: the
-- last block put there, the same in the map of blocks kept outside where the option was set and the
-- position was not among those of the declared size when it was put, and the last entity, an empty one
-- taking it away; a change of the size or of the option changes no entry, and clearing changes all.
pub calls-View :
    (air : ℕ) (cs : List Call) (k : BlockPos)
    → let s = perform_all (make_store air) cs in
      let v = view k cs in
      (lookup k s.blocks ≡ v.block)
      × (lookup k s.out_of_bounds_blocks ≡ v.kept_outside)
      × (lookup k s.entities ≡ v.entity)
unfolding lookup
calls-View air cs k =
    let start : IsViewed (make_store air) k empty_view =
      unfold make_store in
      (record { declared = refl; keeps = refl; block = refl; outside = refl; entity = refl }) in
    let h = perform_all-IsViewed (make_store air) k empty_view cs start in
    (h.block, h.outside, h.entity)
