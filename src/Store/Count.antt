-- ===== src/Store/Count.antt =====
-- The books of the store of src/core/decoded_structure.cpp: its maps stay sorted, and the counter of
-- blocks that are not air is the number of such entries.
use water_structure_cpp.Common.{
  ℕ, ◌+◌, ◌%◌, ◌≡◌, Bool, not, ◌&&◌, List, [], ◌∷◌, none, ◌==◌, if◌then◌else◌, arith, Bool-cases,
  inl, inr,
}
use water_structure_cpp.Coordinates.{BlockPos, Size, block_lt}
use water_structure_cpp.Store.Map.{
  Entries, lookup, insert, IsSorted, lookup-Above, Above→IsSorted, insert-IsSorted, erase-IsSorted,
}
use water_structure_cpp.Store.{
  Store, NbtPayload, make_store, clear, set_size, set_offset, set_include_out_of_bounds, is_outside,
  size_mod, holds_block, put, put_entity,
}

abbrev weight : Bool → ℕ
weight b = if b then 1 else 0

-- The entries that are not air.
abbrev pub solid : ℕ → Entries ℕ → ℕ
solid air [] = 0
solid air ((q, id) ∷ m) = weight (not (id == air)) + solid air m

-- An insertion takes the weight of the old entry away and adds that of the new one.
solid-insert :
    (air : ℕ) (p : BlockPos) (id : ℕ) (m : Entries ℕ)
    → IsSorted m
    → solid air (insert p id m) + weight (holds_block air (lookup p m))
      ≡ solid air m + weight (not (id == air))
unfolding insert lookup
solid-insert air p id [] a = ground arith
solid-insert air p id ((r, old) ∷ m) a = elim (Bool-cases (block_lt p r)) [
  | inl before ↦
      let absent : lookup p ((r, old) ∷ m) ≡ none = lookup-Above p ((r, old) ∷ m) (before, a) in
      rw before (ground (arith, absent))
  | inr not_before ↦ rw not_before (ground (arith, solid-insert air p id m (Above→IsSorted r m a)))
]

pub record IsValid (s : Store) : Type 0 where
  pub blocks_sorted : IsSorted s.blocks
  pub out_of_bounds_sorted : IsSorted s.out_of_bounds_blocks
  pub entities_sorted : IsSorted s.entities
  pub counted : s.non_air_blocks ≡ solid s.air s.blocks % size_mod

make_store-IsValid : (air : ℕ) → IsValid (make_store air)
unfolding make_store
make_store-IsValid air = ground arith

put-IsValid : (s : Store) (local : BlockPos) (id : ℕ) → IsValid s → IsValid (put s local id)
unfolding put
put-IsValid s local id v = record {
  blocks_sorted = insert-IsSorted local id s.blocks v.blocks_sorted;
  out_of_bounds_sorted =
      elim (Bool-cases (s.include_out_of_bounds && is_outside s.original_size local)) [
        | inl kept ↦
            rw kept (insert-IsSorted local id s.out_of_bounds_blocks v.out_of_bounds_sorted)
        | inr dropped ↦
            rw dropped (erase-IsSorted local s.out_of_bounds_blocks v.out_of_bounds_sorted)
      ];
  entities_sorted = v.entities_sorted;
  counted = ground (arith, v.counted, solid-insert s.air local id s.blocks v.blocks_sorted);
}

put_entity-IsValid :
    (s : Store) (local : BlockPos) (payload : NbtPayload)
    → IsValid s
    → IsValid (put_entity s local payload)
unfolding put_entity
put_entity-IsValid s local [] v = record {
  blocks_sorted = v.blocks_sorted;
  out_of_bounds_sorted = v.out_of_bounds_sorted;
  entities_sorted = erase-IsSorted local s.entities v.entities_sorted;
  counted = v.counted;
}
put_entity-IsValid s local (b ∷ bs) v = record {
  blocks_sorted = v.blocks_sorted;
  out_of_bounds_sorted = v.out_of_bounds_sorted;
  entities_sorted = insert-IsSorted local (b ∷ bs) s.entities v.entities_sorted;
  counted = v.counted;
}

-- The calls that a reader makes on its store.
pub data Call : Type 0 where
  clears : Call
  sets_size : Size → Call
  sets_offset : BlockPos → Call
  includes : Bool → Call
  puts : BlockPos → ℕ → Call
  puts_entity : BlockPos → NbtPayload → Call

abbrev pub perform : Store → Call → Store
perform s clears = clear s
perform s (sets_size size) = set_size s size
perform s (sets_offset offset) = set_offset s offset
perform s (includes enabled) = set_include_out_of_bounds s enabled
perform s (puts local id) = put s local id
perform s (puts_entity local payload) = put_entity s local payload

abbrev pub perform_all : Store → List Call → Store
perform_all s [] = s
perform_all s (c ∷ cs) = perform_all (perform s c) cs

perform-IsValid : (s : Store) (c : Call) → IsValid s → IsValid (perform s c)
perform-IsValid s clears v = unfold clear in make_store-IsValid s.air
perform-IsValid s (sets_size size) v = unfold set_size in ground (arith, v)
perform-IsValid s (sets_offset offset) v = unfold set_offset in ground (arith, v)
perform-IsValid s (includes enabled) v = unfold set_include_out_of_bounds in ground (arith, v)
perform-IsValid s (puts local id) v = put-IsValid s local id v
perform-IsValid s (puts_entity local payload) v = put_entity-IsValid s local payload v

perform_all-IsValid : (s : Store) (cs : List Call) → IsValid s → IsValid (perform_all s cs)
perform_all-IsValid s [] v = v
perform_all-IsValid s (c ∷ cs) v = perform_all-IsValid (perform s c) cs (perform-IsValid s c v)

-- After any calls the maps are sorted, and `count_non_air()` is the number of entries that are not
-- air, in the arithmetic of std::size_t: overwriting a block, with air or otherwise, keeps it exact.
pub calls-IsValid : (air : ℕ) (cs : List Call) → IsValid (perform_all (make_store air) cs)
calls-IsValid air cs = perform_all-IsValid (make_store air) cs (make_store-IsValid air)
