-- ===== src/Store.antt =====
-- src/core/decoded_structure.cpp and include/WaterStructure/decoded_structure.hpp: the sparse store
-- that the readers of command, JSON and binary formats fill, and that makes chunks of its blocks.
pub mod Map
pub mod Count
pub mod View
pub mod Chunks
pub mod Entities
mod Runs
use water_structure_cpp.Common.{
  ℕ, ◌+◌, ◌-◌, ◌%◌, ◌^◌, Bool, true, false, not, ◌&&◌, ◌||◌, List, [], ◌∷◌, Option, none, some,
  ◌==◌, if◌then◌else◌,
}
use water_structure_cpp.Common.Int.{ℤ, pos, ◌+ℤ◌, neg_ℤ, ltb_ℤ, leb_ℤ, wrap32}
use water_structure_cpp.Coordinates.{BlockPos, Size}
use Map.{Entries, lookup, insert, erase}

-- A byte sequence, and empty or not is all that is asked of it.
abbrev pub NbtPayload : Type 0
NbtPayload = List ℕ

pub record Store : Type 0 where
  -- `mRegistry.air_runtime_id()`, which does not change
  pub air : ℕ
  pub original_size : Size
  pub size : Size
  pub offset : BlockPos
  pub blocks : Entries ℕ
  pub out_of_bounds_blocks : Entries ℕ
  pub entities : Entries NbtPayload
  -- a std::size_t
  pub non_air_blocks : ℕ
  pub include_out_of_bounds : Bool

abbrev no_size : Size
no_size = record { width = pos 0; height = pos 0; length = pos 0 }

abbrev origin : BlockPos
origin = record { x = pos 0; y = pos 0; z = pos 0 }

pub make_store : ℕ → Store
make_store air = record {
  air = air;
  original_size = no_size;
  size = no_size;
  offset = origin;
  blocks = [];
  out_of_bounds_blocks = [];
  entities = [];
  non_air_blocks = 0;
  include_out_of_bounds = false;
}

pub clear : Store → Store
unfolding make_store
clear s = make_store s.air

pub set_size : Store → Size → Store
set_size s size = record s { original_size = size; size = size }

-- `std::abs` on an int32_t.
unfoldable pub abs32 : ℤ → ℤ
abs32 z = if ltb_ℤ z (pos 0) then wrap32 (neg_ℤ z) else z

pub set_offset : Store → BlockPos → Store
unfolding abs32
set_offset s offset = record s {
  offset = offset;
  size = record {
    width = wrap32 (s.original_size.width +ℤ abs32 offset.x);
    height = wrap32 (s.original_size.height +ℤ abs32 offset.y);
    length = wrap32 (s.original_size.length +ℤ abs32 offset.z);
  };
}

pub set_include_out_of_bounds : Store → Bool → Store
set_include_out_of_bounds s enabled = record s { include_out_of_bounds = enabled }

-- `outside` in `put`.
unfoldable pub is_outside : Size → BlockPos → Bool
is_outside size local =
    ltb_ℤ local.x (pos 0)
    || (ltb_ℤ local.y (pos 0)
        || (ltb_ℤ local.z (pos 0)
            || (leb_ℤ size.width local.x
                || (leb_ℤ size.height local.y || leb_ℤ size.length local.z))))

abbrev pub size_mod : ℕ
size_mod = 2 ^ 64

-- Whether `find` gave an entry that is not air.
abbrev pub holds_block : ℕ → Option ℕ → Bool
holds_block air none = false
holds_block air (some id) = not (id == air)

pub put : Store → BlockPos → ℕ → Store
put s local runtime_id = record s {
  blocks = insert local runtime_id s.blocks;
  out_of_bounds_blocks =
      if s.include_out_of_bounds && is_outside s.original_size local
      then insert local runtime_id s.out_of_bounds_blocks
      else erase local s.out_of_bounds_blocks;
  non_air_blocks =
      let left =
        if holds_block s.air (lookup local s.blocks)
        then (s.non_air_blocks + size_mod - 1) % size_mod
        else s.non_air_blocks in
      if not (runtime_id == s.air) then (left + 1) % size_mod else left;
}

put_payload : Store → BlockPos → NbtPayload → Entries NbtPayload
put_payload s local [] = erase local s.entities
put_payload s local (b ∷ bs) = insert local (b ∷ bs) s.entities

pub put_entity : Store → BlockPos → NbtPayload → Store
unfolding put_payload
put_entity s local payload = record s { entities = put_payload s local payload }
