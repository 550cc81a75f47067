-- ===== src/Litematic/Region.antt =====
-- What src/formats/litematic.cpp reads of a file: its first region.
pub mod Halting
use Prim.Native.String.{String, compare, ◌++◌ as str_append}
use Prim.Native.Nat.Ordering.{lt, eq, gt}
use text.Mathlib.Text.{◌==◌ as str_eq}
use water_structure_cpp.Common.{
  ℕ, zero, suc, ◌+◌, ◌-◌, ◌*◌, ◌%◌, ◌^◌, min, Bool, true, false, List, [], ◌∷◌, ◌++◌, Option, none,
  some, ◌==◌, not, ◌&&◌, ◌||◌, if◌then◌else◌,
}
use water_structure_cpp.Common.Int.{ℤ, pos, eqb_ℤ, to_unsigned, wrap32}
use water_structure_cpp.Coordinates.{BlockPos}
use water_structure_cpp.Store.{NbtPayload}
use water_structure_cpp.Store.Entities.{BlockEntity}
use water_structure_cpp.Litematic.Values.{
  Library, no_position, is_compound, is_list, is_long_array, skip_entry, into, read_xyz_compound,
  read_long_array, read_tile_entities,
}
use water_structure_cpp.Litematic.Palette.{str_lt, read_palette_list}
use water_structure_cpp.Litematic.Nbt.{
  TagType, end_tag, byte_tag, short_tag, int_tag, long_tag, float_tag, double_tag, byte_array,
  string_tag, list_tag, compound, int_array, long_array, null_tag, StreamReader, Parsed, got,
  throws, runs_out, and_then, called, read_number, read_length, read_list, entries, times,
  skip_payload, check_depth,
}

pub data RequiredFieldState : Type 0 where
  missing wrong_type valid : RequiredFieldState

abbrev pub is_missing : RequiredFieldState → Bool
is_missing missing = true
is_missing wrong_type = false
is_missing valid = false

pub record StreamedRegion : Type 0 where
  pub position_state : RequiredFieldState
  pub size_state : RequiredFieldState
  pub palette_state : RequiredFieldState
  pub block_states_state : RequiredFieldState
  pub position : BlockPos
  pub signed_size : BlockPos
  pub palette : List String
  pub packed_states : List ℕ
  pub block_entities : List BlockEntity

pub record StreamedRegions : Type 0 where
  pub has_entry : Bool
  pub selected_is_compound : Bool
  pub selected_name : String
  pub selected : StreamedRegion

pub record StreamedRoot : Type 0 where
  pub regions_present : Bool
  pub regions_is_compound : Bool
  pub regions : StreamedRegions

abbrev pub empty_region : StreamedRegion
empty_region = record {
  position_state = missing;
  size_state = missing;
  palette_state = missing;
  block_states_state = missing;
  position = no_position;
  signed_size = no_position;
  palette = [];
  packed_states = [];
  block_entities = [];
}

abbrev pub no_regions : StreamedRegions
no_regions = record {
  has_entry = false;
  selected_is_compound = false;
  selected_name = "";
  selected = empty_region;
}

module _ {S E : Type 0} (reader : StreamReader S E) (library : Library E) (fuel : ℕ) where
  -- The region, and whether its block entities have been met.
  abbrev pub Reading : Type 0
  Reading = StreamedRegion × Bool

  abbrev set_position : Reading → BlockPos → Reading
  set_position (r, seen) p = (record r { position = p; position_state = valid }, seen)

  abbrev set_size : Reading → BlockPos → Reading
  set_size (r, seen) p = (record r { signed_size = p; size_state = valid }, seen)

  abbrev set_palette : Reading → List String → Reading
  set_palette (r, seen) p = (record r { palette = p; palette_state = valid }, seen)

  abbrev set_states : Reading → List ℕ → Reading
  set_states (r, seen) ws = (record r { packed_states = ws; block_states_state = valid }, seen)

  abbrev set_entities : Reading → List BlockEntity → Reading
  set_entities (r, seen) es = (record r { block_entities = es }, true)

  -- The state of a field that has not the type that it should have.
  abbrev skip_field : TagType → ℕ → Reading → S → Parsed S Reading
  skip_field type depth t s = skip_entry reader fuel type depth t s

  unfoldable pub region_entry : ℕ → TagType → String → Reading → S → Parsed S Reading
  region_entry depth type key (r, seen) s =
      if str_eq key "Position" && is_missing r.position_state
      then if is_compound type
        then into reader fuel set_position (r, seen) (read_xyz_compound reader fuel (depth + 1) s)
        else skip_field type (depth + 1) (record r { position_state = wrong_type }, seen) s
      else if str_eq key "Size" && is_missing r.size_state
      then if is_compound type
        then into reader fuel set_size (r, seen) (read_xyz_compound reader fuel (depth + 1) s)
        else skip_field type (depth + 1) (record r { size_state = wrong_type }, seen) s
      else if str_eq key "BlockStatePalette" && is_missing r.palette_state
      then if is_list type
        then into reader fuel set_palette (r, seen)
            (read_palette_list reader library fuel (depth + 1) s)
        else skip_field type (depth + 1) (record r { palette_state = wrong_type }, seen) s
      else if str_eq key "BlockStates" && is_missing r.block_states_state
      then if is_long_array type
        then into reader fuel set_states (r, seen) (read_long_array reader fuel s)
        else skip_field type (depth + 1) (record r { block_states_state = wrong_type }, seen) s
      else if str_eq key "TileEntities" && not seen
      then if is_list type
        then into reader fuel set_entities (r, seen)
            (read_tile_entities reader library fuel (depth + 1) s)
        else skip_field type (depth + 1) (r, true) s
      else skip_field type (depth + 1) (r, seen) s

  unfoldable pub read_region_compound : StreamedRegion → ℕ → S → Parsed S StreamedRegion
  unfolding region_entry
  read_region_compound r depth s =
      check_depth depth
        (and_then (entries reader fuel (region_entry depth) (r, false) s) λ t s1. got t.0 s1)

  abbrev set_selected : StreamedRegions → StreamedRegion → StreamedRegions
  set_selected t r = record t { selected = r }

  unfoldable pub regions_entry :
      ℕ → TagType → String → StreamedRegions → S → Parsed S StreamedRegions
  unfolding read_region_compound
  regions_entry depth type name t s =
      let chosen = record t {
        has_entry = true;
        selected_name = name;
        selected_is_compound = is_compound type;
        selected = empty_region;
      } in
      if not t.has_entry || str_lt name t.selected_name
      then if is_compound type
        then into reader fuel set_selected chosen (read_region_compound empty_region (depth + 1) s)
        else skip_entry reader fuel type (depth + 1) chosen s
      else skip_entry reader fuel type (depth + 1) t s

  unfoldable pub read_regions_compound : ℕ → S → Parsed S StreamedRegions
  unfolding regions_entry
  read_regions_compound depth s =
      check_depth depth (entries reader fuel (regions_entry depth) no_regions s)

  abbrev set_regions : StreamedRoot → StreamedRegions → StreamedRoot
  set_regions t r = record t { regions = r }

  unfoldable pub root_entry : TagType → String → StreamedRoot → S → Parsed S StreamedRoot
  unfolding read_regions_compound
  root_entry type key t s =
      let met = record t { regions_present = true; regions_is_compound = is_compound type } in
      if str_eq key "Regions" && not t.regions_present
      then if is_compound type
        then into reader fuel set_regions met (read_regions_compound 1 s)
        else skip_entry reader fuel type 1 met s
      else skip_entry reader fuel type 1 t s

  abbrev empty_root : StreamedRoot
  empty_root = record { regions_present = false; regions_is_compound = false; regions = no_regions }

  unfoldable pub read_litematic_root : S → Parsed S StreamedRoot
  unfolding root_entry
  read_litematic_root s = and_then (called (reader.read_first_type s)) λ type s1.
      if not (is_compound type)
      then throws "Tag is not a compound"
      else and_then (called (reader.read_string s1))
          λ _ s2. entries reader fuel root_entry empty_root s2

-- `required_region_fields_valid`.
abbrev pub is_valid : RequiredFieldState → Bool
is_valid missing = false
is_valid wrong_type = false
is_valid valid = true

unfoldable pub required_region_fields_valid : StreamedRegion → Bool
required_region_fields_valid r =
    is_valid r.position_state
    && (is_valid r.size_state && (is_valid r.palette_state && is_valid r.block_states_state))
