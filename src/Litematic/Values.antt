-- ===== src/Litematic/Values.antt =====
-- The values that src/formats/litematic.cpp reads in a stream of NBT tags: positions, arrays and block
-- entities. libnbt's entities and `std::to_string` are parameters.
pub mod Halting
use Prim.Native.String.{String, compare, ◌++◌ as str_append}
use Prim.Native.Nat.Ordering.{lt, eq, gt}
use text.Mathlib.Text.{◌==◌ as str_eq}
use water_structure_cpp.Common.{
  ℕ, zero, suc, ◌+◌, ◌-◌, ◌*◌, ◌%◌, ◌^◌, min, Bool, true, false, List, [], ◌∷◌, ◌++◌, Option, none,
  some, ◌==◌, not, ◌&&◌, ◌||◌, if◌then◌else◌,
}
use water_structure_cpp.Common.Int.{ℤ, pos, eqb_ℤ, to_unsigned, wrap32}
use water_structure_cpp.Coordinates.{BlockPos}
use water_structure_cpp.Store.{NbtPayload}
use water_structure_cpp.Store.Entities.{BlockEntity}
use water_structure_cpp.Litematic.Nbt.{
  TagType, end_tag, byte_tag, short_tag, int_tag, long_tag, float_tag, double_tag, byte_array,
  string_tag, list_tag, compound, int_array, long_array, null_tag, StreamReader, Parsed, got,
  throws, runs_out, and_then, called, read_number, read_length, read_list, entries, times,
  skip_payload, check_depth,
}

-- `std::to_string`, and the entities of libnbt: an integer under a key, of whatever width, and the
-- bytes that they are written as.
pub record Library (E : Type 0) : Type 0 where
  pub to_string : ℤ → String
  pub value_at : E → String → Option (TagType × ℤ)
  pub serialize_compound : E → NbtPayload

abbrev pub no_position : BlockPos
no_position = record { x = pos 0; y = pos 0; z = pos 0 }

abbrev pub is_compound : TagType → Bool
is_compound type = elim type [ compound ↦ true | _ ↦ false ]

abbrev pub is_list : TagType → Bool
is_list type = elim type [ list_tag ↦ true | _ ↦ false ]

abbrev pub is_string : TagType → Bool
is_string type = elim type [ string_tag ↦ true | _ ↦ false ]

abbrev pub is_long_array : TagType → Bool
is_long_array type = elim type [ long_array ↦ true | _ ↦ false ]

-- What `read_xyz_compound` knows in its loop.
pub record Xyz : Type 0 where
  pub value : BlockPos
  pub seen_x : Bool
  pub seen_y : Bool
  pub seen_z : Bool

module _ {S E : Type 0} (reader : StreamReader S E) (fuel : ℕ) where
  abbrev pub optional : {A : Type 0} → Parsed S A → Parsed S (Option A)
  optional r = and_then r λ a s. got (some a) s

  abbrev pub skipped : {A : Type 0} → Parsed S Unit → Parsed S (Option A)
  skipped r = and_then r λ _ s. got none s

  abbrev pub skip_entry : {T : Type 0} → TagType → ℕ → T → S → Parsed S T
  skip_entry type depth t s = and_then (skip_payload reader fuel type depth s) λ _ s1. got t s1

  abbrev pub into : {T A : Type 0} → (T → A → T) → T → Parsed S A → Parsed S T
  into set t r = and_then r λ a s. got (set t a) s

  abbrev pub unless_end : {T : Type 0} → TagType → (TagType → Parsed S T) → T → S → Parsed S T
  unless_end end_tag r t s = got t s
  unless_end other r t s = r other

  -- A tag_long is cut to an int32_t.
  unfoldable pub read_int_value : TagType → ℕ → S → Parsed S (Option ℤ)
  read_int_value type depth s = elim type [
    | byte_tag ↦ optional (read_number reader 1 "Error reading integer byte" s)
    | short_tag ↦ optional (read_number reader 2 "Error reading integer short" s)
    | int_tag ↦ optional (read_number reader 4 "Error reading integer int" s)
    | long_tag ↦
        and_then (read_number reader 8 "Error reading integer long" s)
          λ n s1. got (some (wrap32 n)) s1
    | other ↦ skipped (skip_payload reader fuel other depth s)
  ]

  abbrev pub value_or_zero : Option ℤ → ℤ
  value_or_zero none = pos 0
  value_or_zero (some n) = n

  abbrev pub set_x : Xyz → Option ℤ → Xyz
  set_x t n = record t { value = record t.value { x = value_or_zero n }; seen_x = true }

  abbrev pub set_y : Xyz → Option ℤ → Xyz
  set_y t n = record t { value = record t.value { y = value_or_zero n }; seen_y = true }

  abbrev pub set_z : Xyz → Option ℤ → Xyz
  set_z t n = record t { value = record t.value { z = value_or_zero n }; seen_z = true }

  unfoldable pub xyz_entry : ℕ → TagType → String → Xyz → S → Parsed S Xyz
  unfolding read_int_value
  xyz_entry depth type key t s =
      if str_eq key "x" && not t.seen_x
      then into set_x t (read_int_value type (depth + 1) s)
      else if str_eq key "y" && not t.seen_y
      then into set_y t (read_int_value type (depth + 1) s)
      else if str_eq key "z" && not t.seen_z
      then into set_z t (read_int_value type (depth + 1) s)
      else skip_entry type (depth + 1) t s

  unfoldable pub read_xyz_compound : ℕ → S → Parsed S BlockPos
  unfolding xyz_entry
  read_xyz_compound depth s = check_depth depth (
      and_then
        (entries reader fuel (xyz_entry depth)
          (record { value = no_position; seen_x = false; seen_y = false; seen_z = false }) s)
        λ t s1. got t.value s1)

  -- Each element as the uint64_t that it is cast to where it is used.
  unfoldable pub read_long_array : S → Parsed S (List ℕ)
  read_long_array s =
      and_then (read_length reader "Error reading length of tag_long_array" s) λ n s1.
        times reader n
          (λ t s2.
            and_then (read_number reader 8 "Error reading contents of tag_long_array" s2)
              λ w s3. got (t ++ to_unsigned (2 ^ 64) w ∷ []) s3)
          [] s1

module _ {S E : Type 0} (reader : StreamReader S E) (library : Library E) (fuel : ℕ) where
  abbrev int_of : Option (TagType × ℤ) → Option ℤ
  int_of none = none
  int_of (some (type, n)) = elim type [
    | byte_tag ↦ some n
    | short_tag ↦ some n
    | int_tag ↦ some n
    | long_tag ↦ some (wrap32 n)
    | _ ↦ none
  ]

  pub int_value : E → String → Option ℤ
  int_value entity key = int_of (library.value_at entity key)

  -- An entity without its three coordinates is passed over.
  pub keep_entity : E → Option ℤ → Option ℤ → Option ℤ → List BlockEntity → List BlockEntity
  keep_entity entity none y z t = t
  keep_entity entity (some x) none z t = t
  keep_entity entity (some x) (some y) none t = t
  keep_entity entity (some x) (some y) (some z) t =
      t
      ++ record {
        position = record { x = x; y = y; z = z };
        payload = library.serialize_compound entity;
      }
        ∷ []

  unfoldable pub tile_entity_element :
      ℕ → TagType → List BlockEntity → S → Parsed S (List BlockEntity)
  unfolding keep_entity int_value
  tile_entity_element depth type t s =
      if not (is_compound type)
      then skip_entry reader fuel type (depth + 1) t s
      else and_then (called (reader.read_payload s)) λ entity s1.
        got
          (keep_entity entity (int_value entity "x") (int_value entity "y") (int_value entity "z")
            t)
          s1

  unfoldable pub read_tile_entities : ℕ → S → Parsed S (List BlockEntity)
  unfolding tile_entity_element
  read_tile_entities depth s = check_depth depth (
      and_then (read_list reader "Error reading Litematic TileEntities length" s) λ (type, n) s1.
        unless_end reader fuel type
          (λ other. times reader n (tile_entity_element depth other) [] s1) [] s1)
