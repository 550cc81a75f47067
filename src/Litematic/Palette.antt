-- ===== src/Litematic/Palette.antt =====
-- The palette that src/formats/litematic.cpp reads in a stream of NBT tags.
pub mod Halting
use Prim.Native.String.{String, compare, ◌++◌ as str_append}
use Prim.Native.Nat.Ordering.{lt, eq, gt}
use text.Mathlib.Text.{◌==◌ as str_eq}
use water_structure_cpp.Common.{
  ℕ, zero, suc, ◌+◌, ◌-◌, ◌*◌, ◌%◌, ◌^◌, min, Bool, true, false, List, [], ◌∷◌, ◌++◌, Option, none,
  some, ◌==◌, not, ◌&&◌, ◌||◌, if◌then◌else◌,
}
use water_structure_cpp.Common.Int.{ℤ, pos, eqb_ℤ, to_unsigned, wrap32}
use water_structure_cpp.Coordinates.{BlockPos}
use water_structure_cpp.Store.{NbtPayload}
use water_structure_cpp.Store.Entities.{BlockEntity}
use water_structure_cpp.Litematic.Values.{
  Library, is_compound, is_string, optional, skipped, skip_entry, into, unless_end,
}
use water_structure_cpp.Litematic.Nbt.{
  TagType, end_tag, byte_tag, short_tag, int_tag, long_tag, float_tag, double_tag, byte_array,
  string_tag, list_tag, compound, int_array, long_array, null_tag, StreamReader, Parsed, got,
  throws, runs_out, and_then, called, read_number, read_length, read_list, entries, times,
  skip_payload, check_depth,
}

-- The order of std::string, which is that of the bytes.
abbrev pub str_lt : String → String → Bool
str_lt s t = elim (compare s t) [ lt ↦ true | eq ↦ false | gt ↦ false ]

abbrev pub Properties : Type 0
Properties = List (String × Option String)

contains : String → Properties → Bool
contains name [] = false
contains name ((n, v) ∷ m) = str_eq n name || contains name m

-- `emplace` of a new key into reader fuel a std::map.
emplace : String → Option String → Properties → Properties
emplace name value [] = (name, value) ∷ []
emplace name value ((n, v) ∷ m) =
    if str_lt name n then (name, value) ∷ (n, v) ∷ m else (n, v) ∷ emplace name value m

pub record PaletteEntry : Type 0 where
  pub name : String
  pub seen_name : Bool
  pub seen_properties : Bool
  pub properties : Option Properties

-- The properties with a value, behind commas but for the first.
joined : Bool → Properties → String
joined first [] = ""
joined first ((n, none) ∷ m) = joined first m
joined first ((n, some v) ∷ m) =
    str_append (if first then "" else ",")
      (str_append n (str_append "=" (str_append v (joined false m))))

bracketed : String → Option Properties → String
unfolding joined
bracketed name none = name
bracketed name (some []) = name
bracketed name (some (p ∷ m)) =
    str_append name (str_append "[" (str_append (joined true (p ∷ m)) "]"))

module _ {S E : Type 0} (reader : StreamReader S E) (library : Library E) (fuel : ℕ) where
  unfoldable pub read_property_value : TagType → ℕ → S → Parsed S (Option String)
  read_property_value type depth s = elim type [
    | byte_tag ↦
        and_then (read_number reader 1 "Error reading property byte" s)
          λ n s1. got (some (if eqb_ℤ n (pos 0) then "false" else "true")) s1
    | short_tag ↦
        and_then (read_number reader 2 "Error reading property short" s)
          λ n s1. got (some (library.to_string n)) s1
    | int_tag ↦
        and_then (read_number reader 4 "Error reading property int" s)
          λ n s1. got (some (library.to_string n)) s1
    | long_tag ↦
        and_then (read_number reader 8 "Error reading property long" s)
          λ n s1. got (some (library.to_string n)) s1
    | string_tag ↦ optional reader fuel (called (reader.read_string s))
    | other ↦ skipped reader fuel (skip_payload reader fuel other depth s)
  ]

  unfoldable pub property_entry : ℕ → TagType → String → Properties → S → Parsed S Properties
  unfolding contains emplace read_property_value
  property_entry depth type name t s =
      if contains name t
      then skip_entry reader fuel type (depth + 1) t s
      else and_then (read_property_value type (depth + 1) s)
          λ value s1. got (emplace name value t) s1

  unfoldable pub read_properties_compound : ℕ → S → Parsed S Properties
  unfolding property_entry
  read_properties_compound depth s =
      check_depth depth (entries reader fuel (property_entry depth) [] s)

  abbrev set_name : PaletteEntry → String → PaletteEntry
  set_name t name = record t { seen_name = true; name = name }

  abbrev set_properties : PaletteEntry → Properties → PaletteEntry
  set_properties t p = record t { seen_properties = true; properties = some p }

  unfoldable pub palette_entry_entry :
      ℕ → TagType → String → PaletteEntry → S → Parsed S PaletteEntry
  unfolding read_properties_compound
  palette_entry_entry depth type key t s =
      if str_eq key "Name" && not t.seen_name
      then if is_string type
        then into reader fuel set_name t (called (reader.read_string s))
        else skip_entry reader fuel type (depth + 1) (record t { seen_name = true }) s
      else if str_eq key "Properties" && not t.seen_properties
      then if is_compound type
        then into reader fuel set_properties t (read_properties_compound (depth + 1) s)
        else skip_entry reader fuel type (depth + 1) (record t { seen_properties = true }) s
      else skip_entry reader fuel type (depth + 1) t s

  abbrev unnamed : PaletteEntry
  unnamed = record {
    name = "minecraft:unknown";
    seen_name = false;
    seen_properties = false;
    properties = none;
  }

  unfoldable pub read_palette_entry : ℕ → S → Parsed S String
  unfolding palette_entry_entry bracketed
  read_palette_entry depth s = check_depth depth (
      and_then (entries reader fuel (palette_entry_entry depth) unnamed s)
        λ t s1. got (bracketed t.name t.properties) s1)

  unfoldable pub palette_element : ℕ → TagType → List String → S → Parsed S (List String)
  unfolding read_palette_entry
  palette_element depth type t s =
      if is_compound type
      then (and_then (read_palette_entry (depth + 1) s) λ name s1. got (t ++ name ∷ []) s1)
      else skip_entry reader fuel type (depth + 1) (t ++ "minecraft:unknown" ∷ []) s

  unfoldable pub read_palette_list : ℕ → S → Parsed S (List String)
  unfolding palette_element
  read_palette_list depth s = check_depth depth (
      and_then (read_list reader "Error reading Litematic palette length" s) λ (type, n) s1.
        unless_end reader fuel type (λ other. times reader n (palette_element depth other) [] s1) []
          s1)
