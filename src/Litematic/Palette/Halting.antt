-- ===== src/Litematic/Palette/Halting.antt =====
-- The palette that src/formats/litematic.cpp reads: each function ends.
use native.Mathlib.Nat.{le_refl}
use Prim.Native.String.{String}
use water_structure_cpp.Common.{ℕ, ◌+◌, ◌≤◌, ◌<◌, List, [], ◌∷◌, ◌++◌, arith}
use water_structure_cpp.Litematic.Nbt.{
  TagType, byte_tag, short_tag, int_tag, long_tag, string_tag, StreamReader, got, called,
}
use water_structure_cpp.Litematic.Nbt.Halting.{
  Ends, ReadsOn, Ends-then, Ends-check_depth, Ends-if, read_number-Ends, read_string-Ends,
  read_list-Ends, entries-Ends, times-Ends,
}
use water_structure_cpp.Litematic.Values.{Library}
use water_structure_cpp.Litematic.Values.Halting.{
  skip_entry-Ends, into-Ends, optional-Ends, skipped-Ends, unless_end-Ends,
}
use water_structure_cpp.Litematic.Palette.{
  Properties, PaletteEntry, emplace, read_property_value, property_entry, read_properties_compound,
  palette_entry_entry, read_palette_entry, palette_element, read_palette_list,
}

module _ {S E : Type 0} (reader : StreamReader S E) (left : S → ℕ) (on : ReadsOn reader left)
    (library : Library E) (fuel : ℕ) where
  read_property_value-Ends :
      (n : ℕ) (type : TagType) (depth : ℕ) (s : S)
      → left s ≤ n
      → n < fuel
      → Ends left n (read_property_value reader library fuel type depth s)
  unfolding read_property_value
  read_property_value-Ends n byte_tag depth s h k =
      Ends-then left n _ _
        (read_number-Ends reader left on fuel n 1 "Error reading property byte" s h) λ z s1 h1. h1
  read_property_value-Ends n short_tag depth s h k =
      Ends-then left n _ _
        (read_number-Ends reader left on fuel n 2 "Error reading property short" s h) λ z s1 h1. h1
  read_property_value-Ends n int_tag depth s h k =
      Ends-then left n _ _
        (read_number-Ends reader left on fuel n 4 "Error reading property int" s h) λ z s1 h1. h1
  read_property_value-Ends n long_tag depth s h k =
      Ends-then left n _ _
        (read_number-Ends reader left on fuel n 8 "Error reading property long" s h) λ z s1 h1. h1
  read_property_value-Ends n string_tag depth s h k =
      optional-Ends reader left on fuel n (called (reader.read_string s))
        (read_string-Ends reader left on fuel n s h)
  read_property_value-Ends n other depth s h k =
      skipped-Ends reader left on fuel String n other depth s h k

  property_entry-Ends :
      (depth : ℕ) (type : TagType) (name : String) (t : Properties) (s : S)
      → left s < fuel
      → Ends left (left s) (property_entry reader library fuel depth type name t s)
  unfolding property_entry
  property_entry-Ends depth type name t s k =
      let n = left s in
      let passed_over = skip_entry-Ends reader left on fuel n type (depth + 1) t s (le_refl n) k in
      let added =
        Ends-then left n (read_property_value reader library fuel type (depth + 1) s)
          (λ value s1. got (emplace name value t) s1)
          (read_property_value-Ends n type (depth + 1) s (le_refl n) k) λ v s1 h1. h1 in
      search Ends-if

  read_properties_compound-Ends :
      (n depth : ℕ) (s : S)
      → left s ≤ n
      → n < fuel
      → Ends left n (read_properties_compound reader library fuel depth s)
  unfolding read_properties_compound
  read_properties_compound-Ends n depth s h k = Ends-check_depth left n depth _ (
      entries-Ends reader left on fuel fuel n (property_entry reader library fuel depth) [] s h
        (omega arith) λ type key t s1 h1. property_entry-Ends depth type key t s1 (omega arith))

  palette_entry_entry-Ends :
      (depth : ℕ) (type : TagType) (key : String) (t : PaletteEntry) (s : S)
      → left s < fuel
      → Ends left (left s) (palette_entry_entry reader library fuel depth type key t s)
  unfolding palette_entry_entry
  palette_entry_entry-Ends depth type key t s k =
      let n = left s in
      let passed_over = λ (t : PaletteEntry).
        skip_entry-Ends reader left on fuel n type (depth + 1) t s (le_refl n) k in
      let name = read_string-Ends reader left on fuel n s (le_refl n) in
      let properties = read_properties_compound-Ends n (depth + 1) s (le_refl n) k in
      search (Ends-if, into-Ends reader left on fuel)

  read_palette_entry-Ends :
      (n depth : ℕ) (s : S)
      → left s ≤ n
      → n < fuel
      → Ends left n (read_palette_entry reader library fuel depth s)
  unfolding read_palette_entry
  read_palette_entry-Ends n depth s h k = Ends-check_depth left n depth _ (
      Ends-then left n _ _
        (entries-Ends reader left on fuel fuel n (palette_entry_entry reader library fuel depth) _ s
          h (omega arith)
          λ type key t s1 h1. palette_entry_entry-Ends depth type key t s1 (omega arith))
        λ t s1 h1. h1)

  palette_element-Ends :
      (depth : ℕ) (type : TagType) (t : List String) (s : S)
      → left s < fuel
      → Ends left (left s) (palette_element reader library fuel depth type t s)
  unfolding palette_element
  palette_element-Ends depth type t s k =
      let n = left s in
      let unknown =
        skip_entry-Ends reader left on fuel n type (depth + 1) (t ++ "minecraft:unknown" ∷ []) s
          (le_refl n) k in
      let named =
        Ends-then left n (read_palette_entry reader library fuel (depth + 1) s)
          (λ name s1. got (t ++ name ∷ []) s1)
          (read_palette_entry-Ends n (depth + 1) s (le_refl n) k) λ name s1 h1. h1 in
      search Ends-if

  pub read_palette_list-Ends :
      (n depth : ℕ) (s : S)
      → left s ≤ n
      → n < fuel
      → Ends left n (read_palette_list reader library fuel depth s)
  unfolding read_palette_list
  read_palette_list-Ends n depth s h k = Ends-check_depth left n depth _ (
      Ends-then left n _ _
        (read_list-Ends reader left on fuel n "Error reading Litematic palette length" s h)
        λ (type, count) s1 h1. unless_end-Ends reader left on fuel n type _ [] s1 h1 (
          times-Ends reader left on fuel count n _ [] s1 h1
            λ t s2 h2. palette_element-Ends depth type t s2 (omega arith)))
