-- ===== src/Litematic/Values/Halting.antt =====
-- The values that src/formats/litematic.cpp reads: each function ends.
use native.Mathlib.Nat.{le_refl}
use Prim.Native.String.{String}
use water_structure_cpp.Common.{ℕ, ◌+◌, ◌≤◌, ◌<◌, List, [], arith}
use water_structure_cpp.Common.Int.{ℤ}
use water_structure_cpp.Store.Entities.{BlockEntity}
use water_structure_cpp.Litematic.Nbt.{
  TagType, end_tag, byte_tag, short_tag, int_tag, long_tag, StreamReader, Parsed, got, called,
  skip_payload,
}
use water_structure_cpp.Litematic.Nbt.Halting.{
  Ends, ReadsOn, Ends-called, Ends-then, Ends-check_depth, Ends-if, read_number-Ends,
  read_length-Ends, read_list-Ends, entries-Ends, times-Ends, skip_payload-Ends,
}
use water_structure_cpp.Litematic.Values.{
  Library, Xyz, optional, skipped, skip_entry, into, unless_end, read_int_value, xyz_entry,
  read_xyz_compound, read_long_array, tile_entity_element, keep_entity, int_value,
  read_tile_entities,
}

module _ {S E : Type 0} (reader : StreamReader S E) (left : S → ℕ) (on : ReadsOn reader left)
    (fuel : ℕ) where
  pub skip_entry-Ends :
      {T : Type 0} (n : ℕ) (type : TagType) (depth : ℕ) (t : T) (s : S)
      → left s ≤ n
      → n < fuel
      → Ends left n (skip_entry reader fuel type depth t s)
  skip_entry-Ends n type depth t s h k =
      Ends-then left n (skip_payload reader fuel type depth s) _
        (skip_payload-Ends reader left on fuel n type depth s h k) λ _ s1 h1. h1

  pub into-Ends :
      {T A : Type 0} (n : ℕ) (set : T → A → T) (t : T) (r : Parsed S A)
      → Ends left n r
      → Ends left n (into reader fuel set t r)
  into-Ends n set t r h = Ends-then left n r _ h λ a s1 h1. h1

  pub optional-Ends :
      {A : Type 0} (n : ℕ) (r : Parsed S A) → Ends left n r → Ends left n (optional reader fuel r)
  optional-Ends n r h = Ends-then left n r _ h λ a s1 h1. h1

  pub skipped-Ends :
      (A : Type 0) (n : ℕ) (type : TagType) (depth : ℕ) (s : S)
      → left s ≤ n
      → n < fuel
      → Ends left n (skipped reader fuel {A = A} (skip_payload reader fuel type depth s))
  skipped-Ends A n type depth s h k =
      Ends-then left n (skip_payload reader fuel type depth s) _
        (skip_payload-Ends reader left on fuel n type depth s h k) λ _ s1 h1. h1

  pub unless_end-Ends :
      {T : Type 0} (n : ℕ) (type : TagType) (r : TagType → Parsed S T) (t : T) (s : S)
      → left s ≤ n
      → Ends left n (r type)
      → Ends left n (unless_end reader fuel type r t s)
  unless_end-Ends n end_tag r t s h k = h
  unless_end-Ends n other r t s h k = k

  read_int_value-Ends :
      (n : ℕ) (type : TagType) (depth : ℕ) (s : S)
      → left s ≤ n
      → n < fuel
      → Ends left n (read_int_value reader fuel type depth s)
  unfolding read_int_value
  read_int_value-Ends n byte_tag depth s h k =
      optional-Ends n _ (read_number-Ends reader left on fuel n 1 "Error reading integer byte" s h)
  read_int_value-Ends n short_tag depth s h k =
      optional-Ends n _ (read_number-Ends reader left on fuel n 2 "Error reading integer short" s h)
  read_int_value-Ends n int_tag depth s h k =
      optional-Ends n _ (read_number-Ends reader left on fuel n 4 "Error reading integer int" s h)
  read_int_value-Ends n long_tag depth s h k =
      Ends-then left n _ _
        (read_number-Ends reader left on fuel n 8 "Error reading integer long" s h) λ z s1 h1. h1
  read_int_value-Ends n other depth s h k = skipped-Ends ℤ n other depth s h k

  xyz_entry-Ends :
      (depth : ℕ) (type : TagType) (key : String) (t : Xyz) (s : S)
      → left s < fuel
      → Ends left (left s) (xyz_entry reader fuel depth type key t s)
  unfolding xyz_entry
  xyz_entry-Ends depth type key t s k =
      let n = left s in
      let value = read_int_value-Ends n type (depth + 1) s (le_refl n) k in
      let passed_over = skip_entry-Ends n type (depth + 1) t s (le_refl n) k in
      search (Ends-if, into-Ends)

  pub read_xyz_compound-Ends :
      (n depth : ℕ) (s : S)
      → left s ≤ n
      → n < fuel
      → Ends left n (read_xyz_compound reader fuel depth s)
  unfolding read_xyz_compound
  read_xyz_compound-Ends n depth s h k = Ends-check_depth left n depth _ (
      Ends-then left n _ _
        (entries-Ends reader left on fuel fuel n (xyz_entry reader fuel depth) _ s h (omega arith)
          λ type key t s1 h1. xyz_entry-Ends depth type key t s1 (omega arith))
        λ t s1 h1. h1)

  pub read_long_array-Ends :
      (n : ℕ) (s : S) → left s ≤ n → Ends left n (read_long_array reader fuel s)
  unfolding read_long_array
  read_long_array-Ends n s h =
      Ends-then left n _ _
        (read_length-Ends reader left on fuel n "Error reading length of tag_long_array" s h)
        λ count s1 h1. times-Ends reader left on fuel count n _ [] s1 h1 λ t s2 h2.
          Ends-then left (left s2) _ _
            (read_number-Ends reader left on fuel (left s2) 8
              "Error reading contents of tag_long_array" s2 (le_refl (left s2)))
            λ w s3 h3. h3

  module _ (library : Library E) where
    tile_entity_element-Ends :
        (depth : ℕ) (type : TagType) (t : List BlockEntity) (s : S)
        → left s < fuel
        → Ends left (left s) (tile_entity_element reader library fuel depth type t s)
    unfolding tile_entity_element
    tile_entity_element-Ends depth type t s k =
        let n = left s in
        let passed_over = skip_entry-Ends n type (depth + 1) t s (le_refl n) k in
        let called_Ends = Ends-called left n (reader.read_payload s) (on.payload_takes s) in
        let kept =
          Ends-then left n (called (reader.read_payload s))
            (λ e s1.
              got
                (keep_entity reader library fuel e (int_value reader library fuel e "x")
                  (int_value reader library fuel e "y") (int_value reader library fuel e "z") t)
                s1)
            called_Ends λ e s1 h1. h1 in
        search Ends-if

    pub read_tile_entities-Ends :
        (n depth : ℕ) (s : S)
        → left s ≤ n
        → n < fuel
        → Ends left n (read_tile_entities reader library fuel depth s)
    unfolding read_tile_entities
    read_tile_entities-Ends n depth s h k = Ends-check_depth left n depth _ (
        Ends-then left n _ _
          (read_list-Ends reader left on fuel n "Error reading Litematic TileEntities length" s h)
          λ (type, count) s1 h1. unless_end-Ends n type _ [] s1 h1 (
            times-Ends reader left on fuel count n _ [] s1 h1
              λ t s2 h2. tile_entity_element-Ends depth type t s2 (omega arith)))
