-- ===== src/Litematic/Region/Halting.antt =====
-- Reading a whole file by src/formats/litematic.cpp ends, with a value or an exception.
use native.Mathlib.Nat.{le_refl}
use Prim.Native.String.{String}
use water_structure_cpp.Common.{ℕ, ◌+◌, ◌≤◌, ◌<◌, Bool, not, arith, if◌then◌else◌}
use water_structure_cpp.Litematic.Nbt.{TagType, StreamReader, Parsed, throws, called}
use water_structure_cpp.Litematic.Nbt.Halting.{
  Ends, ReadsOn, Ends-called_then, Ends-then, Ends-check_depth, Ends-if, read_string-Ends,
  entries-Ends,
}
use water_structure_cpp.Litematic.Values.{Library, is_compound}
use water_structure_cpp.Litematic.Values.Halting.{
  skip_entry-Ends, into-Ends, read_xyz_compound-Ends, read_long_array-Ends, read_tile_entities-Ends,
}
use water_structure_cpp.Litematic.Palette.Halting.{read_palette_list-Ends}
use water_structure_cpp.Litematic.Region.{
  StreamedRegion, StreamedRegions, StreamedRoot, Reading, region_entry, read_region_compound,
  regions_entry, read_regions_compound, root_entry, read_litematic_root, empty_region,
}

module _ {S E : Type 0} (reader : StreamReader S E) (left : S → ℕ) (on : ReadsOn reader left)
    (library : Library E) (fuel : ℕ) where
  region_entry-Ends :
      (depth : ℕ) (type : TagType) (key : String) (t : Reading reader library fuel) (s : S)
      → left s < fuel
      → Ends left (left s) (region_entry reader library fuel depth type key t s)
  unfolding region_entry
  region_entry-Ends depth type key (r, seen) s k =
      let n = left s in
      let passed_over = λ (t : Reading reader library fuel).
        skip_entry-Ends reader left on fuel n type (depth + 1) t s (le_refl n) k in
      let xyz = read_xyz_compound-Ends reader left on fuel n (depth + 1) s (le_refl n) k in
      let palette =
        read_palette_list-Ends reader left on library fuel n (depth + 1) s (le_refl n) k in
      let states = read_long_array-Ends reader left on fuel n s (le_refl n) in
      let tiles =
        read_tile_entities-Ends reader left on fuel library n (depth + 1) s (le_refl n) k in
      search (Ends-if, into-Ends reader left on fuel) depth 12

  read_region_compound-Ends :
      (r : StreamedRegion) (n depth : ℕ) (s : S)
      → left s ≤ n
      → n < fuel
      → Ends left n (read_region_compound reader library fuel r depth s)
  unfolding read_region_compound
  read_region_compound-Ends r n depth s h k = Ends-check_depth left n depth _ (
      Ends-then left n _ _
        (entries-Ends reader left on fuel fuel n (region_entry reader library fuel depth) _ s h
          (omega arith) λ type key t s1 h1. region_entry-Ends depth type key t s1 (omega arith))
        λ t s1 h1. h1)

  regions_entry-Ends :
      (depth : ℕ) (type : TagType) (name : String) (t : StreamedRegions) (s : S)
      → left s < fuel
      → Ends left (left s) (regions_entry reader library fuel depth type name t s)
  unfolding regions_entry
  regions_entry-Ends depth type name t s k =
      let n = left s in
      let passed_over = λ (t : StreamedRegions).
        skip_entry-Ends reader left on fuel n type (depth + 1) t s (le_refl n) k in
      let region = read_region_compound-Ends empty_region n (depth + 1) s (le_refl n) k in
      search (Ends-if, into-Ends reader left on fuel)

  read_regions_compound-Ends :
      (n depth : ℕ) (s : S)
      → left s ≤ n
      → n < fuel
      → Ends left n (read_regions_compound reader library fuel depth s)
  unfolding read_regions_compound
  read_regions_compound-Ends n depth s h k = Ends-check_depth left n depth _ (
      entries-Ends reader left on fuel fuel n (regions_entry reader library fuel depth) _ s h
        (omega arith) λ type key t s1 h1. regions_entry-Ends depth type key t s1 (omega arith))

  root_entry-Ends :
      (type : TagType) (key : String) (t : StreamedRoot) (s : S)
      → left s < fuel
      → Ends left (left s) (root_entry reader library fuel type key t s)
  unfolding root_entry
  root_entry-Ends type key t s k =
      let n = left s in
      let passed_over =
        λ (t : StreamedRoot). skip_entry-Ends reader left on fuel n type 1 t s (le_refl n) k in
      let regions = read_regions_compound-Ends n 1 s (le_refl n) k in
      search (Ends-if, into-Ends reader left on fuel)

  throws_or-Ends :
      {A : Type 0} (n : ℕ) (b : Bool) (e : String) (r : Parsed S A)
      → Ends left n r
      → Ends left n (if b then throws e else r)
  throws_or-Ends n b e r h = Ends-if left n b (throws e) r tt h

  -- Where the library reads on in a finite stream, and the fuel is more than what is left of it,
  -- reading a file gives its first region or an exception: no loop of the reader goes on for ever.
  pub read_litematic_root-Ends :
      (s : S) → left s < fuel → Ends left (left s) (read_litematic_root reader library fuel s)
  unfolding read_litematic_root
  read_litematic_root-Ends s k =
      let n = left s in
      Ends-called_then left n (reader.read_first_type s) _ (on.first_type_takes s) λ type s1 h1.
        throws_or-Ends n (not (is_compound type)) "Tag is not a compound" _ (
          Ends-then left n (called (reader.read_string s1)) _
            (read_string-Ends reader left on fuel n s1 (omega arith))
            λ _ s2 h2.
              entries-Ends reader left on fuel fuel n (root_entry reader library fuel) _ s2 h2
                (omega arith) λ type key t s3 h3. root_entry-Ends type key t s3 (omega arith))
