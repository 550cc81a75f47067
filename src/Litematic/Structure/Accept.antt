-- ===== src/Litematic/Structure/Accept.antt =====
-- When `read` of src/formats/litematic.cpp takes a region, and what it is left with.
use Prim.Native.String.{String}
use water_structure_cpp.Common.{ℕ, ◌*◌, ◌≤◌, ◌<◌, ◌≡◌, true, ◌&&◌, List, map, length}
use water_structure_cpp.Common.Int.{pos, ◌<ℤ◌, pos_part}
use water_structure_cpp.Litematic.Packed.{bits_for_palette}
use water_structure_cpp.Litematic.Region.{StreamedRoot, StreamedRegion, valid}
use water_structure_cpp.Litematic.Structure.{Registry, known, size_of}

abbrev palette_of : Registry → StreamedRegion → List ℕ
palette_of registry region =
    map (λ e. known registry (registry.compatible_java_runtime_id e)) region.palette

abbrev volume_of : StreamedRegion → ℕ
volume_of region =
    let s = size_of region in pos_part s.width * pos_part s.height * pos_part s.length

-- What a file has that is read: a first region that is a compound, with the fields that it has to
-- have, with extents, with a palette, and with enough bits for its blocks.
pub record IsReadable (root : StreamedRoot) : Type 0 where
  pub present : (root.regions_present && root.regions_is_compound) ≡ true
  pub chosen : (root.regions.has_entry && root.regions.selected_is_compound) ≡ true
  pub has_position : root.regions.selected.position_state ≡ valid
  pub has_size : root.regions.selected.size_state ≡ valid
  pub has_palette : root.regions.selected.palette_state ≡ valid
  pub has_block_states : root.regions.selected.block_states_state ≡ valid
  pub wide : pos 0 <ℤ (size_of root.regions.selected).width
  pub high : pos 0 <ℤ (size_of root.regions.selected).height
  pub long : pos 0 <ℤ (size_of root.regions.selected).length
  pub named : 0 < length root.regions.selected.palette
  pub enough :
      volume_of root.regions.selected * bits_for_palette (length root.regions.selected.palette)
      ≤ 64 * length root.regions.selected.packed_states
