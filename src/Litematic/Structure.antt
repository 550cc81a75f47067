-- ===== src/Litematic/Structure.antt =====
-- `LitematicStructure` of src/formats/litematic.hpp and src/formats/litematic.cpp, from what was read
-- of the file on. The block registry is a parameter: the id of air, that of unknown blocks, which
-- `read` finds or registers, and the look-up of a Java block.
pub mod Cells
pub mod Read
pub mod Accept
use Prim.Native.String.{String, ◌++◌ as str_append}
use water_structure_cpp.Common.{
  ℕ, zero, suc, ◌+◌, ◌-◌, ◌*◌, ◌/◌, ◌%◌, ◌^◌, Bool, true, false, not, ◌&&◌, ◌||◌, List, [], ◌∷◌,
  ◌++◌, map, Option, none, some, length, get_elem?, ltb, leb, ◌==◌, if◌then◌else◌,
}
use water_structure_cpp.Common.Int.{
  ℤ, pos, ◌+ℤ◌, ◌-ℤ◌, ◌*ℤ◌, ltb_ℤ, leb_ℤ, pos_part, to_unsigned, wrap32,
}
use water_structure_cpp.Coordinates.{
  BlockPos, ChunkPos, Size, volume, floor_div, structure_y_to_chunk_local, block_to_chunk, chunk_eq,
}
use water_structure_cpp.Result.{Result, success, failure, Status, done, ◌>>=◌, ◌>>◌, guard}
use water_structure_cpp.Chunk.{SubChunks, ChunkData, ChunkMap, empty_chunk, layer_index}
use water_structure_cpp.Store.{abs32}
use water_structure_cpp.Store.Entities.{BlockEntity, NbtChunkMap, push_entity, entity_in}
use water_structure_cpp.Store.Chunks.{
  for_each, int_range, span, write_block, source_min, source_max, keys, fill_all, world_of,
}
use water_structure_cpp.Litematic.Packed.{bits_for_palette, palette_index_at}
use water_structure_cpp.Litematic.Region.{
  StreamedRoot, StreamedRegion, required_region_fields_valid,
}
use water_structure_cpp.Litematic.Nbt.{Parsed, got, throws, runs_out}

pub record LitematicStructure : Type 0 where
  pub size : Size
  pub original_size : Size
  pub offset : BlockPos
  pub region_origin : BlockPos
  pub palette : List ℕ
  -- each int64_t as the uint64_t that it is cast to
  pub packed_states : List ℕ
  pub block_entities : List BlockEntity
  pub bits_per_block : ℕ
  pub non_air_blocks : ℕ

pub record Registry : Type 0 where
  pub air : ℕ
  pub unknown : ℕ
  pub compatible_java_runtime_id : String → Option ℕ

abbrev pub origin : BlockPos
origin = record { x = pos 0; y = pos 0; z = pos 0 }

unfoldable pub set_offset : LitematicStructure → BlockPos → LitematicStructure
unfolding abs32
set_offset s offset = record s {
  offset = offset;
  size = record {
    width = wrap32 (s.original_size.width +ℤ abs32 offset.x);
    height = wrap32 (s.original_size.height +ℤ abs32 offset.y);
    length = wrap32 (s.original_size.length +ℤ abs32 offset.z);
  };
}

abbrev pub known : Registry → Option ℕ → ℕ
known registry none = registry.unknown
known registry (some id) = id

-- The block at an index, where the palette has it.
unfoldable pub block_of : List ℕ → List ℕ → ℕ → ℕ → Option ℕ
block_of palette packed bits index =
    let i = palette_index_at packed bits index in
    if ltb i (length palette) then get_elem? palette i else none

abbrev pub is_solid : ℕ → Option ℕ → Bool
is_solid air none = false
is_solid air (some id) = not (id == air)

-- The loop over the indices, `left` of them from `index` on.
unfoldable pub count_solid : ℕ → (ℕ → Option ℕ) → ℕ → ℕ → ℕ → ℕ
count_solid air block index zero count = count
count_solid air block index (suc left) count =
    count_solid air block (index + 1) left
      (if is_solid air (block index) then (count + 1) % 2 ^ 64 else count)

unfoldable pub size_of : StreamedRegion → Size
unfolding abs32
size_of region = record {
  width = abs32 region.signed_size.x;
  height = abs32 region.signed_size.y;
  length = abs32 region.signed_size.z;
}

abbrev pub is_empty : List ℕ → Bool
is_empty [] = true
is_empty (id ∷ ids) = false

-- The checks of the region, each of which returns where it fails.
unfoldable pub check_region : Registry → StreamedRoot → Status
unfolding required_region_fields_valid size_of bits_for_palette
check_region registry root =
    let region = root.regions.selected in
    let s = size_of region in
    let palette =
      map (λ e. known registry (registry.compatible_java_runtime_id e)) region.palette in
    let bits = bits_for_palette (length palette) in
    let v = to_unsigned (2 ^ 64) (volume s) in
    guard (root.regions_present && root.regions_is_compound) "Litematic 缺少 Regions"
    >> (guard (root.regions.has_entry && root.regions.selected_is_compound) "Litematic 没有有效 Region"
        >> (guard (required_region_fields_valid region)
              "Litematic Region 缺少 Position/Size/Palette/BlockStates"
            >> (guard
                  (not
                    (leb_ℤ s.width (pos 0) || (leb_ℤ s.height (pos 0) || leb_ℤ s.length (pos 0))))
                  "Litematic Region 尺寸无效"
                >> (guard (not (is_empty palette)) "Litematic palette 为空"
                    >> (guard (not (ltb ((2 ^ 64 - 1) / bits) v)) "Litematic BlockStates 长度不足"
                        >> guard
                            (not
                              (ltb (length region.packed_states * 64 % 2 ^ 64) (v * bits % 2 ^ 64)))
                            "Litematic BlockStates 长度不足")))))

unfoldable pub structure_of : Registry → LitematicStructure → StreamedRegion → LitematicStructure
unfolding size_of bits_for_palette count_solid block_of set_offset
structure_of registry s region =
    let palette =
      map (λ e. known registry (registry.compatible_java_runtime_id e)) region.palette in
    let bits = bits_for_palette (length palette) in
    set_offset
      (record s {
        region_origin = region.position;
        original_size = size_of region;
        palette = palette;
        bits_per_block = bits;
        packed_states = region.packed_states;
        block_entities = region.block_entities;
        non_air_blocks =
            count_solid registry.air (block_of palette region.packed_states bits) 0
              (to_unsigned (2 ^ 64) (volume (size_of region))) 0;
      })
      origin

-- What `read` does once the first region is read.
unfoldable pub accept : Registry → LitematicStructure → StreamedRoot → Result LitematicStructure
unfolding check_region structure_of
accept registry s root =
    check_region registry root >> success (structure_of registry s root.regions.selected)

-- `read`, of a file that could be opened; `none` stands for a loop that does not end.
pub read :
    {S : Type 0}
    → Registry
    → LitematicStructure
    → Parsed S StreamedRoot
    → Option (Result LitematicStructure)
unfolding accept
read registry s (got root rest) = some (accept registry s root)
read registry s (throws e) = some (failure (str_append "解析 Litematic 失败: " e))
read registry s runs_out = none

-- The index of a block, by the columns and rows of the original size, as a std::size_t.
unfoldable pub cell_index : Size → ℤ → ℤ → ℤ → ℕ
cell_index s x y z =
    (pos_part y * (pos_part s.width * pos_part s.length % 2 ^ 64)
      + pos_part z * pos_part s.width
      + pos_part x)
    % 2 ^ 64

-- No block of the palette, or air, is passed over.
abbrev pub write_solid : ℕ → Bool → ℤ → ℕ → Option ℕ → SubChunks → SubChunks
write_solid air include_layer1 sub_y index none subs = subs
write_solid air include_layer1 sub_y index (some id) subs =
    if id == air then subs else write_block air include_layer1 sub_y index id subs

-- The body of the loops over the blocks of a chunk. The subchunk that the loop over a layer keeps is
-- the one that would be found again.
unfoldable pub place_cell :
    ℕ → Bool → LitematicStructure → ChunkPos → ℤ → ℤ → ℤ → SubChunks → SubChunks
unfolding block_of cell_index
place_cell air include_layer1 s chunk_pos y z x subs =
    let structure_y = wrap32 (y +ℤ s.offset.y) in
    let sub_y = floor_div (wrap32 (structure_y -ℤ pos 64)) (pos 16) in
    let ly = wrap32 (structure_y -ℤ wrap32 (wrap32 (sub_y *ℤ pos 16) +ℤ pos 64)) in
    let lx = wrap32 (x +ℤ s.offset.x -ℤ chunk_pos.x *ℤ pos 16) in
    let lz = wrap32 (z +ℤ s.offset.z -ℤ chunk_pos.z *ℤ pos 16) in
    write_solid air include_layer1 sub_y (layer_index ly lz lx)
      (block_of s.palette s.packed_states s.bits_per_block (cell_index s.original_size x y z)) subs

-- One layer of the blocks that lie in the chunk; no body of these loops fails.
unfoldable pub place_row :
    ℕ → Bool → LitematicStructure → ChunkPos → ℤ → ℤ → SubChunks → Result SubChunks
unfolding for_each int_range place_cell
place_row air include_layer1 s chunk_pos y z =
    let min_x = source_min chunk_pos.x s.offset.x in
    let max_x = source_max chunk_pos.x s.offset.x s.original_size.width in
    for_each (int_range min_x (span min_x max_x))
      λ x subs. success (place_cell air include_layer1 s chunk_pos y z x subs)

unfoldable pub place_layer :
    ℕ → Bool → LitematicStructure → ChunkPos → ℤ → SubChunks → Result SubChunks
unfolding for_each int_range place_row
place_layer air include_layer1 s chunk_pos y =
    let min_z = source_min chunk_pos.z s.offset.z in
    let max_z = source_max chunk_pos.z s.offset.z s.original_size.length in
    for_each (int_range min_z (span min_z max_z)) (place_row air include_layer1 s chunk_pos y)

unfoldable pub fill_chunk : ℕ → Bool → LitematicStructure → ChunkPos → Result ChunkData
unfolding for_each int_range place_layer
fill_chunk air include_layer1 s chunk_pos =
    let min_x = source_min chunk_pos.x s.offset.x in
    let max_x = source_max chunk_pos.x s.offset.x s.original_size.width in
    let min_z = source_min chunk_pos.z s.offset.z in
    let max_z = source_max chunk_pos.z s.offset.z s.original_size.length in
    let layers =
      for_each (int_range (pos 0) (pos_part s.original_size.height))
        (place_layer air include_layer1 s chunk_pos) [] in
    if ltb_ℤ max_x min_x || ltb_ℤ max_z min_z
    then success empty_chunk
    else (do subs ← layers; success (record empty_chunk { sub_chunks = subs }))

unfoldable pub get_chunks_impl : ℕ → LitematicStructure → List ChunkPos → Bool → Result ChunkMap
unfolding fill_chunk keys fill_all
get_chunks_impl air s positions include_layer1 =
    fill_all (fill_chunk air include_layer1 s) (keys positions)

pub get_chunks : ℕ → LitematicStructure → List ChunkPos → Result ChunkMap
unfolding get_chunks_impl
get_chunks air s positions = get_chunks_impl air s positions true

pub get_chunks_layer0 : ℕ → LitematicStructure → List ChunkPos → Result ChunkMap
unfolding get_chunks_impl
get_chunks_layer0 air s positions = get_chunks_impl air s positions false

collect_entities : BlockPos → List BlockEntity → NbtChunkMap → NbtChunkMap
unfolding push_entity entity_in world_of block_to_chunk
collect_entities offset [] result = result
collect_entities offset (source ∷ rest) result =
    let w = world_of offset source.position in
    let chunk = block_to_chunk w in
    collect_entities offset rest (push_entity chunk (entity_in chunk w source.payload) result)

pub get_chunk_nbt : LitematicStructure → List ChunkPos → Result NbtChunkMap
unfolding collect_entities keys
get_chunk_nbt s positions =
    success (collect_entities s.offset s.block_entities (map (λ p. (p, [])) (keys positions)))

pub count_non_air_blocks : LitematicStructure → Result ℕ
count_non_air_blocks s = success s.non_air_blocks
