-- ===== src/Litematic/Writer.antt =====
-- `write_litematic` of src/formats/litematic_writer.cpp: the checks, the palette, the packed states and
-- the fields of the file. The NBT library and the compression turn these into bytes; `java_state` is
-- the registry's, and an entry of the palette stands for the compound that `palette_entry` makes of it.
pub mod Palette
pub mod RoundTrip
pub mod Blocks
use Prim.Native.String.{String, ◌++◌ as str_append}
use water_structure_cpp.Common.{
  ℕ, zero, suc, ◌+◌, ◌-◌, ◌*◌, ◌/◌, ◌%◌, ◌^◌, max, Bool, true, false, not, ◌&&◌, ◌||◌, List, [],
  ◌∷◌, ◌++◌, map, Option, none, some, length, ltb, ◌==◌, if◌then◌else◌,
}
use water_structure_cpp.Common.Int.{ℤ, pos, ◌-ℤ◌, ltb_ℤ, leb_ℤ, pos_part}
use water_structure_cpp.Coordinates.{BlockPos, ChunkPos, Size, chunk_x_count, chunk_z_count, volume}
use water_structure_cpp.Result.{Result, success, failure, Status, done, ◌>>=◌, ◌>>◌}
use water_structure_cpp.Chunk.{ChunkMap, block_at}
use water_structure_cpp.Canonical.{ByteList}
use water_structure_cpp.Canonical.States.{
  BlockState, BlockStateProperty, bytes_eq, bytes_lt, kind_value, sort_by,
}
use water_structure_cpp.Schematic.{ConversionOptions, refuse, all_positions, block_bytes}
use water_structure_cpp.Litematic.Packed.{bits_for_palette, pack}

unfoldable pub refuse_size : Size → Status
refuse_size s =
    refuse
      ((leb_ℤ s.width (pos 0) || (leb_ℤ s.height (pos 0) || leb_ℤ s.length (pos 0)))
        || (leb_ℤ (volume s) (pos 0) || ltb_ℤ (pos (2 ^ 31 - 1)) (volume s)))
      "Litematic 输出尺寸无效或体积超过 int32"

-- The products and sums are of std::uint64_t.
unfoldable pub refuse_budget : ConversionOptions → Size → Status
refuse_budget options s =
    let chunk_count = pos_part (chunk_x_count s) * pos_part (chunk_z_count s) % 2 ^ 64 in
    let estimated_subchunks = (pos_part s.height + 15) / 16 in
    let estimated_chunk_bytes = max (64 * 1024) (estimated_subchunks * 4096 * 4 + 8 * 1024) in
    let packed_upper_bound = (pos_part (volume s) * 32 + 63) / 64 * 8 in
    refuse (ltb options.soft_memory_budget_bytes (64 * 1024))
      "Litematic writer soft_memory_budget 至少需要 64 KiB"
    >> (refuse
          (not (options.max_in_flight_chunks == 0) && ltb options.max_in_flight_chunks chunk_count)
          "Litematic writer 需要读取完整 chunk 集合，超过 max_in_flight_chunks"
        >> refuse
            (ltb options.soft_memory_budget_bytes
              ((chunk_count * estimated_chunk_bytes + packed_upper_bound) % 2 ^ 64))
            "Litematic writer 需要的 chunk/packed 窗口超过 soft_memory_budget")

-- "minecraft:" and ':', as bytes.
abbrev minecraft_prefix : ByteList
minecraft_prefix = 109 ∷ 105 ∷ 110 ∷ 101 ∷ 99 ∷ 114 ∷ 97 ∷ 102 ∷ 116 ∷ 58 ∷ []

abbrev air_name : ByteList
air_name = minecraft_prefix ++ 97 ∷ 105 ∷ 114 ∷ []

has_colon : ByteList → Bool
has_colon [] = false
has_colon (c ∷ name) = c == 58 || has_colon name

qualified : BlockState → BlockState
unfolding has_colon
qualified state =
    if has_colon state.name then state else record state { name = minecraft_prefix ++ state.name }

unfoldable pub java_palette_state : (ℕ → Option BlockState) → ℕ → BlockState
unfolding qualified
java_palette_state java_state runtime_id = elim (java_state runtime_id) [
  | none ↦ qualified (record { name = air_name; states = []; version = pos 0 })
  | some state ↦ qualified state
]

abbrev name_lt : BlockStateProperty → BlockStateProperty → Bool
name_lt a b = bytes_lt a.name b.name

property_keys : List BlockStateProperty → ByteList
property_keys [] = []
property_keys (p ∷ ps) = 0 ∷ (p.name ++ (kind_value p.kind ∷ 0 ∷ (p.value ++ property_keys ps)))

-- Properties of one name are taken in the order that they have.
unfoldable pub palette_key : BlockState → ByteList
unfolding sort_by property_keys bytes_lt
palette_key state = state.name ++ property_keys (sort_by name_lt state.states)

abbrev pub Indices : Type 0
Indices = List (ByteList × ℕ)

unfoldable pub index_at : Indices → ByteList → Option ℕ
unfolding bytes_eq
index_at [] key = none
index_at ((k, i) ∷ m) key = if bytes_eq k key then some i else index_at m key

-- The map of indices and the palette, while they are filled.
pub record PaletteTable : Type 0 where
  pub indices : Indices
  pub states : List BlockState

abbrev pub append_state : PaletteTable → ByteList → BlockState → Option ℕ → PaletteTable
append_state p key state (some i) = p
append_state p key state none = record {
  indices = (key, length p.states) ∷ p.indices;
  states = p.states ++ state ∷ [];
}

-- One turn of the first loops: a state whose key is new.
unfoldable pub add_state : (BlockState → ByteList) → BlockState → PaletteTable → PaletteTable
unfolding index_at
add_state key_of state p = append_state p (key_of state) state (index_at p.indices (key_of state))

unfoldable pub add_states : (BlockState → ByteList) → List BlockState → PaletteTable → PaletteTable
unfolding add_state
add_states key_of [] p = p
add_states key_of (state ∷ rest) p = add_states key_of rest (add_state key_of state p)

unfoldable pub start_palette : (BlockState → ByteList) → BlockState → PaletteTable
start_palette key_of air_state = record {
  indices = (key_of air_state, 0) ∷ [];
  states = air_state ∷ [];
}

abbrev pub or_zero : Option ℕ → ℕ
or_zero none = 0
or_zero (some i) = i

-- `at`, which does not fail here.
unfoldable pub value_of : (BlockState → ByteList) → Indices → BlockState → ℕ
unfolding index_at
value_of key_of indices state = or_zero (index_at indices (key_of state))

-- The palette and the packed states of the blocks' states in their order.
unfoldable pub encode_states :
    (BlockState → ByteList) → BlockState → List BlockState → List BlockState × List ℕ
unfolding add_states start_palette value_of pack bits_for_palette
encode_states key_of air_state states =
    let palette = add_states key_of states (start_palette key_of air_state) in
    (
      palette.states,
      pack (bits_for_palette (length palette.states))
          (map (value_of key_of palette.indices) states),
    )

-- The fields that depend on the structure.
pub record LitematicFields : Type 0 where
  pub enclosing_size : Size
  pub description : String
  pub total_volume : ℤ
  pub region_position : BlockPos
  pub region_size : Size
  pub block_state_palette : List BlockState
  pub block_states : List ℕ

describe : (ℤ → String) → Size → String
describe to_string s = str_append "(0,0,0) -> (" (
    str_append (to_string (s.width -ℤ pos 1)) (
      str_append "," (
        str_append (to_string (s.height -ℤ pos 1))
          (str_append "," (str_append (to_string (s.length -ℤ pos 1)) ")")))))

-- The states of the blocks, in the order of the loops over y, z and x.
unfoldable pub block_states_of : (ℕ → Option BlockState) → ℕ → Size → ChunkMap → List BlockState
unfolding block_bytes java_palette_state block_at
block_states_of java_state air s chunks =
    map (java_palette_state java_state)
      (block_bytes (λ x y z. block_at air chunks (pos x) (pos y) (pos z)) s)

unfoldable pub litematic_fields :
    (ℤ → String) → (ℕ → Option BlockState) → ℕ → Size → ChunkMap → LitematicFields
unfolding encode_states block_states_of describe palette_key java_palette_state
litematic_fields to_string java_state air s chunks =
    let encoded =
      encode_states palette_key (java_palette_state java_state air)
        (block_states_of java_state air s chunks) in
    record {
      enclosing_size = s;
      description = describe to_string s;
      total_volume = volume s;
      region_position = record { x = pos 0; y = pos 0; z = pos 0 };
      region_size = s;
      block_state_palette = encoded.0;
      block_states = encoded.1;
    }

unfoldable pub prefixed : Result ChunkMap → Result ChunkMap
prefixed (success chunks) = success chunks
prefixed (failure e) = failure (str_append "生成 Litematic chunks 失败: " e)

unfoldable pub write_litematic :
    (ℤ → String)
    → (List ChunkPos → Result ChunkMap)
    → (ℕ → Option BlockState)
    → ℕ
    → Size
    → ConversionOptions
    → Result LitematicFields
unfolding refuse_size refuse_budget all_positions litematic_fields prefixed
write_litematic to_string get_chunks_layer0 java_state air s options =
    refuse_size s
    >> (refuse_budget options s >> (do
      chunks ← prefixed (get_chunks_layer0 (all_positions s))
      success (litematic_fields to_string java_state air s chunks)))
