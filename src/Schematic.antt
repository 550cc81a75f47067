-- ===== src/Schematic.antt =====
-- `write_schematic` of src/formats/schematic_writer.cpp: the checks, and what is written. The NBT
-- library and the compression turn the fields into bytes; `schematic_block` is the registry's.
pub mod Arrays
mod Runs
use Prim.Native.String.{String, ◌++◌ as str_append}
use water_structure_cpp.Common.{
  ℕ, zero, suc, ◌+◌, ◌-◌, ◌*◌, ◌/◌, ◌%◌, ◌^◌, max, Bool, true, false, not, ◌&&◌, ◌||◌, List, [],
  ◌∷◌, ◌++◌, Option, none, some, ltb, ◌==◌, if◌then◌else◌,
}
use water_structure_cpp.Common.Int.{ℤ, pos, ltb_ℤ, leb_ℤ, pos_part, to_signed, to_unsigned, wrap32}
use water_structure_cpp.Coordinates.{ChunkPos, Size, chunk_x_count, chunk_z_count, volume}
use water_structure_cpp.Result.{Result, success, failure, Status, done, ◌>>=◌, ◌>>◌}
use water_structure_cpp.Chunk.{ChunkMap, block_at}

pub record ConversionOptions : Type 0 where
  pub soft_memory_budget_bytes : ℕ
  pub max_in_flight_chunks : ℕ

abbrev int16_max : ℤ
int16_max = pos (2 ^ 15 - 1)

abbrev pub refuse : Bool → String → Status
refuse b e = if b then failure e else done

unfoldable pub check_size : Size → Status
check_size s =
    refuse
      ((leb_ℤ s.width (pos 0) || (leb_ℤ s.height (pos 0) || leb_ℤ s.length (pos 0)))
        || ((ltb_ℤ int16_max s.width || (ltb_ℤ int16_max s.height || ltb_ℤ int16_max s.length))
            || (leb_ℤ (volume s) (pos 0) || ltb_ℤ (pos (2 ^ 31 - 1)) (volume s))))
      "Schematic 输出尺寸无效、超过 int16 或体积超过 int32"

-- The products are of std::uint64_t.
check_budget : ConversionOptions → Size → Status
check_budget options s =
    let chunk_count = pos_part (chunk_x_count s) * pos_part (chunk_z_count s) % 2 ^ 64 in
    let estimated_subchunks = (pos_part s.height + 15) / 16 in
    let estimated_chunk_bytes = max (64 * 1024) (estimated_subchunks * 4096 * 4 + 8 * 1024) in
    refuse (ltb options.soft_memory_budget_bytes (64 * 1024))
      "Schematic writer soft_memory_budget 至少需要 64 KiB"
    >> (refuse
          (not (options.max_in_flight_chunks == 0) && ltb options.max_in_flight_chunks chunk_count)
          "Schematic writer 需要读取完整 chunk 集合，超过 max_in_flight_chunks"
        >> refuse
            (ltb options.soft_memory_budget_bytes (chunk_count * estimated_chunk_bytes % 2 ^ 64))
            "Schematic writer 的 chunk 窗口超过 soft_memory_budget")

-- What a loop from `i` on appends, `left` times.
unfoldable pub for_range {ℓ} : {A : Type ℓ} → ℕ → ℕ → (ℕ → List A) → List A
for_range i zero body = []
for_range i (suc left) body = body i ++ for_range (i + 1) left body

unfoldable pub all_positions : Size → List ChunkPos
unfolding for_range
all_positions s =
    for_range 0 (pos_part (chunk_x_count s))
      λ x. for_range 0 (pos_part (chunk_z_count s)) λ z. record { x = pos x; z = pos z } ∷ []

-- The loops over y, z and x, which put a byte for each block.
unfoldable pub block_bytes : (ℕ → ℕ → ℕ → ℕ) → Size → List ℕ
unfolding for_range
block_bytes byte_at s =
    for_range 0 (pos_part s.height) λ y.
      for_range 0 (pos_part s.length) λ z. for_range 0 (pos_part s.width) λ x. byte_at x y z ∷ []

abbrev value_or_air : Option (ℕ × ℕ) → ℕ × ℕ
value_or_air none = (0, 0)
value_or_air (some legacy) = legacy

-- The fields of the file, in the order in which they are written.
pub record Schematic : Type 0 where
  pub length : ℤ
  pub height : ℤ
  pub width : ℤ
  pub blocks_length : ℤ
  pub blocks : List ℕ
  pub data_length : ℤ
  pub data_bytes : List ℕ

abbrev legacy_at : (ℕ → Option (ℕ × ℕ)) → ℕ → ChunkMap → ℕ → ℕ → ℕ → ℕ × ℕ
legacy_at schematic_block air chunks x y z =
    value_or_air (schematic_block (block_at air chunks (pos x) (pos y) (pos z)))

-- `static_cast<std::int16_t>`.
unfoldable pub wrap16 : ℤ → ℤ
wrap16 z = to_signed (2 ^ 16) (to_unsigned (2 ^ 16) z)

fields_of : (ℕ → Option (ℕ × ℕ)) → ℕ → Size → ChunkMap → Schematic
unfolding block_bytes wrap16
fields_of schematic_block air s chunks = record {
  length = wrap16 s.length;
  height = wrap16 s.height;
  width = wrap16 s.width;
  blocks_length = wrap32 (volume s);
  blocks = block_bytes (λ x y z. (legacy_at schematic_block air chunks x y z).0) s;
  data_length = wrap32 (volume s);
  data_bytes = block_bytes (λ x y z. (legacy_at schematic_block air chunks x y z).1) s;
}

-- The text of a failed request is behind a prefix.
read_all : Result ChunkMap → Result ChunkMap
read_all (success chunks) = success chunks
read_all (failure e) = failure (str_append "生成 Schematic chunks 失败: " e)

pub write_schematic :
    (List ChunkPos → Result ChunkMap)
    → (ℕ → Option (ℕ × ℕ))
    → ℕ
    → Size
    → ConversionOptions
    → Result Schematic
unfolding check_size check_budget all_positions fields_of read_all
write_schematic get_chunks_layer0 schematic_block air s options =
    check_size s
    >> (check_budget options s >> (do
      chunks ← read_all (get_chunks_layer0 (all_positions s))
      success (fields_of schematic_block air s chunks)))
