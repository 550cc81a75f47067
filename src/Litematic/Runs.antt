-- ===== src/Litematic/Runs.antt =====
-- Runs of src/formats/litematic.cpp and src/formats/litematic_writer.cpp at small inputs.
use Prim.Native.String.{String}
use native.Mathlib.Nat.{le_refl}
use water_structure_cpp.Common.{
  ℕ, ◌*◌, ◌^◌, ◌≤◌, ◌<◌, ◌≡◌, refl, true, false, List, [], ◌∷◌, Option, none, some, length, arith,
  ◌==◌, if◌then◌else◌, drop, length-drop, leb, Bool-cases, inl, inr, leb→le,
}
use water_structure_cpp.Common.Int.{
  ℤ, pos, ◌+ℤ◌, ◌-ℤ◌, ◌*ℤ◌, tdiv, trem, wrap32, wrap64, pos_part, +ℤ_parts, -ℤ_parts, parts_apart,
}
use water_structure_cpp.Coordinates.{
  BlockPos, Size, ChunkPos, volume, chunk_count, chunk_x_count, chunk_z_count,
}
use water_structure_cpp.Result.{Result, success, failure}
use water_structure_cpp.Chunk.{ChunkMap, block_at}
use water_structure_cpp.Canonical.States.{BlockState}
use water_structure_cpp.Store.{is_outside}
use water_structure_cpp.Store.Chunks.Place.{Fits, chunk_of}
use water_structure_cpp.Store.Chunks.Window.{value_or}
use water_structure_cpp.Store.Chunks.Effects.{inside_bounds}
use water_structure_cpp.Schematic.{ConversionOptions, all_positions}
use water_structure_cpp.Litematic.Packed.{bits_for_palette, pack}
use water_structure_cpp.Litematic.Packed.Bits.{bits_for_palette_fit}
use water_structure_cpp.Litematic.Nbt.{TagType, compound, end_tag, byte_tag, StreamReader}
use water_structure_cpp.Litematic.Nbt.Halting.{Ends, ReadsOn, Below, Leaves, Drops}
use water_structure_cpp.Litematic.Values.{Library, no_position}
use water_structure_cpp.Litematic.Region.{
  StreamedRoot, StreamedRegion, RequiredFieldState, read_litematic_root,
}
use water_structure_cpp.Litematic.Region.Halting.{read_litematic_root-Ends}
use water_structure_cpp.Litematic.Structure.{LitematicStructure, Registry, get_chunks_impl, origin}
use water_structure_cpp.Litematic.Structure.Cells.{block_here}
use water_structure_cpp.Litematic.Structure.Read.{litematic_reads}
use water_structure_cpp.Litematic.Writer.{
  LitematicFields, write_litematic, litematic_fields, refuse_size, refuse_budget, prefixed,
}
use water_structure_cpp.Litematic.Writer.Blocks.{ReadsBack, written_blocks}

-- Five entries take three bits each.
packed_five : pack 3 (4 ∷ 0 ∷ 3 ∷ []) ≡ 196 ∷ []
unfolding pack
packed_five = refl

abbrev two_by_one : Size
two_by_one = record { width = pos 2; height = pos 1; length = pos 1 }

abbrev small : LitematicStructure
small = record {
  size = two_by_one;
  original_size = two_by_one;
  offset = origin;
  region_origin = origin;
  palette = 0 ∷ 7 ∷ [];
  packed_states = 4 ∷ [];
  block_entities = [];
  bits_per_block = 2;
  non_air_blocks = 1;
}

abbrev second : BlockPos
second = record { x = pos 1; y = pos 0; z = pos 0 }

small_fits : (q : BlockPos) → is_outside small.original_size q ≡ false → Fits small.offset q
small_fits q h =
    let (x0, x1, y0, y1, z0, z1) = inside_bounds two_by_one q h in
    record {
      fits_x = omega (arith, +ℤ_parts q.x (pos 0), parts_apart (q.x +ℤ pos 0));
      fits_y = omega (arith, +ℤ_parts q.y (pos 0), parts_apart (q.y +ℤ pos 0));
      fits_z = omega (arith, +ℤ_parts q.z (pos 0), parts_apart (q.z +ℤ pos 0));
      fits_below = omega (
        arith,
        +ℤ_parts q.y (pos 0),
        -ℤ_parts (q.y +ℤ pos 0) (pos 64),
        parts_apart (q.y +ℤ pos 0 -ℤ pos 64),
      );
    }

second_inside : is_outside small.original_size second ≡ false
unfolding is_outside
second_inside = refl

litematic_reads_example :
    (chunks : ChunkMap) × (get_chunks_impl 0 small (chunk_of small.offset second ∷ []) true
      ≡ success chunks)
    × (block_at 0 chunks (pos 1 +ℤ pos 0) (pos 0 +ℤ pos 0) (pos 0 +ℤ pos 0)
        ≡ value_or (block_here small second) 0)
litematic_reads_example = litematic_reads 0 true small second small_fits second_inside

bits_for_palette_fit_example :
    (5 ≤ 2 ^ bits_for_palette 5)
    × (2 ≤ bits_for_palette 5)
    × (bits_for_palette 5 ≤ 64)
    × (2 < bits_for_palette 5 → 2 ^ bits_for_palette 5 < 2 * 5)
bits_for_palette_fit_example = bits_for_palette_fit 5 (omega arith)

abbrev region : StreamedRegion
region = record {
  position_state = RequiredFieldState.valid;
  size_state = RequiredFieldState.valid;
  palette_state = RequiredFieldState.valid;
  block_states_state = RequiredFieldState.valid;
  position = no_position;
  signed_size = record { x = pos 2; y = pos 1; z = pos 1 };
  palette = "minecraft:air" ∷ "minecraft:stone" ∷ [];
  packed_states = 4 ∷ [];
  block_entities = [];
}

abbrev root : StreamedRoot
root = record {
  regions_present = true;
  regions_is_compound = true;
  regions = record {
    has_entry = true;
    selected_is_compound = true;
    selected_name = "region";
    selected = region;
  };
}

abbrev registry : Registry
registry = record { air = 0; unknown = 9; compatible_java_runtime_id = λ name. some 7 }

-- A stream of the bytes of the types alone.
abbrev type_of : ℕ → TagType
type_of byte = if byte == 10 then compound else if byte == 0 then end_tag else byte_tag

abbrev take_type : List ℕ → Result (TagType × List ℕ)
take_type [] = failure "end of stream"
take_type (byte ∷ rest) = success (type_of byte, rest)

abbrev take_number : ℕ → List ℕ → Option (ℤ × List ℕ)
take_number width [] = none
take_number width (byte ∷ rest) = some (pos byte, rest)

abbrev bytes : StreamReader (List ℕ) Unit
bytes = record {
  read_first_type = take_type;
  read_type = take_type;
  read_string = λ s. success ("", s);
  read_num = take_number;
  read_bytes = λ n s. if leb n (length s) then some (drop n s) else none;
  read_payload = λ s. success (tt, s);
}

type-Below : (s : List ℕ) → Below length (length s) (take_type s)
type-Below [] = tt
type-Below (byte ∷ rest) = omega arith

number-Leaves : (width : ℕ) (s : List ℕ) → Leaves length (length s) (take_number width s)
number-Leaves width [] = tt
number-Leaves width (byte ∷ rest) = omega arith

bytes_drop : (n : ℕ) (s : List ℕ) → Drops length (length s) n (bytes.read_bytes n s)
bytes_drop n s = elim (Bool-cases (leb n (length s))) [
  | inl enough ↦ rw enough (omega (arith, leb→le n (length s) enough, length-drop n s))
  | inr short ↦ rw short tt
]

bytes_read_on : ReadsOn bytes length
bytes_read_on = record {
  first_type_takes = type-Below;
  type_takes = type-Below;
  string_takes = λ s. le_refl (length s);
  num_leaves = number-Leaves;
  bytes_drop = bytes_drop;
  payload_takes = λ s. le_refl (length s);
}

abbrev library : Library Unit
library = record { to_string = λ z. ""; value_at = λ e key. none; serialize_compound = λ e. [] }

-- A compound with a byte and a compound, and its end.
abbrev file : List ℕ
file = 10 ∷ 1 ∷ 5 ∷ 10 ∷ 0 ∷ 0 ∷ []

read_litematic_root-Ends_example : Ends length 6 (read_litematic_root bytes library 7 file)
read_litematic_root-Ends_example =
    read_litematic_root-Ends bytes length bytes_read_on library 7 file (omega arith)

abbrev options : ConversionOptions
options = record { soft_memory_budget_bytes = 2 ^ 20; max_in_flight_chunks = 0 }

abbrev no_text : ℤ → String
no_text z = ""

abbrev no_state : ℕ → Option BlockState
no_state id = none

abbrev no_chunks : List ChunkPos → Result ChunkMap
no_chunks ps = success []

abbrev out : LitematicFields
out = litematic_fields no_text no_state 0 two_by_one []

small_written : write_litematic no_text no_chunks no_state 0 two_by_one options ≡ success out
unfolding write_litematic refuse_size refuse_budget volume tdiv trem ◌*ℤ◌ wrap32 wrap64 chunk_count
    chunk_x_count chunk_z_count prefixed ◌+ℤ◌
small_written = refl

written_blocks_example :
    (chunks : ChunkMap) × (no_chunks (all_positions two_by_one) ≡ success chunks)
    × ((x y z : ℕ)
        → x < pos_part two_by_one.width
        → y < pos_part two_by_one.height
        → z < pos_part two_by_one.length
        → ReadsBack no_state 0 two_by_one chunks out x y z)
written_blocks_example =
    written_blocks no_text no_chunks no_state 0 two_by_one options out small_written
