-- ===== src/Schematic/Runs.antt =====
-- A run of src/formats/schematic_writer.cpp: a structure of air.
use water_structure_cpp.Common.{◌^◌, ◌≡◌, refl, [], none, length}
use water_structure_cpp.Common.Int.{pos, ◌+ℤ◌, ◌*ℤ◌, tdiv, trem, wrap32, wrap64}
use water_structure_cpp.Coordinates.{Size, volume, chunk_count, chunk_x_count, chunk_z_count}
use water_structure_cpp.Result.{success}
use water_structure_cpp.Schematic.{
  ConversionOptions, Schematic, check_size, check_budget, fields_of, read_all, write_schematic,
}
use water_structure_cpp.Schematic.Arrays.{written_lengths}

abbrev small : Size
small = record { width = pos 2; height = pos 1; length = pos 3 }

abbrev options : ConversionOptions
options = record { soft_memory_budget_bytes = 2 ^ 20; max_in_flight_chunks = 0 }

abbrev out : Schematic
out = fields_of (λ id. none) 0 small []

small_written : write_schematic (λ ps. success []) (λ id. none) 0 small options ≡ success out
unfolding write_schematic check_size check_budget volume tdiv trem ◌*ℤ◌ wrap32 wrap64 chunk_count
    chunk_x_count chunk_z_count read_all ◌+ℤ◌
small_written = refl

written_lengths_example :
    (out.blocks_length ≡ pos (length out.blocks))
    × (out.data_length ≡ pos (length out.data_bytes))
    × (out.width ≡ small.width)
    × (out.height ≡ small.height)
    × (out.length ≡ small.length)
written_lengths_example =
    written_lengths (λ ps. success []) (λ id. none) 0 small options out small_written
