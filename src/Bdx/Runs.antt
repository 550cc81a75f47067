-- ===== src/Bdx/Runs.antt =====
-- A run of src/formats/bdx_writer.cpp and src/formats/bdx.cpp: from one end of the axis to the other.
use water_structure_cpp.Common.{◌-◌, ◌^◌, ◌≡◌, length, arith}
use water_structure_cpp.Common.Int.{pos, negsuc}
use water_structure_cpp.Coordinates.{BlockPos}
use water_structure_cpp.Result.{success}
use water_structure_cpp.Bdx.{append_move, read_moves}
use water_structure_cpp.Bdx.Moves.{append_move_reads_back}

abbrev low : BlockPos
low = record { x = negsuc (2 ^ 31 - 1); y = pos 5; z = pos 300 }

abbrev high : BlockPos
high = record { x = pos (2 ^ 31 - 1); y = pos 4; z = pos 0 }

append_move_reads_back_example :
    read_moves (length (append_move low high)) low (append_move low high) ≡ success high
append_move_reads_back_example = append_move_reads_back low high (omega arith) (omega arith)
