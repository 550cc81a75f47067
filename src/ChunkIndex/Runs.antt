-- ===== src/ChunkIndex/Runs.antt =====
-- A run of include/WaterStructure/chunk_index.hpp.
use water_structure_cpp.Common.{◌≡◌, true, List, [], ◌∷◌, arith}
use water_structure_cpp.Common.Int.{pos, negsuc}
use water_structure_cpp.Coordinates.{BlockPos, ChunkPos}
use water_structure_cpp.ChunkIndex.{ChunkBlockIndex, clear, ensure, find_bucket}
use water_structure_cpp.ChunkIndex.Finds.{indices_in, if_any, ensure_finds}

abbrev zero_offset : BlockPos
zero_offset = record { x = pos 0; y = pos 0; z = pos 0 }

abbrev blocks : List BlockPos
blocks =
    record { x = pos 3; y = pos 0; z = pos 17 }
    ∷ record { x = negsuc 0; y = pos 0; z = pos 17 }
    ∷ record { x = pos 15; y = pos 9; z = pos 31 }
    ∷ []

abbrev old_index : ChunkBlockIndex
old_index = record { ready = true; buckets = [] }

abbrev second : ChunkPos
second = record { x = pos 0; z = pos 1 }

ensure_finds_example :
    ((ensure (clear old_index) blocks zero_offset).0 ≡ true)
    × (find_bucket (ensure (clear old_index) blocks zero_offset).1 second
        ≡ if_any (indices_in zero_offset second 0 blocks))
ensure_finds_example = ensure_finds old_index blocks zero_offset second (omega arith)
