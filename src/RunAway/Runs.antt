-- ===== src/RunAway/Runs.antt =====
-- Runs of src/formats/runaway.cpp: a file that places two blocks at one position.
use water_structure_cpp.Common.{ℕ, ◌≡◌, refl, List, [], ◌∷◌, false}
use water_structure_cpp.Common.Int.{pos, negsuc}
use water_structure_cpp.Coordinates.{BlockPos, Size}
use water_structure_cpp.Store.Map.{Entries, lookup, IsSorted}
use water_structure_cpp.RunAway.{RunAwayStructure, distinct, stable_sort}
use water_structure_cpp.RunAway.Placement.{last_placed, last_placement_wins}
use water_structure_cpp.RunAway.Index.{
  IsFresh, Call, reads, moves, asks, perform_all, calls-IsFresh,
}

abbrev near : BlockPos
near = record { x = negsuc 4; y = pos 70; z = pos 2 }

abbrev entries : Entries ℕ
entries = (near, 1) ∷ (record { x = pos 8; y = pos 64; z = pos 2 }, 5) ∷ (near, 2) ∷ []

last_placement_wins_example :
    IsSorted (distinct (stable_sort entries))
    × (lookup near (distinct (stable_sort entries)) ≡ last_placed near entries)
last_placement_wins_example = last_placement_wins entries near

abbrev no_size : Size
no_size = record { width = pos 0; height = pos 0; length = pos 0 }

abbrev fresh_structure : RunAwayStructure
fresh_structure = record {
  original_size = no_size;
  size = no_size;
  offset = record { x = pos 0; y = pos 0; z = pos 0 };
  blocks = [];
  index = record { ready = false; buckets = [] };
  non_air_blocks = 0;
}

abbrev calls : List Call
calls =
    reads entries
    ∷ asks (record { x = pos 0; z = pos 0 } ∷ [])
    ∷ moves near
    ∷ asks (record { x = negsuc 0; z = pos 0 } ∷ [])
    ∷ reads []
    ∷ []

calls-IsFresh_example : IsFresh (perform_all 0 fresh_structure calls)
calls-IsFresh_example = calls-IsFresh 0 fresh_structure calls refl
