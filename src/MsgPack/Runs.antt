-- ===== src/MsgPack/Runs.antt =====
-- Runs of `StreamDecoder` in src/formats/msgpack_structure.cpp.
use water_structure_cpp.Common.{[], ◌∷◌}
use water_structure_cpp.MsgPack.{StreamDecoder, integer, string, boolean, array_length}
use water_structure_cpp.MsgPack.Skip.{skip_value, read_data}
use water_structure_cpp.MsgPack.Bounds.{Advances, operations_stay_inside}
use water_structure_cpp.MsgPack.Agree.{SkipsAlike, skip_value_agrees}

-- A 16-bit integer, and a byte after it.
abbrev decoder : StreamDecoder
decoder = record { size = 4; position = 0; rest = 209 ∷ 255 ∷ 254 ∷ 195 ∷ [] }

operations_stay_inside_example :
    Advances decoder (integer "x" decoder)
    × Advances decoder (string "x" decoder)
    × Advances decoder (boolean "x" decoder)
    × Advances decoder (array_length "x" decoder)
    × Advances decoder (skip_value "x" decoder)
    × Advances decoder (read_data "x" decoder)
operations_stay_inside_example = operations_stay_inside "x" decoder

skip_value_agrees_example :
    SkipsAlike (integer "x" decoder) (skip_value "x" decoder)
    × SkipsAlike (boolean "x" decoder) (skip_value "x" decoder)
skip_value_agrees_example = skip_value_agrees "x" decoder
