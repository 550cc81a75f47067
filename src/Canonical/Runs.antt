-- ===== src/Canonical/Runs.antt =====
-- Runs of src/core/canonical.cpp.
use mathlib.Core.List.{Permᴰ}
use water_structure_cpp.Common.{◌≡◌, ◌≢◌, refl, [], ◌∷◌, All}
use water_structure_cpp.Common.Int.{pos, negsuc}
use water_structure_cpp.Canonical.{
  ByteList, Fields, field, no_fields, item, no_tags, byte_tag, int_array, list_tag, string_tag,
  escape_json_pointer,
}
use water_structure_cpp.Canonical.Pointer.{unescape, escape_json_pointer_reads_back}
use water_structure_cpp.Canonical.States.{
  BlockState, BlockStateProperty, byte_value, string_value, canonical_block_state,
}
use water_structure_cpp.Canonical.States.Invariance.{canonical_block_state_invariant}

abbrev chest : Fields
chest = field (105 ∷ 100 ∷ []) (string_tag (67 ∷ 104 ∷ [])) (
    field (73 ∷ [])
      (list_tag (item (byte_tag (negsuc 0)) (item (int_array (pos 7 ∷ negsuc 8 ∷ [])) no_tags)))
      no_fields)

abbrev odd_key : ByteList
odd_key = 97 ∷ 47 ∷ 126 ∷ 48 ∷ 49 ∷ []

escape_json_pointer_reads_back_example :
    All (λ c. c ≢ 47) (escape_json_pointer odd_key)
    × (unescape (escape_json_pointer odd_key) ≡ odd_key)
escape_json_pointer_reads_back_example = escape_json_pointer_reads_back odd_key

abbrev open_bit : BlockStateProperty
open_bit = record { name = 111 ∷ []; kind = byte_value; value = 49 ∷ [] }

abbrev facing : BlockStateProperty
facing = record { name = 102 ∷ []; kind = string_value; value = 110 ∷ [] }

abbrev door : BlockState
door = record { name = 100 ∷ []; states = open_bit ∷ facing ∷ []; version = pos 18 }

canonical_block_state_invariant_example :
    canonical_block_state door
    ≡ canonical_block_state (record door { states = facing ∷ open_bit ∷ [] })
canonical_block_state_invariant_example =
    canonical_block_state_invariant door (facing ∷ open_bit ∷ []) (Permᴰ.swap refl refl)
