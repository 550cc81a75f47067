-- ===== src/Canonical/States/Invariance.antt =====
-- `canonical_block_state` of src/core/canonical.cpp does not depend on the order of the properties.
use mathlib.Core.List.{Permᴰ}
use water_structure_cpp.Common.{◌≡◌, List}
use water_structure_cpp.Canonical.States.{BlockState, BlockStateProperty, canonical_block_state}
use water_structure_cpp.Canonical.States.Sorted.{sort_by-Perm, Perm-length}
use water_structure_cpp.Canonical.States.Order.{property_lt-StrictOrder}

-- Two block states with one name and one version, whose properties are the same up to their order,
-- have one canonical form, or fail with one error: the bytes do not depend on the order in which a
-- format lists the properties.
pub canonical_block_state_invariant :
    (s : BlockState) (states : List BlockStateProperty)
    → Permᴰ s.states states
    → canonical_block_state s ≡ canonical_block_state (record s { states = states })
unfolding canonical_block_state
canonical_block_state_invariant s states p =
    rw (sort_by-Perm property_lt-StrictOrder p, Perm-length p)
