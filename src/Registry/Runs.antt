-- ===== src/Registry/Runs.antt =====
-- Runs of src/core/runtime_registry.cpp: a stone, air, and the stone again.
use water_structure_cpp.Common.{suc, ◌≡◌, List, [], ◌∷◌, map, none, some, refl, inl, arith}
use water_structure_cpp.Common.Int.{pos}
use water_structure_cpp.Canonical.States.{BlockState}
use water_structure_cpp.Registry.{air_state, make_registry, register_state, find_compatible, assign}
use water_structure_cpp.Registry.Intern.{register_all, intern_all, plain_key, register_all-interns}
use water_structure_cpp.Registry.Again.{registered, register_state_again}

-- "stone", without a namespace.
abbrev stone : BlockState
stone = record { name = 115 ∷ 116 ∷ 111 ∷ 110 ∷ 101 ∷ []; states = []; version = pos 7 }

abbrev states : List BlockState
states = stone ∷ air_state ∷ stone ∷ []

register_all-interns_example :
    register_all states make_registry
    ≡ map suc (intern_all (map plain_key states) (plain_key air_state ∷ []))
register_all-interns_example = register_all-interns states (omega arith)

no_upgrades : make_registry.upgrade ≡ none
unfolding make_registry register_state assign
no_upgrades = refl

register_state_again_example :
    let (id, r') = register_state make_registry stone in
    let r'' = registered states r' in
    (register_state r'' stone ≡ (id, r'')) × (find_compatible r'' stone ≡ some id)
register_state_again_example = register_state_again make_registry stone states (inl no_upgrades)
