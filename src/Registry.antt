-- ===== src/Registry.antt =====
-- `RuntimeRegistry` of src/core/runtime_registry.cpp and include/WaterStructure/runtime_registry.hpp:
-- the ids of block states. Texts are their bytes. An unordered map is the list of its entries, the
-- latest first; each member function holds the mutex for all that it does with the maps, so a call is
-- one step. `upgrade` is the function that the loaded schemas make.
pub mod Intern
pub mod Again
mod Runs
use water_structure_cpp.Common.{
  ℕ, zero, suc, ◌+◌, ◌-◌, ◌*◌, ◌/◌, ◌%◌, ◌^◌, Bool, true, false, not, ◌&&◌, ◌||◌, List, [], ◌∷◌,
  ◌++◌, map, drop, Option, none, some, length, get_elem?, get_or, ltb, leb, ◌==◌, if◌then◌else◌,
}
use water_structure_cpp.Common.Int.{ℤ, pos, negsuc, eqb_ℤ}
use water_structure_cpp.Canonical.{ByteList}
use water_structure_cpp.Canonical.States.{
  BlockState, BlockStateProperty, BlockStateValueType, byte_value, string_value, bytes_eq, bytes_lt,
  kind_value, sort_by, property_lt,
}

-- "minecraft:", "unknown" and "air".
abbrev pub minecraft_prefix : ByteList
minecraft_prefix = 109 ∷ 105 ∷ 110 ∷ 101 ∷ 99 ∷ 114 ∷ 97 ∷ 102 ∷ 116 ∷ 58 ∷ []

abbrev unknown : ByteList
unknown = 117 ∷ 110 ∷ 107 ∷ 110 ∷ 111 ∷ 119 ∷ 110 ∷ []

abbrev air : ByteList
air = 97 ∷ 105 ∷ 114 ∷ []

-- `find(':') != npos`.
unfoldable pub has_colon : ByteList → Bool
has_colon [] = false
has_colon (c ∷ name) = let rest = has_colon name in if c == 58 then true else rest

abbrev pub named : Bool → ByteList → ByteList
named true name = name
named false name = minecraft_prefix ++ name

unfoldable pub normalize_name : ByteList → ByteList
unfolding has_colon
normalize_name [] = minecraft_prefix ++ unknown
normalize_name (c ∷ name) = named (has_colon (c ∷ name)) (c ∷ name)

-- `std::tolower` of the "C" locale.
abbrev lower : ℕ → ℕ
lower c = if leb 65 c && leb c 90 then c + 32 else c

normalize_legacy_name : ByteList → ByteList
unfolding normalize_name
normalize_legacy_name name = map lower (normalize_name name)

-- What `<<` writes of an integer, with as many digits as the fuel allows.
digits : ℕ → ℕ → ByteList
digits zero n = []
digits (suc fuel) n =
    let high = digits fuel (n / 10) in
    if ltb n 10 then (48 + n) ∷ [] else high ++ (48 + n % 10) ∷ []

decimal : ℤ → ByteList
unfolding digits
decimal (pos n) = digits 20 n
decimal (negsuc n) = 45 ∷ digits 20 (suc n)

-- '|', the name, ':', the type, '=' and the value of each property.
property_texts : List BlockStateProperty → ByteList
unfolding decimal
property_texts [] = []
property_texts (p ∷ ps) =
    124
    ∷ (p.name
        ++ (58 ∷ (decimal (pos (kind_value p.kind)) ++ (61 ∷ (p.value ++ property_texts ps)))))

-- The comparison of `key_for`, which leaves the types out; the sort takes properties that it does not
-- tell apart in the order that they have.
key_lt : BlockStateProperty → BlockStateProperty → Bool
unfolding bytes_eq bytes_lt
key_lt left right =
    if bytes_eq left.name right.name
    then bytes_lt left.value right.value
    else bytes_lt left.name right.name

unfoldable pub key_for : ByteList → List BlockStateProperty → ℤ → ByteList
unfolding normalize_name sort_by key_lt decimal property_texts
key_for name states version =
    normalize_name name ++ (124 ∷ (decimal version ++ property_texts (sort_by key_lt states)))

unfoldable pub state_key_for : ByteList → List BlockStateProperty → ByteList
unfolding normalize_name sort_by property_lt property_texts
state_key_for name states = normalize_name name ++ property_texts (sort_by property_lt states)

abbrev pub Ids : Type 0
Ids = List (ByteList × ℕ)

pub record RuntimeRegistry : Type 0 where
  -- a std::uint32_t
  pub next_runtime_id : ℕ
  pub air_runtime_id : ℕ
  pub by_key : Ids
  pub by_state_key : Ids
  pub by_name : Ids
  pub by_runtime_id : List (ℕ × BlockState)
  pub upgrade : Option (BlockState → BlockState)

unfoldable pub find_id : Ids → ByteList → Option ℕ
unfolding bytes_eq
find_id [] key = none
find_id ((k, id) ∷ m) key = if bytes_eq k key then some id else find_id m key

unfoldable pub find_state : List (ℕ × BlockState) → ℕ → Option BlockState
find_state [] id = none
find_state ((i, state) ∷ m) id = if i == id then some state else find_state m id

-- `try_emplace`, and `emplace`: an entry that is there stays.
abbrev pub emplace_unless :
    {A : Type 0} → Option A → List (ByteList × ℕ) → ByteList → ℕ → List (ByteList × ℕ)
emplace_unless none m key id = (key, id) ∷ m
emplace_unless (some a) m key id = m

abbrev pub emplace_state :
    Option BlockState → List (ℕ × BlockState) → ℕ → BlockState → List (ℕ × BlockState)
emplace_state none m id state = (id, state) ∷ m
emplace_state (some s) m id state = m

abbrev pub is_none : {A : Type 0} → Option A → Bool
is_none none = true
is_none (some a) = false

abbrev pub no_properties : BlockState → Bool
no_properties s = elim s.states [ [] ↦ true | p ∷ ps ↦ false ]

abbrev pub upgraded_by : Option (BlockState → BlockState) → BlockState → BlockState
upgraded_by none state = state
upgraded_by (some f) state = f state

unfoldable pub upgraded : RuntimeRegistry → BlockState → BlockState
upgraded r state = upgraded_by r.upgrade state

-- The state that the keys are made of.
unfoldable pub prepared : RuntimeRegistry → BlockState → BlockState
unfolding upgraded normalize_name
prepared r state = let u = upgraded r state in record u { name = normalize_name u.name }

-- A new id, entered in the four maps.
unfoldable pub assign : RuntimeRegistry → BlockState → ByteList → ByteList → ℕ × RuntimeRegistry
unfolding find_id find_state
assign r state key state_key =
    let id = r.next_runtime_id in
    (
      id,
      record r {
        next_runtime_id = (id + 1) % 2 ^ 32;
        by_key = emplace_unless (find_id r.by_key key) r.by_key key id;
        by_state_key =
            emplace_unless (find_id r.by_state_key state_key) r.by_state_key state_key id;
        by_name =
            if is_none (find_id r.by_name state.name) || no_properties state
            then (state.name, id) ∷ r.by_name
            else r.by_name;
        by_runtime_id = emplace_state (find_state r.by_runtime_id id) r.by_runtime_id id state;
      },
    )

abbrev pub or_assign :
    RuntimeRegistry → BlockState → ByteList → ByteList → Option ℕ → ℕ × RuntimeRegistry
or_assign r state key state_key (some id) = (id, r)
or_assign r state key state_key none = assign r state key state_key

abbrev pub if_upgraded : Option (BlockState → BlockState) → Option ℕ → Option ℕ
if_upgraded none found = none
if_upgraded (some f) found = found

-- With upgrades, a state that differs in its version alone is the one that is there.
abbrev pub or_same_state :
    RuntimeRegistry → BlockState → ByteList → ByteList → Option ℕ → ℕ × RuntimeRegistry
or_same_state r state key state_key (some id) = (id, r)
or_same_state r state key state_key none =
    or_assign r state key state_key (if_upgraded r.upgrade (find_id r.by_state_key state_key))

unfoldable pub register_state : RuntimeRegistry → BlockState → ℕ × RuntimeRegistry
unfolding prepared key_for state_key_for find_id assign
register_state r state =
    let p = prepared r state in
    let key = key_for p.name p.states p.version in
    or_same_state r p key (state_key_for p.name p.states) (find_id r.by_key key)

abbrev pub empty_registry : RuntimeRegistry
empty_registry = record {
  next_runtime_id = 1;
  air_runtime_id = 0;
  by_key = [];
  by_state_key = [];
  by_name = [];
  by_runtime_id = [];
  upgrade = none;
}

abbrev pub air_state : BlockState
air_state = record { name = minecraft_prefix ++ air; states = []; version = pos 0 }

-- The constructor.
unfoldable pub make_registry : RuntimeRegistry
unfolding register_state
make_registry =
    let (id, r) = register_state empty_registry air_state in record r { air_runtime_id = id }

abbrev pub or_else : Option ℕ → Option ℕ → Option ℕ
or_else (some id) other = some id
or_else none other = other

abbrev pub only_if : Bool → Option ℕ → Option ℕ
only_if true found = found
only_if false found = none

unfoldable pub find : RuntimeRegistry → ByteList → List BlockStateProperty → ℤ → Option ℕ
unfolding key_for state_key_for normalize_name find_id
find r name states version = or_else (find_id r.by_key (key_for name states version)) (
    or_else (only_if (eqb_ℤ version (pos 0)) (find_id r.by_state_key (state_key_for name states))) (
      only_if
        (no_properties (record { name = name; states = states; version = version })
          && eqb_ℤ version (pos 0))
        (find_id r.by_name (normalize_name name))))

unfoldable pub find_compatible : RuntimeRegistry → BlockState → Option ℕ
unfolding prepared key_for state_key_for find_id
find_compatible r state =
    let p = prepared r state in
    or_else (find_id r.by_key (key_for p.name p.states p.version)) (
      or_else (find_id r.by_state_key (state_key_for p.name p.states))
        (only_if (no_properties p) (find_id r.by_name p.name)))

unfoldable pub state : RuntimeRegistry → ℕ → Option BlockState
unfolding find_state
state r id = find_state r.by_runtime_id id

pub upgrade_state : RuntimeRegistry → BlockState → BlockState
unfolding upgraded
upgrade_state r s = upgraded r s
