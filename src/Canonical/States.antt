-- ===== src/Canonical/States.antt =====
-- `canonical_block_state` of src/core/canonical.cpp and the block states of
-- include/WaterStructure/types.hpp. Properties that the sort's comparison does not tell apart are the
-- same, so every sort gives the list that this one gives.
pub mod Order
pub mod Sorted
pub mod Invariance
use Prim.Native.String.{String}
use water_structure_cpp.Common.{
  ℕ, ◌+◌, ◌-◌, ◌*◌, ◌^◌, Bool, true, false, ◌&&◌, ◌||◌, List, [], ◌∷◌, ◌++◌, Option, none, some,
  length, ltb, leb, ◌==◌, ◌%◌, if◌then◌else◌,
}
use water_structure_cpp.Common.Int.{ℤ, pos, neg_ℤ}
use water_structure_cpp.Result.{Result, success, failure, ◌>>=◌}
use water_structure_cpp.Canonical.{ByteList, append_integer, append_size, append_string, catch_as}

pub data BlockStateValueType : Type 0 where
  byte_value short_value int_value long_value string_value : BlockStateValueType

pub record BlockStateProperty : Type 0 where
  pub name : ByteList
  pub kind : BlockStateValueType
  pub value : ByteList

pub record BlockState : Type 0 where
  pub name : ByteList
  pub states : List BlockStateProperty
  pub version : ℤ

-- `<` on std::string, and `==`.
unfoldable pub bytes_lt : ByteList → ByteList → Bool
bytes_lt s [] = false
bytes_lt [] (d ∷ t) = true
bytes_lt (c ∷ s) (d ∷ t) = ltb c d || (c == d && bytes_lt s t)

unfoldable pub bytes_eq : ByteList → ByteList → Bool
bytes_eq [] [] = true
bytes_eq [] (d ∷ t) = false
bytes_eq (c ∷ s) [] = false
bytes_eq (c ∷ s) (d ∷ t) = c == d && bytes_eq s t

-- The enumerators' values.
abbrev pub kind_value : BlockStateValueType → ℕ
kind_value byte_value = 0
kind_value short_value = 1
kind_value int_value = 2
kind_value long_value = 3
kind_value string_value = 4

-- The comparison that the properties are sorted by.
unfoldable pub property_lt : BlockStateProperty → BlockStateProperty → Bool
unfolding bytes_lt bytes_eq
property_lt left right =
    if bytes_eq left.name right.name
    then if kind_value left.kind == kind_value right.kind
      then bytes_lt left.value right.value
      else ltb (kind_value left.kind) (kind_value right.kind)
    else bytes_lt left.name right.name

unfoldable pub insert_by : {A : Type 0} → (A → A → Bool) → A → List A → List A
insert_by lt a [] = a ∷ []
insert_by lt a (b ∷ l) = if lt a b then a ∷ b ∷ l else b ∷ insert_by lt a l

unfoldable pub sort_by : {A : Type 0} → (A → A → Bool) → List A → List A
unfolding insert_by
sort_by lt [] = []
sort_by lt (a ∷ l) = insert_by lt a (sort_by lt l)

-- `std::from_chars` to an std::int64_t, which has to take all of the text: digits, and a sign if it
-- is a minus. The text of the failure ends in the value, which is left out here.
abbrev invalid : Result ℤ
invalid = failure "方块状态整数无效: "

digits : ℕ → ByteList → Option ℕ
digits sum [] = some sum
digits sum (c ∷ cs) =
    let rest = digits (sum * 10 + (c - 48)) cs in if leb 48 c && leb c 57 then rest else none

in_range : ℕ → (ℕ → ℤ) → Option ℕ → Result ℤ
in_range bound sign none = invalid
in_range bound sign (some n) = if ltb n bound then success (sign n) else invalid

parse_integer : ByteList → Result ℤ
unfolding digits in_range
parse_integer [] = invalid
parse_integer (c ∷ []) = in_range (2 ^ 63) pos (digits 0 (c ∷ []))
parse_integer (c ∷ d ∷ cs) =
    if c == 45
    then in_range (2 ^ 63 + 1) (λ n. neg_ℤ (pos n)) (digits 0 (d ∷ cs))
    else in_range (2 ^ 63) pos (digits 0 (c ∷ d ∷ cs))

append_value : BlockStateValueType → ByteList → Result ByteList
unfolding append_integer parse_integer append_string
append_value byte_value value = parse_integer value >>= λ z. success (1 ∷ append_integer 1 z)
append_value short_value value = parse_integer value >>= λ z. success (2 ∷ append_integer 2 z)
append_value int_value value = parse_integer value >>= λ z. success (3 ∷ append_integer 4 z)
append_value long_value value = parse_integer value >>= λ z. success (4 ∷ append_integer 8 z)
append_value string_value value = append_string value >>= λ out. success (8 ∷ out)

append_block_property : BlockStateProperty → Result ByteList
unfolding append_string append_value
append_block_property property = do
  name ← append_string property.name
  value ← append_value property.kind property.value
  success (name ++ value)

append_properties : List BlockStateProperty → Result ByteList
unfolding append_block_property
append_properties [] = success []
append_properties (p ∷ ps) = do
  out ← append_block_property p
  rest ← append_properties ps
  success (out ++ rest)

pub canonical_block_state : BlockState → Result ByteList
unfolding catch_as append_string append_integer append_size append_properties sort_by property_lt
canonical_block_state state = catch_as "canonical block state 失败: " do
  name ← append_string state.name
  properties ← append_properties (sort_by property_lt state.states)
  success (
      (87 ∷ 83 ∷ 66 ∷ 83 ∷ 1 ∷ [])
      ++ name
      ++ append_integer 4 state.version
      ++ append_size (length state.states)
      ++ properties)
