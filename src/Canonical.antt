-- ===== src/Canonical.antt =====
-- src/core/canonical.cpp: the byte strings by which block states and NBT payloads are compared. A
-- byte is a number below 256, a string its bytes; an exception is the failure that the functions'
-- `catch` makes of it. The tags are the cases of the switch in `append_tag`, over the tag types of
-- the NBT library; a float or a double is its bits.
pub mod Bytes
pub mod RoundTrip
pub mod Pointer
pub mod States
mod Runs
use Prim.Native.String.{String, ◌++◌ as str_append}
use water_structure_cpp.Common.{
  ℕ, zero, suc, ◌+◌, ◌-◌, ◌*◌, ◌/◌, ◌%◌, ◌^◌, List, [], ◌∷◌, ◌++◌, length, ltb, ◌==◌, if◌then◌else◌,
}
use water_structure_cpp.Common.Int.{ℤ, to_unsigned}
use water_structure_cpp.Result.{Result, success, failure, ◌>>=◌}

abbrev pub ByteList : Type 0
ByteList = List ℕ

-- The bytes `i` to `sizeof(T) - 1`, of which there are `left`.
bytes_from : ℕ → ℕ → ℕ → ByteList
bytes_from i zero encoded = []
bytes_from i (suc left) encoded = encoded / 2 ^ (i * 8) % 256 ∷ bytes_from (i + 1) left encoded

-- `append_integer` of an integer whose unsigned form is `encoded`, on `size` bytes.
pub append_unsigned : ℕ → ℕ → ByteList
unfolding bytes_from
append_unsigned size encoded = bytes_from 0 size encoded

pub append_integer : ℕ → ℤ → ByteList
unfolding append_unsigned
append_integer size value = append_unsigned size (to_unsigned (2 ^ (size * 8)) value)

-- `static_cast<std::uint32_t>` of a size, appended.
pub append_size : ℕ → ByteList
unfolding append_unsigned
append_size n = append_unsigned 4 (n % 2 ^ 32)

pub append_string : ByteList → Result ByteList
unfolding append_size
append_string value =
    if ltb (2 ^ 32 - 1) (length value)
    then failure "canonical 字符串过长"
    else success (append_size (length value) ++ value)

-- The elements of an array tag.
pub append_integers : ℕ → List ℤ → ByteList
unfolding append_integer
append_integers size [] = []
append_integers size (z ∷ zs) = append_integer size z ++ append_integers size zs

mutual
  pub data Tag : Type 0 where
    end_tag null_tag : Tag
    byte_tag short_tag int_tag long_tag : ℤ → Tag
    float_tag double_tag : ℕ → Tag
    byte_array : List ℤ → Tag
    string_tag : ByteList → Tag
    list_tag : Tags → Tag
    compound_tag : Fields → Tag
    int_array long_array : List ℤ → Tag

  -- The items of a list.
  pub data Tags : Type 0 where
    no_tags : Tags
    item : Tag → Tags → Tags

  -- The keys and values of a compound, in the order in which it is iterated over.
  pub data Fields : Type 0 where
    no_fields : Fields
    field : ByteList → Tag → Fields → Fields

pub count_tags : Tags → ℕ
count_tags no_tags = 0
count_tags (item t ts) = suc (count_tags ts)

pub count_fields : Fields → ℕ
count_fields no_fields = 0
count_fields (field k t fs) = suc (count_fields fs)

mutual
  unfolding append_integer append_unsigned append_size append_string append_integers count_tags
      count_fields

  -- Each case begins with the tag's type.
  pub append_tag : Tag → Result ByteList
  append_tag end_tag = failure "canonical NBT 包含无效 tag 类型"
  append_tag null_tag = failure "canonical NBT 包含无效 tag 类型"
  append_tag (byte_tag z) = success (1 ∷ append_integer 1 z)
  append_tag (short_tag z) = success (2 ∷ append_integer 2 z)
  append_tag (int_tag z) = success (3 ∷ append_integer 4 z)
  append_tag (long_tag z) = success (4 ∷ append_integer 8 z)
  append_tag (float_tag bits) = success (5 ∷ append_unsigned 4 bits)
  append_tag (double_tag bits) = success (6 ∷ append_unsigned 8 bits)
  append_tag (byte_array zs) = success (7 ∷ append_size (length zs) ++ append_integers 1 zs)
  append_tag (string_tag s) = append_string s >>= λ out. success (8 ∷ out)
  append_tag (list_tag ts) =
      append_tags ts >>= λ out. success (9 ∷ append_size (count_tags ts) ++ out)
  append_tag (compound_tag fs) =
      append_fields fs >>= λ out. success (10 ∷ append_size (count_fields fs) ++ out)
  append_tag (int_array zs) = success (11 ∷ append_size (length zs) ++ append_integers 4 zs)
  append_tag (long_array zs) = success (12 ∷ append_size (length zs) ++ append_integers 8 zs)

  append_tags : Tags → Result ByteList
  append_tags no_tags = success []
  append_tags (item t ts) = do out ← append_tag t; rest ← append_tags ts; success (out ++ rest)

  append_fields : Fields → Result ByteList
  append_fields no_fields = success []
  append_fields (field key t fs) = do
    name ← append_string key
    out ← append_tag t
    rest ← append_fields fs
    success (name ++ out ++ rest)

-- The functions' `catch`.
pub catch_as : {A : Type 0} → String → Result A → Result A
catch_as prefix (success a) = success a
catch_as prefix (failure e) = failure (str_append prefix e)

-- `canonical_nbt`, from what the NBT library reads from the payload: the header, then the compound.
pub canonical_nbt : Result Fields → Result ByteList
unfolding append_tag catch_as
canonical_nbt payload = catch_as "canonical NBT 失败: " do
  compound ← payload
  out ← append_tag (compound_tag compound)
  success (87 ∷ 83 ∷ 78 ∷ 66 ∷ 1 ∷ out)

-- `escape_json_pointer`; 126 is `~`, 47 is `/`.
pub escape_json_pointer : ByteList → ByteList
escape_json_pointer [] = []
escape_json_pointer (c ∷ cs) =
    let rest = escape_json_pointer cs in
    if c == 126 then 126 ∷ 48 ∷ rest else if c == 47 then 126 ∷ 49 ∷ rest else c ∷ rest
