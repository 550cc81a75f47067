-- ===== src/Litematic/Nbt.antt =====
-- The streaming NBT reader of src/formats/litematic.cpp, over the calls of libnbt's stream_reader and
-- of its input stream, which are parameters: each gives what it read and the stream behind it, or the
-- text of its exception.
pub mod Halting
use Prim.Native.String.{String}
use text.Mathlib.Text.{◌==◌ as str_eq}
use water_structure_cpp.Common.{
  ℕ, zero, suc, ◌-◌, ◌*◌, ◌%◌, ◌^◌, min, Bool, true, false, List, [], ◌∷◌, ◌++◌, Option, none, some,
  ◌==◌, not, ◌&&◌, if◌then◌else◌,
}
use water_structure_cpp.Common.Int.{ℤ, pos, ltb_ℤ, pos_part, wrap32}
use water_structure_cpp.Coordinates.{BlockPos}
use water_structure_cpp.Result.{Result, success, failure}

pub data TagType : Type 0 where
  end_tag byte_tag short_tag int_tag long_tag float_tag double_tag byte_array string_tag list_tag
        compound int_array long_array null_tag :
      TagType

abbrev pub is_end : TagType → Bool
is_end type = elim type [ end_tag ↦ true | _ ↦ false ]

-- Numbers are read by their width in bytes; the last entry reads the payload of a compound.
pub record StreamReader (S E : Type 0) : Type 0 where
  pub read_first_type : S → Result (TagType × S)
  pub read_type : S → Result (TagType × S)
  pub read_string : S → Result (String × S)
  pub read_num : ℕ → S → Option (ℤ × S)
  pub read_bytes : ℕ → S → Option S
  pub read_payload : S → Result (E × S)

-- What a function leaves: its value and the stream, an exception, or no answer for want of fuel.
pub data Parsed (S A : Type 0) : Type 0 where
  got : A → S → Parsed S A
  throws : String → Parsed S A
  runs_out : Parsed S A

module _ {S : Type 0} where
  abbrev pub and_then : {A B : Type 0} → Parsed S A → (A → S → Parsed S B) → Parsed S B
  and_then (got a s) f = f a s
  and_then (throws e) f = throws e
  and_then runs_out f = runs_out

  abbrev pub called : {A : Type 0} → Result (A × S) → Parsed S A
  called (success (a, s)) = got a s
  called (failure e) = throws e

  -- `ensure_input` behind a call that leaves the stream in a failed state.
  abbrev pub ensured : {A : Type 0} → String → Option (A × S) → Parsed S A
  ensured context none = throws context
  ensured context (some (a, s)) = got a s

  abbrev pub passed : String → Option S → Parsed S Unit
  passed context none = throws context
  passed context (some s) = got tt s

-- The room that is left below a depth: none beyond `kMaxNbtDepth`.
abbrev pub room_at : ℕ → ℕ
room_at depth = 1025 - depth

abbrev pub check_depth : {S A : Type 0} → ℕ → Parsed S A → Parsed S A
check_depth depth r = elim (room_at depth) [ zero ↦ throws "Too deeply nested" | suc room ↦ r ]

module _ {S E : Type 0} (reader : StreamReader S E) where
  abbrev pub read_number : ℕ → String → S → Parsed S ℤ
  read_number width context s = ensured context (reader.read_num width s)

  abbrev pub read_length : String → S → Parsed S ℕ
  read_length context s =
      and_then (read_number 4 context s)
        λ n s1. if ltb_ℤ n (pos 0) then throws context else got (pos_part n) s1

  -- The loop takes at most 64 KiB at once.
  unfoldable pub skip_bytes : ℕ → ℕ → S → Parsed S Unit
  skip_bytes zero byte_count s = runs_out
  skip_bytes (suc fuel) byte_count s = elim (byte_count == 0) [
    | true ↦ got tt s
    | false ↦
        and_then (passed "Error skipping NBT payload" (reader.read_bytes (min byte_count 65536) s))
          λ _ s1. skip_bytes fuel (byte_count - min byte_count 65536) s1
  ]

  -- The loop over the entries of a compound, up to the tag that ends it.
  unfoldable pub entries :
      {T : Type 0} → ℕ → (TagType → String → T → S → Parsed S T) → T → S → Parsed S T
  entries zero body t s = runs_out
  entries (suc fuel) body t s = and_then (called (reader.read_type s)) λ type s1.
      elim (is_end type) [
        | true ↦ got t s1
        | false ↦
            and_then (called (reader.read_string s1))
              λ key s2. and_then (body type key t s2) λ t' s3. entries fuel body t' s3
      ]

  -- The loop over the elements of a list.
  unfoldable pub times : {T : Type 0} → ℕ → (T → S → Parsed S T) → T → S → Parsed S T
  times zero body t s = got t s
  times (suc n) body t s = and_then (body t s) λ t' s1. times n body t' s1

  abbrev pub discard : {A : Type 0} → Parsed S A → Parsed S Unit
  discard r = and_then r λ _ s. got tt s

  -- A list whose elements have the type of an end is empty, whatever its length says.
  abbrev pub elements : TagType → (TagType → S → Parsed S Unit) → ℕ → S → Parsed S Unit
  elements end_tag skip n s = got tt s
  elements other skip n s = times n (λ _ s1. skip other s1) tt s

  abbrev pub read_list : String → S → Parsed S (TagType × ℕ)
  read_list context s =
      and_then (called (reader.read_type s))
        λ type s1. and_then (read_length context s1) λ n s2. got (type, n) s2

  -- The switch of `skip_payload`, by the function for the payloads inside.
  unfoldable pub skip_by : ℕ → (TagType → S → Parsed S Unit) → TagType → S → Parsed S Unit
  unfolding skip_bytes entries times
  skip_by fuel skip byte_tag s = discard (read_number 1 "Error reading tag_byte" s)
  skip_by fuel skip short_tag s = discard (read_number 2 "Error reading tag_short" s)
  skip_by fuel skip int_tag s = discard (read_number 4 "Error reading tag_int" s)
  skip_by fuel skip long_tag s = discard (read_number 8 "Error reading tag_long" s)
  skip_by fuel skip float_tag s = discard (read_number 4 "Error reading tag_float" s)
  skip_by fuel skip double_tag s = discard (read_number 8 "Error reading tag_double" s)
  skip_by fuel skip byte_array s =
      and_then (read_length "Error reading length of tag_byte_array" s) λ n s1. skip_bytes fuel n s1
  skip_by fuel skip string_tag s = discard (called (reader.read_string s))
  skip_by fuel skip list_tag s =
      and_then (read_list "Error reading length of tag_list" s)
        λ (type, n) s1. elements type skip n s1
  skip_by fuel skip compound s = entries fuel (λ type key _ s1. skip type s1) tt s
  skip_by fuel skip int_array s =
      and_then (read_length "Error reading length of tag_int_array" s)
        λ n s1. skip_bytes fuel (n * 4) s1
  skip_by fuel skip long_array s =
      and_then (read_length "Error reading length of tag_long_array" s)
        λ n s1. skip_bytes fuel (n * 8) s1
  skip_by fuel skip end_tag s = throws "Invalid NBT payload type"
  skip_by fuel skip null_tag s = throws "Invalid NBT payload type"

  unfoldable pub skip_within : ℕ → ℕ → TagType → S → Parsed S Unit
  unfolding skip_by
  skip_within fuel zero type s = throws "Too deeply nested"
  skip_within fuel (suc room) type s = skip_by fuel (skip_within fuel room) type s

  unfoldable pub skip_payload : ℕ → TagType → ℕ → S → Parsed S Unit
  unfolding skip_within
  skip_payload fuel type depth s = skip_within fuel (room_at depth) type s
