-- ===== src/Litematic/Nbt/Halting.antt =====
-- The loops of the streaming reader in src/formats/litematic.cpp end, for each takes something of a
-- stream that is finite.
use Prim.Native.String.{String}
use native.Mathlib.Nat.{le_refl}
use water_structure_cpp.Common.{
  ℕ, zero, suc, ◌+◌, ◌-◌, ◌*◌, ◌≤◌, ◌<◌, min, Bool, if◌then◌else◌, true, false, Option, none, some,
  arith, ◌==◌, Bool-cases, inl, inr,
}
use water_structure_cpp.Common.Int.{pos, ltb_ℤ}
use water_structure_cpp.Result.{Result, success, failure}
use water_structure_cpp.Litematic.Nbt.{
  TagType, end_tag, byte_tag, short_tag, int_tag, long_tag, float_tag, double_tag, byte_array,
  string_tag, list_tag, compound, int_array, long_array, null_tag, StreamReader, Parsed, got,
  throws, runs_out, and_then, called, ensured, passed, read_number, read_length, read_list, entries,
  times, skip_bytes, elements, discard, skip_by, skip_within, skip_payload, check_depth, room_at,
  is_end,
}

-- A value with at most `n` left of the stream, or an exception, but an answer.
abbrev pub Ends : {S A : Type 0} → (S → ℕ) → ℕ → Parsed S A → Type 0
Ends left n (got a s) = left s ≤ n
Ends left n (throws e) = Unit
Ends left n runs_out = ⊥

abbrev pub Takes : {S A : Type 0} → (S → ℕ) → ℕ → Result (A × S) → Type 0
Takes left n (success (a, s)) = left s ≤ n
Takes left n (failure e) = Unit

abbrev pub Below : {S A : Type 0} → (S → ℕ) → ℕ → Result (A × S) → Type 0
Below left n (success (a, s)) = left s < n
Below left n (failure e) = Unit

abbrev pub Leaves : {S A : Type 0} → (S → ℕ) → ℕ → Option (A × S) → Type 0
Leaves left n none = Unit
Leaves left n (some (a, s)) = left s ≤ n

-- `n` bytes fewer than before.
abbrev pub Drops : {S : Type 0} → (S → ℕ) → ℕ → ℕ → Option S → Type 0
Drops left before n none = Unit
Drops left before n (some s) = left s + n ≤ before

-- What a library that reads a finite stream does: no call puts anything back, and a type is a byte.
pub record ReadsOn {S E : Type 0} (reader : StreamReader S E) (left : S → ℕ) : Type 0 where
  pub first_type_takes : (s : S) → Below left (left s) (reader.read_first_type s)
  pub type_takes : (s : S) → Below left (left s) (reader.read_type s)
  pub string_takes : (s : S) → Takes left (left s) (reader.read_string s)
  pub num_leaves : (width : ℕ) (s : S) → Leaves left (left s) (reader.read_num width s)
  pub bytes_drop : (n : ℕ) (s : S) → Drops left (left s) n (reader.read_bytes n s)
  pub payload_takes : (s : S) → Takes left (left s) (reader.read_payload s)

module _ {S : Type 0} (left : S → ℕ) where
  pub Ends-called :
      {A : Type 0} (n : ℕ) (r : Result (A × S)) → Takes left n r → Ends left n (called r)
  Ends-called n (success (a, s)) h = h
  Ends-called n (failure e) h = tt

  pub Ends-ensured :
      {A : Type 0} (n : ℕ) (e : String) (r : Option (A × S))
      → Leaves left n r
      → Ends left n (ensured e r)
  Ends-ensured n e none h = tt
  Ends-ensured n e (some (a, s)) h = h

  -- What follows is asked for no more than what is left.
  pub Ends-then :
      {A B : Type 0} (n : ℕ) (r : Parsed S A) (f : A → S → Parsed S B)
      → Ends left n r
      → ((a : A) (s : S) → left s ≤ n → Ends left n (f a s))
      → Ends left n (and_then r f)
  Ends-then n (got a s) f h k = k a s h
  Ends-then n (throws e) f h k = tt
  Ends-then n runs_out f h k = h

  pub Ends-called_then :
      {A B : Type 0} (n : ℕ) (r : Result (A × S)) (f : A → S → Parsed S B)
      → Below left n r
      → ((a : A) (s : S) → left s < n → Ends left n (f a s))
      → Ends left n (and_then (called r) f)
  Ends-called_then n (success (a, s)) f h k = k a s h
  Ends-called_then n (failure e) f h k = tt

  pub Ends-less : {A : Type 0} (n m : ℕ) (r : Parsed S A) → n ≤ m → Ends left n r → Ends left m r
  Ends-less n m (got a s) h k = omega arith
  Ends-less n m (throws e) h k = tt
  Ends-less n m runs_out h k = k

  pub Ends-if :
      {A : Type 0} (n : ℕ) (b : Bool) (r r' : Parsed S A)
      → Ends left n r
      → Ends left n r'
      → Ends left n (if b then r else r')
  Ends-if n true r r' h h' = h
  Ends-if n false r r' h h' = h'

  at_room :
      {A : Type 0} (n : ℕ) (r : Parsed S A)
      → Ends left n r
      → (room : ℕ)
      → Ends left n
          (elim room as (λ _. Parsed S A) [ zero ↦ throws "Too deeply nested" | suc k ↦ r ])
  at_room n r h zero = tt
  at_room n r h (suc room) = h

  pub Ends-check_depth :
      {A : Type 0} (n depth : ℕ) (r : Parsed S A)
      → Ends left n r
      → Ends left n (check_depth depth r)
  Ends-check_depth n depth r h = at_room n r h (room_at depth)

module _ {S E : Type 0} (reader : StreamReader S E) (left : S → ℕ) (on : ReadsOn reader left)
    (fuel : ℕ) where
  Below-Ends :
      {A : Type 0} (n : ℕ) (r : Result (A × S)) {s : S}
      → Below left (left s) r
      → left s ≤ n
      → Ends left n (called r)
  Below-Ends n (success (a, s1)) k h = omega arith
  Below-Ends n (failure e) k h = tt

  pub read_number-Ends :
      (n width : ℕ) (context : String) (s : S)
      → left s ≤ n
      → Ends left n (read_number reader width context s)
  read_number-Ends n width context s h =
      Ends-less left (left s) n (read_number reader width context s) h
        (Ends-ensured left (left s) context (reader.read_num width s) (on.num_leaves width s))

  pub read_string-Ends : (n : ℕ) (s : S) → left s ≤ n → Ends left n (called (reader.read_string s))
  read_string-Ends n s h =
      Ends-less left (left s) n (called (reader.read_string s)) h
        (Ends-called left (left s) (reader.read_string s) (on.string_takes s))

  pub read_type-Ends : (n : ℕ) (s : S) → left s ≤ n → Ends left n (called (reader.read_type s))
  read_type-Ends n s h = Below-Ends n (reader.read_type s) (on.type_takes s) h

  pub read_length-Ends :
      (n : ℕ) (context : String) (s : S) → left s ≤ n → Ends left n (read_length reader context s)
  read_length-Ends n context s h =
      Ends-then left n (read_number reader 4 context s) _ (read_number-Ends n 4 context s h)
        λ z s1 k. elim (Bool-cases (ltb_ℤ z (pos 0))) [
          | inl below ↦ ground (arith, below)
          | inr above ↦ ground (arith, above)
        ]

  pub read_list-Ends :
      (n : ℕ) (context : String) (s : S) → left s ≤ n → Ends left n (read_list reader context s)
  read_list-Ends n context s h =
      Ends-then left n (called (reader.read_type s)) _ (read_type-Ends n s h) λ type s1 h1.
        Ends-then left n (read_length reader context s1) _ (read_length-Ends n context s1 h1)
          λ count s2 h2. h2

  Ends-passed :
      {B : Type 0} (n m : ℕ) {s : S} (r : Option S) (f : S → Parsed S B)
      → Drops left (left s) m r
      → 0 < m
      → ((s1 : S) → left s1 < left s → Ends left n (f s1))
      → Ends left n (and_then (passed "Error skipping NBT payload" r) λ _ s1. f s1)
  Ends-passed n m none f h p k = tt
  Ends-passed n m (some s1) f h p k = k s1 (omega arith)

  skip_bytes-Ends :
      (rounds n count : ℕ) (s : S)
      → left s ≤ n
      → left s < rounds
      → Ends left n (skip_bytes reader rounds count s)
  unfolding skip_bytes
  skip_bytes-Ends zero n count s h k = absurd (omega arith)
  skip_bytes-Ends (suc rounds) n count s h k = elim (Bool-cases (count == 0)) [
    | inl empty ↦ ground (arith, empty)
    | inr more ↦
        let m : ℕ = min count 65536 in
        let rest : Ends left n (
            and_then (passed "Error skipping NBT payload" (reader.read_bytes m s))
              λ _ s1. skip_bytes reader rounds (count - m) s1) =
          Ends-passed n m (reader.read_bytes m s) (skip_bytes reader rounds (count - m))
            (on.bytes_drop m s) (ground arith)
            λ s1 h1. skip_bytes-Ends rounds n (count - m) s1 (omega arith) (omega arith) in
        ground (arith, more, rest)
  ]

  pub entries-Ends :
      {T : Type 0} (rounds n : ℕ) (body : TagType → String → T → S → Parsed S T) (t : T) (s : S)
      → left s ≤ n
      → left s < rounds
      → ((type : TagType) (key : String) (t : T) (s : S)
          → left s ≤ n
          → Ends left (left s) (body type key t s))
      → Ends left n (entries reader rounds body t s)
  unfolding entries
  entries-Ends zero n body t s h k b = absurd (omega arith)
  entries-Ends (suc rounds) n body t s h k b =
      Ends-less left (left s) n (entries reader (suc rounds) body t s) h (
        Ends-called_then left (left s) (reader.read_type s) _ (on.type_takes s) λ type s1 h1.
          elim (Bool-cases (is_end type)) [
            | inl last ↦ rw last (omega arith)
            | inr more ↦ rw more (
                Ends-less left (left s1) (left s) _ (omega arith) (
                  Ends-then left (left s1) (called (reader.read_string s1)) _
                    (read_string-Ends (left s1) s1 (omega arith))
                    λ key s2 h2. Ends-less left (left s2) (left s1) _ h2 (
                      Ends-then left (left s2) (body type key t s2) _
                        (b type key t s2 (omega arith))
                        λ t' s3 h3.
                          entries-Ends rounds (left s2) body t' s3 h3 (omega arith)
                            λ type' key' t'' s4 h4. b type' key' t'' s4 (omega arith))))
          ])

  pub times-Ends :
      {T : Type 0} (count n : ℕ) (body : T → S → Parsed S T) (t : T) (s : S)
      → left s ≤ n
      → ((t : T) (s : S) → left s ≤ n → Ends left (left s) (body t s))
      → Ends left n (times reader count body t s)
  unfolding times
  times-Ends zero n body t s h b = h
  times-Ends (suc count) n body t s h b =
      Ends-then left n (body t s) _ (Ends-less left (left s) n (body t s) h (b t s h))
        λ t' s1 k. times-Ends count n body t' s1 k b

  elements-Ends :
      (n : ℕ) (type : TagType) (skip : TagType → S → Parsed S Unit) (count : ℕ) (s : S)
      → left s ≤ n
      → ((s : S) → left s ≤ n → Ends left (left s) (skip type s))
      → Ends left n (elements reader type skip count s)
  elements-Ends n end_tag skip count s h b = h
  elements-Ends n other skip count s h b =
      times-Ends count n (λ _ s1. skip other s1) tt s h (λ _ s1 k. b s1 k)

  number-Ends :
      (n width : ℕ) (context : String) (s : S)
      → left s ≤ n
      → Ends left n (discard reader (read_number reader width context s))
  number-Ends n width context s h =
      Ends-then left n (read_number reader width context s) _ (read_number-Ends n width context s h)
        λ z s1 k. k

  array-Ends :
      (n size : ℕ) (context : String) (s : S)
      → left s ≤ n
      → n < fuel
      → Ends left n (
          and_then
            (read_length reader context s)
            λ count s1. skip_bytes reader fuel (count * size) s1)
  array-Ends n size context s h k =
      Ends-then left n (read_length reader context s) _ (read_length-Ends n context s h)
        λ count s1 h1. skip_bytes-Ends fuel n (count * size) s1 h1 (omega arith)

  skip_by-Ends :
      (n : ℕ) (skip : TagType → S → Parsed S Unit) (type : TagType) (s : S)
      → left s ≤ n
      → n < fuel
      → ((type : TagType) (s : S) → left s < fuel → Ends left (left s) (skip type s))
      → Ends left n (skip_by reader fuel skip type s)
  unfolding skip_by
  skip_by-Ends n skip byte_tag s h k b = number-Ends n 1 "Error reading tag_byte" s h
  skip_by-Ends n skip short_tag s h k b = number-Ends n 2 "Error reading tag_short" s h
  skip_by-Ends n skip int_tag s h k b = number-Ends n 4 "Error reading tag_int" s h
  skip_by-Ends n skip long_tag s h k b = number-Ends n 8 "Error reading tag_long" s h
  skip_by-Ends n skip float_tag s h k b = number-Ends n 4 "Error reading tag_float" s h
  skip_by-Ends n skip double_tag s h k b = number-Ends n 8 "Error reading tag_double" s h
  skip_by-Ends n skip byte_array s h k b =
      Ends-then left n (read_length reader "Error reading length of tag_byte_array" s) _
        (read_length-Ends n "Error reading length of tag_byte_array" s h)
        λ count s1 h1. skip_bytes-Ends fuel n count s1 h1 (omega arith)
  skip_by-Ends n skip string_tag s h k b =
      Ends-then left n (called (reader.read_string s)) _ (read_string-Ends n s h) λ z s1 h1. h1
  skip_by-Ends n skip list_tag s h k b =
      Ends-then left n (read_list reader "Error reading length of tag_list" s) _
        (read_list-Ends n "Error reading length of tag_list" s h)
        λ (type, count) s1 h1.
          elements-Ends n type skip count s1 h1 λ s2 h2. b type s2 (omega arith)
  skip_by-Ends n skip compound s h k b =
      entries-Ends fuel n (λ type key _ s1. skip type s1) tt s h (omega arith)
        λ type key _ s1 h1. b type s1 (omega arith)
  skip_by-Ends n skip int_array s h k b =
      array-Ends n 4 "Error reading length of tag_int_array" s h k
  skip_by-Ends n skip long_array s h k b =
      array-Ends n 8 "Error reading length of tag_long_array" s h k
  skip_by-Ends n skip end_tag s h k b = tt
  skip_by-Ends n skip null_tag s h k b = tt

  skip_within-Ends :
      (room : ℕ) (type : TagType) (s : S)
      → left s < fuel
      → Ends left (left s) (skip_within reader fuel room type s)
  unfolding skip_within
  skip_within-Ends zero type s h = tt
  skip_within-Ends (suc room) type s h =
      skip_by-Ends (left s) (skip_within reader fuel room) type s (le_refl (left s)) h
        (skip_within-Ends room)

  pub skip_payload-Ends :
      (n : ℕ) (type : TagType) (depth : ℕ) (s : S)
      → left s ≤ n
      → n < fuel
      → Ends left n (skip_payload reader fuel type depth s)
  unfolding skip_payload
  skip_payload-Ends n type depth s h k =
      Ends-less left (left s) n (skip_payload reader fuel type depth s) h
        (skip_within-Ends (room_at depth) type s (omega arith))
