-- ===== src/Canonical/RoundTrip.antt =====
-- The encoding of NBT tags of src/core/canonical.cpp has a reader, so it loses nothing.
use water_structure_cpp.Common.{
  ℕ, zero, suc, ◌^◌, ◌≤◌, ◌<◌, max, ◌≡◌, refl, ap, ◌∙◌, Option, none, some, List, [], ◌∷◌, ◌++◌,
  length, append_assoc, All, arith, ◌==◌, if◌then◌else◌,
}
use water_structure_cpp.Common.Int.{ℤ}
use water_structure_cpp.Result.{Result, success}
use water_structure_cpp.Canonical.{
  ByteList, append_unsigned, append_integer, append_integers, append_size, Tag, end_tag, null_tag,
  byte_tag, short_tag, int_tag, long_tag, float_tag, double_tag, byte_array, string_tag, list_tag,
  compound_tag, int_array, long_array, Tags, no_tags, item, Fields, no_fields, field, count_tags,
  count_fields, append_tag, append_tags, append_fields,
}
use water_structure_cpp.Canonical.Bytes.{
  Reader, then_read, read_unsigned, read_integer, read_n, read_size, read_string, IsSized, IsShort,
  IsWidth, read-append_unsigned, read-append_integer, read-append_integers, read-append_size,
  read-append_string, append_string-IsShort,
}

-- A reader of tags, to the depth `fuel`.
abbrev then_tag : {A : Type 0} → Option (A × ByteList) → (A → Tag) → Option (Tag × ByteList)
then_tag read make = then_read read λ a rest. some (make a, rest)

read_items : Reader Tag → ℕ → Reader Tags
read_items read zero bytes = some (no_tags, bytes)
read_items read (suc n) bytes =
    then_read (read bytes)
      λ t rest. then_read (read_items read n rest) λ ts end. some (item t ts, end)

read_entries : Reader Tag → ℕ → Reader Fields
unfolding read_string
read_entries read zero bytes = some (no_fields, bytes)
read_entries read (suc n) bytes = then_read (read_string bytes) λ key rest.
    then_read (read rest)
      λ t more. then_read (read_entries read n more) λ fs end. some (field key t fs, end)

pub read_tag : ℕ → Reader Tag
unfolding read_unsigned read_integer read_n read_size read_string read_items read_entries
read_tag zero bytes = none
read_tag (suc fuel) [] = none
read_tag (suc fuel) (kind ∷ bytes) =
    if kind == 1
    then then_tag (read_integer 1 bytes) byte_tag
    else if kind == 2
    then then_tag (read_integer 2 bytes) short_tag
    else if kind == 3
    then then_tag (read_integer 4 bytes) int_tag
    else if kind == 4
    then then_tag (read_integer 8 bytes) long_tag
    else if kind == 5
    then then_tag (read_unsigned 4 bytes) float_tag
    else if kind == 6
    then then_tag (read_unsigned 8 bytes) double_tag
    else if kind == 7
    then (then_read (read_size bytes)
        λ n rest. then_tag (read_n (read_integer 1) n rest) byte_array)
    else if kind == 8
    then then_tag (read_string bytes) string_tag
    else if kind == 9
    then (then_read (read_size bytes)
        λ n rest. then_tag (read_items (read_tag fuel) n rest) list_tag)
    else if kind == 10
    then (then_read (read_size bytes)
        λ n rest. then_tag (read_entries (read_tag fuel) n rest) compound_tag)
    else if kind == 11
    then (then_read (read_size bytes) λ n rest. then_tag (read_n (read_integer 4) n rest) int_array)
    else if kind == 12
    then (then_read (read_size bytes)
        λ n rest. then_tag (read_n (read_integer 8) n rest) long_array)
    else none

-- The integers are in range, the sizes fit their four bytes, and no tag is `End` or `Null`.
abbrev mutual
  pub IsEncodable : Tag → Type 0
  IsEncodable end_tag = ⊥
  IsEncodable null_tag = ⊥
  IsEncodable (byte_tag z) = IsSized 1 z
  IsEncodable (short_tag z) = IsSized 2 z
  IsEncodable (int_tag z) = IsSized 4 z
  IsEncodable (long_tag z) = IsSized 8 z
  IsEncodable (float_tag bits) = bits < 2 ^ 32
  IsEncodable (double_tag bits) = bits < 2 ^ 64
  IsEncodable (byte_array zs) = (length zs < 2 ^ 32) × All (IsSized 1) zs
  IsEncodable (string_tag s) = IsShort s
  IsEncodable (list_tag ts) = (count_tags ts < 2 ^ 32) × AreEncodable ts
  IsEncodable (compound_tag fs) = (count_fields fs < 2 ^ 32) × HasEncodable fs
  IsEncodable (int_array zs) = (length zs < 2 ^ 32) × All (IsSized 4) zs
  IsEncodable (long_array zs) = (length zs < 2 ^ 32) × All (IsSized 8) zs

  pub AreEncodable : Tags → Type 0
  AreEncodable no_tags = Unit {0}
  AreEncodable (item t ts) = IsEncodable t × AreEncodable ts

  pub HasEncodable : Fields → Type 0
  HasEncodable no_fields = Unit {0}
  HasEncodable (field key t fs) = IsShort key × IsEncodable t × HasEncodable fs

-- How deep the reader has to go.
abbrev mutual
  pub depth : Tag → ℕ
  depth (list_tag ts) = suc (depth_items ts)
  depth (compound_tag fs) = suc (depth_fields fs)
  depth other = 1

  pub depth_items : Tags → ℕ
  depth_items no_tags = 0
  depth_items (item t ts) = max (depth t) (depth_items ts)

  pub depth_fields : Fields → ℕ
  depth_fields no_fields = 0
  depth_fields (field key t fs) = max (depth t) (depth_fields fs)

-- What is appended is read back, whatever follows it.
abbrev Encodes : {A : Type 0} → Result ByteList → Reader A → A → Type 0
Encodes appended read a =
    (out : ByteList) × (appended ≡ success out)
    × ((rest : ByteList) → read (out ++ rest) ≡ some (a, rest))

byte-IsWidth : IsWidth 1
byte-IsWidth = omega arith

short-IsWidth : IsWidth 2
short-IsWidth = omega arith

int-IsWidth : IsWidth 4
int-IsWidth = omega arith

long-IsWidth : IsWidth 8
long-IsWidth = omega arith

array_back :
    (size : ℕ) (zs : List ℤ) (rest : ByteList)
    → IsWidth size
    → length zs < 2 ^ 32
    → All (IsSized size) zs
    → then_read
        (read_size ((append_size (length zs) ++ append_integers size zs) ++ rest))
        (read_n (read_integer size))
      ≡ some (zs, rest)
array_back size zs rest w h hs =
    rw
      (
        append_assoc (append_size (length zs)) (append_integers size zs) rest,
        read-append_size (length zs) (append_integers size zs ++ rest) h,
      )
      (read-append_integers size zs rest w hs)

string_back :
    (s rest : ByteList)
    → IsShort s
    → read_string ((append_size (length s) ++ s) ++ rest) ≡ some (s, rest)
string_back s rest h =
    rw (append_assoc (append_size (length s)) s rest) (read-append_string s rest h)

counted_back :
    {A : Type 0} (n : ℕ) (out rest : ByteList) (read : ℕ → Reader A) {a : A}
    → n < 2 ^ 32
    → read n (out ++ rest) ≡ some (a, rest)
    → then_read (read_size ((append_size n ++ out) ++ rest)) read ≡ some (a, rest)
counted_back n out rest read h back =
    rw (append_assoc (append_size n) out rest, read-append_size n (out ++ rest) h) back

entry_back :
    (key : ByteList) (t : Tag) (fs : Fields) (n : ℕ) (read : Reader Tag) (out outs rest : ByteList)
    → IsShort key
    → read (out ++ (outs ++ rest)) ≡ some (t, outs ++ rest)
    → read_entries read n (outs ++ rest) ≡ some (fs, rest)
    → read_entries read (suc n) ((((append_size (length key) ++ key) ++ out) ++ outs) ++ rest)
      ≡ some (field key t fs, rest)
unfolding read_entries
entry_back key t fs n read out outs rest k back backs =
    ap (read_entries read (suc n)) (
      append_assoc ((append_size (length key) ++ key) ++ out) outs rest
      ∙ append_assoc (append_size (length key) ++ key) out (outs ++ rest))
    ∙ rw (string_back key (out ++ (outs ++ rest)) k, back, backs)

depth_pos : (t : Tag) → 0 < depth t
depth_pos (list_tag ts) = omega arith
depth_pos t = omega arith

mutual
  unfolding append_tag append_tags append_fields read_tag read_items read_entries count_tags
      count_fields read_string

  tag-Encodes :
      (t : Tag) (fuel : ℕ)
      → IsEncodable t
      → depth t ≤ fuel
      → Encodes (append_tag t) (read_tag fuel) t
  tag-Encodes t zero h d = absurd (omega (arith, depth_pos t))
  tag-Encodes end_tag (suc fuel) h d = absurd h
  tag-Encodes null_tag (suc fuel) h d = absurd h
  tag-Encodes (byte_tag z) (suc fuel) h d = (
    1 ∷ append_integer 1 z,
    refl,
    λ rest. ap (λ r. then_tag r byte_tag) (read-append_integer 1 z rest byte-IsWidth h),
  )
  tag-Encodes (short_tag z) (suc fuel) h d = (
    2 ∷ append_integer 2 z,
    refl,
    λ rest. ap (λ r. then_tag r short_tag) (read-append_integer 2 z rest short-IsWidth h),
  )
  tag-Encodes (int_tag z) (suc fuel) h d = (
    3 ∷ append_integer 4 z,
    refl,
    λ rest. ap (λ r. then_tag r int_tag) (read-append_integer 4 z rest int-IsWidth h),
  )
  tag-Encodes (long_tag z) (suc fuel) h d = (
    4 ∷ append_integer 8 z,
    refl,
    λ rest. ap (λ r. then_tag r long_tag) (read-append_integer 8 z rest long-IsWidth h),
  )
  tag-Encodes (float_tag bits) (suc fuel) h d = (
    5 ∷ append_unsigned 4 bits,
    refl,
    λ rest. ap (λ r. then_tag r float_tag) (read-append_unsigned 4 bits rest (omega arith)),
  )
  tag-Encodes (double_tag bits) (suc fuel) h d = (
    6 ∷ append_unsigned 8 bits,
    refl,
    λ rest. ap (λ r. then_tag r double_tag) (read-append_unsigned 8 bits rest (omega arith)),
  )
  tag-Encodes (byte_array zs) (suc fuel) (h, hs) d = (
    7 ∷ append_size (length zs) ++ append_integers 1 zs,
    refl,
    λ rest. ap (λ r. then_tag r byte_array) (array_back 1 zs rest byte-IsWidth h hs),
  )
  tag-Encodes (int_array zs) (suc fuel) (h, hs) d = (
    11 ∷ append_size (length zs) ++ append_integers 4 zs,
    refl,
    λ rest. ap (λ r. then_tag r int_array) (array_back 4 zs rest int-IsWidth h hs),
  )
  tag-Encodes (long_array zs) (suc fuel) (h, hs) d = (
    12 ∷ append_size (length zs) ++ append_integers 8 zs,
    refl,
    λ rest. ap (λ r. then_tag r long_array) (array_back 8 zs rest long-IsWidth h hs),
  )
  tag-Encodes (string_tag s) (suc fuel) h d = (
    8 ∷ append_size (length s) ++ s,
    simp (append_string-IsShort s h),
    λ rest. ap (λ r. then_tag r string_tag) (string_back s rest h),
  )
  tag-Encodes (list_tag ts) (suc fuel) (h, hs) d =
      let (out, e, back) = tags-Encodes ts fuel hs (omega arith) in
      (
        9 ∷ append_size (count_tags ts) ++ out,
        simp e,
        λ rest.
            ap (λ r. then_tag r list_tag)
              (counted_back (count_tags ts) out rest (read_items (read_tag fuel)) h (back rest)),
      )
  tag-Encodes (compound_tag fs) (suc fuel) (h, hs) d =
      let (out, e, back) = fields-Encodes fs fuel hs (omega arith) in
      (
        10 ∷ append_size (count_fields fs) ++ out,
        simp e,
        λ rest.
            ap (λ r. then_tag r compound_tag)
              (counted_back (count_fields fs) out rest (read_entries (read_tag fuel)) h
                (back rest)),
      )

  tags-Encodes :
      (ts : Tags) (fuel : ℕ)
      → AreEncodable ts
      → depth_items ts ≤ fuel
      → Encodes (append_tags ts) (read_items (read_tag fuel) (count_tags ts)) ts
  tags-Encodes no_tags fuel h d = ([], refl, λ rest. refl)
  tags-Encodes (item t ts) fuel (h, hs) d =
      let (out, e, back) = tag-Encodes t fuel h (omega arith) in
      let (outs, es, backs) = tags-Encodes ts fuel hs (omega arith) in
      (
        out ++ outs,
        simp (e, es),
        λ rest. rw (append_assoc out outs rest, back (outs ++ rest), backs rest),
      )

  fields-Encodes :
      (fs : Fields) (fuel : ℕ)
      → HasEncodable fs
      → depth_fields fs ≤ fuel
      → Encodes (append_fields fs) (read_entries (read_tag fuel) (count_fields fs)) fs
  fields-Encodes no_fields fuel h d = ([], refl, λ rest. refl)
  fields-Encodes (field key t fs) fuel (k, h, hs) d =
      let (out, e, back) = tag-Encodes t fuel h (omega arith) in
      let (outs, es, backs) = fields-Encodes fs fuel hs (omega arith) in
      let name = append_size (length key) ++ key in
      (
        name ++ out ++ outs,
        simp (append_string-IsShort key k, e, es),
        λ rest.
            entry_back key t fs (count_fields fs) (read_tag fuel) out outs rest k
              (back (outs ++ rest)) (backs rest),
      )

body_of : Result ByteList → ByteList
body_of (success (a ∷ b ∷ c ∷ d ∷ e ∷ out)) = out
body_of other = []

tag_of : Option (Tag × ByteList) → Tag
tag_of none = null_tag
tag_of (some (t, rest)) = t
