-- ===== src/Canonical/Bytes.antt =====
-- The integers and strings of src/core/canonical.cpp, read back.
use native.Mathlib.Nat.{div-div-eq-div-mul, pow-succ', mod-eq_of_lt}
use native.Mathlib.Numerals.{towards_suc}
use water_structure_cpp.Common.{
  ℕ, zero, suc, ◌+◌, ◌*◌, ◌/◌, ◌%◌, ◌^◌, ◌≤◌, ◌<◌, ◌≡◌, refl, sym, ap, ◌∙◌, Option, none, some,
  List, [], ◌∷◌, ◌++◌, length, append_assoc, All, arith,
}
use water_structure_cpp.Common.Int.{ℤ, pos, negsuc, pos_part, neg_part, to_unsigned, to_signed}
use water_structure_cpp.Result.{success}
use water_structure_cpp.Canonical.{
  ByteList, bytes_from, append_unsigned, append_integer, append_size, append_string,
  append_integers,
}

-- A reader takes what it reads from the front of the bytes.
abbrev pub Reader : Type 0 → Type 0
Reader A = ByteList → Option (A × ByteList)

abbrev pub then_read :
    {A B : Type 0} → Option (A × ByteList) → (A → Reader B) → Option (B × ByteList)
then_read none f = none
then_read (some (a, rest)) f = f a rest

-- `size` bytes, the lowest first.
unfoldable pub read_unsigned : ℕ → Reader ℕ
read_unsigned zero bytes = some (0, bytes)
read_unsigned (suc size) [] = none
read_unsigned (suc size) (b ∷ bytes) =
    then_read (read_unsigned size bytes) λ high rest. some (b + 256 * high, rest)

unfoldable pub read_integer : ℕ → Reader ℤ
read_integer size bytes =
    then_read (read_unsigned size bytes) λ u rest. some (to_signed (2 ^ (size * 8)) u, rest)

shift_eight : (s : ℕ) → 2 ^ (s + 8) ≡ 2 ^ s * 256
shift_eight s = simp towards_suc (omega arith)

next_shift : (e i : ℕ) → e / 2 ^ ((i + 1) * 8) ≡ e / 2 ^ (i * 8) / 256
next_shift e i =
    ap (λ (k : ℕ). e / k) (ap (λ (k : ℕ). 2 ^ k) (omega arith) ∙ shift_eight (i * 8))
    ∙ sym (div-div-eq-div-mul e (2 ^ (i * 8)) 256)

read-bytes_from :
    (i left e : ℕ) (rest : ByteList)
    → e / 2 ^ (i * 8) < 256 ^ left
    → read_unsigned left (bytes_from i left e ++ rest) ≡ some (e / 2 ^ (i * 8), rest)
unfolding bytes_from read_unsigned
read-bytes_from i zero e rest h = ap (λ (n : ℕ). some (n, rest)) (omega arith)
read-bytes_from i (suc left) e rest h =
    let x = e / 2 ^ (i * 8) in
    let smaller : e / 2 ^ ((i + 1) * 8) < 256 ^ left =
      omega (arith, next_shift e i, pow-succ' 256 left) in
    rw (read-bytes_from (i + 1) left e rest smaller)
      (ap (λ (n : ℕ). some (n, rest)) (omega (arith, next_shift e i)))

pub read-append_unsigned :
    (size e : ℕ) (rest : ByteList)
    → e < 256 ^ size
    → read_unsigned size (append_unsigned size e ++ rest) ≡ some (e, rest)
unfolding append_unsigned
read-append_unsigned size e rest h =
    read-bytes_from 0 size e rest (omega arith) ∙ ap (λ (n : ℕ). some (n, rest)) (omega arith)

-- The values of the signed integers on `size` bytes.
abbrev pub IsSized : ℕ → ℤ → Type 0
IsSized size z = (pos_part z < 2 ^ (size * 8) / 2) × (neg_part z ≤ 2 ^ (size * 8) / 2)

-- A number of bytes, with what arithmetic needs to know of it.
abbrev pub IsWidth : ℕ → Type 0
IsWidth size =
    (2 ^ (size * 8) ≡ 256 ^ size) × (2 * (2 ^ (size * 8) / 2) ≡ 2 ^ (size * 8)) × (0 < 256 ^ size)

signed_back :
    (m : ℕ) (z : ℤ)
    → 2 * (m / 2) ≡ m
    → pos_part z < m / 2
    → neg_part z ≤ m / 2
    → (to_unsigned m z < m) × (to_signed m (to_unsigned m z) ≡ z)
signed_back m (pos n) even h k = ground (arith, mod-eq_of_lt {n = n} {m = m} (omega arith))
signed_back m (negsuc n) even h k = ground (arith, mod-eq_of_lt {n = n} {m = m} (omega arith))

pub read-append_integer :
    (size : ℕ) (z : ℤ) (rest : ByteList)
    → IsWidth size
    → IsSized size z
    → read_integer size (append_integer size z ++ rest) ≡ some (z, rest)
unfolding append_integer read_integer
read-append_integer size z rest (m, even, positive) (h, k) =
    let (small, back) = signed_back (2 ^ (size * 8)) z even h k in
    rw (read-append_unsigned size (to_unsigned (2 ^ (size * 8)) z) rest (omega (arith, small, m)))
      (ap (λ (w : ℤ). some (w, rest)) back)

-- `n` of what a reader reads.
unfoldable pub read_n : {A : Type 0} → Reader A → ℕ → Reader (List A)
read_n read zero bytes = some ([], bytes)
read_n read (suc n) bytes =
    then_read (read bytes) λ a rest. then_read (read_n read n rest) λ more end. some (a ∷ more, end)

unfoldable pub read_size : Reader ℕ
unfolding read_unsigned
read_size bytes = read_unsigned 4 bytes

pub read-append_size :
    (n : ℕ) (rest : ByteList) → n < 2 ^ 32 → read_size (append_size n ++ rest) ≡ some (n, rest)
unfolding append_size read_size
read-append_size n rest h =
    read-append_unsigned 4 (n % 2 ^ 32) rest (omega arith)
    ∙ ap (λ (k : ℕ). some (k, rest)) (omega arith)

pub read-append_integers :
    (size : ℕ) (zs : List ℤ) (rest : ByteList)
    → IsWidth size
    → All (IsSized size) zs
    → read_n (read_integer size) (length zs) (append_integers size zs ++ rest) ≡ some (zs, rest)
unfolding append_integers read_n
read-append_integers size [] rest w h = refl
read-append_integers size (z ∷ zs) rest w (h, hs) = rw (
  append_assoc (append_integer size z) (append_integers size zs) rest,
  read-append_integer size z (append_integers size zs ++ rest) w h,
  read-append_integers size zs rest w hs,
)

-- A string is read as its bytes after their count.
unfoldable pub take_n : ℕ → Reader ByteList
take_n zero bytes = some ([], bytes)
take_n (suc n) [] = none
take_n (suc n) (b ∷ bytes) = then_read (take_n n bytes) λ s rest. some (b ∷ s, rest)

unfoldable pub read_string : Reader ByteList
unfolding read_size take_n
read_string bytes = then_read (read_size bytes) take_n

take_n-append : (s rest : ByteList) → take_n (length s) (s ++ rest) ≡ some (s, rest)
unfolding take_n
take_n-append [] rest = refl
take_n-append (b ∷ s) rest = rw (take_n-append s rest)

abbrev pub IsShort : ByteList → Type 0
IsShort s = length s < 2 ^ 32

pub append_string-IsShort :
    (s : ByteList) → IsShort s → append_string s ≡ success (append_size (length s) ++ s)
unfolding append_string
append_string-IsShort s h = ground arith

pub read-append_string :
    (s rest : ByteList)
    → IsShort s
    → read_string (append_size (length s) ++ (s ++ rest)) ≡ some (s, rest)
unfolding read_string
read-append_string s rest h = rw (read-append_size (length s) (s ++ rest) h) (take_n-append s rest)
