-- ===== src/Common/Int.antt =====
-- Signed integers over the native numbers, under the library's names (its ℤ stands on the unary ℕ).
-- Sums and orders go through the two parts of an integer, which are numbers that `omega` reads.
use Prim.Native.Nat.{ℕ, suc, ◌+◌, ◌-◌, ◌*◌, ◌/◌, ◌%◌, ◌^◌, ◌≤◌, ◌<◌}
use mathlib.Core.Path.{◌≡◌, refl, ap}
use mathlib.Core.Logic.{◌↔◌, ◌⊎◌, inl, inr}
use mathlib.Core.Bool.{Bool, true}
use native.Mathlib.Omega.{arith}
use water_structure_cpp.Common.Tests.{ltb, leb, ◌==◌, if◌then◌else◌}

-- `negsuc n` is -(n + 1).
pub data ℤ : Type 0 where
  pos : ℕ → ℤ
  negsuc : ℕ → ℤ

abbrev pub pos_part : ℤ → ℕ
pos_part (pos n) = n
pos_part (negsuc n) = 0

abbrev pub neg_part : ℤ → ℕ
neg_part (pos n) = 0
neg_part (negsuc n) = suc n

-- a - b, as an integer.
abbrev pub sub_ℕ : ℕ → ℕ → ℤ
sub_ℕ a b = if leb b a then pos (a - b) else negsuc (b - a - 1)

infixl 65 ◌+ℤ◌ ◌-ℤ◌
infixl 70 ◌*ℤ◌
infix 50 ◌≤ℤ◌
unfoldable pub ◌+ℤ◌ : ℤ → ℤ → ℤ
a +ℤ b = sub_ℕ (pos_part a + pos_part b) (neg_part a + neg_part b)

unfoldable pub ◌-ℤ◌ : ℤ → ℤ → ℤ
a -ℤ b = sub_ℕ (pos_part a + neg_part b) (neg_part a + pos_part b)

unfoldable pub ◌*ℤ◌ : ℤ → ℤ → ℤ
a *ℤ b =
    sub_ℕ (pos_part a * pos_part b + neg_part a * neg_part b)
      (pos_part a * neg_part b + neg_part a * pos_part b)

abbrev pub ◌≤ℤ◌ : ℤ → ℤ → Type 0
a ≤ℤ b = pos_part a + neg_part b ≤ pos_part b + neg_part a

abbrev pub ltb_ℤ : ℤ → ℤ → Bool
ltb_ℤ a b = ltb (pos_part a + neg_part b) (pos_part b + neg_part a)

abbrev pub leb_ℤ : ℤ → ℤ → Bool
leb_ℤ a b = leb (pos_part a + neg_part b) (pos_part b + neg_part a)

infix 50 ◌<ℤ◌
abbrev pub ◌<ℤ◌ : ℤ → ℤ → Type 0
a <ℤ b = pos_part a + neg_part b < pos_part b + neg_part a

-- The size of an integer, `|z|`.
abbrev pub abs_ℕ : ℤ → ℕ
abs_ℕ z = pos_part z + neg_part z

abbrev pub neg_ℤ : ℤ → ℤ
neg_ℤ z = pos 0 -ℤ z

-- Equality of integers as a test.
abbrev pub eqb_ℤ : ℤ → ℤ → Bool
eqb_ℤ a b = (pos_part a + neg_part b) == (pos_part b + neg_part a)

-- One lemma for each operation lets `omega` work with the operations shut, at any depth.
pub +ℤ_parts :
    (a b : ℤ)
    → pos_part (a +ℤ b) + neg_part a + neg_part b ≡ neg_part (a +ℤ b) + pos_part a + pos_part b
unfolding ◌+ℤ◌
+ℤ_parts a b = ground arith

pub -ℤ_parts :
    (a b : ℤ)
    → pos_part (a -ℤ b) + neg_part a + pos_part b ≡ neg_part (a -ℤ b) + pos_part a + neg_part b
unfolding ◌-ℤ◌
-ℤ_parts a b = ground arith

pub eq_of_parts : (a b : ℤ) → pos_part a + neg_part b ≡ pos_part b + neg_part a → a ≡ b
eq_of_parts a b h = ground arith

-- Of the two parts one is 0.
pub parts_apart : (a : ℤ) → (pos_part a ≡ 0) ⊎ (neg_part a ≡ 0)
parts_apart (pos n) = inr refl
parts_apart (negsuc n) = inl refl

pub ruleset int_laws = (arith, +ℤ_parts, -ℤ_parts, eq_of_parts)

pub eqb_ℤ_iff : (a b : ℤ) → (eqb_ℤ a b ≡ true) ↔ (a ≡ b)
eqb_ℤ_iff a b = ground arith

-- C++ `/` and `%`: towards zero, the remainder with the sign of the dividend.
unfoldable pub tdiv : ℤ → ℤ → ℤ
tdiv (pos a) (pos b) = pos (a / b)
tdiv (pos a) (negsuc b) = sub_ℕ 0 (a / suc b)
tdiv (negsuc a) (pos b) = sub_ℕ 0 (suc a / b)
tdiv (negsuc a) (negsuc b) = pos (suc a / suc b)

unfoldable pub trem : ℤ → ℤ → ℤ
trem (pos a) b = pos (a % abs_ℕ b)
trem (negsuc a) b = sub_ℕ 0 (suc a % abs_ℕ b)

-- The unsigned value below `m` that an integer wraps to, and the signed reading of one.
abbrev pub to_unsigned : ℕ → ℤ → ℕ
to_unsigned m (pos n) = n % m
to_unsigned m (negsuc n) = m - 1 - n % m

abbrev pub to_signed : ℕ → ℕ → ℤ
to_signed m u = if ltb u (m / 2) then pos u else negsuc (m - u - 1)

-- Arithmetic on int32_t and int64_t keeps the low bits.
unfoldable pub wrap32 : ℤ → ℤ
wrap32 z = to_signed (2 ^ 32) (to_unsigned (2 ^ 32) z)

unfoldable pub wrap64 : ℤ → ℤ
wrap64 z = to_signed (2 ^ 64) (to_unsigned (2 ^ 64) z)

abbrev pub IsInt32 : ℤ → Type 0
IsInt32 z = (pos_part z < 2 ^ 31) × (neg_part z ≤ 2 ^ 31)

abbrev pub IsInt64 : ℤ → Type 0
IsInt64 z = (pos_part z < 2 ^ 63) × (neg_part z ≤ 2 ^ 63)

pub wrap32_of_IsInt32 : (z : ℤ) → IsInt32 z → wrap32 z ≡ z
unfolding wrap32
wrap32_of_IsInt32 (pos n) h = ground arith
wrap32_of_IsInt32 (negsuc n) h = ground arith

pub wrap32-IsInt32 : (z : ℤ) → IsInt32 (wrap32 z)
unfolding wrap32
wrap32-IsInt32 (pos n) = ground arith
wrap32-IsInt32 (negsuc n) = ground arith

pub wrap64_of_IsInt64 : (z : ℤ) → IsInt64 z → wrap64 z ≡ z
unfolding wrap64
wrap64_of_IsInt64 (pos n) h = ground arith
wrap64_of_IsInt64 (negsuc n) h = ground arith

-- An integer in range that differs by a multiple of 2 ^ 32 is the wrapped one.
pub wrap32_unique :
    (z w : ℤ) (j k : ℕ)
    → IsInt32 w
    → pos_part z + neg_part w + j * 2 ^ 32 ≡ neg_part z + pos_part w + k * 2 ^ 32
    → wrap32 z ≡ w
unfolding wrap32
wrap32_unique (pos n) (pos m) j k h e = ground arith
wrap32_unique (pos n) (negsuc m) j k h e = ground arith
wrap32_unique (negsuc n) (pos m) j k h e = ground arith
wrap32_unique (negsuc n) (negsuc m) j k h e = ground arith

-- The multiple of 2 ^ 32 that a wrap takes away, or adds.
pub wrap32_multiple :
    (z : ℤ)
    → (j : ℕ) × (k : ℕ) × (pos_part z + neg_part (wrap32 z) + j * 2 ^ 32
        ≡ neg_part z + pos_part (wrap32 z) + k * 2 ^ 32)
unfolding wrap32
wrap32_multiple (pos n) =
    (0, if ltb (n % 2 ^ 32) (2 ^ 31) then n / 2 ^ 32 else n / 2 ^ 32 + 1, ground arith)
wrap32_multiple (negsuc n) =
    (if ltb (2 ^ 32 - 1 - n % 2 ^ 32) (2 ^ 31) then n / 2 ^ 32 + 1 else n / 2 ^ 32, 0, ground arith)

-- In a difference the wrap of the second term is made up for by the wrap of the whole.
pub wrap32-sub-wrap32 : (v p w : ℤ) → IsInt32 w → v -ℤ p ≡ w → wrap32 (v -ℤ wrap32 p) ≡ w
wrap32-sub-wrap32 v p w h e =
    let (j, k, m) = wrap32_multiple p in
    wrap32_unique (v -ℤ wrap32 p) w j k h
      (omega (arith, m, -ℤ_parts v (wrap32 p), -ℤ_parts v p, ap pos_part e, ap neg_part e))

-- A wrap inside a sum, and two wraps inside a difference, are made up for by the outer wrap.
pub wrap32-sub-add-wrap32 :
    (v p k w : ℤ) → IsInt32 w → v -ℤ (p +ℤ k) ≡ w → wrap32 (v -ℤ wrap32 (wrap32 p +ℤ k)) ≡ w
wrap32-sub-add-wrap32 v p k w h e = let (i, j, m) = wrap32_multiple p in wrap32-sub-multiple i j m
  where
    wrap32-sub-multiple :
        (i j : ℕ)
        → pos_part p + neg_part (wrap32 p) + i * 2 ^ 32
          ≡ neg_part p + pos_part (wrap32 p) + j * 2 ^ 32
        → wrap32 (v -ℤ wrap32 (wrap32 p +ℤ k)) ≡ w
    wrap32-sub-multiple i j m =
        let (i', j', m') = wrap32_multiple (wrap32 p +ℤ k) in
        wrap32_unique (v -ℤ wrap32 (wrap32 p +ℤ k)) w (i + i') (j + j') h (
          omega (
            arith,
            m,
            m',
            +ℤ_parts (wrap32 p) k,
            +ℤ_parts p k,
            -ℤ_parts v (wrap32 (wrap32 p +ℤ k)),
            -ℤ_parts v (p +ℤ k),
            ap pos_part e,
            ap neg_part e,
          ))
