-- ===== src/Prelude/Int.antt =====
-- Signed integers over the native numbers (Python's int), with the two's complement reading of
-- machine words.
use Prim.Native.Nat.{ℕ, suc, ◌+◌, ◌-◌, ◌*◌, ◌<◌, ◌%◌, ◌^◌}
use mathlib.Core.Path.{◌≡◌}
use mathlib.Core.Bool.{Bool, true, false}
use native.Mathlib.Omega.{arith}
use aclmv.Prelude.Tests.{ltb, leb, ◌==◌, if◌then◌else◌}

-- `negsuc n` is -(n + 1).
pub data ℤ : Type 0 where
  pos : ℕ → ℤ
  negsuc : ℕ → ℤ

abbrev pub pos_part : ℤ → ℕ
pos_part (pos n) = n
pos_part (negsuc n) = 0

abbrev pub neg_part : ℤ → ℕ
neg_part (pos n) = 0
neg_part (negsuc n) = suc n

-- a - b, as an integer.
abbrev pub sub_ℕ : ℕ → ℕ → ℤ
sub_ℕ a b = if leb b a then pos (a - b) else negsuc (b - a - 1)

abbrev pub add_ℤ : ℤ → ℤ → ℤ
add_ℤ a b = sub_ℕ (pos_part a + pos_part b) (neg_part a + neg_part b)

abbrev pub neg_ℤ : ℤ → ℤ
neg_ℤ a = sub_ℕ (neg_part a) (pos_part a)

abbrev pub sub_ℤ : ℤ → ℤ → ℤ
sub_ℤ a b = add_ℤ a (neg_ℤ b)

abbrev pub mul_ℤ : ℤ → ℤ → ℤ
mul_ℤ a b =
    sub_ℕ (pos_part a * pos_part b + neg_part a * neg_part b)
      (pos_part a * neg_part b + neg_part a * pos_part b)

abbrev pub is_zero : ℤ → Bool
is_zero (pos n) = n == 0
is_zero (negsuc n) = false

-- -half ≤ v ≤ half - 1
abbrev pub fits : ℕ → ℤ → Bool
fits half (pos n) = ltb n half
fits half (negsuc n) = ltb n half

-- v & (m - 1) for a power of two m: the residue of v modulo m.
abbrev pub wrap : ℕ → ℤ → ℕ
wrap m (pos n) = n % m
wrap m (negsuc n) = m - 1 - n % m

-- The integer that a word below 2 * half stands for in two's complement.
abbrev pub signed : ℕ → ℕ → ℤ
signed half w = if ltb w half then pos w else negsuc (half + half - w - 1)

pub signed-wrap32 : (v : ℤ) → fits (2 ^ 31) v ≡ true → signed (2 ^ 31) (wrap (2 ^ 32) v) ≡ v
signed-wrap32 (pos n) h = ground arith
signed-wrap32 (negsuc n) h = ground arith

pub signed-wrap8 : (v : ℤ) → fits 128 v ≡ true → signed 128 (wrap 256 v) ≡ v
signed-wrap8 (pos n) h = ground arith
signed-wrap8 (negsuc n) h = ground arith

pub wrap32-lt : (v : ℤ) → wrap (2 ^ 32) v < 2 ^ 32
wrap32-lt (pos n) = omega arith
wrap32-lt (negsuc n) = omega arith

pub wrap64-lt : (v : ℤ) → wrap (2 ^ 64) v < 2 ^ 64
wrap64-lt (pos n) = omega arith
wrap64-lt (negsuc n) = omega arith
