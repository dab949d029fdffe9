-- ===== src/Prelude/Int.antt =====
-- The C type `int`: signed integers over the native numbers, and sums of 32 bits.
use Prim.Native.Nat.{ℕ, suc, ◌+◌, ◌-◌, ◌^◌, ◌≤◌, ◌<◌}
use mathlib.Core.Path.{◌≡◌}
use mathlib.Core.Bool.{Bool, ◌&&◌}
use native.Mathlib.Omega.{arith}
use shelter_server.Prelude.Tests.{ltb, leb, if◌then◌else◌}

-- `negsuc n` is -(n + 1).
pub data ℤ : Type 0 where
  pos : ℕ → ℤ
  negsuc : ℕ → ℤ

abbrev pub pos_part : ℤ → ℕ
pos_part (pos n) = n
pos_part (negsuc n) = 0

abbrev pub neg_part : ℤ → ℕ
neg_part (pos n) = 0
neg_part (negsuc n) = suc n

-- a - b, as an integer.
abbrev pub sub_ℕ : ℕ → ℕ → ℤ
sub_ℕ a b = if leb b a then pos (a - b) else negsuc (b - a - 1)

infixl 65 ◌+ℤ◌
infix 50 ◌≤ℤ◌
unfoldable pub ◌+ℤ◌ : ℤ → ℤ → ℤ
a +ℤ b = sub_ℕ (pos_part a + pos_part b) (neg_part a + neg_part b)

abbrev pub ◌≤ℤ◌ : ℤ → ℤ → Type 0
a ≤ℤ b = pos_part a + neg_part b ≤ pos_part b + neg_part a

abbrev pub ltb_ℤ : ℤ → ℤ → Bool
ltb_ℤ a b = ltb (pos_part a + neg_part b) (pos_part b + neg_part a)

abbrev pub eqb_ℤ : ℤ → ℤ → Bool
eqb_ℤ a b =
    leb (pos_part a + neg_part b) (pos_part b + neg_part a)
    && leb (pos_part b + neg_part a) (pos_part a + neg_part b)

-- The range of an `int` of 32 bits.
abbrev pub IsInt : ℤ → Type 0
IsInt (pos n) = n < 2 ^ 31
IsInt (negsuc n) = n < 2 ^ 31

-- The two's complement value of a sum of two `int`s.
unfoldable pub wrap_int : ℤ → ℤ
wrap_int (pos n) = if ltb n (2 ^ 31) then pos n else negsuc (2 ^ 32 - 1 - n)
wrap_int (negsuc n) = if ltb n (2 ^ 31) then negsuc n else pos (2 ^ 32 - 1 - n)

unfoldable pub add_int : ℤ → ℤ → ℤ
unfolding ◌+ℤ◌ wrap_int
add_int a b = wrap_int (a +ℤ b)

-- A sum in range is exact, and every sum of two `int`s is an `int`.
pub add_int-exact : (a b : ℤ) → IsInt (a +ℤ b) → add_int a b ≡ a +ℤ b
unfolding add_int
add_int-exact a b h = exact (a +ℤ b) h
  where
    exact : (z : ℤ) → IsInt z → wrap_int z ≡ z
    exact (pos n) p = ground arith
    exact (negsuc n) p = ground arith

pub add_int-IsInt : (a b : ℤ) → IsInt a → IsInt b → IsInt (add_int a b)
unfolding add_int
add_int-IsInt (pos a) (pos b) h k = ground arith
add_int-IsInt (pos a) (negsuc b) h k = ground arith
add_int-IsInt (negsuc a) (pos b) h k = ground arith
add_int-IsInt (negsuc a) (negsuc b) h k = ground arith
