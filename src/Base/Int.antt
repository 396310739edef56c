-- ===== src/Base/Int.antt =====
-- C's signed integers as mathematical ones, and the conversions that the program relies on: to and
-- from 16-bit and 32-bit patterns, and division that rounds towards zero.
use Prim.Native.Nat.{ℕ, suc, ◌+◌, ◌-◌, ◌*◌, ◌/◌, ◌%◌}
use mathlib.Core.Path.{◌≡◌, refl}
use mathlib.Core.Logic.{◌↔◌}
use mathlib.Core.Bool.{Bool, true, false}
use native.Mathlib.Omega.{arith}
use ecs150fs.Base.Tests.{ltb, leb, ◌==◌, if◌then◌else◌}

-- `negsuc n` is -(n + 1).
pub data ℤ : Type 0 where
  pos : ℕ → ℤ
  negsuc : ℕ → ℤ

-- The value -1 of an error return, of `INVALID_FD` and of `FAT_EOC`.
abbrev pub minus_one : ℤ
minus_one = negsuc 0

abbrev pub pos_part : ℤ → ℕ
pos_part (pos n) = n
pos_part (negsuc n) = 0

abbrev pub neg_part : ℤ → ℕ
neg_part (pos n) = 0
neg_part (negsuc n) = suc n

-- a - b, as an integer.
abbrev pub sub_ℕ : ℕ → ℕ → ℤ
sub_ℕ a b = if leb b a then pos (a - b) else negsuc (b - a - 1)

infixl 65 ◌+ℤ◌ ◌-ℤ◌
unfoldable pub ◌+ℤ◌ : ℤ → ℤ → ℤ
a +ℤ b = sub_ℕ (pos_part a + pos_part b) (neg_part a + neg_part b)

unfoldable pub ◌-ℤ◌ : ℤ → ℤ → ℤ
a -ℤ b = sub_ℕ (pos_part a + neg_part b) (neg_part a + pos_part b)

infix 50 ◌==ℤ◌
abbrev pub ◌==ℤ◌ : ℤ → ℤ → Bool
pos a ==ℤ pos b = a == b
negsuc a ==ℤ negsuc b = a == b
_ ==ℤ _ = false

abbrev pub is_negative : ℤ → Bool
is_negative (pos _) = false
is_negative (negsuc _) = true

-- C's `*` by a constant and `/` by a positive one: the quotient is rounded towards zero.
unfoldable pub double : ℤ → ℤ
unfolding ◌+ℤ◌
double a = a +ℤ a

abbrev pub div_const : ℤ → ℕ → ℤ
div_const (pos a) n = pos (a / n)
div_const (negsuc a) n = sub_ℕ 0 (suc a / n)

-- The value of a `w`-bit pattern with modulus `m` = 2 ^ w read as a signed number.
abbrev pub signed : ℕ → ℕ → ℤ
signed m u = if ltb (u + u) m then pos u else negsuc (m - u - 1)

-- The pattern of a signed number, modulo `m`.
abbrev pub pattern_of : ℕ → ℤ → ℕ
pattern_of m (pos n) = n % m
pattern_of m (negsuc n) = m - (n % m) - 1

pub ==ℤ_iff : (a b : ℤ) → ((a ==ℤ b) ≡ true) ↔ (a ≡ b)
==ℤ_iff (pos a) (pos b) = ground arith
==ℤ_iff (pos a) (negsuc b) = ground arith
==ℤ_iff (negsuc a) (pos b) = ground arith
==ℤ_iff (negsuc a) (negsuc b) = ground arith

pub double_pos : (n : ℕ) → double (pos n) ≡ pos (n * 2)
unfolding double
double_pos n = ground arith

pub pos-+ℤ : (n m : ℕ) → pos n +ℤ pos m ≡ pos (n + m)
unfolding ◌+ℤ◌
pos-+ℤ n m = ground arith

pub pos--ℤ : (n m : ℕ) → pos n -ℤ pos m ≡ sub_ℕ n m
unfolding ◌-ℤ◌
pos--ℤ n m = ground arith

pub ==ℤ_refl : (a : ℤ) → (a ==ℤ a) ≡ true
==ℤ_refl a = (==ℤ_iff a a).1 refl
