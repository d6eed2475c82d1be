-- ===== src/Base/Int64.antt =====
-- Go's int64: integers whose arithmetic wraps around at 64 bits, in two's complement.
pub mod Exact
use Prim.Native.Nat.{ℕ, ◌+◌, ◌-◌, ◌%◌, ◌≤◌, ◌<◌}
use mathlib.Core.Path.{◌≡◌}
use mathlib.Core.Logic.{◌↔◌}
use mathlib.Core.Bool.{Bool, true, not}
use native.Mathlib.Omega.{arith}
use ptool.Base.Tests.{ltb, leb, ◌==◌, if◌then◌else◌}
use ptool.Base.Int.{ℤ, pos, negsuc, pos_part, neg_part, ◌+ℤ◌, ◌-ℤ◌, ◌*ℤ◌, ◌≤ℤ◌, ◌<ℤ◌, quot, rem}

-- The bits of an integer modulo 2 ^ 64, and the int64 that has these bits.
abbrev to_word : ℤ → ℕ
to_word (pos n) = n % 18446744073709551616
to_word (negsuc n) = 18446744073709551615 - n % 18446744073709551616

abbrev of_word : ℕ → ℤ
of_word w = if ltb w 9223372036854775808 then pos w else negsuc (18446744073709551615 - w)

unfoldable pub wrap64 : ℤ → ℤ
wrap64 a = of_word (to_word a)

-- The values of the type.
pub record InRange64 (a : ℤ) : Type 0 where
  pub above : neg_part a ≤ 9223372036854775808
  pub below : pos_part a < 9223372036854775808

pub wrap64-InRange64 : (a : ℤ) → InRange64 (wrap64 a)
unfolding wrap64
wrap64-InRange64 a = ground arith

pub wrap64_of_InRange64 : (a : ℤ) → InRange64 a → wrap64 a ≡ a
unfolding wrap64
wrap64_of_InRange64 a h = ground arith

unfoldable pub add64 : ℤ → ℤ → ℤ
unfolding wrap64 ◌+ℤ◌
add64 a b = wrap64 (a +ℤ b)

unfoldable pub sub64 : ℤ → ℤ → ℤ
unfolding wrap64 ◌-ℤ◌
sub64 a b = wrap64 (a -ℤ b)

unfoldable pub mul64 : ℤ → ℤ → ℤ
unfolding wrap64 ◌*ℤ◌
mul64 a b = wrap64 (a *ℤ b)

unfoldable pub neg64 : ℤ → ℤ
unfolding wrap64 ◌-ℤ◌
neg64 a = wrap64 (pos 0 -ℤ a)

-- Go panics on a divisor 0. Callers that may have one say what they do then.
unfoldable pub quot64 : ℤ → ℤ → ℤ
unfolding wrap64 quot
quot64 a b = wrap64 (quot a b)

unfoldable pub rem64 : ℤ → ℤ → ℤ
unfolding rem
rem64 a b = rem a b

unfoldable pub lt64 : ℤ → ℤ → Bool
lt64 a b = ltb (pos_part a + neg_part b) (pos_part b + neg_part a)

unfoldable pub le64 : ℤ → ℤ → Bool
le64 a b = leb (pos_part a + neg_part b) (pos_part b + neg_part a)

unfoldable pub eq64 : ℤ → ℤ → Bool
eq64 a b = pos_part a + neg_part b == pos_part b + neg_part a

unfoldable pub min64 : ℤ → ℤ → ℤ
unfolding lt64
min64 a b = if lt64 b a then b else a

unfoldable pub max64 : ℤ → ℤ → ℤ
unfolding lt64
max64 a b = if lt64 a b then b else a

pub lt64_iff : (a b : ℤ) → (lt64 a b ≡ true) ↔ (a <ℤ b)
unfolding lt64
lt64_iff a b = ground arith

pub le64_iff : (a b : ℤ) → (le64 a b ≡ true) ↔ (a ≤ℤ b)
unfolding le64
le64_iff a b = ground arith

pub eq64_iff : (a b : ℤ) → (eq64 a b ≡ true) ↔ (a ≡ b)
unfolding eq64
eq64_iff a b = ground arith

pub lt64-not-le64 : (a b : ℤ) → lt64 a b ≡ not (le64 b a)
unfolding lt64 le64
lt64-not-le64 a b = ground arith

-- A sum that fits is exact.
pub add64_of_InRange64 : (a b : ℤ) → InRange64 (a +ℤ b) → add64 a b ≡ a +ℤ b
unfolding add64
add64_of_InRange64 a b h = wrap64_of_InRange64 (a +ℤ b) h

pub sub64_of_InRange64 : (a b : ℤ) → InRange64 (a -ℤ b) → sub64 a b ≡ a -ℤ b
unfolding sub64
sub64_of_InRange64 a b h = wrap64_of_InRange64 (a -ℤ b) h

-- Counting up does not wrap below the largest int64.
pub add64_pos_one : (n : ℕ) → n + 1 < 9223372036854775808 → add64 (pos n) (pos 1) ≡ pos (n + 1)
unfolding add64
add64_pos_one n h = ground arith

-- A value that is cut off at a limit is at most the limit.
pub capped_le : (a limit : ℤ) → (if lt64 limit a then limit else a) ≤ℤ limit
unfolding lt64
capped_le a limit = ground arith
