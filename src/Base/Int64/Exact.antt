-- ===== src/Base/Int64/Exact.antt =====
-- Operations of int64 on numbers, where nothing wraps around.
use Prim.Native.Nat.{ℕ, ◌+◌, ◌-◌, ◌/◌, ◌%◌, ◌≤◌, ◌<◌, ◌*◌}
use mathlib.Core.Path.{◌≡◌}
use native.Mathlib.Nat.{div-zero, zero-div, div-le_self, zero-mod}
use native.Mathlib.Omega.{arith}
use ptool.Base.Tests.{ltb, ◌==◌, if◌then◌else◌}
use ptool.Base.Int.{pos, ◌+ℤ◌, ◌-ℤ◌, ◌*ℤ◌, quot, rem}
use ptool.Base.Int64.{wrap64, add64, sub64, quot64, rem64, lt64, eq64, min64, mul64}

pub wrap64_pos : (n : ℕ) → n < 9223372036854775808 → wrap64 (pos n) ≡ pos n
unfolding wrap64
wrap64_pos n h = ground arith

pub add64_pos : (a b : ℕ) → a + b < 9223372036854775808 → add64 (pos a) (pos b) ≡ pos (a + b)
unfolding add64 wrap64 ◌+ℤ◌
add64_pos a b h = ground arith

pub sub64_pos : (a b : ℕ) → b ≤ a → a < 9223372036854775808 → sub64 (pos a) (pos b) ≡ pos (a - b)
unfolding sub64 wrap64 ◌-ℤ◌
sub64_pos a b h k = ground arith

pub quot64_pos : (a b : ℕ) → a < 9223372036854775808 → quot64 (pos a) (pos b) ≡ pos (a / b)
unfolding quot64 wrap64 quot
quot64_pos a b h = ground (arith, div-zero a, zero-div b, div-le_self a b)

pub rem64_pos : (a b : ℕ) → rem64 (pos a) (pos b) ≡ pos (a % b)
unfolding rem64 rem
rem64_pos a b = ground (arith, zero-mod b)

pub lt64_pos : (a b : ℕ) → lt64 (pos a) (pos b) ≡ ltb a b
unfolding lt64
lt64_pos a b = ground arith

pub eq64_pos : (a b : ℕ) → eq64 (pos a) (pos b) ≡ (a == b)
unfolding eq64
eq64_pos a b = ground arith

pub min64_pos : (a b : ℕ) → min64 (pos a) (pos b) ≡ pos (if ltb b a then b else a)
unfolding min64 lt64
min64_pos a b = ground arith

pub mul64_pos : (a b : ℕ) → a * b < 9223372036854775808 → mul64 (pos a) (pos b) ≡ pos (a * b)
unfolding mul64 wrap64 ◌*ℤ◌
mul64_pos a b h = ground arith
