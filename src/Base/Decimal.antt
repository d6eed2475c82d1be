-- ===== src/Base/Decimal.antt =====
-- The decimal text of an int64, as fmt.Sprint gives it, and strconv.ParseInt at base 10.
use Prim.Native.Nat.{ℕ, zero, suc, ◌+◌, ◌-◌, ◌*◌, ◌/◌, ◌%◌, ◌<◌, ◌^◌}
use mathlib.Core.Path.{◌≡◌, refl, ◌∙◌, ap}
use mathlib.Core.Logic.{inl, inr}
use mathlib.Core.Bool.{Bool, false, ◌&&◌, ◌||◌}
use mathlib.Core.Option.{Option, none, some}
use mathlib.Core.List.{[], ◌∷◌, ◌++◌}
use native.Mathlib.Omega.{arith}
use ptool.Base.Tests.{◌==◌, ltb, leb, if◌then◌else◌, Bool-cases}
use ptool.Base.Lists.{any, is_nil}
use ptool.Base.Int.{ℤ, pos, negsuc}
use ptool.Base.Int64.{InRange64}
use ptool.Base.Text.{Text}

-- The digits of a number below 10 ^ fuel.
unfoldable pub digits : ℕ → ℕ → Text
digits zero n = []
digits (suc fuel) n =
    let before = digits fuel (n / 10) in
    if ltb n 10 then (48 + n) ∷ [] else before ++ (48 + n % 10) ∷ []

-- An int64 has at most 19 digits.
unfoldable pub sprint : ℤ → Text
unfolding digits
sprint (pos n) = digits 19 n
sprint (negsuc n) = b'-' ∷ digits 19 (n + 1)

unfoldable pub is_digit : ℕ → Bool
is_digit c = leb b'0' c && leb c b'9'

-- The value of the digits after a number, an error where there is another byte.
unfoldable pub value_from : ℕ → Text → Option ℕ
unfolding is_digit
value_from x [] = some x
value_from x (c ∷ s) =
    let rest = value_from (x * 10 + (c - b'0')) s in if is_digit c then rest else none

unfoldable pub value : Text → Option ℕ
unfolding value_from
value [] = none
value (c ∷ s) = value_from 0 (c ∷ s)

-- The value that ParseInt returns: 0 for a syntax error, the nearest int64 where it has an error of
-- range.
unfoldable pub parse_int_value : Text → ℤ
unfolding value
parse_int_value [] = pos 0
parse_int_value (c ∷ s) =
    if c == b'-'
    then elim (value s) [
      | none ↦ pos 0
      | some n ↦
          if ltb 9223372036854775807 n
          then negsuc 9223372036854775807
          else if n == 0
          then pos 0
          else negsuc (n - 1)
    ]
    else elim (value (if c == b'+' then s else c ∷ s)) [
      | none ↦ pos 0
      | some n ↦ if ltb 9223372036854775807 n then pos 9223372036854775807 else pos n
    ]

value_from-append :
    (x : ℕ) (s : Text) (d : ℕ)
    → d < 10
    → (y : ℕ) → value_from x s ≡ some y
    → value_from x (s ++ (48 + d) ∷ []) ≡ some (y * 10 + d)
unfolding value_from is_digit
value_from-append x [] d h y e = ground arith
value_from-append x (c ∷ s) d h y e = ground (arith, value_from-append (x * 10 + (c - 48)) s d h y)

tenth_less : (fuel n : ℕ) → n < 10 ^ suc fuel → n / 10 < 10 ^ fuel
tenth_less fuel n h = omega arith

-- The digits of a number have its value.
pub value_from-digits : (fuel n : ℕ) → n < 10 ^ fuel → value_from 0 (digits fuel n) ≡ some n
unfolding digits value_from
value_from-digits zero n h = ground arith
value_from-digits (suc fuel) n h = elim (Bool-cases (ltb n 10)) [
  | inl e ↦ rw e (value_from-append 0 [] n (ground arith) 0 refl ∙ ap some (omega arith))
  | inr e ↦ rw e (
      value_from-append 0 (digits fuel (n / 10)) (n % 10) (omega arith) (n / 10)
        (value_from-digits fuel (n / 10) (tenth_less fuel n h))
      ∙ ap some (omega arith))
]

any-append_one : (f : ℕ → Bool) (s : Text) (c : ℕ) → any f (s ++ c ∷ []) ≡ any f s || f c
unfolding any
any-append_one f [] c = ground arith
any-append_one f (x ∷ s) c = ground (arith, any-append_one f s c)

-- No byte that is not a digit is among the digits of a number.
pub any-digits :
    (sep fuel n : ℕ) → is_digit sep ≡ false → any (λ c. c == sep) (digits fuel n) ≡ false
unfolding any digits is_digit
any-digits sep zero n h = refl
any-digits sep (suc fuel) n h = elim (Bool-cases (ltb n 10)) [
  | inl e ↦ ground arith
  | inr e ↦ ground (
    arith,
    any-append_one (λ c. c == sep) (digits fuel (n / 10)) (48 + n % 10),
    any-digits sep fuel (n / 10) h,
  )
]

pub is_nil-append_one : (s : Text) (c : ℕ) → is_nil (s ++ c ∷ []) ≡ false
is_nil-append_one [] c = refl
is_nil-append_one (x ∷ s) c = refl

is_nil-digits : (fuel n : ℕ) → is_nil (digits (suc fuel) n) ≡ false
unfolding digits
is_nil-digits fuel n = ground (arith, is_nil-append_one (digits fuel (n / 10)) (48 + n % 10))

value_of : (s : Text) → is_nil s ≡ false → value s ≡ value_from 0 s
unfolding value
value_of [] h = ground arith
value_of (c ∷ s) h = refl

no_value : (n : ℕ) → value [] ≡ some n → ⊥
unfolding value
no_value n e = ground arith

parse_int_value_of :
    (s : Text) (n : ℕ)
    → value s ≡ some n
    → n < 9223372036854775808
    → any (λ c. c == 45) s ≡ false
    → any (λ c. c == 43) s ≡ false
    → parse_int_value s ≡ pos n
unfolding parse_int_value any
parse_int_value_of [] n e h minus plus = elim (no_value n e) [ ]
parse_int_value_of (c ∷ s) n e h minus plus =
    let no_minus : (c == 45) ≡ false = ground arith in
    let no_plus : (c == 43) ≡ false = ground arith in rw (no_minus, no_plus, e) (ground arith)

value-digits : (n : ℕ) → n < 10 ^ 19 → value (digits 19 n) ≡ some n
value-digits n h = value_of (digits 19 n) (is_nil-digits 18 n) ∙ value_from-digits 19 n h

-- ParseInt reads the text of an int64.
pub parse_int_value-sprint : (a : ℤ) → InRange64 a → parse_int_value (sprint a) ≡ a
unfolding sprint is_digit parse_int_value
parse_int_value-sprint (pos n) h =
    parse_int_value_of (digits 19 n) n (value-digits n (omega (arith, h.below))) h.below
      (any-digits 45 19 n refl) (any-digits 43 19 n refl)
parse_int_value-sprint (negsuc n) h =
    rw (value-digits (n + 1) (omega (arith, h.above))) (ground (arith, h.above))
