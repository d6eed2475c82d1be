-- ===== src/Util/Datetime.antt =====
-- FormatDuration of util/datetime.go.
use mathlib.Core.List.{append-nil}
use native.Mathlib.Nat.{div-zero, zero-div, div-le_self, zero-mod, mod-le}
use ptool.Base.{
  ℕ, zero, suc, false, ◌+◌, ◌/◌, ◌%◌, ◌<◌, ◌≤◌, ◌==◌, not, List, [], ◌∷◌, ◌++◌, if◌then◌else◌,
  is_nil, ◌≡◌, refl, ap, ◌∙◌, arith,
}
use ptool.Base.Int.{ℤ, pos, negsuc, pos_part, neg_part, quot, rem}
use ptool.Base.Int64.{InRange64, wrap64, lt64, quot64, rem64}
use ptool.Base.Int64.Exact.{quot64_pos, rem64_pos}
use ptool.Base.Text.{Text}
use ptool.Base.Decimal.{sprint, is_nil-append_one}
use ptool.Util.Data.{filter}

-- The text of a number of units, empty for none.
unfoldable pub part_text : ℤ → ℕ → Text
part_text n unit = if lt64 (pos 0) n then sprint n ++ unit ∷ [] else []

-- The last loop, with `i` parts so far.
unfoldable pub join_parts : ℕ → List Text → Text
join_parts i [] = []
join_parts i (s ∷ strs) =
    let i' = if is_nil s then i else i + 1 in
    let rest = join_parts i' strs in if i' == 2 then s else s ++ rest

unfoldable pub format_duration : ℤ → Text
format_duration seconds =
    let after_days = rem64 seconds (pos 86400) in
    let after_hours = rem64 after_days (pos 3600) in
    join_parts 0 (
      part_text (quot64 seconds (pos 86400)) b'd'
      ∷ part_text (quot64 after_days (pos 3600)) b'h'
      ∷ part_text (quot64 after_hours (pos 60)) b'm'
      ∷ part_text (rem64 after_hours (pos 60)) b's'
      ∷ [])

-- The first two of the texts, one after the other.
abbrev pub first_two : List Text → Text
first_two [] = []
first_two (s ∷ []) = s
first_two (s ∷ t ∷ strs) = s ++ t

-- The texts of the numbers that are not 0, each with its unit.
abbrev pub named : List (ℕ × ℕ) → List Text
named [] = []
named ((n, unit) ∷ parts) =
    if n == 0 then named parts else (sprint (pos n) ++ unit ∷ []) ∷ named parts

-- The numbers of days, hours, minutes and seconds; a negative duration has none.
abbrev pub parts_of : ℤ → List Text
parts_of (pos n) =
    named
      ((n / 86400, b'd') ∷ (n % 86400 / 3600, b'h') ∷ (n % 3600 / 60, b'm') ∷ (n % 60, b's') ∷ [])
parts_of (negsuc n) = []

texts_of : List (ℕ × ℕ) → List Text
texts_of [] = []
texts_of ((n, unit) ∷ parts) = part_text (pos n) unit ∷ texts_of parts

part_text-zero : (unit : ℕ) → part_text (pos 0) unit ≡ []
unfolding part_text lt64
part_text-zero unit = refl

part_text-suc : (n unit : ℕ) → part_text (pos (suc n)) unit ≡ sprint (pos (suc n)) ++ unit ∷ []
unfolding part_text lt64
part_text-suc n unit = ground arith

filter-texts_of :
    (parts : List (ℕ × ℕ)) → filter (texts_of parts) (λ s. not (is_nil s)) ≡ named parts
unfolding filter texts_of
filter-texts_of [] = refl
filter-texts_of ((zero, unit) ∷ parts) = rw (part_text-zero unit) (filter-texts_of parts)
filter-texts_of ((suc n, unit) ∷ parts) =
    let text : is_nil (sprint (pos (suc n)) ++ unit ∷ []) ≡ false =
      is_nil-append_one (sprint (pos (suc n))) unit in
    let some_number : (suc n == 0) ≡ false = ground arith in
    rw (part_text-suc n unit, some_number, text, filter-texts_of parts) refl

abbrev first_one : List Text → Text
first_one [] = []
first_one (s ∷ strs) = s

first_two-first_one : (s : Text) (strs : List Text) → s ++ first_one strs ≡ first_two (s ∷ strs)
first_two-first_one s [] = append-nil s
first_two-first_one s (t ∷ strs) = refl

join_parts-first_one :
    (strs : List Text) → join_parts 1 strs ≡ first_one (filter strs (λ s. not (is_nil s)))
unfolding join_parts filter
join_parts-first_one [] = refl
join_parts-first_one ([] ∷ strs) = join_parts-first_one strs
join_parts-first_one ((c ∷ s) ∷ strs) = refl

join_parts-first_two :
    (strs : List Text) → join_parts 0 strs ≡ first_two (filter strs (λ s. not (is_nil s)))
unfolding join_parts filter
join_parts-first_two [] = refl
join_parts-first_two ([] ∷ strs) = join_parts-first_two strs
join_parts-first_two ((c ∷ s) ∷ strs) =
    ap (λ r. (c ∷ s) ++ r) (join_parts-first_one strs)
    ∙ first_two-first_one (c ∷ s) (filter strs (λ s. not (is_nil s)))

format_duration_pos :
    (n : ℕ) → n < 9223372036854775808 → format_duration (pos n) ≡ first_two (parts_of (pos n))
unfolding format_duration texts_of
format_duration_pos n h =
    let parts : List (ℕ × ℕ) =
      (n / 86400, b'd') ∷ (n % 86400 / 3600, b'h') ∷ (n % 3600 / 60, b'm') ∷ (n % 60, b's') ∷ [] in
    let hours : n % 86400 % 3600 ≡ n % 3600 = omega arith in
    let seconds : n % 3600 % 60 ≡ n % 60 = omega arith in
    rw
      (
        rem64_pos n 86400,
        quot64_pos n 86400 h,
        rem64_pos (n % 86400) 3600,
        quot64_pos (n % 86400) 3600 (omega arith),
        hours,
        quot64_pos (n % 3600) 60 (omega arith),
        rem64_pos (n % 3600) 60,
        seconds,
      )
      (join_parts-first_two (texts_of parts) ∙ ap first_two (filter-texts_of parts))

-- An int64 that is not above 0.
abbrev IsLow : ℤ → Type 0
IsLow a = (pos_part a ≡ 0) × (neg_part a ≤ 9223372036854775808)

part_text_low : (a : ℤ) (unit : ℕ) → IsLow a → part_text a unit ≡ []
unfolding part_text lt64
part_text_low a unit h = ground (arith, h.0)

quot64-IsLow : (a : ℤ) (b : ℕ) → IsLow a → IsLow (quot64 a (pos b))
unfolding quot64 wrap64 quot
quot64-IsLow a b h =
    ground
      (arith, h.0, h.1, div-zero (neg_part a), zero-div b, zero-div 0, div-le_self (neg_part a) b)

rem64-IsLow : (a : ℤ) (b : ℕ) → IsLow a → IsLow (rem64 a (pos b))
unfolding rem64 rem
rem64-IsLow a b h = ground (arith, h.0, h.1, zero-mod b, mod-le (neg_part a) b)

-- FormatDuration gives, for the seconds that int64 holds, the first two of the numbers of days, hours,
-- minutes and seconds that are not 0, each with its unit; for a negative number it gives no text.
pub format_duration-first_two : (a : ℤ) → InRange64 a → format_duration a ≡ first_two (parts_of a)
unfolding format_duration join_parts
format_duration-first_two (pos n) h = format_duration_pos n h.below
format_duration-first_two (negsuc n) h =
    let a = negsuc n in
    let low : IsLow a = (refl, h.above) in
    let after_days = rem64-IsLow a 86400 low in
    let after_hours = rem64-IsLow (rem64 a (pos 86400)) 3600 after_days in
    rw
      (
        part_text_low (quot64 a (pos 86400)) b'd' (quot64-IsLow a 86400 low),
        part_text_low _ b'h' (quot64-IsLow _ 3600 after_days),
        part_text_low _ b'm' (quot64-IsLow _ 60 after_hours),
        part_text_low _ b's' (rem64-IsLow _ 60 after_hours),
      )
      refl
