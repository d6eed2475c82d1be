-- ===== src/Util/Duration/Leading.antt =====
-- leadingInt of util/time.go computes decimal numbers.
use ptool.Base.{
  ℕ, ◌+◌, ◌*◌, ◌-◌, ◌≤◌, ◌≡◌, sym, inl, inr, true, false, not, ◌&&◌, Option, none, some, [], ◌∷◌,
  if◌then◌else◌, leb, Bool-cases, arith,
}
use ptool.Base.Int.{ℤ, pos, ◌+ℤ◌, ◌-ℤ◌, ◌*ℤ◌}
use ptool.Base.Int64.{add64, sub64, mul64, lt64, wrap64}
use ptool.Base.Text.{Text}
use ptool.Util.Duration.{tenth, is_digit, leading_from, leading_int}

-- An independent description: the decimal number x followed by the digits in front of the text, as
-- a natural number, and the rest of the text.
abbrev pub decimal : ℕ → Text → ℕ × Text
decimal x [] = (x, [])
decimal x (c ∷ s) =
    let next = decimal (x * 10 + (c - 48)) s in if leb 48 c && leb c 57 then next else (x, c ∷ s)

-- A number that int64 holds, or an error.
abbrev pub within : ℕ × Text → Option (ℤ × Text)
within (n, s) = if leb n 9223372036854775807 then some (pos n, s) else none

decimal-le : (x : ℕ) (s : Text) → x ≤ (decimal x s).0
decimal-le x [] = omega arith
decimal-le x (c ∷ s) = ground (arith, decimal-le (x * 10 + (c - 48)) s)

-- The next number is exact up to the limit, and negative where it is just beyond.
next_digit :
    (x c : ℕ)
    → x ≤ 922337203685477580
    → is_digit c ≡ true
    → sub64 (add64 (mul64 (pos x) (pos 10)) (pos c)) (pos 48) ≡ wrap64 (pos (x * 10 + (c - 48)))
unfolding sub64 add64 mul64 wrap64 is_digit ◌+ℤ◌ ◌-ℤ◌ ◌*ℤ◌
next_digit x c small digit = ground arith

wrap64_small : (y : ℕ) → y ≤ 9223372036854775807 → wrap64 (pos y) ≡ pos y
unfolding wrap64
wrap64_small y h = ground arith

-- Just beyond the limit, the number is negative.
wrap64_beyond :
    (y : ℕ)
    → 9223372036854775808 ≤ y
    → y ≤ 9223372036854775809
    → lt64 (wrap64 (pos y)) (pos 0) ≡ true
unfolding wrap64 lt64
wrap64_beyond y h k = ground arith

within-large : (x : ℕ) (s : Text) → 9223372036854775808 ≤ x → within (decimal x s) ≡ none
within-large x s h = ground (arith, decimal-le x s)

tenth-lt : (x : ℕ) → lt64 tenth (pos x) ≡ not (leb x 922337203685477580)
unfolding lt64
tenth-lt x = ground arith

not_negative : (y : ℕ) → lt64 (pos y) (pos 0) ≡ false
unfolding lt64
not_negative y = ground arith

leading_from-decimal :
    (x : ℕ) (s : Text) → x ≤ 9223372036854775807 → leading_from (pos x) s ≡ within (decimal x s)
unfolding leading_from is_digit
leading_from-decimal x [] h = ground arith
leading_from-decimal x (c ∷ s) h =
    let y = x * 10 + (c - 48) in
    elim (Bool-cases (leb 48 c && leb c 57)) [
      | inr e ↦ rw e (ground arith)
      | inl e ↦ elim (Bool-cases (leb x 922337203685477580)) [
        | inr large ↦ rw (e, tenth-lt x, large) (sym (within-large y s (ground arith)))
        | inl small ↦
            let next = next_digit x c (ground arith) e in
            elim (Bool-cases (leb y 9223372036854775807)) [
              | inl fits ↦
                  rw (e, tenth-lt x, small, next, wrap64_small y (ground arith), not_negative y)
                    (leading_from-decimal y s (ground arith))
              | inr beyond ↦
                  rw (e, tenth-lt x, small, next, wrap64_beyond y (ground arith) (ground arith))
                    (sym (within-large y s (ground arith)))
            ]
      ]
    ]

-- leadingInt gives the decimal number in front of the text, 0 without a digit, and the rest of the
-- text, where int64 holds the number; else it gives an error.
pub leading_int-decimal : (s : Text) → leading_int s ≡ within (decimal 0 s)
unfolding leading_int
leading_int-decimal s = leading_from-decimal 0 s (omega arith)
