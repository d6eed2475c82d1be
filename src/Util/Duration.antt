-- ===== src/Util/Duration.antt =====
-- ParseDuration of util/time.go: texts such as "1d12h" as nanoseconds.
pub mod Leading
pub mod Fuel
use ptool.Base.{
  ◌>>=◌, ℕ, zero, suc, Bool, true, false, not, ◌&&◌, ◌||◌, Option, none, some, List, [], ◌∷◌, ◌++◌,
  if◌then◌else◌, ◌==◌, leb, ltb, length,
}
use ptool.Base.Int.{ℤ, pos, negsuc}
use ptool.Base.Int64.{add64, sub64, mul64, quot64, neg64, lt64}
use ptool.Base.Text.{Text, codes, str_eq}
use ptool.Base.Dict.{lookup}
use ptool.Base.Float.{Float, float}

-- Nanoseconds. The first two names of a microsecond are bytes of UTF-8.
abbrev pub unit_map : List (Text × ℤ)
unit_map =
    (codes "ns", pos 1)
    ∷ (codes "us", pos 1000)
    ∷ (194 ∷ 181 ∷ codes "s", pos 1000)
    ∷ (206 ∷ 188 ∷ codes "s", pos 1000)
    ∷ (codes "ms", pos 1000000)
    ∷ (codes "s", pos 1000000000)
    ∷ (codes "m", pos 60000000000)
    ∷ (codes "h", pos 3600000000000)
    ∷ (codes "d", pos 86400000000000)
    ∷ (codes "w", pos 604800000000000)
    ∷ (codes "M", pos 2592000000000000)
    ∷ (codes "y", pos 31536000000000000)
    ∷ []

-- (1<<63 - 1) / 10
abbrev pub tenth : ℤ
tenth = pos 922337203685477580

unfoldable pub is_digit : ℕ → Bool
is_digit c = leb b'0' c && leb c b'9'

-- The loop of leadingInt, with x so far: the number and the rest of the text, or an error.
unfoldable pub leading_from : ℤ → Text → Option (ℤ × Text)
unfolding is_digit
leading_from x [] = some (x, [])
leading_from x (c ∷ s) =
    let x' = sub64 (add64 (mul64 x (pos 10)) (pos c)) (pos b'0') in
    let next = leading_from x' s in
    if not (is_digit c)
    then some (x, c ∷ s)
    else if lt64 tenth x
    then none
    else if lt64 x' (pos 0)
    then none
    else next

unfoldable pub leading_int : Text → Option (ℤ × Text)
unfolding leading_from
leading_int s = leading_from (pos 0) s

-- The longest text without a digit or a dot in front, and the rest.
unfoldable pub span_unit : Text → Text × Text
unfolding is_digit
span_unit [] = ([], [])
span_unit (c ∷ s) =
    let (u, rest) = span_unit s in if c == b'.' || is_digit c then ([], c ∷ s) else (c ∷ u, rest)

module _ {F : Type 0} ⦃fl : Float F⦄ where
  -- The loop of leadingFraction, with x, the scale and the overflow mark so far.
  unfoldable pub fraction_from : ℤ → F → Bool → Text → ℤ × F × Text
  unfolding is_digit
  fraction_from x scale overflow [] = (x, scale, [])
  fraction_from x scale overflow (c ∷ s) =
      let y = sub64 (add64 (mul64 x (pos 10)) (pos c)) (pos b'0') in
      let past = fraction_from x scale true s in
      let next = fraction_from y (fl.mul scale (float (pos 10))) false s in
      if not (is_digit c)
      then (x, scale, c ∷ s)
      else if overflow
      then past
      else if lt64 tenth x
      then past
      else if lt64 y (pos 0)
      then past
      else next

  unfoldable pub leading_fraction : Text → ℤ × F × Text
  unfolding fraction_from
  leading_fraction s = fraction_from (pos 0) (float (pos 1)) false s

  -- The text after a number, less a dot and a fraction, with the fraction, its scale, and whether
  -- it has digits.
  unfoldable pub fraction_part : Text → ℤ × F × Bool × Text
  unfolding leading_fraction
  fraction_part [] = (pos 0, float (pos 1), false, [])
  fraction_part (c ∷ s) =
      let (f, scale, rest) = leading_fraction s in
      if c == b'.'
      then (f, scale, not (length s == length rest), rest)
      else (pos 0, float (pos 1), false, c ∷ s)

  -- v with the unit and the fraction: none on overflow.
  unfoldable pub scaled : ℤ → ℤ → F → ℤ → Option ℤ
  scaled v f scale unit =
      let v' = mul64 v unit in
      let v'' = add64 v' (fl.to_int (fl.mul (fl.of_int f) (fl.div (fl.of_int unit) scale))) in
      if lt64 (quot64 (pos 9223372036854775807) unit) v
      then none
      else if lt64 (pos 0) f
      then (if lt64 v'' (pos 0) then none else some v'')
      else some v'

-- The rest of the code has no float64 in its results, so that the type is an argument.
module _ (F : Type 0) ⦃fl : Float F⦄ where
  -- One turn of the loop: a number with a unit, added to d, and the rest of the text.
  unfoldable pub parse_term : ℤ → Text → Option (ℤ × Text)
  unfolding leading_int fraction_part span_unit scaled lookup
  parse_term d s = do
    (v, after_int) ← leading_int s
    let pre = not (length s == length after_int)
    let (f, scale, post, after_fraction) = fraction_part {F = F} after_int
    let (u, rest) = span_unit after_fraction
    unit ← if not pre && not post then none else lookup u unit_map
    term ← scaled v f scale unit
    if lt64 (add64 d term) (pos 0) then none else some (add64 d term, rest)

  -- The outer none: out of fuel; the inner one: an error. Each turn consumes a unit, so the length of
  -- the text is enough fuel.
  unfoldable pub parse_terms : ℕ → ℤ → Text → Option (Option ℤ)
  unfolding parse_term
  parse_terms fuel d [] = some (some d)
  parse_terms zero d (c ∷ s) = none
  parse_terms (suc fuel) d (c ∷ s) =
      elim (if c == b'.' || is_digit c then parse_term d (c ∷ s) else none) [
        | none ↦ some none
        | some (d', rest) ↦ parse_terms fuel d' rest
      ]

  -- The text without its sign.
  unfoldable pub parse_unsigned : Text → Option (Option ℤ)
  unfolding parse_terms
  parse_unsigned [] = some none
  parse_unsigned (c ∷ s) =
      if str_eq (c ∷ s) (codes "0")
      then some (some (pos 0))
      else parse_terms (length (c ∷ s)) (pos 0) (c ∷ s)

  unfoldable pub parse_duration : Text → Option (Option ℤ)
  unfolding parse_unsigned
  parse_duration [] = some none
  parse_duration (c ∷ s) =
      if c == b'-'
      then (parse_unsigned s >>= (λ r. some (r >>= (λ d. some (neg64 d)))))
      else if c == b'+'
      then parse_unsigned s
      else parse_unsigned (c ∷ s)
