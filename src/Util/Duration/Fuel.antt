-- ===== src/Util/Duration/Fuel.antt =====
-- ParseDuration consumes some of the text at each turn, so that it ends.
use mathlib.Core.Path.{subst}
use ptool.Base.{
  ◌>>=◌, ap, bind_ind, ℕ, zero, suc, ◌+◌, ◌≤◌, ◌≡◌, refl, inl, inr, Bool, true, false, not, ◌&&◌,
  ◌||◌, ◌==◌, Option, none, some, [], ◌∷◌, length, if◌then◌else◌, if_ind, Option-cases, Bool-cases,
  arith,
}
use ptool.Base.Int.{ℤ, pos}
use ptool.Base.Int64.{neg64, add64, sub64, mul64, lt64}
use ptool.Base.Text.{Text, codes, str_eq}
use ptool.Base.Dict.{lookup}
use ptool.Base.Float.{Float, float}
use ptool.Util.Duration.{
  unit_map, is_digit, leading_from, leading_int, span_unit, fraction_from, leading_fraction,
  fraction_part, parse_term, parse_terms, parse_unsigned, parse_duration, tenth,
}

-- The rest of the text is not longer than the text.
abbrev Shrinks : Text → Option (ℤ × Text) → Type 0
Shrinks s none = Unit
Shrinks s (some (x, rest)) = length rest ≤ length s

Shrinks-longer : (c : ℕ) (s : Text) (o : Option (ℤ × Text)) → Shrinks s o → Shrinks (c ∷ s) o
Shrinks-longer c s none h = tt
Shrinks-longer c s (some (x, rest)) h = omega (arith, h)

leading_from-Shrinks : (x : ℤ) (s : Text) → Shrinks s (leading_from x s)
unfolding leading_from
leading_from-Shrinks x [] = omega arith
leading_from-Shrinks x (c ∷ s) =
    let x' = sub64 (add64 (mul64 x (pos 10)) (pos c)) (pos 48) in
    if_ind (Shrinks (c ∷ s)) (not (is_digit c)) _ _ (λ _. omega arith)
      (λ _.
        if_ind (Shrinks (c ∷ s)) (lt64 tenth x) _ _ (λ _. tt)
          (λ _.
            if_ind (Shrinks (c ∷ s)) (lt64 x' (pos 0)) _ _ (λ _. tt)
              (λ _. Shrinks-longer c s _ (leading_from-Shrinks x' s))))

span_unit-length : (s : Text) → length (span_unit s).0 + length (span_unit s).1 ≡ length s
unfolding span_unit
span_unit-length [] = refl
span_unit-length (c ∷ s) = ground (arith, span_unit-length s)

module _ {F : Type 0} ⦃fl : Float F⦄ where
  fraction_from-length :
      (x : ℤ) (scale : F) (overflow : Bool) (s : Text)
      → length (fraction_from x scale overflow s).2 ≤ length s
  unfolding fraction_from
  fraction_from-length x scale overflow [] = omega arith
  fraction_from-length x scale overflow (c ∷ s) =
      let y = sub64 (add64 (mul64 x (pos 10)) (pos c)) (pos 48) in
      let past = fraction_from-length x scale true s in
      let P : ℤ × F × Text → Type 0 = λ r. length r.2 ≤ length (c ∷ s) in
      if_ind P (not (is_digit c)) _ _ (λ _. omega arith)
        (λ _.
          if_ind P overflow _ _ (λ _. omega (arith, past))
            (λ _.
              if_ind P (lt64 tenth x) _ _ (λ _. omega (arith, past))
                (λ _.
                  if_ind P (lt64 y (pos 0)) _ _ (λ _. omega (arith, past))
                    (λ _.
                      omega
                        (arith, fraction_from-length y (fl.mul scale (float (pos 10))) false s)))))

unit_length :
    (b : Bool) (u : Text) (unit : ℤ)
    → (if b then none else lookup u unit_map) ≡ some unit
    → 1 ≤ length u
unfolding lookup str_eq
unit_length true u unit e = cc
unit_length false [] unit e = cc
unit_length false (c ∷ u) unit e = omega arith

module _ (F : Type 0) ⦃fl : Float F⦄ where
  fraction_part-length : (s : Text) → length (fraction_part {F = F} s).3 ≤ length s
  unfolding fraction_part leading_fraction
  fraction_part-length [] = omega arith
  fraction_part-length (c ∷ s) =
      if_ind (λ (r : ℤ × F × Bool × Text). length r.3 ≤ length (c ∷ s)) (c == 46) _ _
        (λ _. omega (arith, fraction_from-length (pos 0) (float (pos 1)) false s))
        (λ _. omega arith)

  -- A turn of the loop consumes at least a unit.
  abbrev Consumes : Text → Option (ℤ × Text) → Type 0
  Consumes s none = Unit
  Consumes s (some (x, rest)) = suc (length rest) ≤ length s

  parse_term-Consumes : (d : ℤ) (s : Text) → Consumes s (parse_term F d s)
  unfolding parse_term leading_int
  parse_term-Consumes d s = bind_ind (Consumes s) (leading_from (pos 0) s) _ tt (λ first is_int.
      bind_ind (Consumes s) _ _ tt (λ unit is_unit. bind_ind (Consumes s) _ _ tt (λ term _.
        if_ind (Consumes s) (lt64 (add64 d term) (pos 0)) none
          (some (add64 d term, (span_unit (fraction_part {F = F} first.1).3).1)) (λ _. tt)
          (λ _.
            let shrinks : Shrinks s (some first) =
              subst (Shrinks s) is_int (leading_from-Shrinks (pos 0) s) in
            omega (
              arith,
              shrinks,
              fraction_part-length first.1,
              span_unit-length (fraction_part {F = F} first.1).3,
              unit_length
                  (not (not (length s == length first.1)) && not (fraction_part {F = F} first.1).2)
                  (span_unit (fraction_part {F = F} first.1).3).0 unit is_unit,
            )))))

  Ends : Option (Option ℤ) → Type 0
  Ends o = (r : Option ℤ) × (o ≡ some r)

  parse_terms-Ends : (fuel : ℕ) (d : ℤ) (s : Text) → length s ≤ fuel → Ends (parse_terms F fuel d s)
  unfolding parse_terms Ends
  parse_terms-Ends fuel d [] h = (some d, refl)
  parse_terms-Ends zero d (c ∷ s) h = ground (arith, h)
  parse_terms-Ends (suc fuel) d (c ∷ s) h = elim (Bool-cases (c == 46 || is_digit c)) [
    | inr e ↦ rw (e, parse_terms) (none, refl)
    | inl e ↦ elim (Option-cases (parse_term F d (c ∷ s))) [
      | inl f ↦ rw (e, f, parse_terms) (none, refl)
      | inr ((d', rest), f) ↦
          let less : Consumes (c ∷ s) (some (d', rest)) =
            subst (Consumes (c ∷ s)) f (parse_term-Consumes d (c ∷ s)) in
          rw (e, f, parse_terms) (parse_terms-Ends fuel d' rest (omega (arith, less, h)))
    ]
  ]

  parse_unsigned-Ends : (s : Text) → Ends (parse_unsigned F s)
  unfolding parse_unsigned Ends
  parse_unsigned-Ends [] = (none, refl)
  parse_unsigned-Ends (c ∷ s) =
      if_ind Ends (str_eq (c ∷ s) (codes "0")) _ _ (λ _. (some (pos 0), refl))
        (λ _. parse_terms-Ends (length (c ∷ s)) (pos 0) (c ∷ s) (omega arith))

  -- ParseDuration ends on each text, with a duration or an error: its loop does not run out of the
  -- fuel, which is the length of the text.
  pub parse_duration_ends : (s : Text) → (r : Option ℤ) × (parse_duration F s ≡ some r)
  unfolding parse_duration Ends
  parse_duration_ends [] = (none, refl)
  parse_duration_ends (c ∷ s) =
      if_ind Ends (c == 45) _ _
        (λ _.
          let (r, e) = parse_unsigned-Ends s in
          (
            r >>= (λ d. some (neg64 d)),
            ap (λ o. o >>= (λ r. some (r >>= (λ d. some (neg64 d))))) e,
          ))
        (λ _.
          if_ind Ends (c == 43) _ _ (λ _. parse_unsigned-Ends s) (λ _. parse_unsigned-Ends (c ∷ s)))
