-- ===== src/Util/Strings/Ints.antt =====
-- ParseInt of util/string.go reads what fmt.Sprint prints.
use mathlib.Core.List.{append-nil}
use ptool.Base.{◌+◌, false, List, [], ◌∷◌, ◌++◌, ◌≡◌, refl, sym, ◌∙◌, ap, any, arith, ◌==◌}
use ptool.Base.Int.{ℤ, pos, negsuc}
use ptool.Base.Int64.{InRange64}
use ptool.Base.Text.{Text}
use ptool.Base.Fields.{IsField, join}
use ptool.Base.Decimal.{
  sprint, digits, is_digit, any-digits, parse_int_value, parse_int_value-sprint,
}
use ptool.Util.Strings.{without_commas, parse_int}

without_commas-free : (s : Text) → any (λ c. c == 44) s ≡ false → without_commas s ≡ s
unfolding without_commas any
without_commas-free [] h = refl
without_commas-free (c ∷ s) h = ground (arith, without_commas-free s)

without_commas-append :
    (s t : Text) → without_commas (s ++ t) ≡ without_commas s ++ without_commas t
unfolding without_commas
without_commas-append [] t = refl
without_commas-append (c ∷ s) t = ground (arith, without_commas-append s t)

without_commas-sprint : (a : ℤ) → without_commas (sprint a) ≡ sprint a
unfolding sprint is_digit any
without_commas-sprint (pos n) = without_commas-free (digits 19 n) (any-digits 44 19 n refl)
without_commas-sprint (negsuc n) =
    without_commas-free (45 ∷ digits 19 (n + 1)) (any-digits 44 19 (n + 1) refl)

-- The texts one after the other, with nothing between them.
abbrev pub concat : List Text → Text
concat [] = []
concat (field ∷ fields) = field ++ concat fields

without_commas-join :
    (fields : List Text) → without_commas (join 44 fields) ≡ without_commas (concat fields)
unfolding join without_commas
without_commas-join [] = refl
without_commas-join (field ∷ []) = ap without_commas (sym (append-nil field))
without_commas-join (field ∷ next ∷ fields) =
    without_commas-append field (44 ∷ join 44 (next ∷ fields))
    ∙ ap (λ t. without_commas field ++ t) (without_commas-join (next ∷ fields))
    ∙ sym (without_commas-append field (concat (next ∷ fields)))

-- ParseInt gives an int64 from its decimal text, with commas at any places and other text before and
-- after it, if TrimSpace takes off what stands before and after the text without commas.
pub parse_int-sprint :
    (trim_space : Text → Text) (a : ℤ) (lead trail : Text) (fields : List Text)
    → InRange64 a
    → IsField 44 lead
    → IsField 44 trail
    → concat fields ≡ sprint a
    → trim_space (lead ++ sprint a ++ trail) ≡ sprint a
    → parse_int trim_space (lead ++ join 44 fields ++ trail) ≡ a
unfolding parse_int
parse_int-sprint trim_space a lead trail fields h no_lead no_trail whole trimmed =
    let number : without_commas (join 44 fields) ≡ sprint a =
      without_commas-join fields ∙ ap without_commas whole ∙ without_commas-sprint a in
    let bare : without_commas (lead ++ join 44 fields ++ trail) ≡ lead ++ sprint a ++ trail =
      rw
        (
          without_commas-append,
          without_commas-append,
          number,
          without_commas-free lead no_lead,
          without_commas-free trail no_trail,
        )
        refl in
    ap (λ s. parse_int_value (trim_space s)) bare
    ∙ ap parse_int_value trimmed
    ∙ parse_int_value-sprint a h
