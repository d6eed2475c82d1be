-- ===== src/Base/Fields.antt =====
-- Go's strings.Split and strings.Join with a separator of one byte.
use Prim.Native.Nat.{ℕ}
use mathlib.Core.Path.{◌≡◌, refl, ◌∙◌, ap}
use mathlib.Core.Logic.{inl, inr}
use mathlib.Core.Bool.{false}
use mathlib.Core.List.{List, [], ◌∷◌, ◌++◌}
use native.Mathlib.Omega.{arith}
use ptool.Base.Tests.{◌==◌, if◌then◌else◌, Bool-cases}
use ptool.Base.Lists.{All, any}
use ptool.Base.Text.{Text}

abbrev put_first : ℕ → List Text → List Text
put_first c [] = (c ∷ []) ∷ []
put_first c (field ∷ fields) = (c ∷ field) ∷ fields

unfoldable pub split : ℕ → Text → List Text
split sep [] = [] ∷ []
split sep (c ∷ s) = let fields = split sep s in if c == sep then [] ∷ fields else put_first c fields

unfoldable pub join : ℕ → List Text → Text
join sep [] = []
join sep (field ∷ []) = field
join sep (field ∷ next ∷ fields) = field ++ sep ∷ join sep (next ∷ fields)

-- The field does not have the separator.
abbrev pub IsField : ℕ → Text → Type 0
IsField sep field = any (λ c. c == sep) field ≡ false

free :
    (c : ℕ) (field : Text) (sep : ℕ)
    → IsField sep (c ∷ field)
    → ((c == sep) ≡ false) × IsField sep field
unfolding any
free c field sep h = (ground arith, ground arith)

split-append :
    (sep : ℕ) (field rest : Text)
    → IsField sep field
    → split sep (field ++ sep ∷ rest) ≡ field ∷ split sep rest
unfolding split any
split-append sep [] rest h = ground arith
split-append sep (c ∷ field) rest h =
    rw ((free c field sep h).0, split-append sep field rest (free c field sep h).1) refl

split_one : (sep : ℕ) (field : Text) → IsField sep field → split sep field ≡ field ∷ []
unfolding split any
split_one sep [] h = refl
split_one sep (c ∷ field) h =
    rw ((free c field sep h).0, split_one sep field (free c field sep h).1) refl

-- Split finds the fields that were joined.
pub split-join :
    (sep : ℕ) (field : Text) (fields : List Text)
    → All (IsField sep) (field ∷ fields)
    → split sep (join sep (field ∷ fields)) ≡ field ∷ fields
unfolding join
split-join sep field [] h = split_one sep field h.0
split-join sep field (next ∷ fields) h =
    split-append sep field (join sep (next ∷ fields)) h.0
    ∙ ap (λ fs. field ∷ fs) (split-join sep next fields h.1)

put_first-IsField :
    (sep c : ℕ) (fields : List Text)
    → (c == sep) ≡ false
    → All (IsField sep) fields
    → All (IsField sep) (put_first c fields)
unfolding any
put_first-IsField sep c [] e h = (ground arith, tt)
put_first-IsField sep c (field ∷ fields) e h = (ground (arith, h.0), h.1)

pub split-IsField : (sep : ℕ) (s : Text) → All (IsField sep) (split sep s)
unfolding split any
split-IsField sep [] = (refl, tt)
split-IsField sep (c ∷ s) = elim (Bool-cases (c == sep)) [
  | inl e ↦ rw e (refl, split-IsField sep s)
  | inr e ↦ rw e (put_first-IsField sep c (split sep s) e (split-IsField sep s))
]
