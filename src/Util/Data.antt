-- ===== src/Util/Data.antt =====
-- util/data.go and the generic helpers of util/util.go: slices.
pub mod Unique
use ptool.Base.{Bool, not, Option, none, some, List, [], ◌∷◌, if◌then◌else◌, any}
use ptool.Base.Int.{ℤ, pos}
use ptool.Base.Int64.{eq64}
use ptool.Base.Text.{Text, str_eq}

module _ {ℓ} {A : Type ℓ} where
  unfoldable pub filter : List A → (A → Bool) → List A
  filter [] test = []
  filter (s ∷ ss) test = let rest = filter ss test in if test s then s ∷ rest else rest

  unfoldable pub filter_not : List A → (A → Bool) → List A
  filter_not [] test = []
  filter_not (s ∷ ss) test =
      let rest = filter_not ss test in if not (test s) then s ∷ rest else rest

  unfoldable pub find_in_slice : List A → (A → Bool) → Option A
  find_in_slice [] checker = none
  find_in_slice (s ∷ ss) checker = if checker s then some s else find_in_slice ss checker

module _ {ℓ κ} {A : Type ℓ} {B : Type κ} where
  -- Map
  unfoldable pub map_slice : List A → (A → B) → List B
  map_slice [] mapper = []
  map_slice (s ∷ ss) mapper = mapper s ∷ map_slice ss mapper

-- UniqueSlice at strings. `keys` is the map of the entries seen.
unfoldable pub unique_from : List Text → List Text → List Text
unique_from keys [] = []
unique_from keys (entry ∷ slice) =
    let old = unique_from keys slice in
    let new = entry ∷ unique_from (entry ∷ keys) slice in
    if any (str_eq entry) keys then old else new

unfoldable pub unique_slice : List Text → List Text
unfolding unique_from any
unique_slice slice = unique_from [] slice

module _ {ℓ} {A : Type ℓ} (key_func : A → Text) where
  unique_fn_from : List Text → List A → List A
  unique_fn_from keys [] = []
  unique_fn_from keys (entry ∷ slice) =
      let old = unique_fn_from keys slice in
      let new = entry ∷ unique_fn_from (key_func entry ∷ keys) slice in
      if any (str_eq (key_func entry)) keys then old else new

  unfoldable pub unique_slice_fn : List A → List A
  unfolding unique_fn_from any
  unique_slice_fn slice = unique_fn_from [] slice

-- util.FirstNonZeroIntegerArg
unfoldable pub first_non_zero : List ℤ → ℤ
first_non_zero [] = pos 0
first_non_zero (t ∷ args) = if not (eq64 t (pos 0)) then t else first_non_zero args
