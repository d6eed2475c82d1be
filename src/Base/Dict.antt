-- ===== src/Base/Dict.antt =====
-- Go's map[string]V as an association list: at most the first entry of a key counts.
use mathlib.Core.Path.{◌≡◌, refl}
use mathlib.Core.Option.{Option, none, some}
use mathlib.Core.List.{List, [], ◌∷◌}
use native.Mathlib.Omega.{arith}
use ptool.Base.Tests.{if◌then◌else◌}
use ptool.Base.Text.{Text, str_eq, str_eq_iff}

module _ {ℓ} {V : Type ℓ} where
  unfoldable pub lookup : Text → List (Text × V) → Option V
  lookup k [] = none
  lookup k ((j, v) ∷ m) = if str_eq j k then some v else lookup k m

  -- m[k], with the value that a missing key reads as.
  unfoldable pub get_or : Text → List (Text × V) → V → V
  get_or k [] d = d
  get_or k ((j, v) ∷ m) d = if str_eq j k then v else get_or k m d

  unfoldable pub insert : Text → V → List (Text × V) → List (Text × V)
  insert k v [] = (k, v) ∷ []
  insert k v ((j, w) ∷ m) = if str_eq j k then (k, v) ∷ m else (j, w) ∷ insert k v m

  -- delete(m, k)
  unfoldable pub delete : Text → List (Text × V) → List (Text × V)
  delete k [] = []
  delete k ((j, w) ∷ m) = let rest = delete k m in if str_eq j k then rest else (j, w) ∷ rest

  pub lookup-insert :
      (k j : Text) (v : V) (m : List (Text × V))
      → lookup j (insert k v m) ≡ (if str_eq k j then some v else lookup j m)
  unfolding lookup insert
  lookup-insert k j v [] = refl
  lookup-insert k j v ((i, w) ∷ m) =
      ground (arith, str_eq_iff k j, str_eq_iff i k, str_eq_iff i j, lookup-insert k j v m)

  pub get_or-insert :
      (k j : Text) (v d : V) (m : List (Text × V))
      → get_or j (insert k v m) d ≡ (if str_eq k j then v else get_or j m d)
  unfolding get_or insert
  get_or-insert k j v d [] = refl
  get_or-insert k j v d ((i, w) ∷ m) =
      ground (arith, str_eq_iff k j, str_eq_iff i k, str_eq_iff i j, get_or-insert k j v d m)

  pub get_or-delete :
      (k j : Text) (d : V) (m : List (Text × V))
      → get_or j (delete k m) d ≡ (if str_eq k j then d else get_or j m d)
  unfolding get_or delete
  get_or-delete k j d [] = ground arith
  get_or-delete k j d ((i, w) ∷ m) =
      ground (arith, str_eq_iff k j, str_eq_iff i k, str_eq_iff i j, get_or-delete k j d m)
