-- ===== src/Common/Paths/Rules.antt =====
-- PathMapper, made by NewPathMapper, follows the rules that are given.
use mathlib.Core.List.{Memᴰ}
use ptool.Base.{
  ℕ, ◌≤◌, ◌||◌, ◌≡◌, Bool, true, false, List, [], ◌∷◌, ◌++◌, if◌then◌else◌, is_nil, length, All,
  map,
}
use ptool.Base.Text.{Text, codes, str_eq, contains}
use ptool.Base.Dict.{insert}
use ptool.Base.Fields.{IsField}
use ptool.Util.Strings.{to_slash}
use ptool.Common.Paths.{PathMapper}

-- The rule is the text before, a separator and the text after. The separator is "|" where the rule
-- has one, or has ":\"; else it is ":". The text before is without it, and neither text is empty.
abbrev pub IsRule : Text → Text × Text → Type 0
IsRule rule (before, after) =
    (sep : ℕ) × (sep
      ≡ (if contains rule (codes "|") || contains rule (codes ":\\") then b'|' else b':'))
    × IsField sep before
    × (rule ≡ before ++ sep ∷ after)
    × (is_nil before ≡ false)
    × (is_nil after ≡ false)

abbrev pub AreRules : List Text → List (Text × Text) → Type 0
AreRules [] [] = Unit
AreRules (rule ∷ rules) (pair ∷ pairs) = IsRule rule pair × AreRules rules pairs
AreRules _ _ = ⊥

-- The text after of the last pair with this text before.
abbrev pub last_or : Text → List (Text × Text) → Text → Text
last_or k [] d = d
last_or k ((before, after) ∷ pairs) d = last_or k pairs (if str_eq before k then after else d)

-- The path is the root, a slash and more; for the root "/", a slash and more.
abbrev pub IsAbove : Text → Text → Type 0
IsAbove path root =
    (rest : Text) × (path
      ≡ (if str_eq root (codes "/") then codes "/" else root ++ codes "/") ++ rest)

abbrev put_all : List (Text × Text) → PathMapper → PathMapper
put_all [] pm = pm
put_all ((before, after) ∷ pairs) pm =
    put_all pairs
      (record { mapper = insert before after pm.mapper; befores = pm.befores ++ before ∷ [] })

module _ (clean : Text → Text) where
  abbrev pub cleaned : List (Text × Text) → List (Text × Text)
  cleaned pairs = map (λ p. (clean (to_slash p.0), clean (to_slash p.1))) pairs

  -- The path before of a pair is a prefix, which the path after of the last such pair replaces, and no
  -- other pair above the path has a longer one; or no pair lies above the path, which stays.
  abbrev pub MapsLongest : List (Text × Text) → Text → Text × Bool → Type 0
  MapsLongest pairs path (result, true) =
      (before : Text) × (rest : Text) × Memᴰ before (map (λ p. p.0) pairs)
      × IsAbove path before
      × (path ≡ before ++ rest)
      × (result ≡ last_or before pairs [] ++ rest)
      × All (λ other. IsAbove path other → length other ≤ length before) (map (λ p. p.0) pairs)
  MapsLongest pairs path (result, false) =
      (result ≡ path) × All (λ other. ¬ IsAbove path other) (map (λ p. p.0) pairs)
