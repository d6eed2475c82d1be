-- ===== src/Util/Csv.antt =====
-- SplitCsv of util/util.go: the fields between the matches of the regular expression \s*,\s*.
use ptool.Base.{ℕ, Bool, true, false, ◌&&◌, ◌||◌, List, [], ◌∷◌, if◌then◌else◌, ◌==◌}
use ptool.Base.Text.{Text}

-- \s of the regular expression: tab, newline, form feed, carriage return, space.
is_space : ℕ → Bool
is_space c = c == 9 || (c == 10 || (c == 12 || (c == 13 || c == 32)))

trim_left : Text → Text
unfolding is_space
trim_left [] = []
trim_left (c ∷ s) = if is_space c then trim_left s else c ∷ s

is_empty : Text → Bool
is_empty [] = true
is_empty _ = false

trim_right : Text → Text
unfolding is_space is_empty
trim_right [] = []
trim_right (c ∷ s) = if is_space c && is_empty (trim_right s) then [] else c ∷ trim_right s

-- The text before the first comma, and the fields after it.
split_comma : Text → Text × List Text
split_comma [] = ([], [])
split_comma (c ∷ s) = let (f, fs) = split_comma s in if c == b',' then ([], f ∷ fs) else (c ∷ f, fs)

-- A match takes the spaces on both sides of its comma.
trim_fields : Text → List Text → List Text
unfolding trim_left trim_right
trim_fields f [] = f ∷ []
trim_fields f (g ∷ gs) = trim_right f ∷ trim_fields (trim_left g) gs

-- The regular expression's Split.
split_fields : Text → List Text
unfolding split_comma trim_fields
split_fields s = trim_fields (split_comma s).0 (split_comma s).1

unfoldable pub split_csv : Text → List Text
unfolding split_fields
split_csv [] = []
split_csv (c ∷ s) = split_fields (c ∷ s)
