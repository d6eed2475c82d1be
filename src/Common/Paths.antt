-- ===== src/Common/Paths.antt =====
-- PathMapper of cmd/common/common.go: the paths of one system as those of another.
pub mod Longest
pub mod Rules
use ptool.Base.{
  ◌>>=◌, ℕ, ◌+◌, Bool, true, false, not, ◌&&◌, ◌||◌, Option, none, some, List, [], ◌∷◌, ◌++◌,
  if◌then◌else◌, ◌==◌, ltb, length, is_nil,
}
use ptool.Base.Text.{cut, Text, codes, str_eq, has_prefix, contains, drop}
use ptool.Base.Dict.{get_or, insert}
use ptool.Base.Sort.{stable_sort}
use ptool.Util.Strings.{to_slash, trim_prefix}

-- `mapper` maps each path before to the path after.
pub record PathMapper : Type 0 where
  pub mapper : List (Text × Text)
  pub befores : List Text

-- slices.SortFunc by length, the longest first. It leaves the order of equal lengths open.
unfoldable pub is_longer : Text → Text → Bool
is_longer a b = ltb (length b) (length a)

-- path.Clean is a parameter.
module _ (clean : Text → Text) where
  -- The test of one rule before: "/" is a prefix of each absolute path.
  unfoldable pub lies_under : Text → Text → Bool
  lies_under path root =
      if str_eq root (codes "/") then has_prefix path root else has_prefix path (root ++ codes "/")

  unfoldable pub map_first : PathMapper → Text → List Text → Text × Bool
  unfolding lies_under trim_prefix get_or
  map_first spm path [] = (path, false)
  map_first spm path (before ∷ befores) =
      let next = map_first spm path befores in
      if lies_under path before
      then (get_or before spm.mapper [] ++ trim_prefix path before, true)
      else next

  unfoldable pub before2after : PathMapper → Text → Text × Bool
  unfolding map_first to_slash
  before2after spm before_path = map_first spm (clean (to_slash before_path)) spm.befores

  unfoldable pub unmap_first : PathMapper → Text → List Text → Text × Bool
  unfolding lies_under trim_prefix get_or
  unmap_first spm path [] = (path, false)
  unmap_first spm path (before ∷ befores) =
      let next = unmap_first spm path befores in
      let after = get_or before spm.mapper [] in
      if lies_under path after then (before ++ trim_prefix path after, true) else next

  unfoldable pub after2before : PathMapper → Text → Text × Bool
  unfolding unmap_first to_slash
  after2before spm after_path = unmap_first spm (clean (to_slash after_path)) spm.befores

  -- One rule: "before|after", or "before:after" where there is neither "|" nor ":\".
  unfoldable pub parse_rule : Text → Option (Text × Text)
  unfolding cut contains to_slash
  parse_rule rule =
      let colon = not (contains rule (codes "|")) && not (contains rule (codes ":\\")) in
      elim (cut (if colon then b':' else b'|') rule) [
        | none ↦ none
        | some (before, after) ↦
            if is_nil before || is_nil after
            then none
            else some (clean (to_slash before), clean (to_slash after))
      ]

  unfoldable pub parse_rules : List Text → PathMapper → Option PathMapper
  unfolding parse_rule insert
  parse_rules [] pm = some pm
  parse_rules (rule ∷ rules) pm = do
    (before, after) ← parse_rule rule
    parse_rules rules
        (record { mapper = insert before after pm.mapper; befores = pm.befores ++ before ∷ [] })

  unfoldable pub new_path_mapper : List Text → Option PathMapper
  unfolding parse_rules is_longer stable_sort
  new_path_mapper rules = do
    pm ← parse_rules rules (record { mapper = []; befores = [] })
    some (record pm { befores = stable_sort is_longer pm.befores })
