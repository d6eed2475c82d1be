-- ===== src/Common/Paths/Longest.antt =====
-- PathMapper maps a path by the first, so the longest, of its sorted paths before.
use mathlib.Core.List.{Memᴰ}
use ptool.Base.{
  ◌≤◌, ◌≡◌, refl, Bool, true, false, List, [], ◌∷◌, ◌++◌, if_ind, ltb, length, All, All-mono, arith,
}
use ptool.Base.Text.{Text, codes, str_eq, has_prefix, drop}
use ptool.Base.Dict.{get_or}
use ptool.Base.Sort.{insert_sorted, stable_sort, insert_sorted-All}
use ptool.Util.Strings.{trim_prefix}
use ptool.Common.Paths.{PathMapper, is_longer, lies_under, map_first}

pub has_prefix-drop : (s p : Text) → has_prefix s p ≡ true → s ≡ p ++ drop (length p) s
unfolding has_prefix drop
has_prefix-drop s [] h = refl
has_prefix-drop [] (b ∷ p) h = cc
has_prefix-drop (a ∷ s) (b ∷ p) h = ground (arith, has_prefix-drop s p)

has_prefix-left : (s p q : Text) → has_prefix s (p ++ q) ≡ true → has_prefix s p ≡ true
unfolding has_prefix
has_prefix-left s [] q h = refl
has_prefix-left [] (b ∷ p) q h = cc
has_prefix-left (a ∷ s) (b ∷ p) q h = ground (arith, has_prefix-left s p q)

-- No text is longer than one before it.
abbrev pub Descending : List Text → Type 0
Descending [] = Unit
Descending (a ∷ bs) = All (λ b. length b ≤ length a) bs × Descending bs

insert_sorted-Descending :
    (a : Text) (bs : List Text) → Descending bs → Descending (insert_sorted is_longer a bs)
unfolding insert_sorted is_longer
insert_sorted-Descending a [] h = (tt, tt)
insert_sorted-Descending a (b ∷ bs) h =
    if_ind Descending (ltb (length a) (length b)) _ _
      (λ e. (
        insert_sorted-All is_longer (λ c. length c ≤ length b) a bs (ground arith) h.0,
        insert_sorted-Descending a bs h.1,
      ))
      (λ e. (
        (
          ground arith,
          All-mono (λ c. length c ≤ length b) (λ c. length c ≤ length a) bs (λ c k. ground arith)
              h.0,
        ),
        h,
      ))

pub stable_sort-Descending : (bs : List Text) → Descending (stable_sort is_longer bs)
unfolding stable_sort
stable_sort-Descending [] = tt
stable_sort-Descending (a ∷ bs) = insert_sorted-Descending a _ (stable_sort-Descending bs)

module _ (clean : Text → Text) where
  -- The path before is a prefix, which the path after replaces, and no other rule above the
  -- path is longer; or no rule lies above the path, which stays.
  abbrev pub MapsBy : PathMapper → Text → List Text → Text × Bool → Type 0
  MapsBy spm path befores (result, true) =
      (before : Text) × (rest : Text) × Memᴰ before befores
      × (lies_under clean path before ≡ true)
      × (path ≡ before ++ rest)
      × (result ≡ get_or before spm.mapper [] ++ rest)
      × All (λ other. lies_under clean path other ≡ true → length other ≤ length before) befores
  MapsBy spm path befores (result, false) =
      (result ≡ path) × All (λ other. lies_under clean path other ≡ false) befores

  lies_under-prefix :
      (path root : Text) → lies_under clean path root ≡ true → has_prefix path root ≡ true
  unfolding lies_under
  lies_under-prefix path root =
      if_ind (λ (b : Bool). b ≡ true → has_prefix path root ≡ true) (str_eq root (codes "/")) _ _
        (λ _ h. h) (λ _ h. has_prefix-left path root (codes "/") h)

  MapsBy-later :
      (spm : PathMapper) (path before : Text) (befores : List Text) (r : Text × Bool)
      → lies_under clean path before ≡ false
      → MapsBy spm path befores r
      → MapsBy spm path (before ∷ befores) r
  MapsBy-later spm path before befores (result, true) off (b, rest, m, on, split, e, longest) =
      (b, rest, Memᴰ.tail m, on, split, e, ((λ on'. cc), longest))
  MapsBy-later spm path before befores (result, false) off (e, none_above) = (e, (off, none_above))

  pub map_first-MapsBy :
      (spm : PathMapper) (path : Text) (befores : List Text)
      → Descending befores
      → MapsBy spm path befores (map_first clean spm path befores)
  unfolding map_first trim_prefix
  map_first-MapsBy spm path [] h = (refl, tt)
  map_first-MapsBy spm path (before ∷ befores) h =
      if_ind (MapsBy spm path (before ∷ befores)) (lies_under clean path before) _ _
        (λ e.
          let p = lies_under-prefix path before e in
          (
            before,
            drop (length before) path,
            Memᴰ.head refl,
            e,
            has_prefix-drop path before p,
            rw p refl,
            (
              (λ _. omega arith),
              All-mono (λ b. length b ≤ length before)
                  (λ b. lies_under clean path b ≡ true → length b ≤ length before) befores
                  (λ b k _. k) h.0,
            ),
          ))
        (λ e. MapsBy-later spm path before befores _ e (map_first-MapsBy spm path befores h.1))
