-- ===== src/Locator/Uses.antt =====
-- The first loop of update: how many located links have a file.
use ptool.Base.{
  ℕ, ◌+◌, ◌≤◌, ◌<◌, Bool, true, false, ◌&&◌, Option, none, some, List, [], ◌∷◌, any, if◌then◌else◌,
  length, map, ◌≡◌, refl, ap, ◌∙◌, inl, inr, Bool-cases, Option-cases, All, arith,
}
use ptool.Base.Int.{ℤ, pos}
use ptool.Base.Int64.{add64, lt64}
use ptool.Base.Int64.Exact.{add64_pos}
use ptool.Base.Text.{Text, str_eq, str_eq_iff, str_eq_refl}
use ptool.Base.Dict.{get_or, insert, get_or-insert}
use ptool.Util.Data.Unique.{contains_entry, NoRepeat}
use ptool.Locator.{FsFile, FileLink, is_located, linked_file, count_use, count_uses, is_used_twice}
use ptool.Locator.Settled.{is_settled}

abbrev has_path : Text → Option FsFile → Bool
has_path p none = false
has_path p (some f) = str_eq f.path p

-- How many located links have a file with the path.
abbrev pub uses : Text → List FileLink → ℕ
uses p [] = 0
uses p (link ∷ links) =
    (if is_located link && has_path p (linked_file link) then 1 else 0) + uses p links

count_insert :
    (p path : Text) (counts : List (Text × ℤ)) (k : ℕ)
    → k + 1 < 9223372036854775808
    → get_or p counts (pos 0) ≡ pos k
    → get_or p (insert path (add64 (get_or path counts (pos 0)) (pos 1)) counts) (pos 0)
      ≡ pos ((if str_eq path p then 1 else 0) + k)
count_insert p path counts k h e = elim (Bool-cases (str_eq path p)) [
  | inl q ↦
      let same : path ≡ p = (str_eq_iff path p).0 q in
      rw
        (
          get_or-insert path p (add64 (get_or path counts (pos 0)) (pos 1)) (pos 0) counts,
          q,
          same,
          e,
          add64_pos k 1 h,
        )
        (ap pos (omega arith))
  | inr q ↦
      rw (get_or-insert path p (add64 (get_or path counts (pos 0)) (pos 1)) (pos 0) counts, q)
        (e ∙ ap pos (omega arith))
]

count_use_one :
    (p : Text) (link : FileLink) (counts : List (Text × ℤ)) (k : ℕ)
    → k + 1 < 9223372036854775808
    → get_or p counts (pos 0) ≡ pos k
    → get_or p (count_use link counts) (pos 0)
      ≡ pos ((if is_located link && has_path p (linked_file link) then 1 else 0) + k)
unfolding count_use
count_use_one p link counts k h e = elim (Bool-cases (is_located link)) [
  | inr l ↦ rw (count_use, l) (e ∙ ap pos (omega arith))
  | inl l ↦ elim (Option-cases (linked_file link)) [
    | inl f ↦ rw (count_use, l, f) (e ∙ ap pos (omega arith))
    | inr (file, f) ↦ rw (count_use, l, f) (count_insert p file.path counts k h e)
  ]
]

count_uses-uses :
    (p : Text) (links : List FileLink) (counts : List (Text × ℤ)) (k : ℕ)
    → k + length links < 9223372036854775808
    → get_or p counts (pos 0) ≡ pos k
    → get_or p (count_uses links counts) (pos 0) ≡ pos (uses p links + k)
unfolding count_uses
count_uses-uses p [] counts k h e = e ∙ ap pos (omega arith)
count_uses-uses p (link ∷ links) counts k h e =
    let one : ℕ = if is_located link && has_path p (linked_file link) then 1 else 0 in
    count_uses-uses p links (count_use link counts) (one + k) (ground arith)
      (count_use_one p link counts k (omega arith) e)
    ∙ ap pos (omega arith)

-- The files of the links.
abbrev pub chosen : List FileLink → List FsFile
chosen [] = []
chosen (link ∷ links) = elim (linked_file link) [ none ↦ chosen links | some f ↦ f ∷ chosen links ]

abbrev pub IsUsedOnce : List FileLink → FileLink → Type 0
IsUsedOnce all link =
    (is_located link ≡ true) × ((f : FsFile) → linked_file link ≡ some f → uses f.path all ≤ 1)

chosen_skip :
    (link : FileLink) (links : List FileLink)
    → linked_file link ≡ none
    → chosen (link ∷ links) ≡ chosen links
chosen_skip link links f = rw (chosen, f) refl

pub chosen_more :
    (link : FileLink) (links : List FileLink) (file : FsFile)
    → linked_file link ≡ some file
    → chosen (link ∷ links) ≡ file ∷ chosen links
chosen_more link links file f = rw (chosen, f) refl

entry_used :
    (p : Text) (all links : List FileLink)
    → All (IsUsedOnce all) links
    → contains_entry p (map (λ f. f.path) (chosen links)) ≡ true
    → 1 ≤ uses p links
unfolding any
entry_used p all [] h e = ground arith
entry_used p all (link ∷ links) h e = elim (Option-cases (linked_file link)) [
  | inl f ↦
      let e' : contains_entry p (map (λ f. f.path) (chosen links)) ≡ true =
        rw (chosen_skip link links f) at e in
      omega (arith, entry_used p all links h.1 e')
  | inr (file, f) ↦
      let e' : contains_entry p (file.path ∷ map (λ f. f.path) (chosen links)) ≡ true =
        rw (chosen_more link links file f) at e in
      rw (f, h.0.0)
        (ground (arith, str_eq_iff p file.path, str_eq_iff file.path p, entry_used p all links h.1))
]

used_again : (a b c : ℕ) → 1 ≤ a → b ≡ 1 + a → b ≤ c → c ≤ 1 → ⊥
used_again a b c h e l k = omega arith

-- Links that are used once have different paths.
pub chosen-NoRepeat :
    (all links : List FileLink)
    → All (IsUsedOnce all) links
    → ((p : Text) → uses p links ≤ uses p all)
    → NoRepeat (map (λ f. f.path) (chosen links))
chosen-NoRepeat all [] h less = tt
chosen-NoRepeat all (link ∷ links) h less = elim (Option-cases (linked_file link)) [
  | inl f ↦
      rw (chosen_skip link links f) (chosen-NoRepeat all links h.1 (λ p. omega (arith, less p)))
  | inr (file, f) ↦
      let once = h.0.1 file f in
      let fresh : contains_entry file.path (map (λ f. f.path) (chosen links)) ≡ false =
        elim (Bool-cases (contains_entry file.path (map (λ f. f.path) (chosen links)))) [
          | inr q ↦ q
          | inl q ↦
              elim (used_again (uses file.path links) (uses file.path (link ∷ links))
                (uses file.path all) (entry_used file.path all links h.1 q)
                (rw (f, h.0.0, str_eq_refl file.path) refl) (less file.path) once) [ ]
        ] in
      rw (chosen_more link links file f)
        (fresh, chosen-NoRepeat all links h.1 (λ p. omega (arith, less p)))
]

used_twice_some :
    (counts : List (Text × ℤ)) (link : FileLink) (f : FsFile)
    → linked_file link ≡ some f
    → is_used_twice counts link ≡ lt64 (pos 1) (get_or f.path counts (pos 0))
unfolding is_used_twice
used_twice_some counts link f k = rw (is_used_twice, k) refl

at_most_one : (n : ℕ) (a : ℤ) (b : Bool) → b ≡ lt64 (pos 1) a → a ≡ pos (n + 0) → b ≡ false → n ≤ 1
unfolding lt64
at_most_one n a b e k h = ground arith

pub is_settled-IsUsedOnce :
    (links : List FileLink) (link : FileLink)
    → length links < 9223372036854775808
    → is_settled (count_uses links []) link ≡ true
    → IsUsedOnce links link
unfolding is_used_twice get_or
is_settled-IsUsedOnce links link h e = (
  ground arith,
  λ f k.
      let counted : get_or f.path (count_uses links []) (pos 0) ≡ pos (uses f.path links + 0) =
        count_uses-uses f.path links [] 0 (omega arith) refl in
      at_most_one (uses f.path links) _ _ (used_twice_some (count_uses links []) link f k) counted
        (ground arith),
)
