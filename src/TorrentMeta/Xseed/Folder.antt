-- ===== src/TorrentMeta/Xseed/Folder.antt =====
-- Paths that are cut at the first slash.
use ptool.Base.{
  false, Option, some, [], ◌∷◌, ◌++◌, ◌≡◌, ◌≢◌, refl, sym, ap, arith, ℕ, Option-cases, inl, inr,
  Bool-cases, ◌==◌, ==_iff,
}
use ptool.Base.Text.{Text, codes, str_eq, str_eq_iff, cut, has_prefix}

pair_of :
    (x y a b : Text)
    → ◌≡◌ {A = Option (Text × Text)} (some (x, y)) (some (a, b))
    → (x ≡ a) × (y ≡ b)
pair_of x y a b h = (cc, cc)

-- The two parts of a text that was cut.
pub cut-some : (sep : ℕ) (s a b : Text) → cut sep s ≡ some (a, b) → s ≡ a ++ sep ∷ b
unfolding cut
cut-some sep [] a b h = ground arith
cut-some sep (c ∷ s) a b h = elim (Bool-cases (c == sep)) [
  | inl q ↦
      let found : ◌≡◌ {A = Option (Text × Text)} (some ([], s)) (some (a, b)) = rw q at h in
      let (ea, eb) = pair_of [] s a b found in rw (sym ea, sym eb, (==_iff c sep).0 q) refl
  | inr q ↦ elim (Option-cases (cut sep s)) [
    | inl e ↦ ground arith
    | inr ((x, y), e) ↦
        let found : ◌≡◌ {A = Option (Text × Text)} (some (c ∷ x, y)) (some (a, b)) =
          rw (q, e) at h in
        let (ea, eb) = pair_of (c ∷ x) y a b found in
        rw (sym ea, sym eb) (ap (λ r. c ∷ r) (cut-some sep s x y e))
  ]
]

pub not_nil : (a : Text) → str_eq a [] ≡ false → a ≢ []
not_nil a h e = ground (arith, str_eq_iff a [])

slash_first : (b : Text) → has_prefix (47 ∷ b) (codes "/") ≡ false → ⊥
unfolding has_prefix
slash_first [] h = ground arith
slash_first (x ∷ b) h = ground arith

pub folder_some :
    (path a b : Text) → has_prefix path (codes "/") ≡ false → path ≡ a ++ 47 ∷ b → a ≢ []
unfolding has_prefix
folder_some path [] b h e z = slash_first b (rw e at h)
folder_some path (x ∷ a) b h e z = ground arith
