-- ===== src/Base/Sort.antt =====
-- Go's sort.SliceStable and sort.Slice with a `less` function. For a strict weak order a stable sort has one result,
-- which insertion computes.
use mathlib.Core.Bool.{Bool}
use mathlib.Core.List.Perm
use mathlib.Core.List.{List, [], ◌∷◌, Perm}
use ptool.Base.Tests.{if◌then◌else◌, if_ind, Bool-cases}
use mathlib.Core.Logic.{inl, inr}
use ptool.Base.Lists.{All}

module _ {ℓ} {A : Type ℓ} (less : A → A → Bool) where
  -- Puts x before the first item that is not less than x.
  unfoldable pub insert_sorted : A → List A → List A
  insert_sorted x [] = x ∷ []
  insert_sorted x (y ∷ ys) = if less y x then y ∷ insert_sorted x ys else x ∷ y ∷ ys

  unfoldable pub stable_sort : List A → List A
  unfolding insert_sorted
  stable_sort [] = []
  stable_sort (x ∷ xs) = insert_sorted x (stable_sort xs)

  pub insert_sorted-perm : (x : A) (xs : List A) → Perm (insert_sorted x xs) (x ∷ xs)
  unfolding insert_sorted
  insert_sorted-perm x [] = Perm.refl _
  insert_sorted-perm x (y ∷ ys) = elim (Bool-cases (less y x)) [
    | inl e ↦ rw e (Perm.trans (Perm.cons y (insert_sorted-perm x ys)) (Perm.swap x y ys))
    | inr e ↦ rw e (Perm.refl _)
  ]

  pub stable_sort-perm : (xs : List A) → Perm (stable_sort xs) xs
  unfolding stable_sort
  stable_sort-perm [] = Perm.refl _
  stable_sort-perm (x ∷ xs) =
      Perm.trans (insert_sorted-perm x (stable_sort xs)) (Perm.cons x (stable_sort-perm xs))

module _ {ℓ κ} {A : Type ℓ} (less : A → A → Bool) (P : A → Type κ) where
  pub insert_sorted-All : (x : A) (xs : List A) → P x → All P xs → All P (insert_sorted less x xs)
  unfolding insert_sorted
  insert_sorted-All x [] p h = (p, tt)
  insert_sorted-All x (y ∷ ys) p h = elim (Bool-cases (less y x)) [
    | inl e ↦ rw e (h.0, insert_sorted-All x ys p h.1)
    | inr e ↦ rw e (p, (h.0, h.1))
  ]

  pub stable_sort-All : (xs : List A) → All P xs → All P (stable_sort less xs)
  unfolding stable_sort
  stable_sort-All [] h = tt
  stable_sort-All (x ∷ xs) h =
      insert_sorted-All x (stable_sort less xs) h.0 (stable_sort-All xs h.1)

  pub All-insert_sorted : (x : A) (xs : List A) → All P (insert_sorted less x xs) → P x × All P xs
  unfolding insert_sorted
  All-insert_sorted x [] h = h
  All-insert_sorted x (y ∷ ys) k =
      if_ind (λ zs. All P zs → P x × (P y × All P ys)) (less y x) (y ∷ insert_sorted less x ys)
        (x ∷ y ∷ ys) (λ _ h. let k = All-insert_sorted x ys h.1 in (k.0, (h.0, k.1))) (λ _ h. h) k

  pub All-stable_sort : (xs : List A) → All P (stable_sort less xs) → All P xs
  unfolding stable_sort
  All-stable_sort [] h = tt
  All-stable_sort (x ∷ xs) h =
      let k = All-insert_sorted x (stable_sort less xs) h in (k.0, All-stable_sort xs k.1)
