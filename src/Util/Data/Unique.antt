-- ===== src/Util/Data/Unique.antt =====
-- UniqueSlice of util/data.go keeps each entry once.
use mathlib.Core.Path.{subst}
use ptool.Base.{◌≡◌, refl, inl, inr, Bool, true, false, List, [], ◌∷◌, if_ind, any, Bool-cases}
use ptool.Base.Text.{Text, str_eq, str_eq_iff, str_eq_refl}
use ptool.Util.Data.{unique_from, unique_slice}

-- The entry is in the list.
abbrev pub contains_entry : Text → List Text → Bool
contains_entry k slice = any (str_eq k) slice

abbrev pub NoRepeat : List Text → Type 0
NoRepeat [] = Unit
NoRepeat (x ∷ xs) = (contains_entry x xs ≡ false) × NoRepeat xs

other_entry :
    (k entry : Text) (keys : List Text)
    → contains_entry entry keys ≡ false
    → contains_entry k keys ≡ true
    → str_eq k entry ≡ false
other_entry k entry keys new old = elim (Bool-cases (str_eq k entry)) [
  | inl e ↦
      let same : k ≡ entry = (str_eq_iff k entry).0 e in
      let old' : contains_entry entry keys ≡ true =
        subst (λ x. contains_entry x keys ≡ true) same old in
      cc
  | inr e ↦ e
]

seen_entry :
    (k entry : Text) (keys : List Text)
    → contains_entry entry keys ≡ true
    → contains_entry k keys ≡ false
    → str_eq k entry ≡ false
seen_entry k entry keys old new = elim (Bool-cases (str_eq k entry)) [
  | inl e ↦
      let same : k ≡ entry = (str_eq_iff k entry).0 e in
      let new' : contains_entry entry keys ≡ false =
        subst (λ x. contains_entry x keys ≡ false) same new in
      cc
  | inr e ↦ e
]

unique_from-seen :
    (k : Text) (slice keys : List Text)
    → contains_entry k keys ≡ true
    → contains_entry k (unique_from keys slice) ≡ false
unfolding unique_from any
unique_from-seen k [] keys h = refl
unique_from-seen k (entry ∷ slice) keys h =
    if_ind (λ xs. contains_entry k xs ≡ false) (contains_entry entry keys) _
      (entry ∷ unique_from (entry ∷ keys) slice) (λ _. unique_from-seen k slice keys h)
      (λ new.
        let other = other_entry k entry keys new h in
        let later : contains_entry k (unique_from (entry ∷ keys) slice) ≡ false =
          unique_from-seen k slice (entry ∷ keys) (rw (other, h) refl) in
        rw (other, later) refl)

unique_from-NoRepeat : (slice keys : List Text) → NoRepeat (unique_from keys slice)
unfolding unique_from any
unique_from-NoRepeat [] keys = tt
unique_from-NoRepeat (entry ∷ slice) keys =
    if_ind NoRepeat (contains_entry entry keys) _ (entry ∷ unique_from (entry ∷ keys) slice)
      (λ _. unique_from-NoRepeat slice keys)
      (λ _. (
        unique_from-seen entry slice (entry ∷ keys) (rw (str_eq_refl entry) refl),
        unique_from-NoRepeat slice (entry ∷ keys),
      ))

unique_from-entries :
    (k : Text) (slice keys : List Text)
    → contains_entry k keys ≡ false
    → contains_entry k (unique_from keys slice) ≡ contains_entry k slice
unfolding unique_from any
unique_from-entries k [] keys h = refl
unique_from-entries k (entry ∷ slice) keys h =
    if_ind (λ xs. contains_entry k xs ≡ contains_entry k (entry ∷ slice))
      (contains_entry entry keys) (unique_from keys slice)
      (entry ∷ unique_from (entry ∷ keys) slice)
      (λ old.
        let other : str_eq k entry ≡ false = seen_entry k entry keys old h in
        rw other (unique_from-entries k slice keys h))
      (λ new. elim (Bool-cases (str_eq k entry)) [
        | inl e ↦ rw e refl
        | inr e ↦ rw e (unique_from-entries k slice (entry ∷ keys) (rw (e, h) refl))
      ])

-- UniqueSlice gives a list without repetition that has the entries of the slice and no others.
pub unique_slice-NoRepeat :
    (slice : List Text)
    → NoRepeat (unique_slice slice)
      × ((k : Text) → contains_entry k (unique_slice slice) ≡ contains_entry k slice)
unfolding unique_slice any
unique_slice-NoRepeat slice =
    (unique_from-NoRepeat slice [], λ k. unique_from-entries k slice [] refl)
