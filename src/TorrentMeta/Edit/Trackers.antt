-- ===== src/TorrentMeta/Edit/Trackers.antt =====
-- AddTracker and RemoveTracker as operations on the set of the trackers of a torrent.
use ptool.Base.{
  ℕ, zero, suc, Bool, true, false, not, ◌&&◌, ◌||◌, none, some, List, [], ◌∷◌, ◌++◌, if◌then◌else◌,
  any, length, is_nil, ◌≡◌, refl, arith, inl, inr, ◌⊎◌, Bool-cases, ◌↔◌,
}
use ptool.Base.Int.{ℤ, pos, negsuc}
use ptool.Base.Text.{Text, str_eq, str_eq_iff, str_eq_refl}
use ptool.TorrentMeta.Data.{TorrentMeta}
use ptool.TorrentMeta.Edit.{
  any_tracker, put_at, put_tracker, with_tracker, add_tracker, cut_out, cut_tracker, remove_tracker,
}

abbrev announces : Text → List (List Text) → Bool
announces x tiers = any_tracker (λ a. str_eq a x) tiers

-- The tracker is one of the torrent's, as its first tracker or in a tier.
unfoldable pub knows : Text → TorrentMeta → Bool
knows x meta = str_eq meta.meta_info.announce x || announces x meta.meta_info.announce_list

any-append : (f : Text → Bool) (xs : List Text) (y : Text) → any f (xs ++ y ∷ []) ≡ any f xs || f y
unfolding any
any-append f [] y = ground arith
any-append f (x ∷ xs) y = ground (arith, any-append f xs y)

any_tracker-put_at :
    (f : Text → Bool) (n : ℕ) (t : Text) (tiers : List (List Text))
    → any_tracker f (put_at n t tiers) ≡ any_tracker f tiers || f t
unfolding any_tracker any put_at
any_tracker-put_at f n t [] = ground arith
any_tracker-put_at f zero t (tier ∷ tiers) = ground (arith, any-append f tier t)
any_tracker-put_at f (suc n) t (tier ∷ tiers) = ground (arith, any_tracker-put_at f n t tiers)

any_tracker-put_tracker :
    (f : Text → Bool) (n : ℤ) (t : Text) (tiers : List (List Text))
    → any_tracker f (put_tracker n t tiers) ≡ any_tracker f tiers || f t
unfolding put_tracker
any_tracker-put_tracker f (pos n) t tiers = any_tracker-put_at f n t tiers
any_tracker-put_tracker f (negsuc n) t tiers = any_tracker-put_at f (length tiers) t tiers

-- The tracker at the end of a tier comes off again.
cut_out-append :
    (t : Text) (tier : List Text)
    → any (λ a. str_eq a t) tier ≡ false
    → cut_out t (tier ++ t ∷ []) ≡ some tier
unfolding cut_out any
cut_out-append t [] h = rw (str_eq_refl t) refl
cut_out-append t (a ∷ tier) h = elim (Bool-cases (str_eq a t)) [
  | inl e ↦ ground arith
  | inr e ↦ rw (e, cut_out-append t tier (ground arith)) refl
]

cut_out-none :
    (t : Text) (tier : List Text) → any (λ a. str_eq a t) tier ≡ false → cut_out t tier ≡ none
unfolding cut_out any
cut_out-none t [] h = refl
cut_out-none t (a ∷ tier) h = elim (Bool-cases (str_eq a t)) [
  | inl e ↦ ground arith
  | inr e ↦ rw (e, cut_out-none t tier (ground arith)) refl
]

cut_tracker_here :
    (t : Text) (tier : List Text) (tiers : List (List Text))
    → any (λ a. str_eq a t) tier ≡ false
    → cut_tracker t ((tier ++ t ∷ []) ∷ tiers)
      ≡ (if is_nil tier then some tiers else some (tier ∷ tiers))
unfolding cut_tracker
cut_tracker_here t tier tiers h = rw (cut_tracker, cut_out-append t tier h) refl

-- The tiers without a new tracker that was put in: the same trackers.
cut_tracker-put_at :
    (t : Text) (n : ℕ) (tiers : List (List Text))
    → announces t tiers ≡ false
    → (tiers' : List (List Text)) × (cut_tracker t (put_at n t tiers) ≡ some tiers')
      × ((x : Text) → announces x tiers' ≡ announces x tiers)
unfolding cut_tracker put_at any_tracker any
cut_tracker-put_at t zero [] h = ([], cut_tracker_here t [] [] refl, λ x. refl)
cut_tracker-put_at t (suc n) [] h = ([], cut_tracker_here t [] [] refl, λ x. refl)
cut_tracker-put_at t zero ([] ∷ tiers) h =
    (tiers, cut_tracker_here t [] tiers refl, λ x. ground arith)
cut_tracker-put_at t zero ((a ∷ tier) ∷ tiers) h =
    ((a ∷ tier) ∷ tiers, cut_tracker_here t (a ∷ tier) tiers (ground arith), λ x. refl)
cut_tracker-put_at t (suc n) (tier ∷ tiers) h =
    let (tiers', e, k) = cut_tracker-put_at t n tiers (ground arith) in
    (
      tier ∷ tiers',
      rw (cut_tracker, cut_out-none t tier (ground arith), e) refl,
      λ x. ground (arith, k x),
    )

-- The two parts that with_tracker gives know the new tracker besides those that they knew.
knows-put_tracker :
    (x t a : Text) (tier : ℤ) (l : List (List Text))
    → str_eq x [] ≡ false
    → (str_eq (if str_eq a [] then t else a) x
        || announces x
            (put_tracker tier t (if is_nil l && not (str_eq a []) then (a ∷ []) ∷ [] else l)))
      ≡ (str_eq a x || announces x l || str_eq t x)
unfolding any_tracker any
knows-put_tracker x t a tier [] h = ground (
  arith,
  any_tracker-put_tracker (λ b. str_eq b x) tier t [],
  any_tracker-put_tracker (λ b. str_eq b x) tier t ((a ∷ []) ∷ []),
  str_eq_iff a [],
  str_eq_iff x [],
  str_eq_iff a x,
)
knows-put_tracker x t a tier (l ∷ ls) h = ground (
  arith,
  any_tracker-put_tracker (λ b. str_eq b x) tier t (l ∷ ls),
  str_eq_iff a [],
  str_eq_iff x [],
  str_eq_iff a x,
)

-- AddTracker's result, where it is one.
add_tracker-some :
    (t : Text) (tier : ℤ) (meta meta' : TorrentMeta)
    → add_tracker t tier meta ≡ some meta'
    → (meta' ≡ record meta { meta_info = with_tracker t tier meta.meta_info })
      × (str_eq t [] ≡ false)
      × (knows t meta ≡ false)
unfolding add_tracker knows
add_tracker-some t tier meta meta' h = ground (arith, str_eq_iff t [])

-- AddTracker changes nothing just where it is given no tracker or one of the torrent's.
pub add_tracker-none :
    (t : Text) (tier : ℤ) (meta : TorrentMeta)
    → (add_tracker t tier meta ≡ none) ↔ ((t ≡ []) ⊎ (knows t meta ≡ true))
unfolding add_tracker knows
add_tracker-none t tier meta = ground (arith, str_eq_iff t [])

-- AddTracker, where it changes the torrent, adds the tracker to those of the torrent, and no other
-- tracker comes or goes.
pub knows-add_tracker :
    (t : Text) (tier : ℤ) (meta meta' : TorrentMeta) (x : Text)
    → add_tracker t tier meta ≡ some meta'
    → str_eq x [] ≡ false
    → knows x meta' ≡ knows x meta || str_eq t x
unfolding knows with_tracker
knows-add_tracker t tier meta meta' x h hx =
    let m = meta.meta_info in
    rw ((add_tracker-some t tier meta meta' h).0)
      (knows-put_tracker x t m.announce tier m.announce_list hx)

cut_tracker-put_tracker :
    (t : Text) (n : ℤ) (tiers : List (List Text))
    → announces t tiers ≡ false
    → (tiers' : List (List Text)) × (cut_tracker t (put_tracker n t tiers) ≡ some tiers')
      × ((x : Text) → announces x tiers' ≡ announces x tiers)
unfolding put_tracker
cut_tracker-put_tracker t (pos n) tiers h = cut_tracker-put_at t n tiers h
cut_tracker-put_tracker t (negsuc n) tiers h = cut_tracker-put_at t (length tiers) tiers h

remove_tracker-some :
    (t : Text) (meta : TorrentMeta) (tiers : List (List Text))
    → str_eq t [] ≡ false
    → cut_tracker t meta.meta_info.announce_list ≡ some tiers
    → (meta' : TorrentMeta) × (remove_tracker t meta ≡ some meta')
      × (meta'.meta_info.announce
          ≡ (if str_eq meta.meta_info.announce t then [] else meta.meta_info.announce))
      × (meta'.meta_info.announce_list ≡ tiers)
unfolding remove_tracker
remove_tracker-some t meta tiers h e =
    let m = meta.meta_info in
    let m' = if str_eq m.announce t then record m { announce = [] } else m in
    (
      record meta { meta_info = record m' { announce_list = tiers } },
      rw (remove_tracker, h, e) refl,
      ground arith,
      refl,
    )

-- The tiers that with_tracker puts the tracker in.
abbrev base_of : Text → List (List Text) → List (List Text)
base_of a l = if is_nil l && not (str_eq a []) then (a ∷ []) ∷ [] else l

announces-base_of :
    (x a : Text) (l : List (List Text))
    → (str_eq a x || announces x (base_of a l)) ≡ (str_eq a x || announces x l)
unfolding any_tracker any
announces-base_of x a [] = ground arith
announces-base_of x a (l ∷ ls) = ground arith

-- RemoveTracker takes away a tracker that AddTracker added: the torrent then has the trackers that
-- it had.
pub remove_tracker-add_tracker :
    (t : Text) (tier : ℤ) (meta meta' : TorrentMeta)
    → add_tracker t tier meta ≡ some meta'
    → (meta'' : TorrentMeta) × (remove_tracker t meta' ≡ some meta'')
      × ((x : Text) → str_eq x [] ≡ false → knows x meta'' ≡ knows x meta)
unfolding knows with_tracker
remove_tracker-add_tracker t tier meta meta' h =
    let (e, nt, nk) = add_tracker-some t tier meta meta' h in
    let a = meta.meta_info.announce in
    let l = meta.meta_info.announce_list in
    let base = announces-base_of t a l in
    let (tiers, c, k) = cut_tracker-put_tracker t tier (base_of a l) (ground arith) in
    let (meta'', r, ra, rl) = remove_tracker-some t meta' tiers nt (rw e c) in
    (
      meta'',
      r,
      λ x hx. ground (
        arith,
        ra,
        rl,
        k x,
        announces-base_of x a l,
        str_eq_iff a [],
        str_eq_iff a t,
        str_eq_iff t x,
        str_eq_iff a x,
        str_eq_iff x [],
        str_eq_iff t [],
      ),
    )
