-- ===== src/DynamicSeeding/Replace/Fuel.antt =====
-- The loop of doDynamicSeeding that makes room for a candidate ends within its fuel.
use mathlib.Core.Path.{subst}
use ptool.Base.{
  ℕ, zero, suc, ◌≤◌, ◌≡◌, refl, ◌⊎◌, inl, inr, false, Option, none, some, List, [], ◌∷◌, if_ind,
  Option-cases, arith,
}
use ptool.Base.Int.{ℤ}
use ptool.Base.Int64.{lt64, le64}
use ptool.Base.Text.{Text}
use ptool.Client
use ptool.DynamicSeeding.Replace.{
  Pools, pools_size, Room, pick, pick_invalid, pick_stalled, pick_safe, pick_normal, make_room,
}

-- A pick takes one hash from the pools.
abbrev TakesOne : Pools → Option (Text × Pools) → Type 0
TakesOne p none = Unit
TakesOne p (some (hash, p')) = suc (pools_size p') ≡ pools_size p

module _ (ts : List Client.Torrent) (replace seeders : ℤ) where
  pick_normal-TakesOne :
      (p : Pools) (hashes : List Text)
      → p.normal ≡ hashes
      → TakesOne p (pick_normal ts replace seeders p hashes)
  unfolding pick_normal
  pick_normal-TakesOne p [] e = tt
  pick_normal-TakesOne p (hash ∷ rest) e =
      if_ind (TakesOne p) (le64 replace _) _ _ (λ _. rw e (omega arith)) (λ _. tt)

  pick_safe-TakesOne :
      (p : Pools) (hashes : List Text)
      → p.safe ≡ hashes
      → TakesOne p (pick_safe ts replace seeders p hashes)
  unfolding pick_safe
  pick_safe-TakesOne p [] e = pick_normal-TakesOne p p.normal refl
  pick_safe-TakesOne p (hash ∷ rest) e = rw e (omega arith)

  pick_stalled-TakesOne :
      (p : Pools) (hashes : List Text)
      → p.stalled ≡ hashes
      → TakesOne p (pick_stalled ts replace seeders p hashes)
  unfolding pick_stalled
  pick_stalled-TakesOne p [] e = pick_safe-TakesOne p p.safe refl
  pick_stalled-TakesOne p (hash ∷ rest) e = rw e (omega arith)

  pick_invalid-TakesOne :
      (p : Pools) (hashes : List Text)
      → p.invalid ≡ hashes
      → TakesOne p (pick_invalid ts replace seeders p hashes)
  unfolding pick_invalid
  pick_invalid-TakesOne p [] e = pick_stalled-TakesOne p p.stalled refl
  pick_invalid-TakesOne p (hash ∷ rest) e = rw e (omega arith)

  pick-TakesOne : (p : Pools) → TakesOne p (pick ts replace seeders p)
  unfolding pick
  pick-TakesOne p = pick_invalid-TakesOne p p.invalid refl

  -- There is room, or nothing more to delete for it.
  abbrev pub IsDone : ℤ → Room ts → Type 0
  IsDone size r = (lt64 r.available size ≡ false) ⊎ (pick ts replace seeders r.pools ≡ none)

  -- With as much fuel as there are torrents in the pools, the loop that makes room stops only where
  -- the room is enough for the candidate or there is nothing more to delete for it.
  pub make_room-IsDone :
      (fuel : ℕ) (size : ℤ) (r : Room ts)
      → pools_size r.pools ≤ fuel
      → IsDone size (make_room ts fuel replace size seeders r)
  unfolding make_room
  make_room-IsDone zero size r h = elim (Option-cases (pick ts replace seeders r.pools)) [
    | inl e ↦ inr e
    | inr ((hash, p), e) ↦
        let one : TakesOne r.pools (some (hash, p)) =
          subst (TakesOne r.pools) e (pick-TakesOne r.pools) in
        let none_left : 1 ≤ 0 = omega (arith, one, h) in ground arith
  ]
  make_room-IsDone (suc fuel) size r h =
      if_ind (IsDone size) (lt64 r.available size) _ _
        (λ _. elim (Option-cases (pick ts replace seeders r.pools)) [
          | inl e ↦ rw e (inr e)
          | inr ((hash, p), e) ↦
              let one : TakesOne r.pools (some (hash, p)) =
                subst (TakesOne r.pools) e (pick-TakesOne r.pools) in
              rw e (make_room-IsDone fuel size _ (omega (arith, one, h)))
        ])
        (λ e. inl e)
