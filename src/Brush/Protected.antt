-- ===== src/Brush/Protected.antt =====
-- What Decide deletes, and how it accounts for it.
use ptool.Base.{
  ◌≡◌, refl, ap, sym, ◌∙◌, ◌⊎◌, inl, inr, true, List, [], ◌∷◌, ◌++◌, arith, All, All-append,
  All-mono, length, Option, none, some,
}
use mathlib.Core.Path.{subst}
use ptool.Base.Int.{ℤ, pos}
use ptool.Base.Int64.{add64, sub64}
use ptool.Base.Text.{Text, Unicode, str_eq_iff}
use ptool.Base.Float.{Float}
use ptool.Base.Sort.{stable_sort, stable_sort-All}
use ptool.Client.{Torrent, Status}
use ptool.Site
use ptool.Brush.Data.{
  SiteOption, ClientOption, OperationTorrent, CandidateClientTorrent, torrent_of,
  is_torrent_stalled,
}
use ptool.Brush.Mark.{stall, modify, consider}
use ptool.Brush.Mark.Rule.{MarkRule, IsOld, mark_all_rule}
use ptool.Brush.Sweep.{Sweep, operation, delete_one}
use ptool.Brush.Sweep.Rule.{sweep_rule}
use ptool.Brush.Decide.{marks, swept, decide, has_higher_score}

pub torrent_of-hash :
    (ts : List Torrent) (hash : Text) (t : Torrent)
    → torrent_of ts hash ≡ some t
    → t.info_hash ≡ hash
unfolding torrent_of
torrent_of-hash [] hash t e = cc
torrent_of-hash (t' ∷ ts) hash t e =
    ground (arith, torrent_of-hash ts hash t, str_eq_iff t'.info_hash hash)

torrent_of_self :
    (ts : List Torrent) (hash : Text) (t : Torrent)
    → torrent_of ts hash ≡ some t
    → torrent_of ts t.info_hash ≡ some t
torrent_of_self ts hash t e = ap (torrent_of ts) (torrent_of-hash ts hash t e) ∙ e

-- Each torrent is the one that its info hash finds: no two have the same info hash.
abbrev pub HasUniqueHashes : List Torrent → Type 0
HasUniqueHashes ts = All (λ t. torrent_of ts t.info_hash ≡ some t) ts

-- A torrent past the timespan of new torrents, or an incomplete one that was stalled.
abbrev pub IsDeletable : ℤ → Torrent → Type 0
IsDeletable now t = IsOld now t ⊎ (is_torrent_stalled t ≡ true)

-- The info hash finds a torrent with the property.
abbrev pub Finds : List Torrent → (Torrent → Type 0) → Text → Type 0
Finds ts Q hash = (t : Torrent) × (torrent_of ts hash ≡ some t) × Q t

mark-candidates :
    {F : Type 0} (now : ℤ) (ts : List Torrent)
    → MarkRule {F = F} now
        (λ t. torrent_of ts t.info_hash ≡ some t)
        (λ s. All (λ d. Finds ts (IsOld now) d.info_hash) s.delete_candidates)
unfolding stall modify consider
mark-candidates now ts = record {
  counted = λ c s p. p;
  stalled = λ msg t s q _ p. p;
  modified = λ msg meta t s q _ p. p;
  considered =
      λ score value msg t s q old p. All-append _ s.delete_candidates _ p ((t, q, old), tt);
}

-- The sum over the torrents of the operations, in their order.
abbrev pub tally : (ℤ → Torrent → ℤ) → List Torrent → List OperationTorrent → ℤ → ℤ
tally f ts [] acc = acc
tally f ts (d ∷ ds) acc =
    tally f ts ds (elim (torrent_of ts d.info_hash) [ none ↦ acc | some t ↦ f acc t ])

tally-append_one :
    (f : ℤ → Torrent → ℤ) (ts : List Torrent) (ds : List OperationTorrent) (acc : ℤ)
    (d : OperationTorrent) (t : Torrent)
    → torrent_of ts d.info_hash ≡ some t
    → tally f ts (ds ++ d ∷ []) acc ≡ f (tally f ts ds acc) t
tally-append_one f ts [] acc d t e =
    ap {B = ℤ} (λ (x : Option Torrent). elim x [ none ↦ acc | some t' ↦ f acc t' ]) e
tally-append_one f ts (d' ∷ ds) acc d t e = tally-append_one f ts ds _ d t e

-- The free space, the upload speed and the number of torrents that remain, from the deletions.
pub record Accounts (ts : List Torrent) (speed total : ℤ) (s : Sweep) : Type 0 where
  pub free_change : s.free_change ≡ tally (λ acc t. add64 acc t.size_completed) ts s.deleted (pos 0)
  pub upload_speed : s.upload_speed ≡ tally (λ acc t. sub64 acc t.upload_speed) ts s.deleted speed
  pub cnt : s.cnt ≡ tally (λ acc t. sub64 acc (pos 1)) ts s.deleted total

delete_one-Accounts :
    (ts : List Torrent) (speed total now : ℤ) (msg : Text) (t : Torrent) (s : Sweep)
    → torrent_of ts t.info_hash ≡ some t
    → Accounts ts speed total s
    → Accounts ts speed total (delete_one now msg t s)
unfolding delete_one
delete_one-Accounts ts speed total now msg t s e h =
    let d = operation t msg in
    record {
      free_change =
          ap (λ x. add64 x t.size_completed) h.free_change
          ∙ sym (tally-append_one _ ts s.deleted (pos 0) d t e);
      upload_speed =
          ap (λ x. sub64 x t.upload_speed) h.upload_speed
          ∙ sym (tally-append_one _ ts s.deleted speed d t e);
      cnt = ap (λ x. sub64 x (pos 1)) h.cnt ∙ sym (tally-append_one _ ts s.deleted total d t e);
    }

module _ {F : Type 0} ⦃fl : Float F⦄ ⦃u : Unicode⦄ (status : Status) (ts : List Torrent)
    (site_ts : List (Site.Torrent F)) (so : SiteOption) (o : ClientOption F)
    (unique : HasUniqueHashes ts) where
  marks-candidates :
      All
        (λ d. Finds ts (IsOld so.now) d.info_hash)
        (stable_sort has_higher_score (marks status ts site_ts so o).delete_candidates)
  unfolding marks
  marks-candidates =
      stable_sort-All has_higher_score _ _
        (mark_all_rule so.now o _ _ (mark-candidates so.now ts) ts _ unique tt)

  IsDeletable-of_candidate :
      (d : CandidateClientTorrent F)
      → Finds ts (IsOld so.now) d.info_hash
      → (t : Torrent) → torrent_of ts d.info_hash ≡ some t
      → (torrent_of ts t.info_hash ≡ some t) × IsDeletable so.now t
  IsDeletable-of_candidate d (t', e', old) t e =
      let same : t' ≡ t = cc in
      (torrent_of_self ts d.info_hash t e, inl (subst (IsOld so.now) same old))

  candidates-IsDeletable :
      All
        (λ d.
          (t : Torrent)
          → torrent_of ts d.info_hash ≡ some t
          → (torrent_of ts t.info_hash ≡ some t) × IsDeletable so.now t)
        (stable_sort has_higher_score (marks status ts site_ts so o).delete_candidates)
  candidates-IsDeletable =
      All-mono _ _ (stable_sort has_higher_score (marks status ts site_ts so o).delete_candidates)
        IsDeletable-of_candidate marks-candidates

  stalled-IsDeletable :
      All
        (λ t.
          is_torrent_stalled t ≡ true → (torrent_of ts t.info_hash ≡ some t) × IsDeletable so.now t)
        ts
  stalled-IsDeletable = All-mono _ _ ts (λ t e h. (e, inr h)) unique

  -- Where no two torrents of the client have one info hash, each deletion is of a torrent of the
  -- client that was added more than 15 minutes ago, or that is incomplete and was stalled.
  pub decide-deletes :
      All
        (λ d. Finds ts (IsDeletable so.now) d.info_hash)
        (decide status ts site_ts so o).delete_torrents
  unfolding decide swept delete_one
  decide-deletes =
      sweep_rule so.now _ o ts (λ s. All (λ d. Finds ts (IsDeletable so.now) d.info_hash) s.deleted)
        (λ t. (torrent_of ts t.info_hash ≡ some t) × IsDeletable so.now t)
        (λ msg t s q p. All-append _ s.deleted _ p ((t, q.0, q.1), tt)) _ _ _ _
        candidates-IsDeletable stalled-IsDeletable tt

  -- Where no two torrents of the client have one info hash: the change of the free space that
  -- Decide reports is the sum of the sizes completed of the torrents that it deletes; the upload
  -- speed that it goes on with is the client's less theirs, and the number of torrents is the
  -- client's less their number (all modulo 2 ^ 64, as int64 computes).
  pub decide-Accounts :
      Accounts ts status.upload_speed (pos (length ts)) (swept status ts site_ts so o)
      × ((decide status ts site_ts so o).delete_torrents ≡ (swept status ts site_ts so o).deleted)
      × ((decide status ts site_ts so o).free_space_change
          ≡ (swept status ts site_ts so o).free_change)
  unfolding decide swept
  decide-Accounts = (
    sweep_rule so.now _ o ts (Accounts ts status.upload_speed (pos (length ts)))
        (λ t. (torrent_of ts t.info_hash ≡ some t) × IsDeletable so.now t)
        (λ msg t s q p.
          delete_one-Accounts ts status.upload_speed (pos (length ts)) so.now msg t s q.0 p)
        _ _ _ _ candidates-IsDeletable stalled-IsDeletable
        (record { free_change = refl; upload_speed = refl; cnt = refl }),
    refl,
    refl,
  )
