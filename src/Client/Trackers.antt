-- ===== src/Client/Trackers.antt =====
-- The trackers of a torrent, in client/client.go, and what their messages say of the torrent.
use ptool.Base.{Bool, true, false, not, ◌&&◌, ◌||◌, List, [], ◌∷◌, if◌then◌else◌}
use ptool.Base.Int.{ℤ, pos}
use ptool.Base.Int64.{lt64, eq64}
use ptool.Base.Text.{Text, codes, str_eq, Unicode}
use ptool.Util.Strings.{contains_i}

pub record TorrentTracker : Type 0 where
  pub status : Text
  pub url : Text
  pub msg : Text

-- TrackerValidity; a larger value is a worse state.
abbrev pub validity_ok : ℤ
validity_ok = pos 0

abbrev pub validity_violate_rule : ℤ
validity_violate_rule = pos 1

abbrev pub validity_invalid_auth : ℤ
validity_invalid_auth = pos 2

abbrev pub validity_not_exist : ℤ
validity_not_exist = pos 3

-- The entries of the map from keywords; those with Chinese keywords as UTF-8 bytes.
abbrev pub tracker_invalid_torrent_msgs : List (Text × ℤ)
tracker_invalid_torrent_msgs =
    (codes "not registered", validity_not_exist)
    ∷ (codes "not exists", validity_not_exist)
    ∷ (codes "unauthorized", validity_invalid_auth)
    ∷ (codes "require passkey", validity_invalid_auth)
    ∷ (codes "require authkey", validity_invalid_auth)
    ∷ (codes "invalid authkey", validity_invalid_auth)
    ∷ (codes "invalid passkey", validity_invalid_auth)
    ∷ (
      (231 ∷ 167 ∷ 141 ∷ 229 ∷ 173 ∷ 144 ∷ 228 ∷ 184 ∷ 141 ∷ 229 ∷ 173 ∷ 152 ∷ 229 ∷ 156 ∷ 168
          ∷ []),
      validity_not_exist,
    )
    ∷ (
      (232 ∷ 175 ∷ 165 ∷ 231 ∷ 167 ∷ 141 ∷ 229 ∷ 173 ∷ 144 ∷ 230 ∷ 178 ∷ 161 ∷ 230 ∷ 156 ∷ 137
          ∷ []),
      validity_not_exist,
    )
    ∷ (
      (231 ∷ 167 ∷ 141 ∷ 229 ∷ 173 ∷ 144 ∷ 229 ∷ 183 ∷ 178 ∷ 232 ∷ 162 ∷ 171 ∷ 229 ∷ 136 ∷ 160 ∷ 233
          ∷ 153 ∷ 164 ∷ []),
      validity_not_exist,
    )
    ∷ (codes "already are downloading", validity_violate_rule)
    ∷ (
      (228 ∷ 184 ∷ 139 ∷ 232 ∷ 189 ∷ 189 ∷ 231 ∷ 155 ∷ 184 ∷ 229 ∷ 144 ∷ 140 ∷ 231 ∷ 167 ∷ 141 ∷ 229
          ∷ 173 ∷ 144 ∷ []),
      validity_violate_rule,
    )
    ∷ (
      (228 ∷ 184 ∷ 139 ∷ 232 ∷ 188 ∷ 137 ∷ 231 ∷ 155 ∷ 184 ∷ 229 ∷ 144 ∷ 140 ∷ 231 ∷ 168 ∷ 174 ∷ 229
          ∷ 173 ∷ 144 ∷ []),
      validity_violate_rule,
    )
    ∷ []

-- Go goes through the map in an order of its own, anew for each tracker. `msgs` is its entries in one
-- such order, which the model takes for all trackers of a call.
module _ ⦃u : Unicode⦄ (msgs : List (Text × ℤ)) where
  -- The validity of the first keyword in the message.
  keyword_validity : Text → List (Text × ℤ) → ℤ
  keyword_validity msg [] = validity_ok
  keyword_validity msg ((keyword, validity) ∷ rest) =
      if contains_i msg keyword then validity else keyword_validity msg rest

  -- SpeculateTrackerValidity of one tracker
  unfoldable pub speculate_one : TorrentTracker → ℤ
  unfolding keyword_validity
  speculate_one tracker =
      if not (str_eq tracker.msg []) then keyword_validity tracker.msg msgs else validity_ok

  unfoldable pub is_working : TorrentTracker → Bool
  is_working tracker = str_eq tracker.status (codes "working") && str_eq tracker.msg []

  -- The loop, up to the first tracker that works: hasOk and the least validity so far.
  unfoldable pub speculate_loop : List TorrentTracker → ℤ → Bool × ℤ
  unfolding speculate_one is_working
  speculate_loop [] validity = (false, validity)
  speculate_loop (tracker ∷ trackers) validity =
      let v = speculate_one tracker in
      let next =
        speculate_loop trackers (if lt64 (pos 0) v && lt64 v validity then v else validity) in
      if is_working tracker then (true, validity) else next

  -- SpeculateTrackerValidity of all trackers
  unfoldable pub speculate_tracker_validity : List TorrentTracker → ℤ
  unfolding speculate_loop
  speculate_tracker_validity trackers =
      let (has_ok, validity) = speculate_loop trackers (pos 999) in
      if has_ok || eq64 validity (pos 999) then validity_ok else validity
