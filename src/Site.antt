-- ===== src/Site.antt =====
-- site/site.go: a torrent of a site, and the tests on one. `F` is float64.
use ptool.Base.{
  ◌==◌, Option, none, some, Bool, ◌||◌, List, [], ◌∷◌, if◌then◌else◌, any, true, false,
}
use ptool.Base.Int.{ℤ}
use ptool.Base.Text.{Text, Unicode, str_eq}
use ptool.Util.Strings.{contains_i}

pub record Torrent (F : Type 0) : Type 0 where
  pub name : Text
  pub description : Text
  pub id : Text
  pub info_hash : Text
  pub download_url : Text
  pub download_multiplier : F
  pub upload_multiplier : F
  pub discount_end_time : ℤ
  pub time : ℤ
  pub size : ℤ
  pub is_size_accurate : Bool
  pub seeders : ℤ
  pub leechers : ℤ
  pub snatched : ℤ
  pub has_hn_r : Bool
  pub is_active : Bool
  pub is_current_active : Bool
  pub paid : Bool
  pub bought : Bool
  pub neutral : Bool
  pub tags : List Text

-- The site's name and the id, as strings.Cut finds them.
cut_dot : Text → Option Text
cut_dot [] = none
cut_dot (c ∷ s) = if c == b'.' then some s else cut_dot s

module _ {F : Type 0} where
  -- ID(): the id without the site's name.
  unfoldable pub get_id : Torrent F → Text
  unfolding cut_dot
  get_id torrent = elim (cut_dot torrent.id) [ none ↦ torrent.id | some id ↦ id ]

module _ {F : Type 0} ⦃u : Unicode⦄ where
  unfoldable pub has_tag : Torrent F → Text → Bool
  unfolding any
  has_tag torrent tag = any (λ t. u.equal_fold tag t) torrent.tags

  unfoldable pub has_any_tag : Torrent F → List Text → Bool
  unfolding has_tag any
  has_any_tag torrent tags = any (λ tag. has_tag torrent tag) tags

  unfoldable pub match_filter : Torrent F → Text → Bool
  match_filter torrent filter =
      if str_eq filter []
        || (contains_i torrent.name filter || contains_i torrent.description filter)
      then true
      else false

  unfoldable pub match_filters_or : Torrent F → List Text → Bool
  unfolding match_filter any
  match_filters_or torrent filters = any (λ filter. match_filter torrent filter) filters

  -- Every list of filters has a match.
  unfoldable pub match_filters_and_or : Torrent F → List (List Text) → Bool
  unfolding match_filters_or
  match_filters_and_or torrent [] = true
  match_filters_and_or torrent (includes ∷ filters_array) =
      if match_filters_or torrent includes
      then match_filters_and_or torrent filters_array
      else false
