-- ===== src/Client/Agree.antt =====
-- QueryTorrents and SelectTorrents choose the same torrents.
use ptool.Base.{
  ◌≡◌, refl, sym, ap, ◌∙◌, inl, inr, Bool, true, false, ◌&&◌, ◌||◌, Option, none, some, List, [],
  ◌∷◌, if◌then◌else◌, map, Bool-cases, Option-cases, arith, ◌>>=◌,
}
use mathlib.Core.Path.{subst}
use mathlib.Core.List.{map-append}
use ptool.Base.Text.{Text, codes, str_eq, str_eq_iff, Unicode}
use ptool.Client.{Torrent}
use ptool.Client.Reads.{Reads}
use ptool.Client.Match.{
  is_valid_info_hash, is_valid_state_filter, is_valid_info_hash_or_state_filter,
}
use ptool.Client.Query.{
  check_args, check_select_args, append_matches, append_one, append_all, append_matched_hashes,
  append_hashes, append_all_hashes, query_torrents, select_torrents, is_empty,
}

valid_info_hash-not_all :
    (arg : Text) → is_valid_info_hash arg ≡ true → str_eq arg (codes "_all") ≡ false
unfolding is_valid_info_hash
valid_info_hash-not_all arg h = elim (Bool-cases (str_eq arg (codes "_all"))) [
  | inl e ↦
      let same : arg ≡ codes "_all" = (str_eq_iff arg (codes "_all")).0 e in
      let h' : is_valid_info_hash (codes "_all") ≡ true =
        subst (λ a. is_valid_info_hash a ≡ true) same h in
      cc
  | inr e ↦ e
]

-- The tests of the arguments agree: SelectTorrents also keeps whether all are info hashes.
check_args-agree :
    (args : List Text) (is_all is_plain : Bool)
    → check_args args is_all
      ≡ (check_select_args args is_all is_plain >>= (λ (all_plain : Bool × Bool). some all_plain.0))
unfolding check_args check_select_args is_valid_info_hash_or_state_filter
check_args-agree [] is_all is_plain = refl
check_args-agree (arg ∷ args) is_all is_plain =
    let all = if str_eq arg (codes "_all") then true else is_all in
    elim (Bool-cases (is_valid_info_hash arg)) [
      | inl h ↦ rw (h, valid_info_hash-not_all arg h) (check_args-agree args is_all is_plain)
      | inr h ↦ elim (Bool-cases (is_valid_state_filter arg)) [
        | inl k ↦ rw (h, k) (check_args-agree args all false)
        | inr k ↦ rw (h, k) refl
      ]
    ]

module _ ⦃u : Unicode⦄ (tag filter : Text) (is_all : Bool) (args : List Text) where
  append_matches-map :
      (t : Torrent) (rest : List Text)
      → map (λ t. t.info_hash) (append_matches tag filter is_all args t rest)
        ≡ append_matched_hashes tag filter is_all args t rest
  unfolding append_matches append_matched_hashes
  append_matches-map t [] = refl
  append_matches-map t (arg ∷ rest) = ground (arith, append_matches-map t rest)

  append_one-map :
      (t : Torrent)
      → map (λ t. t.info_hash) (append_one tag filter is_all args t)
        ≡ append_hashes tag filter is_all args t
  unfolding append_one append_hashes
  append_one-map t = ground (arith, append_matches-map t args)

  append_all-map :
      (ts : List Torrent)
      → map (λ t. t.info_hash) (append_all tag filter is_all args ts)
        ≡ append_all_hashes tag filter is_all args ts
  unfolding append_all append_all_hashes
  append_all-map [] = refl
  append_all-map (t ∷ ts) =
      let both =
        map-append (λ t. t.info_hash) (append_one tag filter is_all args t)
          (append_all tag filter is_all args ts) in
      let head = append_one-map t in let rest = append_all-map ts in cc

-- There is no condition on category, tag and name.
abbrev pub no_condition : Text → Text → Text → Bool
no_condition category tag filter = str_eq category [] && (str_eq tag [] && str_eq filter [])

-- SelectTorrents may answer without a query: there is no condition, and all torrents are wanted or
-- the arguments are info hashes.
abbrev pub skips_by : Bool → Option (Bool × Bool) → Bool
skips_by unconditional none = false
skips_by unconditional (some (is_all, is_plain)) = unconditional && (is_all || is_plain)

abbrev pub skips_query : Text → Text → Text → List Text → Bool
skips_query category tag filter args =
    skips_by (no_condition category tag filter) (check_select_args args (is_empty args) true)

-- Unless SelectTorrents answers without a query, it gives the info hashes of the torrents that
-- QueryTorrents gives, in their order, and an error where that gives one.
pub select_torrents-agrees :
    ⦃u : Unicode⦄ (client : Reads) (category tag filter : Text) (args : List Text)
    → skips_query category tag filter args ≡ false
    → select_torrents client category tag filter args ≡ (
        query_torrents client category tag filter args
        >>= (λ ts. some (some (map (λ t. t.info_hash) ts))))
unfolding select_torrents query_torrents
select_torrents-agrees client category tag filter args h =
    elim (Option-cases (check_select_args args (is_empty args) true)) [
      | inl e ↦
          let q : check_args args (is_empty args) ≡ none =
            check_args-agree args (is_empty args) true
            ∙ ap (λ o. o >>= (λ (all_plain : Bool × Bool). some all_plain.0)) e in
          rw (e, q) refl
      | inr ((is_all, is_plain), e) ↦
          let q : check_args args (is_empty args) ≡ some is_all =
            check_args-agree args (is_empty args) true
            ∙ ap (λ o. o >>= (λ (all_plain : Bool × Bool). some all_plain.0)) e in
          let h' = sym (ap (skips_by (no_condition category tag filter)) e) ∙ h in
          let not_all : (no_condition category tag filter && is_all) ≡ false = ground arith in
          let not_plain : (no_condition category tag filter && is_plain) ≡ false = ground arith in
          let not_listed : (str_eq category [] && (str_eq tag [] && (str_eq filter [] && is_all)))
              ≡ false =
            ground arith in
          elim (Option-cases (client.get_torrents [] category true)) [
            | inl e' ↦ rw (e, q, not_all, not_plain, e') refl
            | inr (ts, e') ↦
                rw (e, q, not_all, not_plain, e', not_listed)
                  (ap (λ x. some (some x)) (sym (append_all-map tag filter is_all args ts)))
          ]
    ]
