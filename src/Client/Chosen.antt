-- ===== src/Client/Chosen.antt =====
-- QueryTorrents gives the torrents that meet the criteria, and no others.
use mathlib.Core.List.{Memᴰ}
use mathlib.Core.Path.{subst}
use ptool.Base.{
  bind_ind, ◌≡◌, refl, sym, ◌∙◌, inl, inr, Bool, true, false, not, ◌&&◌, ◌||◌, Option, none, some,
  List, [], ◌∷◌, ◌++◌, if◌then◌else◌, if_ind, any, All, All-append, All-mono, All-Mem, Bool-cases,
  &&-true, arith,
}
use ptool.Base.Text.{Text, codes, str_eq, Unicode}
use ptool.Client.{Torrent}
use ptool.Client.Reads.{Reads}
use ptool.Client.Match.{is_valid_info_hash_or_state_filter}
use ptool.Client.Query.{
  is_empty, check_args, fails_tag, fails_filter, matches_arg, append_matches, append_one,
  append_all, query_torrents,
}

Mem-left : {A : Type 0} (x : A) (xs ys : List A) → Memᴰ x xs → Memᴰ x (xs ++ ys)
Mem-left x [] ys m = elim m [ ]
Mem-left x (y ∷ xs) ys (Memᴰ.head e) = Memᴰ.head e
Mem-left x (y ∷ xs) ys (Memᴰ.tail m) = Memᴰ.tail (Mem-left x xs ys m)

Mem-right : {A : Type 0} (x : A) (xs ys : List A) → Memᴰ x ys → Memᴰ x (xs ++ ys)
Mem-right x [] ys m = m
Mem-right x (y ∷ xs) ys m = Memᴰ.tail (Mem-right x xs ys m)

||-right : (a b : Bool) → b ≡ true → (a || b) ≡ true
||-right a b h = ground arith

-- The arguments choose all torrents.
abbrev pub wants_all : List Text → Bool
wants_all args = is_empty args || any (λ arg. str_eq arg (codes "_all")) args

-- The result of check_args is what it was, or that an argument is "_all".
abbrev ChecksAll : Bool → List Text → Option Bool → Type 0
ChecksAll is_all args none = Unit
ChecksAll is_all args (some b) = b ≡ (is_all || any (λ arg. str_eq arg (codes "_all")) args)

ChecksAll-equal :
    (all is_all : Bool) (args args' : List Text) (o : Option Bool)
    → (all || any (λ arg. str_eq arg (codes "_all")) args)
      ≡ (is_all || any (λ arg. str_eq arg (codes "_all")) args')
    → ChecksAll all args o
    → ChecksAll is_all args' o
ChecksAll-equal all is_all args args' none e h = tt
ChecksAll-equal all is_all args args' (some b) e h = h ∙ e

all-cons : (c is_all rest : Bool) → ((if c then true else is_all) || rest) ≡ (is_all || (c || rest))
all-cons c is_all rest = ground arith

check_args-ChecksAll :
    (args : List Text) (is_all : Bool) → ChecksAll is_all args (check_args args is_all)
unfolding check_args any
check_args-ChecksAll [] is_all = ground arith
check_args-ChecksAll (arg ∷ args) is_all =
    let all = if str_eq arg (codes "_all") then true else is_all in
    if_ind (ChecksAll is_all (arg ∷ args)) (not (is_valid_info_hash_or_state_filter arg)) none
      (check_args args all) (λ _. tt)
      (λ _.
        ChecksAll-equal all is_all args (arg ∷ args) (check_args args all)
          (all-cons (str_eq arg (codes "_all")) is_all _) (check_args-ChecksAll args all))

module _ ⦃u : Unicode⦄ (tag filter : Text) (is_all : Bool) (args : List Text) where
  -- The torrent meets the tag and the name, and an argument or all are wanted.
  abbrev chosen : Torrent → Bool
  chosen t =
      not (fails_tag tag t) && (not (fails_filter filter t) && (is_all || any (matches_arg t) args))

  append_matches-All :
      (t : Torrent) (rest : List Text)
      → All
          (λ t'. (t' ≡ t) × (any (matches_arg t) rest ≡ true))
          (append_matches tag filter is_all args t rest)
  unfolding append_matches any
  append_matches-All t [] = tt
  append_matches-All t (arg ∷ rest) =
      let later : All (λ t'. (t' ≡ t) × ((matches_arg t arg || any (matches_arg t) rest) ≡ true))
          (append_matches tag filter is_all args t rest) =
        All-mono (λ t'. (t' ≡ t) × (any (matches_arg t) rest ≡ true)) _ _
          (λ t' h. (h.0, ||-right (matches_arg t arg) _ h.1)) (append_matches-All t rest) in
      if_ind (All (λ t'. (t' ≡ t) × ((matches_arg t arg || any (matches_arg t) rest) ≡ true)))
        (matches_arg t arg) (t ∷ append_matches tag filter is_all args t rest) _
        (λ e. ((refl, rw e refl), later)) (λ _. later)

  append_matches-Mem :
      (t : Torrent) (rest : List Text)
      → any (matches_arg t) rest ≡ true
      → Memᴰ t (append_matches tag filter is_all args t rest)
  unfolding append_matches any
  append_matches-Mem t [] h = cc
  append_matches-Mem t (arg ∷ rest) h = elim (Bool-cases (matches_arg t arg)) [
    | inl e ↦ rw e (Memᴰ.head refl)
    | inr e ↦ rw e (append_matches-Mem t rest (ground arith))
  ]

  append_one-Mem : (t : Torrent) → chosen t ≡ true → Memᴰ t (append_one tag filter is_all args t)
  unfolding append_one
  append_one-Mem t h =
      let a : fails_tag tag t ≡ false = ground arith in
      let b : fails_filter filter t ≡ false = ground arith in
      elim (Bool-cases is_all) [
        | inl e ↦ rw (a, b, e) (Memᴰ.head refl)
        | inr e ↦ rw (a, b, e) (append_matches-Mem t args (ground arith))
      ]

  append_one-All :
      (t : Torrent) → All (λ t'. (t' ≡ t) × (chosen t ≡ true)) (append_one tag filter is_all args t)
  unfolding append_one
  append_one-All t =
      let P = All (λ t'. (t' ≡ t) × (chosen t ≡ true)) in
      if_ind P (fails_tag tag t) _ _ (λ _. tt)
        (λ a.
          if_ind P (fails_filter filter t) _ _ (λ _. tt)
            (λ b.
              if_ind P is_all (t ∷ []) _ (λ e. ((refl, rw (a, b, e) refl), tt))
                (λ e.
                  All-mono (λ t'. (t' ≡ t) × (any (matches_arg t) args ≡ true)) _ _
                    (λ t' h. (h.0, rw (a, b, e) h.1)) (append_matches-All t args))))

  -- The items of a list are the chosen torrents of another.
  pub record IsChosenFrom (ts result : List Torrent) : Type 0 where
    pub sound : All (λ t. Memᴰ t ts × (chosen t ≡ true)) result
    pub complete : All (λ t. chosen t ≡ true → Memᴰ t result) ts

  append_all-IsChosenFrom :
      (ts : List Torrent) → IsChosenFrom ts (append_all tag filter is_all args ts)
  unfolding append_all
  append_all-IsChosenFrom [] = record { sound = tt; complete = tt }
  append_all-IsChosenFrom (t ∷ ts) =
      let first = append_one tag filter is_all args t in
      let rest = append_all tag filter is_all args ts in
      let h = append_all-IsChosenFrom ts in
      record {
        sound =
            All-append _ first rest
              (All-mono (λ t'. (t' ≡ t) × (chosen t ≡ true)) _ first
                (λ t' k. (Memᴰ.head k.0, subst (λ x. chosen x ≡ true) (sym k.0) k.1))
                (append_one-All t))
              (All-mono (λ t'. Memᴰ t' ts × (chosen t' ≡ true)) _ rest
                (λ t' k. (Memᴰ.tail k.0, k.1)) h.sound);
        complete = (
          (λ k. Mem-left t first rest (append_one-Mem t k)),
          All-mono (λ t'. chosen t' ≡ true → Memᴰ t' rest) _ ts
              (λ t' k c. Mem-right t' first rest (k c)) h.complete,
        );
      }

  unconditional-chosen :
      (t : Torrent) → (str_eq tag [] && (str_eq filter [] && is_all)) ≡ true → chosen t ≡ true
  unfolding fails_tag fails_filter
  unconditional-chosen t h =
      let a : str_eq tag [] ≡ true = ground arith in
      let b : str_eq filter [] ≡ true = ground arith in
      let c : is_all ≡ true = ground arith in rw (a, b, c) refl

  all-IsChosenFrom :
      (ts : List Torrent)
      → (str_eq tag [] && (str_eq filter [] && is_all)) ≡ true
      → IsChosenFrom ts ts
  all-IsChosenFrom ts h = record {
    sound = All-mono (λ t. Memᴰ t ts) _ ts (λ t m. (m, unconditional-chosen t h)) (All-Mem ts);
    complete = All-mono (λ t. Memᴰ t ts) _ ts (λ t m _. m) (All-Mem ts);
  }

module _ ⦃u : Unicode⦄ (client : Reads) (category tag filter : Text) (args : List Text) where
  -- The result, where there is one, is chosen from the torrents that the client lists.
  abbrev pub Queries : Option (List Torrent) → Type 0
  Queries none = Unit
  Queries (some result) =
      (ts : List Torrent) × (client.get_torrents [] category true ≡ some ts)
      × IsChosenFrom tag filter (wants_all args) args ts result

  -- QueryTorrents, where it gives no error, gives torrents that the client lists in the category,
  -- that have one of the tags or, for "none", no tag, whose names match the filter, and which match
  -- an argument, unless there is none or one is "_all"; and it gives all such torrents.
  pub query_torrents-Queries : Queries (query_torrents client category tag filter args)
  unfolding query_torrents
  query_torrents-Queries =
      bind_ind Queries (check_args args (is_empty args)) _ tt (λ is_all checked.
        bind_ind Queries (client.get_torrents [] category true) _ tt (λ ts listed.
          let whole : is_all ≡ wants_all args =
            subst (ChecksAll (is_empty args) args) checked
              (check_args-ChecksAll args (is_empty args)) in
          let unconditional =
            str_eq category [] && (str_eq tag [] && (str_eq filter [] && is_all)) in
          let result = if unconditional then ts else append_all tag filter is_all args ts in
          let h : IsChosenFrom tag filter is_all args ts result =
            if_ind (IsChosenFrom tag filter is_all args ts) unconditional ts _
              (λ e. all-IsChosenFrom tag filter is_all args ts (&&-true _ _ e).1)
              (λ _. append_all-IsChosenFrom tag filter is_all args ts) in
          (ts, listed, subst (λ b. IsChosenFrom tag filter b args ts result) whole h)))
