-- ===== src/DynamicSeeding/Command/Ignores.antt =====
-- The ignore file, which the next run of the command reads.
use mathlib.Core.Path.{subst}
use ptool.Base.{
  ℕ, zero, suc, ◌-◌, ◌+◌, ◌≤◌, Bool, true, false, not, ◌&&◌, if◌then◌else◌, map, List, [], ◌∷◌,
  ◌++◌, ◌≡◌, refl, ap, inl, inr, Bool-cases, All, All-append, arith, is_nil, if_ind, length, ltb,
  any,
}
use ptool.Base.Int.{ℤ, pos, negsuc}
use ptool.Base.Int64.{add64, lt64}
use ptool.Base.Text.{Text, codes}
use ptool.Base.Dict.{get_or}
use ptool.Base.Fields.{split, join, IsField, split-join, split-IsField}
use ptool.Base.Decimal.{sprint, is_digit, any-digits}
use ptool.Client
use ptool.Client.Xseed.{delete_torrents_auto}
use ptool.DynamicSeeding.Data.{Result}
use ptool.DynamicSeeding.Command.{
  World, Deleting, no_deletes, choose_deletes, skip, kept_ignores, Done, delete_all, added_of,
  deletes_of, carry_out,
}
use ptool.DynamicSeeding.Command.Deletes.{Reaches, ids_of, choose_deletes-Chosen}

sprint-IsField : (a : ℤ) → IsField 10 (sprint a)
unfolding sprint any is_digit
sprint-IsField (pos n) = any-digits 10 19 n refl
sprint-IsField (negsuc n) = any-digits 10 19 (n + 1) refl

ids_of-IsField : (ts : List Client.Torrent) → All (IsField 10) (ids_of ts)
unfolding ids_of
ids_of-IsField [] = tt
ids_of-IsField (t ∷ ts) =
    let id = get_or (codes "id") t.meta (pos 0) in
    if_ind (λ ids. All (IsField 10) ids) (lt64 (pos 0) id) (sprint id ∷ ids_of ts) (ids_of ts)
      (λ _. (sprint-IsField id, ids_of-IsField ts)) (λ _. ids_of-IsField ts)

-- The items that `skip` takes off, and those that it leaves.
skip_parts :
    {A : Type 0} (n : ℕ) (xs : List A)
    → n ≤ length xs
    → (lost : List A) × (xs ≡ lost ++ skip n xs) × (length (skip n xs) ≡ length xs - n)
skip_parts zero xs h = ([], refl, omega arith)
skip_parts (suc n) [] h = ([], refl, omega arith)
skip_parts (suc n) (x ∷ xs) h =
    let (lost, e, k) = skip_parts n xs (omega arith) in
    (x ∷ lost, ap (λ ys. x ∷ ys) e, omega (arith, k))

skip-All : {A : Type 0} (P : A → Type 0) (n : ℕ) (xs : List A) → All P xs → All P (skip n xs)
skip-All P zero xs h = h
skip-All P (suc n) [] h = tt
skip-All P (suc n) (x ∷ xs) h = skip-All P n xs h.1

is_nil_of_length : {A : Type 0} (xs : List A) → 1 ≤ length xs → is_nil xs ≡ false
is_nil_of_length [] h = ground arith
is_nil_of_length (x ∷ xs) h = refl

-- 100, or the number of items where there are fewer.
abbrev pub up_to_100 : List Text → ℕ
up_to_100 xs = if ltb 100 (length xs) then 100 else length xs

-- The last 100 items of the list, or all; not empty if the list is not.
record IsKept (xs kept : List Text) : Type 0 where
  lost : List Text
  parts : xs ≡ lost ++ kept
  size : length kept ≡ up_to_100 xs
  some_left : is_nil xs ≡ false → is_nil kept ≡ false

kept_ignores-IsKept : (xs : List Text) → IsKept xs (kept_ignores xs)
unfolding kept_ignores
kept_ignores-IsKept xs = elim (Bool-cases (ltb 100 (length xs))) [
  | inl e ↦
      let (lost, parts, size) = skip_parts (length xs - 100) xs (omega arith) in
      rw e (record {
        lost = lost;
        parts = parts;
        size = ground (arith, size);
        some_left = λ _. is_nil_of_length (skip (length xs - 100) xs) (ground (arith, size));
      })
  | inr e ↦ rw e (record { lost = []; parts = refl; size = rw e refl; some_left = λ h. h })
]

kept_ignores-All : (P : Text → Type 0) (xs : List Text) → All P xs → All P (kept_ignores xs)
unfolding kept_ignores
kept_ignores-All P xs h =
    if_ind (All P) (ltb 100 (length xs)) (skip (length xs - 100) xs) xs
      (λ _. skip-All P (length xs - 100) xs h) (λ _. h)

split-join_some :
    (fields : List Text)
    → is_nil fields ≡ false
    → All (IsField 10) fields
    → split 10 (join 10 fields) ≡ fields
split-join_some [] e h = ground arith
split-join_some (field ∷ fields) e h = split-join 10 field fields h

is_nil-append : {A : Type 0} (xs ys : List A) → is_nil ys ≡ false → is_nil (xs ++ ys) ≡ false
is_nil-append [] ys h = h
is_nil-append (x ∷ xs) ys h = refl

-- The new file has the last lines of the old one and the ids: 100, or all where there are fewer.
pub record LastLines (old new : Text) (ids : List Text) : Type 0 where
  pub lost : List Text
  pub parts : split 10 old ++ ids ≡ lost ++ split 10 new
  pub size : length (split 10 new) ≡ up_to_100 (split 10 old ++ ids)

-- The file is written, or stays.
abbrev pub FileOf : Bool → Text → Text → List Text → Type 0
FileOf true old new ids = LastLines old new ids
FileOf false old new ids = new ≡ old

join-LastLines :
    (old : Text) (ids : List Text)
    → is_nil ids ≡ false
    → All (IsField 10) ids
    → LastLines old (join 10 (kept_ignores (split 10 old ++ ids))) ids
join-LastLines old ids h fields =
    let lines = split 10 old ++ ids in
    let kept = kept_ignores-IsKept lines in
    let same =
      split-join_some (kept_ignores lines) (kept.some_left (is_nil-append (split 10 old) ids h)) (
        kept_ignores-All (IsField 10) lines
          (All-append (IsField 10) (split 10 old) ids (split-IsField 10 old) fields)) in
    record { lost = kept.lost; parts = rw same kept.parts; size = rw same kept.size }

-- The client and the file after a deletion of the torrents with these hashes and ids.
abbrev pub AfterDeletion :
    {S : Type 0} → World S → Text → S → List Text → List Text → Done S → Type 0
AfterDeletion world old s hashes ids r =
    let deletion = delete_torrents_auto (world.reads s) world.delete_torrents hashes s in
    (r.client ≡ (if is_nil hashes then s else deletion.1))
    × FileOf (not (is_nil hashes) && (deletion.0 && not (is_nil ids))) old r.ignore_file ids

AfterDeletion-same :
    {S : Type 0} (world : World S) (old : Text) (s : S) (hashes hashes' ids ids' : List Text)
    (r : Done S)
    → hashes ≡ hashes'
    → ids ≡ ids'
    → AfterDeletion world old s hashes ids r
    → AfterDeletion world old s hashes' ids' r
AfterDeletion-same world old s hashes hashes' ids ids' r e f h =
    subst (λ hashes. AfterDeletion world old s hashes ids' r) e
      (subst (λ ids. AfterDeletion world old s hashes ids r) f h)

delete_all-AfterDeletion :
    {S : Type 0} (world : World S) (old : Text) (deletes : Deleting) (error_cnt : ℤ) (s : S)
    → All (IsField 10) deletes.ids
    → AfterDeletion world old s deletes.info_hashes deletes.ids
        (delete_all world old deletes error_cnt s)
unfolding delete_all
delete_all-AfterDeletion world old deletes error_cnt s h =
    let ok = (delete_torrents_auto (world.reads s) world.delete_torrents deletes.info_hashes s).0 in
    elim (Bool-cases (is_nil deletes.info_hashes)) [
      | inl e ↦ rw e (refl, refl)
      | inr e ↦ elim (Bool-cases ok) [
        | inr f ↦ rw (e, f) (refl, refl)
        | inl f ↦ elim (Bool-cases (is_nil deletes.ids)) [
          | inl g ↦ rw (e, f, g) (refl, refl)
          | inr g ↦ rw (e, f, g) (refl, join-LastLines old deletes.ids g h)
        ]
      ]
    ]

-- What the command does with the decision: it deletes the torrents `deleted`.
pub record Deletes {F S : Type 0} (world : World S) (result : Result F) (old : Text) (s : S)
    (r : Done S) : Type 0 where
  pub deleted : List Client.Torrent
  pub rest : List Client.Torrent
  pub parts : result.delete_torrents ≡ deleted ++ rest
  pub reaches :
      let limit = add64 (added_of world result s).added_size result.overflow_space in
      Reaches limit (pos 0) deleted rest
  pub after :
      AfterDeletion world old
        (added_of world result s).client
        (map (λ t. t.info_hash) deleted)
        (ids_of deleted)
        r

-- A dry run changes nothing.
abbrev pub Remembers : {F S : Type 0} → World S → Bool → Result F → Text → S → Done S → Type 0
Remembers world true result old s r = (r.ignore_file ≡ old) × (r.client ≡ s)
Remembers world false result old s r = Deletes world result old s r

carry_out-Deletes :
    {F S : Type 0} (world : World S) (result : Result F) (old : Text) (s : S)
    → Deletes world result old s (carry_out world false result old s)
unfolding carry_out deletes_of
carry_out-Deletes world result old s =
    let added = added_of world result s in
    let limit = add64 added.added_size result.overflow_space in
    let chosen = choose_deletes-Chosen limit result.delete_torrents no_deletes in
    let deletes = choose_deletes limit result.delete_torrents no_deletes in
    record {
      deleted = chosen.deleted;
      rest = chosen.rest;
      parts = chosen.parts;
      reaches = chosen.reaches;
      after =
          AfterDeletion-same world old added.client _ _ _ _
            (delete_all world old deletes added.error_cnt added.client) chosen.info_hashes
            chosen.ids
            (delete_all-AfterDeletion world old deletes added.error_cnt added.client
              (rw chosen.ids (ids_of-IsField chosen.deleted)));
    }

-- A dry run leaves the client and the ignore file as they are. Else the command adds torrents, and
-- deletes with DeleteTorrentsAuto the shortest first part of the decision's torrents whose sizes come
-- to the added size and the overflow, or all. Where there is one, the deletion has no error and the
-- deleted torrents have ids, it writes a file that the next run reads as the last 100 (or all, where
-- there are fewer) of the file's lines and these ids; else the file stays.
pub carry_out-Remembers :
    {F S : Type 0} (world : World S) (dry_run : Bool) (result : Result F) (old : Text) (s : S)
    → Remembers world dry_run result old s (carry_out world dry_run result old s)
unfolding carry_out
carry_out-Remembers world true result old s = (refl, refl)
carry_out-Remembers world false result old s = carry_out-Deletes world result old s
