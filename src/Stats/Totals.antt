-- ===== src/Stats/Totals.antt =====
-- The rows of a record share out its time.
use native.Mathlib.Nat.{mul-le-mul_right, add-mul, mul-div-le}
use ptool.Base.{
  ℕ, zero, suc, ◌+◌, ◌-◌, ◌*◌, ◌/◌, ◌≤◌, ◌<◌, false, Option, some, List, [], ◌∷◌, if◌then◌else◌,
  ltb, ◌==◌, ◌≡◌, refl, sym, ap, ◌∙◌, ◌⊎◌, inl, inr, Bool-cases, arith, ==_iff,
}
use ptool.Base.Int.{ℤ, pos}
use ptool.Base.Int64.{add64, quot64}
use ptool.Base.Int64.Exact.{add64_pos, sub64_pos, mul64_pos, lt64_pos, eq64_pos, quot64_pos}
use ptool.Base.Text.{Text}
use ptool.Stats.{TorrentTraffic, Stat, amount, timespan_of, traffic_of, day_loop, rows_of}

-- The int64 sum of what `get` reads of the rows.
abbrev pub total : (TorrentTraffic → ℤ) → List TorrentTraffic → ℤ
total get [] = pos 0
total get (row ∷ rows) = add64 (get row) (total get rows)

-- The end of the row's time.
abbrev end_of : ℕ → ℕ → ℕ
end_of t y = if ltb t y then t else y

amount_exact :
    (t a v x y : ℕ)
    → x < t
    → x < y
    → (x ≡ a) ⊎ (y ≡ x + 86400)
    → t < 9223372036854775808
    → (end_of t y - x) * v < 9223372036854775808
    → amount (pos t) (pos a) (pos v) (pos x) (pos y) ≡ pos ((end_of t y - x) * v)
unfolding amount
amount_exact t a v x y hx hy full ht h = elim (Bool-cases (ltb t y)) [
  | inl e ↦
      let h' : (t - x) * v < 9223372036854775808 = rw e at h in
      rw (amount, lt64_pos t y, e, sub64_pos t x (omega arith) ht, mul64_pos (t - x) v h') refl
  | inr e ↦ elim (Bool-cases (x == a)) [
    | inl q ↦
        let h' : (y - x) * v < 9223372036854775808 = rw e at h in
        rw
          (
            amount,
            lt64_pos t y,
            e,
            eq64_pos x a,
            q,
            sub64_pos y x (omega arith) (ground arith),
            mul64_pos (y - x) v h',
          )
          refl
    | inr q ↦
        let h' : (y - x) * v < 9223372036854775808 = rw e at h in
        let whole : y - x ≡ 86400 = ground (arith, ==_iff x a) in
        rw (amount, lt64_pos t y, e, eq64_pos x a, q, mul64_pos 86400 v (rw whole at h'))
          (ap (λ n. pos (n * v)) (sym whole))
  ]
]

split_time : (t x y v : ℕ) → x ≤ y → y ≤ t → (y - x) * v + (t - y) * v ≡ (t - x) * v
split_time t x y v h k = sym (add-mul (y - x) (t - y) v) ∙ ap (λ n. n * v) (omega arith)

-- That many turns get from x, whose day ends at y, to t.
abbrev IsEnough : ℕ → ℕ → ℕ → ℕ → Type 0
IsEnough t x y zero = t ≤ x
IsEnough t x y (suc fuel) = t ≤ y + fuel * 86400

next_turn_suffices : (t x y fuel : ℕ) → IsEnough t x y (suc fuel) → IsEnough t y (y + 86400) fuel
next_turn_suffices t x y zero h = omega (arith, h)
next_turn_suffices t x y (suc fuel) h = omega (arith, h)

no_time : (t x v : ℕ) → t ≤ x → (t - x) * v ≡ 0
no_time t x v h = let none_left : t - x ≡ 0 = omega arith in rw none_left (omega arith)

less_time :
    (t x y v : ℕ) → x ≤ y → (t - x) * v < 9223372036854775808 → (t - y) * v < 9223372036854775808
less_time t x y v h k =
    let fewer : (t - y) * v ≤ (t - x) * v = mul-le-mul_right v (omega arith) in omega arith

add_parts :
    (t x y v : ℕ)
    → x < t
    → x < y
    → (t - x) * v < 9223372036854775808
    → add64 (pos ((end_of t y - x) * v)) (pos ((t - y) * v)) ≡ pos ((t - x) * v)
add_parts t x y v hx hy h = elim (Bool-cases (ltb t y)) [
  | inl e ↦
      rw (e, no_time t y v (ground arith), add64_pos ((t - x) * v) 0 (omega arith))
        (ap pos (omega arith))
  | inr e ↦
      let whole = split_time t x y v (omega arith) (ground arith) in
      rw (e, add64_pos ((y - x) * v) ((t - y) * v) (omega (arith, whole)), whole) refl
]

part_time :
    (t x y v : ℕ) → (t - x) * v < 9223372036854775808 → (end_of t y - x) * v < 9223372036854775808
part_time t x y v k =
    let fewer : (end_of t y - x) * v ≤ (t - x) * v = mul-le-mul_right v (ground arith) in
    omega arith

not_before : (x t : ℕ) → t ≤ x → ltb x t ≡ false
not_before x t h = ground arith

module _ (format_date : ℤ → Text) (day_start : Text → ℤ) (stat : Stat) (get : TorrentTraffic → ℤ)
    (t a v : ℕ) (ts_eq : stat.ts ≡ pos t)
    (gets : (x y : ℕ) (day : Text)
      → get (traffic_of stat (pos x) day (pos y)) ≡ amount (pos t) (pos a) (pos v) (pos x) (pos y))
    (ht : t + 172800 < 9223372036854775808) where
  day_loop-total :
      (fuel x y : ℕ) (day : Text)
      → IsEnough t x y fuel
      → x < y
      → y ≤ x + 86400
      → (x ≡ a) ⊎ (y ≡ x + 86400)
      → (t - x) * v < 9223372036854775808
      → (rows : List TorrentTraffic) × (day_loop format_date day_start stat fuel (pos x) day (pos y)
          ≡ some rows)
        × (total get rows ≡ pos ((t - x) * v))
  unfolding day_loop
  day_loop-total zero x y day enough hy near full h = (
    [],
    rw (day_loop, ts_eq, lt64_pos x t, not_before x t enough) refl,
    ap pos (sym (no_time t x v enough)),
  )
  day_loop-total (suc fuel) x y day enough hy near full h = elim (Bool-cases (ltb x t)) [
    | inr e ↦ (
      [],
      rw (day_loop, ts_eq, lt64_pos x t, e) refl,
      ap pos (sym (no_time t x v (ground arith))),
    )
    | inl e ↦
        let (rows, ran, sum) =
          day_loop-total fuel y (y + 86400) (format_date (pos y))
            (next_turn_suffices t x y fuel enough) (omega arith) (omega arith) (inr refl)
            (less_time t x y v (omega arith) h) in
        let before : x < t = ground arith in
        (
          traffic_of stat (pos x) day (pos y) ∷ rows,
          rw (day_loop, ts_eq, lt64_pos x t, e, add64_pos y 86400 (omega arith), ran) refl,
          rw
              (
                gets x y day,
                sum,
                amount_exact t a v x y before hy full (omega arith) (part_time t x y v h),
              )
              (add_parts t x y v before hy h),
        )
  ]

days_suffice : (t a d fuel : ℕ) → d ≤ a → t ≤ d + fuel * 86400 → IsEnough t a (d + 86400) fuel
days_suffice t a d zero h k = omega arith
days_suffice t a d (suc fuel) h k = omega (arith, k)

row_amount :
    (stat : Stat) (t a n : ℕ) (part : ℤ)
    → stat.ts ≡ pos t
    → stat.data_of.atime ≡ pos a
    → part ≡ pos n
    → a ≤ t
    → t < 9223372036854775808
    → n < 9223372036854775808
    → quot64 part (timespan_of stat) ≡ pos (n / (t - a))
unfolding timespan_of
row_amount stat t a n part ts_eq at_eq n_eq h kt kn =
    rw (ts_eq, at_eq, n_eq, sub64_pos t a h kt) (quot64_pos n (t - a) kn)

same_rows : (xs ys : List TorrentTraffic) → some xs ≡ some ys → xs ≡ ys
same_rows xs ys h = cc

rows_of-start :
    (format_date : ℤ → Text) (day_start : Text → ℤ) (stat : Stat) (fuel a d : ℕ)
    → stat.data_of.atime ≡ pos a
    → day_start (format_date (pos a)) ≡ pos d
    → d + 86400 < 9223372036854775808
    → rows_of format_date day_start fuel stat
      ≡ day_loop format_date day_start stat fuel (pos a) (format_date (pos a)) (pos (d + 86400))
unfolding rows_of
rows_of-start format_date day_start stat fuel a d at_eq de h =
    let loop : ℤ → ℤ → Option (List TorrentTraffic) =
      λ time next. day_loop format_date day_start stat fuel time (format_date time) next in
    ap (λ time. loop time (add64 (day_start (format_date time)) (pos 86400))) at_eq
    ∙ ap (λ s. loop (pos a) (add64 s (pos 86400))) de
    ∙ ap (loop (pos a)) (add64_pos d 86400 h)

-- For a record of t - a seconds, with as much fuel as there are days from the start of its first day
-- to its end, the loop ends, and its rows have, added up, t - a times the bytes a second, downloaded
-- and uploaded, that the record comes to. The local days have 86400 seconds.
pub rows_of-total :
    (format_date : ℤ → Text) (day_start : Text → ℤ) (stat : Stat) (fuel t a d down up : ℕ)
    → stat.ts ≡ pos t
    → stat.data_of.atime ≡ pos a
    → stat.data_of.downloaded ≡ pos down
    → stat.data_of.uploaded ≡ pos up
    → a < t
    → t + 172800 < 9223372036854775808
    → down < 9223372036854775808
    → up < 9223372036854775808
    → day_start (format_date (pos a)) ≡ pos d
    → d ≤ a
    → a < d + 86400
    → t ≤ d + fuel * 86400
    → (rows : List TorrentTraffic) × (rows_of format_date day_start fuel stat ≡ some rows)
      × (total (λ r. r.downloaded) rows ≡ pos ((t - a) * (down / (t - a))))
      × (total (λ r. r.uploaded) rows ≡ pos ((t - a) * (up / (t - a))))
unfolding traffic_of
rows_of-total format_date day_start stat fuel t a d down up ts_eq at_eq down_eq up_eq h ht hd hu de
      near day enough =
    let v = down / (t - a) in
    let u = up / (t - a) in
    let many = days_suffice t a d fuel near enough in
    let down_speed =
      row_amount stat t a down _ ts_eq at_eq down_eq (omega arith) (omega arith) hd in
    let up_speed = row_amount stat t a up _ ts_eq at_eq up_eq (omega arith) (omega arith) hu in
    let (rows, ran, sum) =
      day_loop-total format_date day_start stat (λ r. r.downloaded) t a v ts_eq
        (λ x y day. rw (traffic_of, down_speed, ts_eq, at_eq) refl) ht fuel a (d + 86400)
        (format_date (pos a)) many day (omega arith) (inl refl)
        (omega (arith, mul-div-le down (t - a))) in
    let (rows', ran', sum') =
      day_loop-total format_date day_start stat (λ r. r.uploaded) t a u ts_eq
        (λ x y day. rw (traffic_of, up_speed, ts_eq, at_eq) refl) ht fuel a (d + 86400)
        (format_date (pos a)) many day (omega arith) (inl refl)
        (omega (arith, mul-div-le up (t - a))) in
    (
      rows,
      rows_of-start format_date day_start stat fuel a d at_eq de (omega arith) ∙ ran,
      sum,
      rw (same_rows rows rows' (sym ran ∙ ran')) sum',
    )
