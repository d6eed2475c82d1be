-- ===== src/Stats.antt =====
-- stats/stats.go: the traffic of each day, from the records of the torrents.
pub mod Totals
use ptool.Base.{
  ◌>>=◌, ℕ, zero, suc, Bool, true, false, not, ◌&&◌, ◌||◌, Option, none, some, List, [], ◌∷◌, ◌++◌,
  if◌then◌else◌, any,
}
use ptool.Base.Int.{ℤ, pos}
use ptool.Base.Int64.{add64, sub64, mul64, quot64, lt64, eq64}
use ptool.Base.Text.{Text, str_eq}
use ptool.Base.Decimal.{sprint}

pub record TorrentTraffic : Type 0 where
  pub client : Text
  pub day : Text
  pub site : Text
  pub downloaded : ℤ
  pub uploaded : ℤ

pub record TorrentStat : Type 0 where
  pub client : Text
  pub site : Text
  pub category : Text
  pub info_hash : Text
  pub name : Text
  pub size : ℤ
  pub atime : ℤ
  pub uploaded : ℤ
  pub downloaded : ℤ
  pub msg : Text

pub record Stat : Type 0 where
  pub ts : ℤ
  pub event : ℤ
  pub data_of : TorrentStat

-- The traffic from `time` to the next day or the record's time, at that many bytes a second.
unfoldable pub amount : ℤ → ℤ → ℤ → ℤ → ℤ → ℤ
amount ts atime speed time next =
    if lt64 ts next
    then mul64 (sub64 ts time) speed
    else if eq64 time atime
    then mul64 (sub64 next time) speed
    else mul64 (pos 86400) speed

unfoldable pub timespan_of : Stat → ℤ
timespan_of stat = sub64 stat.ts stat.data_of.atime

-- What the loop adds to the table for a day.
unfoldable pub traffic_of : Stat → ℤ → Text → ℤ → TorrentTraffic
traffic_of stat time day next =
    let data' = stat.data_of in
    record {
      client = data'.client;
      day = day;
      site = data'.site;
      downloaded =
          amount stat.ts data'.atime (quot64 data'.downloaded (timespan_of stat)) time next;
      uploaded = amount stat.ts data'.atime (quot64 data'.uploaded (timespan_of stat)) time next;
    }

-- FormatDate and the result of ParseLocalDateTime are parameters: they depend on the time zone.
module _ (format_date : ℤ → Text) (day_start : Text → ℤ) where
  -- The rows that the inner loop adds; `none` is a loop that ran out of fuel.
  unfoldable pub day_loop : Stat → ℕ → ℤ → Text → ℤ → Option (List TorrentTraffic)
  day_loop stat zero time day next = if lt64 time stat.ts then none else some []
  day_loop stat (suc fuel) time day next =
      let rest = day_loop stat fuel next (format_date next) (add64 next (pos 86400)) in
      if lt64 time stat.ts
      then (rest >>= (λ rows. some (traffic_of stat time day next ∷ rows)))
      else some []

  unfoldable pub rows_of : ℕ → Stat → Option (List TorrentTraffic)
  unfolding day_loop
  rows_of fuel stat =
      let time = stat.data_of.atime in
      let day = format_date time in day_loop stat fuel time day (add64 (day_start day) (pos 86400))

  unfoldable pub record_id : Stat → Text
  unfolding sprint
  record_id stat = stat.data_of.client ++ stat.data_of.info_hash ++ sprint stat.data_of.atime

  -- The loop of NewDb over the lines of the file; a line that is not a record is `none`.
  unfoldable pub read_records : ℕ → List (Option Stat) → List Text → Option (List TorrentTraffic)
  unfolding rows_of record_id any eq64
  read_records fuel [] flags = some []
  read_records fuel (none ∷ lines) flags = read_records fuel lines flags
  read_records fuel (some stat ∷ lines) flags =
      let skipped = read_records fuel lines flags in
      let rest = read_records fuel lines (record_id stat ∷ flags) in
      if not (eq64 stat.event (pos 1)) || eq64 (timespan_of stat) (pos 0)
      then skipped
      else if any (str_eq (record_id stat)) flags
      then skipped
      else (rows_of fuel stat >>= (λ rows. rest >>= (λ more. some (rows ++ more))))
