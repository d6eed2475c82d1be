-- ===== src/Tests/Stats.antt =====
-- A record of 100,000 seconds, which begins on the second day.
use ptool.Base.{arith, ◌≡◌, refl, ◌-◌, ◌*◌, ◌/◌, some, none, [], ◌∷◌, List, map, ◌>>=◌}
use ptool.Base.Int.{ℤ, pos}
use ptool.Base.Int64.{mul64, quot64}
use ptool.Base.Text.{Text, codes}
use ptool.Base.Decimal.{sprint, parse_int_value}
use ptool.Stats.{TorrentTraffic, Stat, rows_of, read_records}
use ptool.Stats.Totals.{total, rows_of-total}
use ptool.Tests.Samples.{program}

-- Days as their numbers.
abbrev format_date : ℤ → Text
format_date time = sprint (quot64 time (pos 86400))

abbrev day_start : Text → ℤ
day_start day = mul64 (parse_int_value day) (pos 86400)

abbrev stat : Stat
stat = record {
  ts = pos 200000;
  event = pos 1;
  data_of = record {
    client = codes "qb";
    site = codes "s";
    category = [];
    info_hash = codes "e1";
    name = codes "n";
    size = pos 9;
    atime = pos 100000;
    uploaded = pos 500000;
    downloaded = pos 250000;
    msg = [];
  };
}

days :
    (read_records format_date day_start 9 (some stat ∷ none ∷ some stat ∷ []) []
      >>= (λ rows. some (map (λ r. r.uploaded) rows)))
    ≡ some (pos 364000 ∷ pos 136000 ∷ [])
unfolding program
days = refl

first_day : day_start (format_date (pos 100000)) ≡ pos 86400
unfolding program
first_day = refl

rows_of-total_example :
    (rows : List TorrentTraffic) × (rows_of format_date day_start 2 stat ≡ some rows)
    × (total (λ r. r.downloaded) rows ≡ pos ((200000 - 100000) * (250000 / (200000 - 100000))))
    × (total (λ r. r.uploaded) rows ≡ pos ((200000 - 100000) * (500000 / (200000 - 100000))))
rows_of-total_example =
    rows_of-total format_date day_start stat 2 200000 100000 86400 250000 500000 refl refl refl refl
      (omega arith) (omega arith) (omega arith) (omega arith) first_day (omega arith) (omega arith)
      (omega arith)
