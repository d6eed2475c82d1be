-- ===== src/Tests/Common.antt =====
-- A path mapper with two rules, and durations.
use ptool.Base.{arith, ◌≡◌, refl, Option, some, [], ◌∷◌, List}
use ptool.Base.Int.{ℤ, pos, negsuc}
use ptool.Base.Text.{Text, codes}
use ptool.Util.Data.{unique_slice}
use ptool.Util.Data.Unique.{contains_entry, NoRepeat, unique_slice-NoRepeat}
use ptool.Util.Duration.{leading_int, parse_duration}
use ptool.Util.Duration.Leading.{decimal, within, leading_int-decimal}
use ptool.Util.Duration.Fuel.{parse_duration_ends}
use ptool.Common.Paths.{new_path_mapper}
use ptool.DynamicSeeding.Replace.{Room, make_room}
use ptool.DynamicSeeding.Replace.Fuel.{IsDone, make_room-IsDone}
use ptool.Util.Datetime.{format_duration, first_two, parts_of, format_duration-first_two}
use ptool.Tests.Samples.{program, tenths, seeded_torrent}

-- These paths are clean.
abbrev rules : List Text
rules = codes "/data|/mnt" ∷ codes "/data/tv|/tv" ∷ []

made :
    new_path_mapper (λ p. p) rules
    ≡ some (record {
      mapper = (codes "/data", codes "/mnt") ∷ (codes "/data/tv", codes "/tv") ∷ [];
      befores = codes "/data/tv" ∷ codes "/data" ∷ [];
    })
unfolding program
made = refl

abbrev pairs : List (Text × Text)
pairs = (codes "/data", codes "/mnt") ∷ (codes "/data/tv", codes "/tv") ∷ []

half_day : parse_duration ℤ (codes "-1d12h") ≡ some (some (negsuc 129599999999999))
unfolding program
half_day = refl

leading_int-decimal_example : leading_int (codes "90s") ≡ within (decimal 0 (codes "90s"))
leading_int-decimal_example = leading_int-decimal (codes "90s")

parse_duration_ends_example : (r : Option ℤ) × (parse_duration ℤ (codes "2h3m") ≡ some r)
parse_duration_ends_example = parse_duration_ends ℤ (codes "2h3m")

abbrev room : Room (seeded_torrent ∷ [])
room = record {
  available = pos 0;
  pools = record { invalid = []; stalled = []; safe = codes "e4" ∷ []; normal = [] };
  deletes = [];
}

make_room-IsDone_example :
    IsDone
      (seeded_torrent ∷ [])
      (pos 3)
      (pos 1)
      (pos 5000)
      (make_room (seeded_torrent ∷ []) 1 (pos 3) (pos 5000) (pos 1) room)
make_room-IsDone_example =
    make_room-IsDone (seeded_torrent ∷ []) (pos 3) (pos 1) 1 (pos 5000) room (omega arith)

unique_slice-NoRepeat_example :
    let names = codes "a" ∷ codes "b" ∷ codes "a" ∷ [] in
    NoRepeat (unique_slice names)
    × ((k : Text) → contains_entry k (unique_slice names) ≡ contains_entry k names)
unique_slice-NoRepeat_example = unique_slice-NoRepeat (codes "a" ∷ codes "b" ∷ codes "a" ∷ [])

a_day : format_duration (pos 86465) ≡ codes "1d1m"
unfolding program
a_day = refl

format_duration-first_two_example : format_duration (pos 86465) ≡ first_two (parts_of (pos 86465))
format_duration-first_two_example =
    format_duration-first_two (pos 86465) (record { above = omega arith; below = omega arith })
