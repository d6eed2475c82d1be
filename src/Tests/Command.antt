-- ===== src/Tests/Command.antt =====
-- A run of the dynamic seeding command that adds one torrent and deletes one.
use ptool.Base.{
  ◌==◌, if◌then◌else◌, any, arith, ◌≡◌, refl, Bool, true, false, some, [], ◌∷◌, ◌++◌, List, All,
}
use ptool.Base.Int.{ℤ, pos, negsuc}
use ptool.Base.Text.{Text, codes}
use ptool.Base.Decimal.{sprint}
use ptool.Client
use ptool.Client.Whole.{IsWholeHash}
use ptool.Client.Xseed.{known}
use ptool.Util.Strings.{parse_int}
use ptool.Util.Strings.Ints.{parse_int-sprint}
use ptool.DynamicSeeding.Data.{Result, Msg}
use ptool.DynamicSeeding.Command.{World, no_deletes, choose_deletes, deletes_of, carry_out}
use ptool.DynamicSeeding.Command.Deletes.{Chosen, choose_deletes-Chosen, carry_out-keeps}
use ptool.DynamicSeeding.Command.Ignores.{Remembers, carry_out-Remembers}
use ptool.Tests.Samples.{program, client, seeded_torrent, plain_torrent, free_torrent}
use ptool.Tests.TorrentMeta.{meta}

-- The state is the list of the calls of DeleteTorrents, the last first.
abbrev world : World (List (List Text × Bool))
world = record {
  download = λ name. some name;
  parse = λ contents. some meta;
  trim_space = λ s. s;
  add_torrent = λ contents option meta calls. (true, calls);
  reads = λ calls. client;
  delete_torrents = λ hashes files calls. (true, (hashes, files) ∷ calls);
}

abbrev seeded_id : Client.Torrent
seeded_id = record seeded_torrent { meta = (codes "id", pos 77) ∷ [] }

abbrev result : Result ℤ
result = record {
  overflow_space = pos 0;
  timestamp = pos 0;
  sitename = codes "site";
  size = pos 0;
  delete_torrents = seeded_id ∷ plain_torrent ∷ [];
  add_torrents = free_torrent ∷ [];
  add_category = codes "c";
  add_tags = [];
  msg = Msg.no_message;
}

ran : (carry_out world false result (codes "5") []).ignore_file ≡ codes "5" ++ 10 ∷ codes "77"
unfolding program
ran = refl

choose_deletes-Chosen_example :
    Chosen
      (pos 1)
      (seeded_id ∷ plain_torrent ∷ [])
      no_deletes
      (choose_deletes (pos 1) (seeded_id ∷ plain_torrent ∷ []) no_deletes)
choose_deletes-Chosen_example =
    choose_deletes-Chosen (pos 1) (seeded_id ∷ plain_torrent ∷ []) no_deletes

-- Each call with the files is for torrents to delete whose content no torrent that stays has.
abbrev SparesRest : List (List Text × Bool) → Type 0
SparesRest [] = Unit
SparesRest ((hashes, true) ∷ calls) =
    All (IsWholeHash client (known client (deletes_of world result []).info_hashes)) hashes
    × SparesRest calls
SparesRest ((hashes, false) ∷ calls) = SparesRest calls

carry_out-keeps_example : SparesRest (carry_out world false result (codes "5") []).client
carry_out-keeps_example =
    carry_out-keeps world SparesRest (λ contents option meta s p. p) false result (codes "5") []
      (λ hashes s p. p) (λ hashes s h p. (h, p)) tt

carry_out-Remembers_example :
    Remembers world false result (codes "5") [] (carry_out world false result (codes "5") [])
carry_out-Remembers_example = carry_out-Remembers world false result (codes "5") []

-- Takes off the spaces in front, as much of strings.TrimSpace as the example needs.
abbrev trim_left : Text → Text
trim_left [] = []
trim_left (c ∷ s) = let rest = trim_left s in if c == b' ' then rest else c ∷ s

parse_int-sprint_example : parse_int trim_left (codes " -1,024") ≡ negsuc 1023
unfolding program any sprint
parse_int-sprint_example =
    parse_int-sprint trim_left (negsuc 1023) (codes " ") [] (codes "-1" ∷ codes "024" ∷ [])
      (record { above = omega arith; below = omega arith }) refl refl refl refl
