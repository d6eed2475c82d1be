-- ===== src/Tests/Locator.antt =====
-- A folder with the two files of the sample torrent, and one more.
use ptool.Base.{arith, ◌≡◌, refl, true, [], ◌∷◌, List, map}
use ptool.Base.Int.{pos}
use ptool.Base.Text.{codes}
use ptool.Util.Data.Unique.{NoRepeat}
use ptool.Locator.{FsFile, find_torrent_file_links}
use ptool.Locator.Uses.{chosen}
use ptool.Locator.Sound.{Matches, find_torrent_file_links-Matches}
use ptool.Tests.Samples.{program}
use ptool.Tests.TorrentMeta.{meta}

abbrev folder : List FsFile
folder =
    record { path = codes "/d/a"; name = codes "a"; size = pos 4 }
    ∷ record { path = codes "/d/x"; name = codes "x"; size = pos 4 }
    ∷ record { path = codes "/d/c"; name = codes "c"; size = pos 5 }
    ∷ []

located : (find_torrent_file_links (λ p. p) folder meta.files).ok ≡ true
unfolding program
located = refl

found_paths :
    map (λ f. f.path) (chosen (find_torrent_file_links (λ p. p) folder meta.files).links)
    ≡ codes "/d/a" ∷ codes "/d/c" ∷ []
unfolding program
found_paths = refl

find_torrent_file_links-Matches_example :
    let found = chosen (find_torrent_file_links (λ p. p) folder meta.files).links in
    Matches folder meta.files found × NoRepeat (map (λ f. f.path) found)
find_torrent_file_links-Matches_example =
    find_torrent_file_links-Matches (λ p. p) folder meta.files (omega arith) located
