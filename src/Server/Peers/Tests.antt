-- ===== src/Server/Peers/Tests.antt =====
-- A run of the peers file.
use krot.Base.{bytes_eq, ◌≡◌, refl, [], ◌∷◌, text, Bytes}
use krot.Base.HashSet.{contains}
use krot.Server.Rate.{trim, trim_start, trim_end}
use krot.Server.Text.{lines}
use krot.Server.Peers.{parse_peers, peer_lines}
use krot.Server.Peers.Listing.{names_on, firsts, parse_peers-firsts}

abbrev contents : Bytes
contents = text "# ours\n b.example \n\na.example\r\nb.example"

two_peers : parse_peers contents ≡ text "b.example" ∷ text "a.example" ∷ []
unfolding parse_peers peer_lines lines trim trim_start trim_end contains bytes_eq
two_peers = refl

parse_peers-firsts_example : parse_peers contents ≡ firsts (names_on (lines contents))
parse_peers-firsts_example = parse_peers-firsts contents
