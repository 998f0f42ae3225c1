-- ===== src/Server/PeerLookup/Tests.antt =====
-- Runs of the collision check.
use krot.Base.{text_eq, ◌≡◌, refl, if◌then◌else◌, bytes_eq, List, [], ◌∷◌, Bytes, text}
use krot.Server.PeerLookup.{Lookup, found, unavailable, conflict, check_collision}
use krot.Server.PeerLookup.Verdict.{verdict, others, own, check_collision_exact}

-- `a` has the label for identity 1, `b` for identity 2.
abbrev lookup : Lookup
lookup peer label =
    if bytes_eq peer (text "a")
    then found 1
    else if bytes_eq peer (text "b")
    then found 2
    else unavailable

abbrev relays : List Bytes
relays = text "c" ∷ text "a" ∷ text "b" ∷ []

conflicts_at_b : check_collision lookup (text "api") 1 relays ≡ conflict (text "b")
unfolding check_collision bytes_eq
conflicts_at_b = refl

check_collision_exact_example :
    check_collision lookup (text "api") 1 relays
    ≡ verdict (others lookup (text "api") 1 relays) (own lookup (text "api") 1 relays)
check_collision_exact_example = check_collision_exact lookup (text "api") 1 relays
