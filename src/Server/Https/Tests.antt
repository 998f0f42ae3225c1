-- ===== src/Server/Https/Tests.antt =====
-- Runs of the TLS router.
use krot.Base.{
  ℕ, ◌≡◌, refl, Bool, true, none, some, List, [], ◌∷◌, ◌++◌, Bytes, bytes_eq, length, drop, text,
  ok, arith,
}
use krot.Proto.Framing.{Postcard}
use krot.Server.Registry.Tests.{running}
use krot.Server.Sni.{SniPeek, peek_sni}
use krot.Server.Sni.Extensions.{write_record}
use krot.Server.Sni.RoundTrip.{alpn_of, peek_sni-write_record}
use krot.Server.Sni.Tests.{as_is, hello, hello-IsHello}
use krot.Server.Http.{InspectionPrelude}
use krot.Server.Https.{ReplayStream, replay_stream, offers, alpn_tcp, to_mux, handle_https}
use krot.Server.Https.Replay.{unread, read_all, handle_https-to_mux}

-- The peer alone stands for the prelude.
abbrev peers_text : Postcard InspectionPrelude
peers_text = record { to_stdvec = λ v. some v.peer; from_bytes = λ b. none }

abbrev any : ℕ → Bool
any connection = true

abbrev stream : Bytes
stream = write_record hello ++ (9 ∷ 9 ∷ [])

abbrev socket : ReplayStream
socket = replay_stream (write_record hello) (drop (length (write_record hello)) stream)

abbrev peeked : SniPeek
peeked = record {
  server_name = text "api.krot";
  alpn = alpn_of hello;
  buffered = write_record hello;
}

peeks : peek_sni as_is stream ≡ ok peeked
peeks = peek_sni-write_record as_is hello (text "api.krot") (9 ∷ 9 ∷ []) hello-IsHello

offered : offers alpn_tcp (alpn_of hello) ≡ true
unfolding bytes_eq
offered = refl

given_to_mux :
    (bytes : Bytes) (p : SniPeek)
    → peek_sni as_is bytes ≡ ok p
    → offers alpn_tcp p.alpn ≡ true
    → handle_https as_is peers_text any 7 none (text "krot") running bytes
      ≡ to_mux (replay_stream p.buffered (drop (length p.buffered) bytes))
unfolding handle_https
given_to_mux bytes p h o = ground (arith, h, o)

dispatches : handle_https as_is peers_text any 7 none (text "krot") running stream ≡ to_mux socket
dispatches = given_to_mux stream peeked peeks offered

abbrev reads : List (ℕ × ℕ)
reads = (100, 1) ∷ (3, 9) ∷ (500, 20) ∷ (10, 1) ∷ []

handle_https-to_mux_example :
    ((peek : SniPeek) × ((peek_sni as_is stream ≡ ok peek) × (offers alpn_tcp peek.alpn ≡ true)))
    × ((read_all reads socket).0 ++ unread (read_all reads socket).1 ≡ stream)
handle_https-to_mux_example =
    handle_https-to_mux as_is peers_text any 7 none (text "krot") running stream socket reads
      dispatches
