-- ===== src/Server/Http/Tests.antt =====
-- Runs of the HTTP router.
use krot.Base.{
  to_le_bytes, nat_eq, text_eq, ℕ, ◌==◌, ◌≡◌, refl, Bool, true, Option, none, some, List, [], ◌∷◌,
  ok, ◌++◌, Bytes, bytes_eq, text,
}
use krot.Base.Map
use krot.Proto.Framing.{Postcard, encode_frame, write_varint_u32}
use krot.Proto.Stream.{to_bytes}
use krot.Transport.Frame.{write_frame}
use krot.Server.Rate.{trim, trim_start, trim_end}
use krot.Server.Registry.{TunnelRegistry, ResolvedTunnel, resolve_label}
use krot.Server.Registry.Tests.{api_info, running}
use krot.Server.Text.{before}
use krot.Server.Http.{
  InspectionPrelude, extract_label, host_name, to_ascii_lowercase, strip_prefix, strip_suffix,
  acme_path_prefix, forward, forwarded, handle, prelude_of, route, read_request, host_of, Request,
  Parsed, complete, partial, answered, write_body,
}
use krot.Server.Http.Routing.{IsOpening, handle-forwarded}

with_port :
    extract_label (text " Alice.krot.example:8080") (text "Krot.example") ≡ some (text "alice")
unfolding extract_label host_name to_ascii_lowercase strip_suffix trim trim_start trim_end before
    bytes_eq
with_port = refl

of_apex : extract_label (text "krot.example") (text "krot.example") ≡ none
unfolding extract_label host_name to_ascii_lowercase strip_suffix trim trim_start trim_end before
    bytes_eq
of_apex = refl

-- The peer alone stands for the prelude.
abbrev peers_text : Postcard InspectionPrelude
peers_text = record { to_stdvec = λ v. some v.peer; from_bytes = λ b. none }

abbrev only_40 : ℕ → Bool
only_40 connection = connection == 40

abbrev inspected : TunnelRegistry
inspected = record running { tunnels = (1, record api_info { inspect = true }) ∷ [] }

abbrev to_api : ResolvedTunnel
to_api = record { id = 1; connection = 40; rate = 8; inspect = true }

abbrev apex : Bytes
apex = text "krot.example"

abbrev host : Bytes
host = text "API.krot.example:80"

-- The data header, a prelude of two bytes and the request.
abbrev sent : Bytes
sent = 2 ∷ 1 ∷ 0 ∷ 0 ∷ 0 ∷ 0 ∷ 0 ∷ 0 ∷ 0 ∷ 2 ∷ 9 ∷ 9 ∷ text "GET / .."

-- A parser that needs two bytes at least.
abbrev parse : Bytes → Parsed
parse (a ∷ b ∷ bytes) = complete ((text "HOST", host) ∷ []) (some (text "/"))
parse bytes = partial

abbrev as_is : Bytes → Option Bytes
as_is s = some s

abbrev chunks : List Bytes
chunks = text "G" ∷ text "ET / .." ∷ []

forwards :
    handle parse as_is peers_text only_40 7 (some (9 ∷ 9 ∷ [])) apex inspected [] chunks
    ≡ forwarded to_api sent
unfolding handle read_request host_of route forward resolve_label Map.get extract_label host_name
    to_ascii_lowercase strip_prefix strip_suffix trim trim_start trim_end before bytes_eq
    write_frame encode_frame write_varint_u32 to_bytes to_le_bytes
forwards = refl

answers_challenge :
    route peers_text only_40 7 none apex inspected
      ((text "t", text "key") ∷ [])
      ([], (host, acme_path_prefix ++ text "t"))
    ≡ answered (write_body (text "200 OK") (text "text/plain") (text "key"))
unfolding route strip_prefix Map.get bytes_eq
answers_challenge = refl

handle-forwarded_example :
    (request : Request) × ((read_request parse as_is [] chunks ≡ ok request)
      × ((strip_prefix acme_path_prefix request.1.1 ≡ none)
          × (((label : Bytes) × ((host_name request.1.0 ≡ label ++ (46 ∷ to_ascii_lowercase apex))
                  × (resolve_label inspected label ≡ some to_api)))
              × ((opening : Bytes) × (IsOpening peers_text only_40
                      (prelude_of peers_text only_40 7 (some (9 ∷ 9 ∷ [])) request.1.0)
                      to_api
                      opening
                    × (sent ≡ opening ++ request.0))))))
handle-forwarded_example =
    handle-forwarded parse as_is peers_text only_40 7 (some (9 ∷ 9 ∷ [])) apex inspected [] chunks
      to_api sent forwards
