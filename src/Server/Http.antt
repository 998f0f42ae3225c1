-- ===== src/Server/Http.antt =====
-- crates/krot-server/src/domain/http.rs: the plain HTTP router, up to the copy of what follows the
-- request. `httparse` and `str::from_utf8` are parameters; a header's text is ASCII where `trim`
-- looks at it. A socket is the chunks that its reads return, an empty one at its end. The answers
-- to challenges are a map.
pub mod Routing
mod Tests
use krot.Base.{
  text_eq, ℕ, ◌+◌, ◌*◌, ◌==◌, ltb, leb, ◌&&◌, if◌then◌else◌, Bool, Option, none, some, List, [],
  ◌∷◌, ◌++◌, map, Bytes, bytes_eq, text, decimal, length, Result, ok, err,
}
use krot.Base.Map
use krot.Base.Map.{Map}
use krot.Proto.Framing.{Postcard}
use krot.Proto.Stream.{DataHeader, data_http, to_bytes}
use krot.Transport.Frame.{write_frame}
use krot.Server.Rate.{trim}
use krot.Server.Registry.{TunnelRegistry, ResolvedTunnel, resolve_label}
use krot.Server.Text.{before}

abbrev pub max_header_bytes : ℕ
max_header_bytes = 8 * 1024

abbrev pub acme_path_prefix : Bytes
acme_path_prefix = text "/.well-known/acme-challenge/"

pub record HttpMetadata : Type 0 where
  pub host : Bytes
  pub sni : Option Bytes

pub record InspectionPrelude : Type 0 where
  pub accept_unix_secs : ℕ
  pub peer : Bytes
  pub http : Option HttpMetadata

-- `to_ascii_lowercase` of a byte and of a text.
abbrev pub lower : ℕ → ℕ
lower c = if leb 65 c && leb c 90 then c + 32 else c

unfoldable pub to_ascii_lowercase : Bytes → Bytes
to_ascii_lowercase s = map lower s

-- `s.strip_prefix(p)` and `s.strip_suffix(p)`
unfoldable pub strip_prefix : Bytes → Bytes → Option Bytes
strip_prefix [] s = some s
strip_prefix (c ∷ p) [] = none
strip_prefix (c ∷ p) (d ∷ s) = let rest = strip_prefix p s in if c == d then rest else none

abbrev pub with_front : ℕ → Option Bytes → Option Bytes
with_front c none = none
with_front c (some s) = some (c ∷ s)

unfoldable pub strip_suffix : Bytes → Bytes → Option Bytes
strip_suffix p [] = if bytes_eq p [] then some [] else none
strip_suffix p (c ∷ s) =
    let rest = strip_suffix p s in if bytes_eq p (c ∷ s) then some [] else with_front c rest

-- The name of the host, without the port.
unfoldable pub host_name : Bytes → Bytes
unfolding to_ascii_lowercase before trim
host_name host_header = to_ascii_lowercase (trim (before 58 host_header))

unfoldable pub extract_label : Bytes → Bytes → Option Bytes
unfolding host_name to_ascii_lowercase strip_suffix
extract_label host_header apex =
    let host = host_name host_header in
    let apex' = to_ascii_lowercase apex in
    if bytes_eq host apex' then none else strip_suffix (46 ∷ apex') host

-- What is written to the socket before its end.
unfoldable pub write_body : Bytes → Bytes → Bytes → Bytes
write_body status content_type body =
    let line_end = text "\r\n" in
    text "HTTP/1.1 "
    ++ (status
        ++ (line_end
            ++ (text "Content-Type: "
                ++ (content_type
                    ++ (line_end
                        ++ (text "Content-Length: "
                            ++ (decimal (length body)
                                ++ (line_end
                                    ++ (text "Connection: close"
                                        ++ (line_end ++ (line_end ++ body)))))))))))

-- What `req.parse` makes of the bytes so far: headers and the path, more needed, or an error.
pub data Parsed : Type 0 where
  complete : List (Bytes × Bytes) → Option Bytes → Parsed
  partial malformed : Parsed

pub data RequestError : Type 0 where
  eof headers_exceed_cap invalid_request : RequestError

abbrev pub unwrap_or {ℓ} : {A : Type ℓ} → Option A → A → A
unwrap_or none other = other
unwrap_or (some a) other = a

-- The buffered bytes, the host and the path.
abbrev pub Request : Type 0
Request = Bytes × (Bytes × Bytes)

module _ (parse : Bytes → Parsed) (from_utf8 : Bytes → Option Bytes) where
  unfoldable pub host_of : List (Bytes × Bytes) → Bytes
  unfolding to_ascii_lowercase
  host_of [] = []
  host_of ((name, value) ∷ headers) =
      let later = host_of headers in
      if bytes_eq (to_ascii_lowercase name) (text "host")
      then unwrap_or (from_utf8 value) []
      else later

  -- The loop of `read_request`, from the bytes read before.
  unfoldable pub read_request : Bytes → List Bytes → Result RequestError Request
  unfolding host_of
  read_request buf [] = err eof
  read_request buf ([] ∷ chunks) = err eof
  read_request buf ((b ∷ tmp) ∷ chunks) =
      let buf' = buf ++ (b ∷ tmp) in
      let later = read_request buf' chunks in
      elim (parse buf') [
        | complete headers path ↦ ok (buf', (host_of headers, unwrap_or path (text "/")))
        | partial ↦ if ltb max_header_bytes (length buf') then err headers_exceed_cap else later
        | malformed ↦ err invalid_request
      ]

-- What `handle` does with a request: it answers itself, opens a stream to the tunnel's owner and
-- writes these bytes on it before it copies, or ends with an error.
pub data Handled : Type 0 where
  answered : Bytes → Handled
  forwarded : ResolvedTunnel → Bytes → Handled
  failed : Handled

-- `opens` says of a connection whether it opens a stream that takes what is written.
module _ (codec : Postcard InspectionPrelude) (opens : ℕ → Bool) where
  unfoldable pub prelude_of : ℕ → Option Bytes → Bytes → InspectionPrelude
  prelude_of now peer host = record {
    accept_unix_secs = now;
    peer = unwrap_or peer [];
    http = some (record { host = host; sni = none });
  }

  unfoldable pub forward : InspectionPrelude → Bytes → ResolvedTunnel → Handled
  unfolding to_bytes write_frame
  forward prelude buffered resolved =
      let header = to_bytes (record { kind = data_http; tunnel_id = resolved.id }) in
      let inspected : Handled = elim (write_frame codec header prelude) [
        | err e ↦ failed
        | ok stream ↦ forwarded resolved (stream ++ buffered)
      ] in
      let plain = forwarded resolved (header ++ buffered) in
      let opened = if resolved.inspect then inspected else plain in
      if opens resolved.connection then opened else failed

  abbrev pub not_found : Bytes → Handled
  not_found body = answered (write_body (text "404 Not Found") (text "text/plain") body)

  -- `handle`, behind `read_request`.
  unfoldable pub route :
      ℕ → Option Bytes → Bytes → TunnelRegistry → Map Bytes Bytes → Request → Handled
  unfolding strip_prefix extract_label resolve_label forward prelude_of write_body
  route now peer apex r challenges (buffered, (host, path)) =
      elim (strip_prefix acme_path_prefix path) [
        | some token ↦ elim (Map.get token challenges) [
          | some response ↦ answered (write_body (text "200 OK") (text "text/plain") response)
          | none ↦ not_found (text "no such challenge")
        ]
        | none ↦ elim (extract_label host apex) [
          | none ↦ not_found (text "unknown host")
          | some label ↦ elim (resolve_label r label) [
            | none ↦ not_found (text "unknown tunnel")
            | some resolved ↦ forward (prelude_of now peer host) buffered resolved
          ]
        ]
      ]

module _ (parse : Bytes → Parsed) (from_utf8 : Bytes → Option Bytes)
    (codec : Postcard InspectionPrelude) (opens : ℕ → Bool) where
  unfoldable pub handle :
      ℕ → Option Bytes → Bytes → TunnelRegistry → Map Bytes Bytes → List Bytes → Handled
  unfolding read_request route
  handle now peer apex r challenges chunks = elim (read_request parse from_utf8 [] chunks) [
    | err e ↦ failed
    | ok request ↦ route codec opens now peer apex r challenges request
  ]
