-- ===== src/Server/Https.antt =====
-- crates/krot-server/src/domain/https.rs and replay.rs: what the TLS router does with a socket behind
-- its ClientHello. A socket is the bytes that arrive; TLS itself is not here.
pub mod Replay
mod Tests
use krot.Base.{
  ℕ, ◌+◌, ◌-◌, min, ltb, ◌||◌, if◌then◌else◌, Bool, true, false, Option, none, some, List, [], ◌∷◌,
  ◌++◌, Bytes, bytes_eq, text, length, take, drop, Result, ok, err,
}
use krot.Proto.Framing.{Postcard}
use krot.Server.Registry.{TunnelRegistry, resolve_label}
use krot.Server.Sni.{Alpn, SniPeek, peek_sni}
use krot.Server.Http.{
  InspectionPrelude, to_ascii_lowercase, strip_suffix, unwrap_or, Handled, forward,
}

-- crates/krot-proto/src/consts.rs
abbrev pub alpn_tcp : Bytes
alpn_tcp = text "krot-tcp/1"

pub record ReplayStream : Type 0 where
  pub replay : Bytes
  pub read_pos : ℕ
  pub inner : Bytes

abbrev pub replay_stream : Bytes → Bytes → ReplayStream
replay_stream replay inner = record { replay = replay; read_pos = 0; inner = inner }

-- A read into `n` bytes of room; of the socket, when `ready` bytes are there.
unfoldable pub poll_replay : ℕ → ℕ → ReplayStream → Bytes × ReplayStream
poll_replay n ready s =
    let left = drop s.read_pos s.replay in
    let replayed = min (length left) n in
    let fresh = min ready n in
    if ltb s.read_pos (length s.replay)
    then (take replayed left, record s { read_pos = s.read_pos + replayed })
    else (take fresh s.inner, record s { inner = drop fresh s.inner })

abbrev pub offers : Bytes → Alpn → Bool
offers name [] = false
offers name (a ∷ alpn) = bytes_eq a name || offers name alpn

unfoldable pub extract_sni_label : Bytes → Bytes → Option Bytes
unfolding to_ascii_lowercase strip_suffix
extract_sni_label server_name apex =
    let name = to_ascii_lowercase server_name in
    let apex' = to_ascii_lowercase apex in
    if bytes_eq name apex' then none else strip_suffix (46 ∷ apex') name

-- A socket goes to the mux, is forwarded as the HTTP router does, or is dropped.
pub data Dispatched : Type 0 where
  to_mux : ReplayStream → Dispatched
  tunnelled : Handled → Dispatched
  dropped : Dispatched
  refused : Dispatched

module _ (lower_utf8 : Bytes → Option Bytes) (codec : Postcard InspectionPrelude)
    (opens : ℕ → Bool) where
  unfoldable pub sni_prelude : ℕ → Option Bytes → Bytes → InspectionPrelude
  sni_prelude now peer server_name = record {
    accept_unix_secs = now;
    peer = unwrap_or peer [];
    http = some (record { host = server_name; sni = some server_name });
  }

  -- The branch of a socket for a tunnel.
  unfoldable pub pass_through : ℕ → Option Bytes → Bytes → TunnelRegistry → SniPeek → Dispatched
  unfolding extract_sni_label resolve_label forward sni_prelude
  pass_through now peer apex r peeked = elim (extract_sni_label peeked.server_name apex) [
    | none ↦ dropped
    | some label ↦ elim (resolve_label r label) [
      | none ↦ dropped
      | some resolved ↦
          tunnelled
            (forward codec opens (sni_prelude now peer peeked.server_name) peeked.buffered resolved)
    ]
  ]

  unfoldable pub handle_https : ℕ → Option Bytes → Bytes → TunnelRegistry → Bytes → Dispatched
  unfolding peek_sni pass_through
  handle_https now peer apex r stream = elim (peek_sni lower_utf8 stream) [
    | err e ↦ refused
    | ok peeked ↦
        let socket = drop (length peeked.buffered) stream in
        let passed = pass_through now peer apex r peeked in
        if offers alpn_tcp peeked.alpn
        then to_mux (replay_stream peeked.buffered socket)
        else passed
  ]
