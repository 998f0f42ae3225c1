-- ===== src/Proto/Frames.antt =====
-- crates/krot-proto/src/frames.rs: the messages of the Control stream. A key, a session id, a
-- nonce and a signature stand for their fixed number of bytes by the number that these spell, so
-- equality of numbers is equality byte by byte. A `String` is the list of its bytes.
use krot.Base.{ℕ, Bool, Option, List, Bytes}
use krot.Proto.Error.{ErrorCode}

-- crates/krot-proto/src/ids.rs
abbrev pub TunnelId : Type 0
TunnelId = ℕ

abbrev pub SessionId : Type 0
SessionId = ℕ

abbrev pub Nonce : Type 0
Nonce = ℕ

abbrev pub PubKey : Type 0
PubKey = ℕ

abbrev pub Signature : Type 0
Signature = ℕ

pub data TunnelKind : Type 0 where
  http : TunnelKind
  tcp : (remote_port : Option ℕ) → TunnelKind

pub data ClientFrame : Type 0 where
  auth_request : (pubkey : PubKey) → ClientFrame
  auth_response : (signature : Signature) → ClientFrame
  register_tunnel :
      (label : Bytes) (kind : TunnelKind) (resume_session_id : Option SessionId) (inspect : Bool)
      → ClientFrame
  unregister_tunnel : (tunnel_id : TunnelId) → ClientFrame
  ping : (nonce : ℕ) → ClientFrame
  bye : ClientFrame
  enroll : (admin_token : Bytes) (pubkey : PubKey) (label_hint : Option Bytes) → ClientFrame
  list_peers : ClientFrame

pub data ServerFrame : Type 0 where
  auth_challenge : (nonce : Nonce) → ServerFrame
  auth_ok : (session_id : SessionId) → ServerFrame
  auth_reject : (code : ErrorCode) → ServerFrame
  tunnel_registered :
      (tunnel_id : TunnelId) (public_url : Bytes) (public_port : Option ℕ) → ServerFrame
  tunnel_rejected : (code : ErrorCode) (detail : Bytes) → ServerFrame
  pong : (nonce : ℕ) → ServerFrame
  rate_limit : (tunnel_id : Option TunnelId) (retry_after_ms : ℕ) → ServerFrame
  server_bye : (code : ErrorCode) → ServerFrame
  enroll_ok : (authorized_line : Bytes) → ServerFrame
  enroll_rejected : (code : ErrorCode) → ServerFrame
  peers : (relays : List Bytes) → ServerFrame
