-- ===== src/Server/Handshake.antt =====
-- crates/krot-server/src/handshake.rs: the first frames of a Control stream. What `finish` and
-- `stopped` return is dropped there, and left out here.
pub mod Guarded
pub mod Sound
mod Tests
use krot.Base.{
  ℕ, ◌==◌, not, if◌then◌else◌, Bool, true, false, Option, none, some, List, [], ◌∷◌, ◌++◌, Bytes,
  bytes_eq, get_or, text, to_le_bytes, Result, ok, err,
}
use krot.Proto.Error
use krot.Proto.Error.{ErrorCode}
use krot.Proto.Auth.{Ed25519, verify_challenge}
use krot.Proto.Frames.{
  PubKey, SessionId, Nonce, ClientFrame, auth_request, auth_response, enroll, ServerFrame,
  auth_challenge, auth_ok, auth_reject, enroll_ok, enroll_rejected,
}
use krot.Proto.Framing.{Postcard}
use krot.Proto.Stream.{is_control, try_from}
use krot.Transport.Frame.{TransportError, read_exact, read_frame}
use krot.Server.Error.{ServerError, admin_token, transport}
use krot.Server.Keys.{AuthorizedEntry}
use krot.Server.Keys.Registry
use krot.Server.Keys.Registry.{KeyRegistry}
use krot.Server.Admin.{AdminTokenStore, consume}

pub record HandshakeOk : Type 0 where
  pub pubkey : PubKey
  pub session_id : SessionId
  pub entry : AuthorizedEntry

pub data HandshakeOutcome : Type 0 where
  auth : HandshakeOk → HandshakeOutcome
  enrollment_done : (success : Bool) → HandshakeOutcome
  failed : ErrorCode → HandshakeOutcome

-- What a handshake changes: the two stores, and the frames that it sent.
pub record Control : Type 0 where
  pub keys : KeyRegistry
  pub admin : AdminTokenStore
  pub sent : List ServerFrame

-- The world of one handshake: whether a frame can be written and the error if not, the random nonce
-- and session id, the clock and its text, the disk, and the crates for frames, hashes, base64 and
-- signatures.
pub record World : Type 1 where
  pub codec : Postcard ClientFrame
  pub writes : ServerFrame → Bool
  pub write_error : TransportError
  pub nonce : Nonce
  pub session_id : SessionId
  pub now : ℕ
  pub stamp : Bytes
  pub disk : Bool
  pub hash : Bytes → Bytes
  pub encode : Bytes → Bytes
  pub decode : Bytes → Option Bytes
  pub ed25519 : Ed25519

abbrev pub Answer : Type 0
Answer = Result ServerError HandshakeOutcome × Control

abbrev pub with_frame : ServerFrame → Control → Control
with_frame frame c = record c { sent = c.sent ++ (frame ∷ []) }

abbrev pub hint_of : Option Bytes → Bytes
hint_of none = []
hint_of (some hint) = hint

unfoldable pub reject_code : ServerError → ErrorCode
reject_code (admin_token message) =
    if bytes_eq message (text "admin token expired")
    then Error.token_expired
    else if bytes_eq message (text "no admin token issued")
    then Error.enroll_disabled
    else Error.authentication_failed
reject_code _ = Error.authentication_failed

module _ (w : World) where
  -- A frame that is written before an outcome is returned.
  unfoldable pub reply : ServerFrame → HandshakeOutcome → Control → Answer
  reply frame outcome c =
      if w.writes frame
      then (ok outcome, with_frame frame c)
      else (err (transport w.write_error), c)

  abbrev pub line_for : PubKey → Option Bytes → Bytes
  line_for pubkey label_hint =
      text "ed25519 "
      ++ (w.encode (to_le_bytes 32 pubkey)
          ++ (text " subdomain=* # enrolled " ++ (w.stamp ++ (32 ∷ hint_of label_hint))))

  -- The part of `handle_enroll` behind the token.
  unfoldable pub store_identity : PubKey → Option Bytes → Control → Answer
  unfolding reply
  store_identity pubkey label_hint c =
      elim (Registry.append_line w.decode w.disk (line_for pubkey label_hint) c.keys) [
        | err e ↦ (err e, c)
        | ok (stored, keys) ↦
            reply (enroll_ok stored) (enrollment_done true) (record c { keys = keys })
      ]

  unfoldable pub handle_enroll : Bytes → PubKey → Option Bytes → Control → Answer
  unfolding store_identity reject_code consume
  handle_enroll token pubkey label_hint c =
      let (result, admin) = consume w.hash token w.now c.admin in
      let used = record c { admin = admin } in
      elim result [
        | err e ↦ reply (enroll_rejected (reject_code e)) (enrollment_done false) used
        | ok _ ↦ store_identity pubkey label_hint used
      ]

  -- The part of `handle_auth` behind the answer to the challenge.
  unfoldable pub on_response : PubKey → AuthorizedEntry → ClientFrame → Control → Answer
  unfolding reply verify_challenge
  on_response pubkey entry (auth_response signature) c =
      if not (verify_challenge w.ed25519 pubkey w.nonce signature)
      then reply (auth_reject Error.authentication_failed) (failed Error.authentication_failed) c
      else reply (auth_ok w.session_id)
          (auth (record { pubkey = pubkey; session_id = w.session_id; entry = entry })) c
  on_response pubkey entry _ c =
      reply (auth_reject Error.protocol_violation) (failed Error.authentication_failed) c

  -- The part of `handle_auth` behind the look-up.
  unfoldable pub challenge : PubKey → AuthorizedEntry → Bytes → Control → Answer
  unfolding on_response read_frame
  challenge pubkey entry stream c =
      let asked = with_frame (auth_challenge w.nonce) c in
      let answered : Answer = elim (read_frame w.codec stream) [
        | err e ↦ (err (transport e), asked)
        | ok (frame, rest) ↦ on_response pubkey entry frame asked
      ] in
      if w.writes (auth_challenge w.nonce) then answered else (err (transport w.write_error), c)

  unfoldable pub handle_auth : PubKey → Bytes → Control → Answer
  unfolding challenge Registry.get
  handle_auth pubkey stream c = elim (Registry.get pubkey c.keys) [
    | none ↦ reply (auth_reject Error.unknown_identity) (failed Error.authentication_failed) c
    | some entry ↦ challenge pubkey entry stream c
  ]

  -- `perform` behind the first frame. The write of the refusal may fail unnoticed.
  unfoldable pub on_first : ClientFrame → Bytes → Control → Answer
  unfolding handle_enroll handle_auth
  on_first (enroll token pubkey label_hint) stream c = handle_enroll token pubkey label_hint c
  on_first (auth_request pubkey) stream c = handle_auth pubkey stream c
  on_first _ stream c =
      let refusal = auth_reject Error.protocol_violation in
      (
        ok (failed Error.authentication_failed),
        if w.writes refusal then with_frame refusal c else c,
      )

  unfoldable pub perform : Bytes → Control → Answer
  unfolding on_first read_frame read_exact
  perform stream c = elim (read_exact 1 stream) [
    | err e ↦ (err (transport e), c)
    | ok (kind_byte, rest) ↦ elim (try_from (get_or kind_byte 0 0)) [
      | err _ ↦ (ok (failed Error.unknown_stream_kind), c)
      | ok kind ↦
          let first : Answer = elim (read_frame w.codec rest) [
            | err e ↦ (err (transport e), c)
            | ok (frame, behind) ↦ on_first frame behind c
          ] in
          if not (is_control kind) then (ok (failed Error.unexpected_stream), c) else first
    ]
  ]
