-- ===== src/Server/Session.antt =====
-- crates/krot-server/src/session.rs: what a session does with a frame of the client. The registry
-- comes in and goes out; each section under its lock is one call. Frames are recorded in the order
-- of the calls of `write_frame`, whose success, the listener of the operating system and the
-- handle of a spawned task are parameters. Counters and log lines are left out.
pub mod Register
pub mod Sockets
pub mod Quota
pub mod Cap
pub mod Sections
pub mod Ending
pub mod Disposal
mod Tests
use krot.Base.{
  text_eq, nat_eq, ℕ, ◌+◌, ◌==◌, ltb, leb, not, ◌&&◌, if◌then◌else◌, Bool, true, false, Option,
  none, some, List, [], ◌∷◌, ◌++◌, Bytes, text, decimal, ◌≡◌, refl, ◌⊎◌, inl, inr, Result, ok, err,
}
use krot.Base.HashSet
use krot.Proto.Error as code
use krot.Proto.Frames
use krot.Proto.Frames.{
  TunnelId, SessionId, PubKey, TunnelKind, ClientFrame, ServerFrame, tunnel_registered,
  tunnel_rejected, pong, server_bye, peers, register_tunnel, unregister_tunnel, ping, list_peers,
  auth_request, auth_response, enroll,
}
use krot.Server.Error.{ServerError}
use krot.Server.Keys.{AuthorizedEntry}
use krot.Server.PeerLookup.{Lookup, CollisionCheck, clear, conflict, check_collision}
use krot.Server.Registry.{
  RegisteredKind, tcp, http, TunnelState, live, TunnelInfo, TunnelRegistry, allocate_http,
  allocate_tcp, insert, remove,
}
use krot.Server.Registry.Lease.{
  ResumedInfo, resumed_http, resumed_tcp, ResumeOutcome, reattached, unknown, identity_mismatch,
  try_resume, set_tcp_abort, count_owned_by,
}
use krot.Server.Registry.Label.{is_valid_label}

-- crates/krot-server/src/config.rs: the parts of `Mode` that a session reads.
pub data Mode : Type 0 where
  ip : (public_host : Bytes) → Mode
  domain : (apex : Bytes) → Mode

pub Mode-cases : (m : Mode) → ((h : Bytes) × (m ≡ ip h)) ⊎ ((a : Bytes) × (m ≡ domain a))
Mode-cases (ip h) = inl (h, refl)
Mode-cases (domain a) = inr (a, refl)

-- crates/krot-server/src/keys.rs: the parts of an entry that a session reads.
pub record Session : Type 0 where
  pub pubkey : PubKey
  pub session_id : SessionId
  pub connection : ℕ
  pub mode : Mode
  pub entry : AuthorizedEntry
  pub rate : ℕ
  pub peer_list : List Bytes
  pub peer_lookup : Lookup

-- The world around a session: does a write succeed, the listener that binds to a port (with the
-- port that it reports, if it does) or the text of the error, and the handle of the task that
-- serves a listener. The answers are the same throughout one run.
pub record Outside : Type 0 where
  pub writes : ServerFrame → Bool
  pub bind : ℕ → Result Bytes ℕ
  pub local_port : ℕ → Option ℕ
  pub spawn : ℕ → ℕ

pub data SessionOutcome : Type 0 where
  bye dropped terminal : SessionOutcome

pub data DispatchOutcome : Type 0 where
  continue : DispatchOutcome
  stop : SessionOutcome → DispatchOutcome

-- What a handler leaves: the registry, the frames written, and whether it returned an error.
pub record Effect : Type 0 where
  pub registry : TunnelRegistry
  pub sent : List ServerFrame
  pub failed : Bool

-- `live >= cap as usize`
unfoldable pub is_full : ℕ → ℕ → Bool
is_full limit owned = leb limit owned

module _ (o : Outside) where
  -- `write_frame(send, &frame).await?; Ok(())`
  abbrev pub respond : TunnelRegistry → ServerFrame → Effect
  respond r frame = record { registry = r; sent = frame ∷ []; failed = not (o.writes frame) }

-- `peers.snapshot()` filtered by the entry's `federation=`.
unfoldable pub candidate_peers : List Bytes → List Bytes → List Bytes
candidate_peers [] federation = []
candidate_peers (apex ∷ rest) federation =
    let others = candidate_peers rest federation in
    if HashSet.contains apex federation then apex ∷ others else others

unfoldable pub is_permitted : AuthorizedEntry → Bytes → Bool
is_permitted entry label =
    if entry.allow_any_subdomain then true else HashSet.contains label entry.allowed_subdomains

abbrev pub mode_host : Mode → Bytes
mode_host (ip public_host) = public_host
mode_host (domain apex) = apex

-- `!allow.contains(&p)` if both the port and the list are given.
unfoldable pub is_forbidden_port : Option ℕ → Option (List ℕ) → Option ℕ
is_forbidden_port (some p) (some allow) = if HashSet.contains p allow then none else some p
is_forbidden_port (some p) none = none
is_forbidden_port none allow = none

module _ (o : Outside) (s : Session) where
  abbrev pub reject : TunnelRegistry → ℕ → Bytes → Effect
  reject r error_code detail = respond o r (tunnel_rejected error_code detail)

  abbrev pub http_info : Bytes → Bool → TunnelId → TunnelInfo
  http_info label inspect id = record {
    id = id;
    owner = s.pubkey;
    session_id = s.session_id;
    kind = http label;
    state = live s.connection none;
    tcp_listener = none;
    rate = s.rate;
    inspect = inspect;
  }

  -- The part of `register_http` behind the collision check.
  unfoldable pub publish_http : TunnelRegistry → (apex label : Bytes) → Bool → Effect
  publish_http r apex label inspect = elim (allocate_http r label) [
    | err e ↦ reject r code.label_unavailable (text "`" ++ label ++ text "` is taken")
    | ok (id, r') ↦
        respond o (insert r' (http_info label inspect id))
          (tunnel_registered id (text "https://" ++ label ++ text "." ++ apex) none)
  ]

  unfoldable pub checked_http : TunnelRegistry → (apex label : Bytes) → Bool → Effect
  unfolding publish_http
  checked_http r apex label inspect =
      elim (check_collision s.peer_lookup label s.pubkey
        (candidate_peers s.peer_list s.entry.federation)) [
          | conflict first_conflict ↦ reject r code.label_unavailable (
              text "`"
              ++ label
              ++ text "` already registered on peer "
              ++ first_conflict
              ++ text " by a different identity")
          | clear matched_peers ↦ publish_http r apex label inspect
        ]

  unfoldable pub register_http : TunnelRegistry → Bytes → Bool → Effect
  unfolding checked_http
  register_http r label inspect = elim s.mode [
    | ip public_host ↦ reject r code.http_not_available (text "server is in IpMode")
    | domain apex ↦
        if not (is_valid_label label)
        then reject r code.label_invalid (text "does not match DNS label grammar")
        else if not (is_permitted s.entry label)
        then reject r code.label_forbidden
            (text "`" ++ label ++ text "` not permitted for this identity")
        else checked_http r apex label inspect
  ]

  abbrev pub tcp_info : ℕ → ℕ → Bool → TunnelId → TunnelInfo
  tcp_info public_port listener inspect id = record {
    id = id;
    owner = s.pubkey;
    session_id = s.session_id;
    kind = tcp public_port;
    state = live s.connection (some (o.spawn listener));
    tcp_listener = some listener;
    rate = s.rate;
    inspect = inspect;
  }

  abbrev pub tcp_url : ℕ → Bytes
  tcp_url public_port = text "tcp://" ++ mode_host s.mode ++ text ":" ++ decimal public_port

  -- The part of `register_tcp` behind `allocate_tcp`.
  unfoldable pub listen_tcp : TunnelRegistry → TunnelId → ℕ → Bool → Effect
  listen_tcp r id port inspect = elim (o.bind port) [
    | err e ↦ reject r code.internal_error (text "bind failed: " ++ e)
    | ok listener ↦ elim (o.local_port listener) [
      | none ↦ record { registry = r; sent = []; failed = true }
      | some public_port ↦
          respond o (insert r (tcp_info public_port listener inspect id))
            (tunnel_registered id (tcp_url public_port) (some public_port))
    ]
  ]

  unfoldable pub register_tcp : TunnelRegistry → Option ℕ → Bool → Effect
  unfolding listen_tcp
  register_tcp r remote_port inspect = elim (is_forbidden_port remote_port s.entry.allowed_ports) [
    | some p ↦
        reject r code.label_forbidden
          (text "port " ++ decimal p ++ text " not permitted for this identity")
    | none ↦ elim (allocate_tcp r s.entry.allowed_ports) [
      | err e ↦ reject r code.port_pool_exhausted (text "no free ports")
      | ok ((id, port), r') ↦ listen_tcp r' id port inspect
    ]
  ]

  unfoldable pub finish_resume : TunnelRegistry → TunnelId → ResumedInfo → Effect
  finish_resume r id (resumed_http label) = elim s.mode [
    | ip public_host ↦
        let frame = tunnel_rejected code.internal_error (text "resume across mode change") in
        record {
          registry = if o.writes frame then remove r id else r;
          sent = frame ∷ [];
          failed = not (o.writes frame);
        }
    | domain apex ↦
        respond o r (tunnel_registered id (text "https://" ++ label ++ text "." ++ apex) none)
  ]
  finish_resume r id (resumed_tcp public_port listener) =
      respond o (set_tcp_abort r id (o.spawn listener))
        (tunnel_registered id (tcp_url public_port) (some public_port))

  unfoldable pub register_kind : TunnelRegistry → Bytes → TunnelKind → Bool → Effect
  unfolding register_http register_tcp
  register_kind r label Frames.http inspect = register_http r label inspect
  register_kind r label (Frames.tcp remote_port) inspect = register_tcp r remote_port inspect

  -- `register` behind the attempt to resume, when no other session of the identity runs between the
  -- count and the insertion; Session/Cap has the sections under the lock apart.
  unfoldable pub register_fresh : TunnelRegistry → Bytes → TunnelKind → Bool → Effect
  unfolding register_kind is_full
  register_fresh r label kind inspect =
      let owned = count_owned_by r s.pubkey in
      elim s.entry.max_conns [
        | none ↦ register_kind r label kind inspect
        | some limit ↦
            if is_full limit owned
            then reject r code.tunnel_limit_exceeded
                (decimal owned ++ text "/" ++ decimal limit ++ text " concurrent tunnels")
            else register_kind r label kind inspect
      ]

  -- The answer of `try_resume`.
  unfoldable pub resume_or_fresh :
      ResumeOutcome → TunnelRegistry → Bytes → TunnelKind → Bool → Effect
  unfolding register_fresh finish_resume
  resume_or_fresh (reattached id info resumed_inspect) r label kind inspect =
      finish_resume r id info
  resume_or_fresh identity_mismatch r label kind inspect =
      reject r code.resume_identity_mismatch (text "resume pubkey does not match original owner")
  resume_or_fresh unknown r label kind inspect = register_fresh r label kind inspect

  unfoldable pub register : TunnelRegistry → Bytes → TunnelKind → Option SessionId → Bool → Effect
  unfolding resume_or_fresh
  register r label kind resume_session_id inspect = elim resume_session_id [
    | none ↦ register_fresh r label kind inspect
    | some prev ↦
        let (outcome, r') = try_resume r label prev s.pubkey s.connection in
        resume_or_fresh outcome r' label kind inspect
  ]

  -- An error of a handler ends the session, so the outcome then is not read.
  unfoldable pub dispatch : TunnelRegistry → ClientFrame → Effect × DispatchOutcome
  unfolding register
  dispatch r (ping nonce) = (respond o r (pong nonce), continue)
  dispatch r (register_tunnel label kind resume_session_id inspect) =
      (register r label kind resume_session_id inspect, continue)
  dispatch r (unregister_tunnel id) =
      (record { registry = remove r id; sent = []; failed = false }, continue)
  dispatch r list_peers =
      (respond o r (peers (candidate_peers s.peer_list s.entry.federation)), continue)
  dispatch r Frames.bye = (record { registry = r; sent = []; failed = false }, stop bye)
  dispatch r (auth_request pubkey) =
      (respond o r (server_bye code.protocol_violation), stop terminal)
  dispatch r (auth_response signature) =
      (respond o r (server_bye code.protocol_violation), stop terminal)
  dispatch r (enroll token pubkey hint) =
      (respond o r (server_bye code.protocol_violation), stop terminal)
