-- ===== src/Server/Registry/Lease.antt =====
-- crates/krot-server/src/registry.rs: the lease of a tunnel whose connection died, and the
-- read-only views. `try_resume` is split after its guards.
use krot.Base.{
  nat_eq, text_eq, ℕ, ◌+◌, ◌==◌, leb, not, ◌&&◌, if◌then◌else◌, Bool, true, false, Option, none,
  some, List, [], ◌∷◌, map, Bytes, length,
}
use krot.Base.Map
use krot.Base.Map.{Map}
use krot.Proto.Frames.{TunnelId, SessionId, PubKey}
use krot.Server.Registry.{
  RegisteredKind, tcp, http, TunnelState, live, dangling, TunnelInfo, TunnelRegistry, fire,
  remove_each,
}

-- `matches!(state, TunnelState::Dangling { .. })`
unfoldable pub is_dangling : TunnelState → Bool
is_dangling (live connection abort) = false
is_dangling (dangling expires_at) = true

unfoldable pub is_tcp : RegisteredKind → Bool
is_tcp (tcp public_port) = true
is_tcp (http label) = false

-- The body of the loop of `mark_dangling`.
unfoldable pub mark_one : ℕ → TunnelRegistry → TunnelId → TunnelRegistry
unfolding is_dangling fire
mark_one expires_at r id = elim (Map.get id r.tunnels) [
  | none ↦ r
  | some info ↦
      if is_dangling info.state
      then r
      else fire info.state (record r {
        tunnels = Map.update id (λ info. record info { state = dangling expires_at }) r.tunnels;
      })
]

unfoldable pub mark_each : ℕ → TunnelRegistry → List TunnelId → TunnelRegistry
unfolding mark_one
mark_each expires_at r [] = r
mark_each expires_at r (id ∷ ids) = mark_each expires_at (mark_one expires_at r id) ids

unfoldable pub mark_dangling : TunnelRegistry → PubKey → (grace now : ℕ) → TunnelRegistry
unfolding mark_each
mark_dangling r owner grace now =
    mark_each (now + grace) r (Map.keys_where (λ info. info.owner == owner) r.tunnels)

-- `TunnelState::Dangling { expires_at } if *expires_at <= now`
unfoldable pub is_expired : ℕ → TunnelState → Bool
is_expired now (live connection abort) = false
is_expired now (dangling expires_at) = leb expires_at now

-- The number of tunnels removed, and the table.
unfoldable pub reap_expired : TunnelRegistry → (now : ℕ) → ℕ × TunnelRegistry
unfolding is_expired remove_each
reap_expired r now =
    let ids = Map.keys_where (λ info. is_expired now info.state) r.tunnels in
    (length ids, remove_each r ids)

pub data ResumedInfo : Type 0 where
  resumed_http : (label : Bytes) → ResumedInfo
  resumed_tcp : (public_port listener : ℕ) → ResumedInfo

pub data ResumeOutcome : Type 0 where
  reattached : (tunnel_id : TunnelId) (info : ResumedInfo) (inspect : Bool) → ResumeOutcome
  unknown : ResumeOutcome
  identity_mismatch : ResumeOutcome

-- The first key in the order of an iteration whose value passes a test.
unfoldable pub find_key {ℓ} : {V : Type ℓ} → (V → Bool) → Map TunnelId V → Option TunnelId
find_key p [] = none
find_key p ((j, v) ∷ m) = let rest = find_key p m in if p v then some j else rest

unfoldable pub candidate : TunnelRegistry → Bytes → SessionId → Option TunnelId
unfolding is_dangling is_tcp find_key
candidate r label session_id = elim (Map.get label r.labels) [
  | some id ↦ some id
  | none ↦
      find_key (λ info. info.session_id == session_id && is_dangling info.state && is_tcp info.kind)
        r.tunnels
]

unfoldable pub resumed_info : RegisteredKind → Option ℕ → Option ResumedInfo
resumed_info (http label) listener = some (resumed_http label)
resumed_info (tcp public_port) none = none
resumed_info (tcp public_port) (some listener) = some (resumed_tcp public_port listener)

-- The state is swapped before the listener is looked at, so a TCP tunnel without one stays live
-- though the answer is `Unknown`.
unfoldable pub reattach :
    TunnelRegistry → TunnelId → TunnelInfo → ℕ → ResumeOutcome × TunnelRegistry
unfolding resumed_info
reattach r id info connection =
    let r' = record r {
      tunnels = Map.update id (λ info. record info { state = live connection none }) r.tunnels;
    } in
    elim (resumed_info info.kind info.tcp_listener) [
      | none ↦ (unknown, r')
      | some resumed ↦ (reattached id resumed info.inspect, r')
    ]

-- The guards on the tunnel that was found.
unfoldable pub resume_found :
    TunnelRegistry
    → TunnelId
    → TunnelInfo
    → (session_id : SessionId) (pubkey : PubKey) (connection : ℕ) → ResumeOutcome × TunnelRegistry
resume_found r id info session_id pubkey connection =
    if not (is_dangling info.state)
    then (unknown, r)
    else if not (info.session_id == session_id)
    then (unknown, r)
    else if not (info.owner == pubkey)
    then (identity_mismatch, r)
    else reattach r id info connection

unfoldable pub try_resume :
    TunnelRegistry
    → (label : Bytes) (session_id : SessionId) (pubkey : PubKey) (connection : ℕ)
    → ResumeOutcome × TunnelRegistry
try_resume r label session_id pubkey connection = elim (candidate r label session_id) [
  | none ↦ (unknown, r)
  | some id ↦ elim (Map.get id r.tunnels) [
    | none ↦ (unknown, r)
    | some info ↦ resume_found r id info session_id pubkey connection
  ]
]

unfoldable pub with_abort : ℕ → TunnelState → TunnelState
with_abort new_abort (live connection abort) = live connection (some new_abort)
with_abort new_abort (dangling expires_at) = dangling expires_at

unfoldable pub set_tcp_abort : TunnelRegistry → TunnelId → ℕ → TunnelRegistry
unfolding with_abort
set_tcp_abort r id new_abort = record r {
  tunnels =
      Map.update id (λ info. record info { state = with_abort new_abort info.state }) r.tunnels;
}

pub record TunnelSnapshot : Type 0 where
  pub tunnel_id : TunnelId
  pub owner : PubKey
  pub session_id : SessionId
  pub inspect : Bool
  pub kind : RegisteredKind
  pub is_live : Bool

unfoldable pub snapshot : TunnelRegistry → List TunnelSnapshot
unfolding is_dangling
snapshot r =
    map
      (λ (e : TunnelId × TunnelInfo). record {
        tunnel_id = e.1.id;
        owner = e.1.owner;
        session_id = e.1.session_id;
        inspect = e.1.inspect;
        kind = e.1.kind;
        is_live = not (is_dangling e.1.state);
      })
      r.tunnels

unfoldable pub len : TunnelRegistry → ℕ
len r = length r.tunnels

unfoldable pub is_empty : TunnelRegistry → Bool
unfolding len
is_empty r = len r == 0

unfoldable pub count_owned_by : TunnelRegistry → PubKey → ℕ
count_owned_by r owner = length (Map.keys_where (λ info. info.owner == owner) r.tunnels)
