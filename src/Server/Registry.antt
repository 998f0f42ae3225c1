-- ===== src/Server/Registry.antt =====
-- crates/krot-server/src/registry.rs: the table of tunnels. Every method holds the one lock, so
-- it is a function of the table. `Instant` is a number of milliseconds and `now` an argument;
-- connections, listeners, abort handles and rate states are named by numbers. `aborted` records
-- the handles that were fired. A `HashMap` is an association list, its order one of those that an
-- iteration may take.
pub mod Lease
pub mod LeaseLaws
pub mod Resume
pub mod Views
pub mod Reconnect
pub mod Ports
pub mod Label
pub mod Interleaving
pub mod Tests
use krot.Base.{
  nat_eq, text_eq, ℕ, zero, suc, ◌+◌, ◌-◌, ◌^◌, ◌==◌, ltb, leb, not, ◌&&◌, if◌then◌else◌, Bool,
  true, false, Option, none, some, List, [], ◌∷◌, ◌++◌, map, Bytes, bytes_eq, text, length, Result,
  ok, err, ok_or, ◌>>=◌,
}
use krot.Base.Map
use krot.Base.Map.{Map}
use krot.Base.HashSet
use krot.Base.HashSet.{HashSet}
use krot.Proto.Frames.{TunnelId, SessionId, PubKey}
use krot.Server.Error.{ServerError, keys, port_pool_exhausted}

pub data RegisteredKind : Type 0 where
  tcp : (public_port : ℕ) → RegisteredKind
  http : (label : Bytes) → RegisteredKind

pub data TunnelState : Type 0 where
  live : (connection : ℕ) (abort : Option ℕ) → TunnelState
  dangling : (expires_at : ℕ) → TunnelState

pub record TunnelInfo : Type 0 where
  pub id : TunnelId
  pub owner : PubKey
  pub session_id : SessionId
  pub kind : RegisteredKind
  pub state : TunnelState
  pub tcp_listener : Option ℕ
  pub rate : ℕ
  pub inspect : Bool

-- `TunnelRegistry` with the `State` behind its lock. The pool is the range from `pool_start` to
-- `pool_end`, both included.
pub record TunnelRegistry : Type 0 where
  pub pool_start : ℕ
  pub pool_end : ℕ
  pub next_id : ℕ
  pub used_ports : HashSet ℕ
  pub used_labels : HashSet Bytes
  pub tunnels : Map TunnelId TunnelInfo
  pub labels : Map Bytes TunnelId
  pub aborted : List ℕ

unfoldable pub new : ℕ → ℕ → TunnelRegistry
new pool_start pool_end = record {
  pool_start = pool_start;
  pool_end = pool_end;
  next_id = 1;
  used_ports = [];
  used_labels = [];
  tunnels = [];
  labels = [];
  aborted = [];
}

unfoldable pub fresh_id : TunnelRegistry → TunnelId × TunnelRegistry
fresh_id r =
    (r.next_id, record r { next_id = if ltb (r.next_id + 1) (2 ^ 64) then r.next_id + 1 else 1 })

-- The test of `pick_free_port` on one port.
unfoldable pub is_free_port : HashSet ℕ → Option (List ℕ) → ℕ → Bool
is_free_port used none p = not (HashSet.contains p used)
is_free_port used (some list) p = not (HashSet.contains p used) && HashSet.contains p list

-- `find` over the `n` ports from `p` on.
unfoldable pub find_port : ℕ → ℕ → HashSet ℕ → Option (List ℕ) → Option ℕ
find_port zero p used allowlist = none
find_port (suc n) p used allowlist =
    let rest = find_port n (p + 1) used allowlist in
    if is_free_port used allowlist p then some p else rest

unfoldable pub pick_free_port : ℕ → ℕ → HashSet ℕ → Option (List ℕ) → Option ℕ
unfolding find_port is_free_port
pick_free_port pool_start pool_end used allowlist =
    find_port (pool_end + 1 - pool_start) pool_start used allowlist

-- An error leaves the table as it was.
unfoldable pub allocate_tcp :
    TunnelRegistry → Option (List ℕ) → Result ServerError ((TunnelId × ℕ) × TunnelRegistry)
unfolding fresh_id
allocate_tcp r allowlist = do
  port ← ok_or (pick_free_port r.pool_start r.pool_end r.used_ports allowlist) port_pool_exhausted
  let (id, r') = fresh_id (record r { used_ports = HashSet.insert port r.used_ports })
  ok ((id, port), r')

unfoldable pub allocate_http :
    TunnelRegistry → Bytes → Result ServerError (TunnelId × TunnelRegistry)
unfolding fresh_id
allocate_http r label =
    if HashSet.contains label r.used_labels
    then err (keys (text "label taken: " ++ label))
    else ok (fresh_id (record r { used_labels = HashSet.insert label r.used_labels }))

unfoldable pub publish_label : RegisteredKind → TunnelId → Map Bytes TunnelId → Map Bytes TunnelId
publish_label (tcp public_port) id labels = labels
publish_label (http label) id labels = Map.insert label id labels

unfoldable pub insert : TunnelRegistry → TunnelInfo → TunnelRegistry
unfolding publish_label
insert r info = record r {
  labels = publish_label info.kind info.id r.labels;
  tunnels = Map.insert info.id info r.tunnels;
}

pub record ResolvedTunnel : Type 0 where
  pub id : TunnelId
  pub connection : ℕ
  pub rate : ℕ
  pub inspect : Bool

unfoldable pub resolve_state : TunnelId → TunnelInfo → TunnelState → Option ResolvedTunnel
resolve_state id info (live connection abort) =
    some (record { id = id; connection = connection; rate = info.rate; inspect = info.inspect })
resolve_state id info (dangling expires_at) = none

unfoldable pub resolve_label : TunnelRegistry → Bytes → Option ResolvedTunnel
unfolding resolve_state
resolve_label r label = elim (Map.get label r.labels) [
  | none ↦ none
  | some id ↦ elim (Map.get id r.tunnels) [
    | none ↦ none
    | some info ↦ resolve_state id info info.state
  ]
]

-- The reservation of a tunnel that is dropped.
unfoldable pub release : RegisteredKind → TunnelRegistry → TunnelRegistry
release (tcp public_port) r = record r { used_ports = HashSet.remove public_port r.used_ports }
release (http label) r = record r {
  used_labels = HashSet.remove label r.used_labels;
  labels = Map.remove label r.labels;
}

-- The handle that a state holds is fired.
unfoldable pub fire : TunnelState → TunnelRegistry → TunnelRegistry
fire (live connection (some abort)) r = record r { aborted = abort ∷ r.aborted }
fire (live connection none) r = r
fire (dangling expires_at) r = r

unfoldable pub remove_locked : TunnelRegistry → TunnelId → TunnelRegistry
unfolding release fire
remove_locked r id = elim (Map.get id r.tunnels) [
  | none ↦ r
  | some info ↦ fire info.state (release info.kind (record r { tunnels = Map.remove id r.tunnels }))
]

unfoldable pub remove : TunnelRegistry → TunnelId → TunnelRegistry
unfolding remove_locked
remove r id = remove_locked r id

-- `for id in ids { remove_locked(&mut state, id); }`
unfoldable pub remove_each : TunnelRegistry → List TunnelId → TunnelRegistry
remove_each r [] = r
remove_each r (id ∷ ids) = remove_each (remove_locked r id) ids

unfoldable pub remove_all_owned_by : TunnelRegistry → PubKey → TunnelRegistry
unfolding remove_each
remove_all_owned_by r owner = remove_each r (Map.keys_where (λ info. info.owner == owner) r.tunnels)
