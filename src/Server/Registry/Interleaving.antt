-- ===== src/Server/Registry/Interleaving.antt =====
-- Sessions of different clients run concurrently. A registration takes the registry's lock twice,
-- once to allocate (`allocate_tcp`, `allocate_http`) and once to publish (`insert`); other sessions
-- run in between. A state is the registry with the reservations that wait to be published, and a
-- step is one section under the lock. Steps that hand out an id stop short of the last of 64 bits,
-- behind which `fresh_id` starts again at 1. A listener is taken to report the port it was bound to.
pub mod Steps
pub mod Allocation
pub mod Leases
pub mod Histories
use krot.Base.{
  nat_eq, text_eq, ℕ, ◌+◌, ◌^◌, ◌<◌, ◌≡◌, Bool, true, Option, none, some, List, Bytes, Result, ok,
}
use krot.Base.Map
use krot.Base.Map.{Map}
use krot.Base.HashSet
use krot.Proto.Frames.{TunnelId, SessionId, PubKey}
use krot.Server.Registry.{
  RegisteredKind, tcp, http, TunnelInfo, TunnelRegistry, allocate_tcp, allocate_http, insert,
  remove, remove_all_owned_by,
}
use krot.Server.Registry.Lease.{mark_dangling, reap_expired, try_resume, set_tcp_abort}
use krot.Server.Registry.Views.{kind_at}

pub record World : Type 0 where
  pub registry : TunnelRegistry
  pub pending : Map TunnelId RegisteredKind

pub data Step : World → World → Type 0 where
  allocates_tcp :
      (w : World) (allowlist : Option (List ℕ)) (id : TunnelId) (port : ℕ) (r : TunnelRegistry)
      → w.registry.next_id + 1 < 2 ^ 64
      → allocate_tcp w.registry allowlist ≡ ok ((id, port), r)
      → Step w (record { registry = r; pending = Map.insert id (tcp port) w.pending })
  allocates_http :
      (w : World) (label : Bytes) (id : TunnelId) (r : TunnelRegistry)
      → w.registry.next_id + 1 < 2 ^ 64
      → allocate_http w.registry label ≡ ok (id, r)
      → Step w (record { registry = r; pending = Map.insert id (http label) w.pending })
  -- The reserved tunnel is published.
  publishes :
      (w : World) (info : TunnelInfo)
      → Map.get info.id w.pending ≡ some info.kind
      → Step w
          (record { registry = insert w.registry info; pending = Map.remove info.id w.pending })
  -- The listener did not bind, and the registration returns.
  gives_up : (w : World) (id : TunnelId) → Step w (record w { pending = Map.remove id w.pending })
  unregisters : (w : World) (id : TunnelId) → Step w (record w { registry = remove w.registry id })
  leaves :
      (w : World) (owner : PubKey)
      → Step w (record w { registry = remove_all_owned_by w.registry owner })
  drops :
      (w : World) (owner : PubKey) (grace now : ℕ)
      → Step w (record w { registry = mark_dangling w.registry owner grace now })
  reaps : (w : World) (now : ℕ) → Step w (record w { registry = (reap_expired w.registry now).1 })
  resumes :
      (w : World) (label : Bytes) (session_id : SessionId) (pubkey : PubKey) (connection : ℕ)
      → Step w
          (record w { registry = (try_resume w.registry label session_id pubkey connection).1 })
  respawns :
      (w : World) (id : TunnelId) (new_abort : ℕ)
      → Step w (record w { registry = set_tcp_abort w.registry id new_abort })
  -- The order in which a `HashMap` iterates is open: the table may take any other.
  rehashes :
      (w : World) (tunnels : Map TunnelId TunnelInfo)
      → Map.IsDistinct tunnels
      → ((i : TunnelId) → Map.get i tunnels ≡ Map.get i w.registry.tunnels)
      → Step w (record w { registry = record w.registry { tunnels = tunnels } })

pub data Reach (s : World) : World → Type 0 where
  here : Reach s s
  next : {v w : World} → Reach s v → Step v w → Reach s w

-- What an id holds: the kind of its tunnel, or of its reservation.
abbrev pub or_else {ℓ} : {A : Type ℓ} → Option A → Option A → Option A
or_else none b = b
or_else (some a) b = some a

unfoldable pub claim_at : World → TunnelId → Option RegisteredKind
claim_at w i = or_else (kind_at w.registry i) (Map.get i w.pending)

-- No two ids hold one label or one port, what they hold is reserved, and the label index names
-- exactly the HTTP tunnels. No id stands twice.
pub record IsValid (w : World) : Type 0 where
  pub below : (i : TunnelId) (k : RegisteredKind) → claim_at w i ≡ some k → i < w.registry.next_id
  pub apart :
      (i : TunnelId) (k : RegisteredKind)
      → Map.get i w.pending ≡ some k
      → kind_at w.registry i ≡ none
  pub label_held :
      (i : TunnelId) (l : Bytes)
      → claim_at w i ≡ some (http l)
      → HashSet.contains l w.registry.used_labels ≡ true
  pub port_held :
      (i : TunnelId) (p : ℕ)
      → claim_at w i ≡ some (tcp p)
      → HashSet.contains p w.registry.used_ports ≡ true
  pub label_unique :
      (i j : TunnelId) (l : Bytes)
      → claim_at w i ≡ some (http l)
      → claim_at w j ≡ some (http l)
      → i ≡ j
  pub port_unique :
      (i j : TunnelId) (p : ℕ) → claim_at w i ≡ some (tcp p) → claim_at w j ≡ some (tcp p) → i ≡ j
  pub labelled :
      (l : Bytes) (i : TunnelId)
      → Map.get l w.registry.labels ≡ some i
      → kind_at w.registry i ≡ some (http l)
  pub routed :
      (i : TunnelId) (l : Bytes)
      → kind_at w.registry i ≡ some (http l)
      → Map.get l w.registry.labels ≡ some i
  pub distinct : Map.IsDistinct w.registry.tunnels
