-- ===== src/Server/Registry/Interleaving/Histories.antt =====
-- The registry under every interleaving of sessions.
use krot.Base.{
  nat_eq, text_eq, ℕ, ◌==◌, ◌≡◌, ◌↔◌, ap₂, Bool, refl, sym, ap, ◌∙◌, Option, none, some, inl, inr,
  Option-cases, Bool, Bytes, arith,
}
use krot.Base.Map
use krot.Proto.Frames.{TunnelId}
use krot.Server.Registry.{
  RegisteredKind, tcp, http, TunnelInfo, live, dangling, TunnelState, TunnelRegistry, resolve_state,
  ResolvedTunnel, remove, remove_all_owned_by, resolve_label,
}
use krot.Server.Registry.Lease.{is_expired, reap_expired}
use krot.Server.Registry.Views.{kind_at}
use krot.Server.Registry.Interleaving.{
  World, Step, allocates_tcp, allocates_http, publishes, gives_up, unregisters, leaves, drops,
  reaps, resumes, respawns, rehashes, Reach, here, next, IsValid,
}
use krot.Server.Registry.Interleaving.Steps.{
  publishes-IsValid, gives_up-IsValid, unregisters-IsValid, claim_at-kind,
}
use krot.Server.Registry.Interleaving.Allocation.{
  start, start-IsValid, allocates_tcp-IsValid, allocates_http-IsValid,
}
use krot.Server.Registry.Interleaving.Leases.{
  drops-IsValid, resumes-IsValid, respawns-IsValid, rehashes-IsValid, remove_each-IsValid,
}

-- Every section under the lock, of any session, keeps the registry and its reservations valid, as
-- long as the ids of 64 bits do not run out.
pub Step-IsValid : {s t : World} → Step s t → IsValid s → IsValid t
unfolding remove remove_all_owned_by reap_expired
Step-IsValid (allocates_tcp w allowlist id port r h e) v =
    allocates_tcp-IsValid w allowlist id port r v h e
Step-IsValid (allocates_http w label id r h e) v = allocates_http-IsValid w label id r v h e
Step-IsValid (publishes w info h) v = publishes-IsValid w v info h
Step-IsValid (gives_up w id) v = gives_up-IsValid w v id
Step-IsValid (unregisters w id) v = unregisters-IsValid w v id
Step-IsValid (leaves w owner) v =
    remove_each-IsValid w v (Map.keys_where (λ info. info.owner == owner) w.registry.tunnels)
Step-IsValid (drops w owner grace now) v = drops-IsValid w v owner grace now
Step-IsValid (reaps w now) v =
    remove_each-IsValid w v (Map.keys_where (λ info. is_expired now info.state) w.registry.tunnels)
Step-IsValid (resumes w label session_id pubkey connection) v =
    resumes-IsValid w v label session_id pubkey connection
Step-IsValid (respawns w id new_abort) v = respawns-IsValid w v id new_abort
Step-IsValid (rehashes w tunnels distinct same) v = rehashes-IsValid w tunnels v distinct same

pub Reach-IsValid : {s t : World} → Reach s t → IsValid s → IsValid t
Reach-IsValid here v = v
Reach-IsValid (next r st) v = Step-IsValid st (Reach-IsValid r v)

resolve_label-found :
    (r : TunnelRegistry) (l : Bytes) (id : TunnelId) (info : TunnelInfo)
    → Map.get l r.labels ≡ some id
    → Map.get id r.tunnels ≡ some info
    → resolve_label r l ≡ resolve_state id info info.state
unfolding resolve_label
resolve_label-found r l id info a b = rw (a, resolve_label) (rw (b, resolve_label) refl)

resolve_label-lost :
    (r : TunnelRegistry) (l : Bytes) (id : TunnelId)
    → Map.get l r.labels ≡ some id
    → Map.get id r.tunnels ≡ none
    → resolve_label r l ≡ none
unfolding resolve_label
resolve_label-lost r l id a b = rw (a, resolve_label) (rw (b, resolve_label) refl)

resolve_label-absent :
    (r : TunnelRegistry) (l : Bytes) → Map.get l r.labels ≡ none → resolve_label r l ≡ none
unfolding resolve_label
resolve_label-absent r l a = rw (a, resolve_label) refl

resolve_state-live :
    (id : TunnelId) (info : TunnelInfo) (s : TunnelState) (t : ResolvedTunnel)
    → resolve_state id info s ≡ some t
    → (abort : Option ℕ) × (t.id ≡ id)
      × (s ≡ live t.connection abort)
      × (t.rate ≡ info.rate)
      × (t.inspect ≡ info.inspect)
unfolding resolve_state
resolve_state-live id info (live connection abort) t e =
    (abort, ground arith, ground arith, ground arith, ground arith)
resolve_state-live id info (dangling expires_at) t e = cc

module _ (w : World) (v : IsValid w) where
  resolve_label_sound :
      (l : Bytes) (t : ResolvedTunnel)
      → resolve_label w.registry l ≡ some t
      → (info : TunnelInfo) × (abort : Option ℕ) × (Map.get t.id w.registry.tunnels ≡ some info)
        × (info.kind ≡ http l)
        × (info.state ≡ live t.connection abort)
        × (t.rate ≡ info.rate)
        × (t.inspect ≡ info.inspect)
  unfolding resolve_label kind_at
  resolve_label_sound l t e = elim (Option-cases (Map.get l w.registry.labels)) [
    | inl a ↦ absurd (cc (resolve_label-absent w.registry l a))
    | inr (id, a) ↦ elim (Option-cases (Map.get id w.registry.tunnels)) [
      | inl b ↦ absurd (cc (resolve_label-lost w.registry l id a b))
      | inr (info, b) ↦
          let (abort, same, alive, rate, inspect) =
            resolve_state-live id info info.state t
              (sym (resolve_label-found w.registry l id info a b) ∙ e) in
          (info, abort, rw same b, ground (arith, v.labelled l id a, b), alive, rate, inspect)
    ]
  ]

  resolve_label_complete :
      (i : TunnelId) (info : TunnelInfo) (l : Bytes) (connection : ℕ) (abort : Option ℕ)
      → Map.get i w.registry.tunnels ≡ some info
      → info.kind ≡ http l
      → info.state ≡ live connection abort
      → resolve_label w.registry l
        ≡ some
            (record { id = i; connection = connection; rate = info.rate; inspect = info.inspect })
  unfolding resolve_label kind_at
  resolve_label_complete i info l connection abort e k s =
      let carried : kind_at w.registry i ≡ some (http l) = rw e (ap some k) in
      resolve_label-found w.registry l i info (v.routed i l carried) e
      ∙ unfold resolve_state in rw s refl

unique :
    (w : World)
    → IsValid w
    → (i j : TunnelId) (k : RegisteredKind) → kind_at w.registry i ≡ some k
    → kind_at w.registry j ≡ some k
    → i ≡ j
unique w v i j (tcp port) e f =
    v.port_unique i j port (claim_at-kind w v i (tcp port) e) (claim_at-kind w v j (tcp port) f)
unique w v i j (http label) e f =
    v.label_unique i j label (claim_at-kind w v i (http label) e)
      (claim_at-kind w v j (http label) f)

-- In every registry that interleaved sessions reach from the empty one before the ids of 64 bits run
-- out, no two tunnels have one public port or one label.
pub no_sharing :
    (pool_start pool_end : ℕ) (w : World)
    → Reach (start pool_start pool_end) w
    → (i j : TunnelId) (k : RegisteredKind) → kind_at w.registry i ≡ some k
    → kind_at w.registry j ≡ some k
    → i ≡ j
no_sharing pool_start pool_end w reach =
    unique w (Reach-IsValid reach (start-IsValid pool_start pool_end))

-- In every registry that interleaved sessions reach from the empty one before the ids of 64 bits run
-- out, a label resolves to exactly the live tunnel that is registered under it, with the connection
-- that this tunnel is live on and its own rate and inspection flag.
pub resolve_label_exact :
    (pool_start pool_end : ℕ) (w : World)
    → Reach (start pool_start pool_end) w
    → (l : Bytes) (t : ResolvedTunnel)
    → (resolve_label w.registry l ≡ some t) ↔ (
        (info : TunnelInfo) × (abort : Option ℕ) × (Map.get t.id w.registry.tunnels ≡ some info)
        × (info.kind ≡ http l)
        × (info.state ≡ live t.connection abort)
        × (t.rate ≡ info.rate)
        × (t.inspect ≡ info.inspect))
resolve_label_exact pool_start pool_end w reach l t =
    let v = Reach-IsValid reach (start-IsValid pool_start pool_end) in
    (
      resolve_label_sound w v l t,
      λ (info, abort, found, kind, alive, rate, inspect).
          resolve_label_complete w v t.id info l t.connection abort found kind alive
          ∙ ap₂
              (λ (a : ℕ) (b : Bool).
                some (record { id = t.id; connection = t.connection; rate = a; inspect = b }))
              (sym rate) (sym inspect),
    )
