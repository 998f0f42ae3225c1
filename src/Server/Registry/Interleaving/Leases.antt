-- ===== src/Server/Registry/Interleaving/Leases.antt =====
-- The lease operations change the state of a tunnel and nothing that the invariant reads; a
-- removal of several tunnels is one after the other.
use krot.Base.{
  nat_eq, text_eq, subst, ◌+◌, ℕ, ◌==◌, ◌≡◌, refl, sym, ◌∙◌, ap, Option, none, some, inl, inr,
  Option-cases, Bool-cases, List, [], ◌∷◌, Bytes, arith,
}
use krot.Base.Map
use krot.Proto.Frames.{TunnelId, SessionId, PubKey}
use krot.Server.Registry.{TunnelState, TunnelInfo, TunnelRegistry, fire, remove_locked, remove_each}
use krot.Server.Registry.Lease.{
  mark_one, mark_each, mark_dangling, is_dangling, resumed_info, reattach, try_resume,
  set_tcp_abort,
}
use krot.Server.Registry.Views.{kind_at, kind_of, fire_lem}
use krot.Server.Registry.Resume.{try_resume_cases}
use krot.Server.Registry.Interleaving.{World, claim_at, IsValid}
use krot.Server.Registry.Interleaving.Steps.{unregisters-IsValid}

-- Two registries that route alike.
pub record RoutesAlike (r r' : TunnelRegistry) : Type 0 where
  pub kinds : (i : TunnelId) → kind_at r' i ≡ kind_at r i
  pub labels : r'.labels ≡ r.labels
  pub used_labels : r'.used_labels ≡ r.used_labels
  pub used_ports : r'.used_ports ≡ r.used_ports
  pub next_id : r'.next_id ≡ r.next_id
  pub distinct : Map.IsDistinct r.tunnels → Map.IsDistinct r'.tunnels

pub RoutesAlike-refl : (r : TunnelRegistry) → RoutesAlike r r
RoutesAlike-refl r = record {
  kinds = λ i. refl;
  labels = refl;
  used_labels = refl;
  used_ports = refl;
  next_id = refl;
  distinct = λ d. d;
}

pub RoutesAlike-trans :
    {r s t : TunnelRegistry} → RoutesAlike r s → RoutesAlike s t → RoutesAlike r t
RoutesAlike-trans a b = record {
  kinds = λ i. b.kinds i ∙ a.kinds i;
  labels = b.labels ∙ a.labels;
  used_labels = b.used_labels ∙ a.used_labels;
  used_ports = b.used_ports ∙ a.used_ports;
  next_id = b.next_id ∙ a.next_id;
  distinct = λ d. b.distinct (a.distinct d);
}

RoutesAlike-IsValid :
    (w : World) (r : TunnelRegistry)
    → RoutesAlike w.registry r
    → IsValid w
    → IsValid (record w { registry = r })
unfolding claim_at
RoutesAlike-IsValid w r a v = record {
  below = λ i k e. ground (arith, a.kinds i, a.next_id, v.below i k);
  apart = λ i k e. a.kinds i ∙ v.apart i k e;
  label_held = λ i l e. ground (arith, a.kinds i, a.used_labels, v.label_held i l);
  port_held = λ i p e. ground (arith, a.kinds i, a.used_ports, v.port_held i p);
  label_unique = λ i j l e f. ground (arith, a.kinds i, a.kinds j, v.label_unique i j l);
  port_unique = λ i j p e f. ground (arith, a.kinds i, a.kinds j, v.port_unique i j p);
  labelled = λ l i e. ground (arith, a.kinds i, a.labels, v.labelled l i);
  routed = λ i l e. ground (arith, a.kinds i, a.labels, v.routed i l);
  distinct = a.distinct v.distinct;
}

-- A write to the state of one tunnel.
pub update-RoutesAlike :
    (r : TunnelRegistry) (id : TunnelId) (f : TunnelInfo → TunnelInfo)
    → ((info : TunnelInfo) → (f info).kind ≡ info.kind)
    → RoutesAlike r (record r { tunnels = Map.update id f r.tunnels })
unfolding kind_at
update-RoutesAlike r id f same = record {
  kinds = λ i. kinds i;
  labels = refl;
  used_labels = refl;
  used_ports = refl;
  next_id = refl;
  distinct = Map.update-IsDistinct id f r.tunnels;
}
  where
    kind_of-map : (o : Option TunnelInfo) → kind_of (Map.map_option f o) ≡ kind_of o
    kind_of-map none = refl
    kind_of-map (some info) = ap some (same info)

    kinds :
        (i : TunnelId) → kind_at (record r { tunnels = Map.update id f r.tunnels }) i ≡ kind_at r i
    kinds i = ground (arith, Map.get-update id i f r.tunnels, kind_of-map (Map.get i r.tunnels))

fire-RoutesAlike : (s : TunnelState) (r : TunnelRegistry) → RoutesAlike r (fire s r)
unfolding kind_at
fire-RoutesAlike s r =
    let (tunnels, labels, used_labels, used_ports, next_id) = fire_lem s r in
    record {
      kinds = λ i. ap (λ (m : Map.Map TunnelId TunnelInfo). kind_of (Map.get i m)) tunnels;
      labels = labels;
      used_labels = used_labels;
      used_ports = used_ports;
      next_id = next_id;
      distinct = λ d. subst Map.IsDistinct (sym tunnels) d;
    }

mark_one-RoutesAlike :
    (expires_at : ℕ) (r : TunnelRegistry) (id : TunnelId) → RoutesAlike r (mark_one expires_at r id)
unfolding mark_one
mark_one-RoutesAlike expires_at r id = elim (Option-cases (Map.get id r.tunnels)) [
  | inl e ↦ rw (e, mark_one) (RoutesAlike-refl r)
  | inr (info, e) ↦ elim (Bool-cases (is_dangling info.state)) [
    | inl d ↦ rw (e, mark_one) (rw d (RoutesAlike-refl r))
    | inr d ↦
        rw (e, mark_one)
          (rw d (
            RoutesAlike-trans (update-RoutesAlike r id _ (λ info. refl))
              (fire-RoutesAlike info.state _)))
  ]
]

pub mark_each-RoutesAlike :
    (expires_at : ℕ) (r : TunnelRegistry) (ids : List TunnelId)
    → RoutesAlike r (mark_each expires_at r ids)
unfolding mark_each
mark_each-RoutesAlike expires_at r [] = RoutesAlike-refl r
mark_each-RoutesAlike expires_at r (id ∷ ids) =
    RoutesAlike-trans (mark_one-RoutesAlike expires_at r id)
      (mark_each-RoutesAlike expires_at (mark_one expires_at r id) ids)

reattach-RoutesAlike :
    (r : TunnelRegistry) (id : TunnelId) (info : TunnelInfo) (connection : ℕ)
    → RoutesAlike r (reattach r id info connection).1
unfolding reattach
reattach-RoutesAlike r id info connection =
    elim (Option-cases (resumed_info info.kind info.tcp_listener)) [
      | inl e ↦ rw (e, reattach) (update-RoutesAlike r id _ (λ info. refl))
      | inr (x, e) ↦ rw (e, reattach) (update-RoutesAlike r id _ (λ info. refl))
    ]

try_resume-RoutesAlike :
    (r : TunnelRegistry) (label : Bytes) (session_id : SessionId) (pubkey : PubKey) (connection : ℕ)
    → RoutesAlike r (try_resume r label session_id pubkey connection).1
unfolding try_resume
try_resume-RoutesAlike r label session_id pubkey connection =
    elim (try_resume_cases r label session_id pubkey connection) [
      | inl (same, _) ↦ rw same (RoutesAlike-refl r)
      | inr (id, info, _, e) ↦ rw e (reattach-RoutesAlike r id info connection)
    ]

set_tcp_abort-RoutesAlike :
    (r : TunnelRegistry) (id : TunnelId) (new_abort : ℕ)
    → RoutesAlike r (set_tcp_abort r id new_abort)
unfolding set_tcp_abort
set_tcp_abort-RoutesAlike r id new_abort = update-RoutesAlike r id _ (λ info. refl)

module _ (w : World) (v : IsValid w) where
  pub drops-IsValid :
      (owner : PubKey) (grace now : ℕ)
      → IsValid (record w { registry = mark_dangling w.registry owner grace now })
  unfolding mark_dangling
  drops-IsValid owner grace now =
      RoutesAlike-IsValid w _
        (mark_each-RoutesAlike (now + grace) w.registry
          (Map.keys_where (λ info. info.owner == owner) w.registry.tunnels))
        v

  pub resumes-IsValid :
      (label : Bytes) (session_id : SessionId) (pubkey : PubKey) (connection : ℕ)
      → IsValid
          (record w { registry = (try_resume w.registry label session_id pubkey connection).1 })
  resumes-IsValid label session_id pubkey connection =
      RoutesAlike-IsValid w _ (try_resume-RoutesAlike w.registry label session_id pubkey connection)
        v

  pub respawns-IsValid :
      (id : TunnelId) (new_abort : ℕ)
      → IsValid (record w { registry = set_tcp_abort w.registry id new_abort })
  respawns-IsValid id new_abort =
      RoutesAlike-IsValid w _ (set_tcp_abort-RoutesAlike w.registry id new_abort) v

pub rehashes-IsValid :
    (w : World) (tunnels : Map.Map TunnelId TunnelInfo)
    → IsValid w
    → Map.IsDistinct tunnels
    → ((i : TunnelId) → Map.get i tunnels ≡ Map.get i w.registry.tunnels)
    → IsValid (record w { registry = record w.registry { tunnels = tunnels } })
unfolding kind_at
rehashes-IsValid w tunnels v distinct same =
    RoutesAlike-IsValid w _
      (record {
        kinds = λ i. ap kind_of (same i);
        labels = refl;
        used_labels = refl;
        used_ports = refl;
        next_id = refl;
        distinct = λ _. distinct;
      })
      v

pub remove_each-IsValid :
    (w : World)
    → IsValid w
    → (ids : List TunnelId) → IsValid (record w { registry = remove_each w.registry ids })
unfolding remove_each
remove_each-IsValid w v [] = v
remove_each-IsValid w v (id ∷ ids) =
    remove_each-IsValid (record w { registry = remove_locked w.registry id })
      (unregisters-IsValid w v id) ids
