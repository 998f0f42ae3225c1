-- ===== src/Server/Registry/Interleaving/Allocation.antt =====
-- A new reservation takes the next id and a label or a port that nobody holds.
use krot.Base.{
  nat_eq, text_eq, ℕ, suc, ◌+◌, ◌^◌, ◌<◌, ◌==◌, ◌≡◌, refl, if◌then◌else◌, ◌||◌, Bool, false, Option,
  none, some, Option-cases, List, [], Bytes, bytes_eq_iff, ok, arith, zero,
}
use krot.Base.Map
use krot.Base.HashSet
use krot.Base.HashSet.{HashSet}
use krot.Proto.Frames.{TunnelId}
use krot.Server.Registry.{
  RegisteredKind, tcp, http, TunnelRegistry, new, allocate_tcp, allocate_http, pick_free_port,
  find_port, is_free_port,
}
use krot.Server.Registry.Views.{kind_at, holds_label, holds_port}
use krot.Server.Registry.Interleaving.{World, claim_at, IsValid}
use krot.Server.Registry.Interleaving.Steps.{claim_at-next, kind_at-next}

find_port-free :
    (n p : ℕ) (used : HashSet ℕ) (allowlist : Option (List ℕ)) (q : ℕ)
    → find_port n p used allowlist ≡ some q
    → HashSet.contains q used ≡ false
unfolding find_port is_free_port
find_port-free zero p used allowlist q e = cc
find_port-free (suc n) p used none q e = ground (arith, find_port-free n (p + 1) used none q)
find_port-free (suc n) p used (some list) q e =
    ground (arith, find_port-free n (p + 1) used (some list) q)

-- The registry after a reservation.
abbrev pub reserved : TunnelRegistry → RegisteredKind → TunnelRegistry
reserved r (tcp port) = record r {
  used_ports = HashSet.insert port r.used_ports;
  next_id = r.next_id + 1;
}
reserved r (http label) = record r {
  used_labels = HashSet.insert label r.used_labels;
  next_id = r.next_id + 1;
}

pub allocate_tcp-ok :
    (r : TunnelRegistry) (allowlist : Option (List ℕ)) (id : TunnelId) (port : ℕ)
    (r' : TunnelRegistry)
    → r.next_id + 1 < 2 ^ 64
    → allocate_tcp r allowlist ≡ ok ((id, port), r')
    → (id ≡ r.next_id)
      × (r' ≡ reserved r (tcp port))
      × (pick_free_port r.pool_start r.pool_end r.used_ports allowlist ≡ some port)
unfolding allocate_tcp
allocate_tcp-ok r allowlist id port r' h e = ground arith

pub allocate_http-ok :
    (r : TunnelRegistry) (label : Bytes) (id : TunnelId) (r' : TunnelRegistry)
    → r.next_id + 1 < 2 ^ 64
    → allocate_http r label ≡ ok (id, r')
    → (id ≡ r.next_id)
      × (r' ≡ reserved r (http label))
      × (HashSet.contains label r.used_labels ≡ false)
unfolding allocate_http
allocate_http-ok r label id r' h e = ground arith

-- Whether a kind's label or port is reserved already.
abbrev is_reserved : TunnelRegistry → RegisteredKind → Bool
is_reserved r (tcp port) = HashSet.contains port r.used_ports
is_reserved r (http label) = HashSet.contains label r.used_labels

reserved_lem :
    (r : TunnelRegistry) (k : RegisteredKind)
    → ((i : TunnelId) → kind_at (reserved r k) i ≡ kind_at r i)
      × ((reserved r k).labels ≡ r.labels)
      × ((reserved r k).next_id ≡ r.next_id + 1)
      × ((l : Bytes)
          → HashSet.contains l (reserved r k).used_labels
            ≡ (holds_label (some k) l || HashSet.contains l r.used_labels))
      × ((p : ℕ)
          → HashSet.contains p (reserved r k).used_ports
            ≡ (holds_port (some k) p || HashSet.contains p r.used_ports))
unfolding kind_at
reserved_lem r (tcp q) =
    (λ i. refl, refl, refl, λ l. refl, λ p. HashSet.contains-insert q p r.used_ports)
reserved_lem r (http m) =
    (λ i. refl, refl, refl, λ l. HashSet.contains-insert m l r.used_labels, λ p. refl)

reserved-IsDistinct :
    (r : TunnelRegistry) (k : RegisteredKind)
    → Map.IsDistinct r.tunnels
    → Map.IsDistinct (reserved r k).tunnels
reserved-IsDistinct r (tcp port) d = d
reserved-IsDistinct r (http label) d = d

module _ (w : World) (v : IsValid w) (k : RegisteredKind) where
  pub reserve : World
  reserve = record {
    registry = reserved w.registry k;
    pending = Map.insert w.registry.next_id k w.pending;
  }

  claim_at-reserve :
      (i : TunnelId)
      → claim_at reserve i ≡ (if w.registry.next_id == i then some k else claim_at w i)
  unfolding reserve claim_at
  claim_at-reserve i =
      let nobody = claim_at-next w v in
      ground (
        arith,
        (reserved_lem w.registry k).0 i,
        Map.get-insert w.registry.next_id i k w.pending,
        nobody,
        Option-cases (kind_at w.registry i),
      )

  reserve-IsValid : is_reserved w.registry k ≡ false → IsValid reserve
  unfolding reserve
  reserve-IsValid free = record {
    below = λ i c e. ground (arith, claim_at-reserve i, (reserved_lem w.registry k).2, v.below i c);
    apart = λ i c e. ground (
      arith,
      (reserved_lem w.registry k).0 i,
      Map.get-insert w.registry.next_id i k w.pending,
      kind_at-next w v,
      v.apart i c,
    );
    label_held = λ i l e. ground (
      arith,
      claim_at-reserve i,
      (reserved_lem w.registry k).3 l,
      bytes_eq_iff l l,
      v.label_held i l,
    );
    port_held = λ i p e.
        ground (arith, claim_at-reserve i, (reserved_lem w.registry k).4 p, v.port_held i p);
    label_unique = λ i j l e f. ground (
      arith,
      claim_at-reserve i,
      claim_at-reserve j,
      free,
      v.label_held i l,
      v.label_held j l,
      v.label_unique i j l,
    );
    port_unique = λ i j p e f. ground (
      arith,
      claim_at-reserve i,
      claim_at-reserve j,
      free,
      v.port_held i p,
      v.port_held j p,
      v.port_unique i j p,
    );
    labelled = λ l i e.
        ground
          (arith, (reserved_lem w.registry k).0 i, (reserved_lem w.registry k).1, v.labelled l i);
    routed = λ i l e.
        ground
          (arith, (reserved_lem w.registry k).0 i, (reserved_lem w.registry k).1, v.routed i l);
    distinct = reserved-IsDistinct w.registry k v.distinct;
  }

-- The empty registry, with nothing pending.
unfoldable pub start : ℕ → ℕ → World
start pool_start pool_end = record { registry = new pool_start pool_end; pending = [] }

pub start-IsValid : (pool_start pool_end : ℕ) → IsValid (start pool_start pool_end)
unfolding start new claim_at kind_at Map.get
start-IsValid pool_start pool_end = record {
  below = λ i k e. cc;
  apart = λ i k e. cc;
  label_held = λ i l e. cc;
  port_held = λ i p e. cc;
  label_unique = λ i j l e f. cc;
  port_unique = λ i j p e f. cc;
  labelled = λ l i e. cc;
  routed = λ i l e. cc;
  distinct = tt;
}

pub allocates_tcp-IsValid :
    (w : World) (allowlist : Option (List ℕ)) (id : TunnelId) (port : ℕ) (r : TunnelRegistry)
    → IsValid w
    → w.registry.next_id + 1 < 2 ^ 64
    → allocate_tcp w.registry allowlist ≡ ok ((id, port), r)
    → IsValid (record { registry = r; pending = Map.insert id (tcp port) w.pending })
unfolding reserve pick_free_port
allocates_tcp-IsValid w allowlist id port r v h e =
    let (is_next, after, picked) = allocate_tcp-ok w.registry allowlist id port r h e in
    rw (is_next, after)
      (reserve-IsValid w v (tcp port)
        (find_port-free _ w.registry.pool_start w.registry.used_ports allowlist port picked))

pub allocates_http-IsValid :
    (w : World) (label : Bytes) (id : TunnelId) (r : TunnelRegistry)
    → IsValid w
    → w.registry.next_id + 1 < 2 ^ 64
    → allocate_http w.registry label ≡ ok (id, r)
    → IsValid (record { registry = r; pending = Map.insert id (http label) w.pending })
unfolding reserve
allocates_http-IsValid w label id r v h e =
    let (is_next, after, free) = allocate_http-ok w.registry label id r h e in
    rw (is_next, after) (reserve-IsValid w v (http label) free)
