-- ===== src/Server/Registry/Interleaving/Steps.antt =====
-- Every step keeps the registry and its reservations valid.
use krot.Base.{nat_eq, text_eq, ◌≡◌, refl, none, some, inl, inr, Option-cases, bytes_eq_iff, arith}
use krot.Base.Map
use krot.Proto.Frames.{TunnelId}
use krot.Server.Registry.{RegisteredKind, tcp, http, TunnelInfo, insert, remove_locked}
use krot.Server.Registry.Views.{
  kind_at, holds_label→eq, holds_port→eq, kind_at-insert, labels-insert, tunnels-remove_locked,
  kind_at-remove_locked, next_id-remove_locked, labels-remove_locked, used_labels-remove_locked,
  used_ports-remove_locked,
}
use krot.Server.Registry.Interleaving.{World, claim_at, IsValid}

-- A new reservation: the next id takes a label or a port that nobody holds.
module _ (w : World) (v : IsValid w) where
  pub claim_at-next : claim_at w w.registry.next_id ≡ none
  claim_at-next = elim (Option-cases (claim_at w w.registry.next_id)) [
    | inl e ↦ e
    | inr (k, e) ↦ absurd (omega (arith, v.below w.registry.next_id k e))
  ]

  pub kind_at-next : kind_at w.registry w.registry.next_id ≡ none
  unfolding claim_at
  kind_at-next = let nobody = claim_at-next in ground arith

  pub claim_at-kind :
      (i : TunnelId) (k : RegisteredKind) → kind_at w.registry i ≡ some k → claim_at w i ≡ some k
  unfolding claim_at
  claim_at-kind i k e = rw e

  claim_at-pending :
      (i : TunnelId) (k : RegisteredKind) → Map.get i w.pending ≡ some k → claim_at w i ≡ some k
  unfolding claim_at
  claim_at-pending i k e = rw (v.apart i k e, e) refl

  claim_at-publishes :
      (info : TunnelInfo)
      → Map.get info.id w.pending ≡ some info.kind
      → (i : TunnelId) (k : RegisteredKind)
      → claim_at
          (record { registry = insert w.registry info; pending = Map.remove info.id w.pending })
          i
        ≡ some k
      → claim_at w i ≡ some k
  claim_at-publishes info h i k e =
      unfold claim_at in
      ground (
        arith,
        kind_at-insert w.registry info i,
        Map.get-remove info.id i w.pending,
        v.apart info.id info.kind h,
      )

  claim_at-gives_up :
      (id i : TunnelId) (k : RegisteredKind)
      → claim_at (record w { pending = Map.remove id w.pending }) i ≡ some k
      → claim_at w i ≡ some k
  unfolding claim_at
  claim_at-gives_up id i k e = ground (arith, Map.get-remove id i w.pending)

  pub publishes-IsValid :
      (info : TunnelInfo)
      → Map.get info.id w.pending ≡ some info.kind
      → IsValid
          (record { registry = insert w.registry info; pending = Map.remove info.id w.pending })
  unfolding insert
  publishes-IsValid info h = record {
    below = λ i k e.
        let old : claim_at w i ≡ some k = claim_at-publishes info h i k e in v.below i k old;
    apart = λ i k e.
        ground (
          arith,
          kind_at-insert w.registry info i,
          Map.get-remove info.id i w.pending,
          v.apart i k,
        );
    label_held = λ i l e. v.label_held i l (claim_at-publishes info h i (http l) e);
    port_held = λ i p e. v.port_held i p (claim_at-publishes info h i (tcp p) e);
    label_unique = λ i j l e f.
        v.label_unique i j l (claim_at-publishes info h i (http l) e)
          (claim_at-publishes info h j (http l) f);
    port_unique = λ i j p e f.
        v.port_unique i j p (claim_at-publishes info h i (tcp p) e)
          (claim_at-publishes info h j (tcp p) f);
    labelled = λ l i e. ground (
      arith,
      labels-insert w.registry info l,
      kind_at-insert w.registry info i,
      holds_label→eq (some info.kind) l,
      v.labelled l i,
      v.apart info.id info.kind h,
    );
    routed = λ i l e. ground (
      arith,
      labels-insert w.registry info l,
      kind_at-insert w.registry info i,
      bytes_eq_iff l l,
      holds_label→eq (some info.kind) l,
      v.routed i l,
      claim_at-kind i (http l),
      claim_at-pending info.id info.kind h,
      v.label_unique info.id i l,
    );
    distinct = Map.insert-IsDistinct info.id info w.registry.tunnels v.distinct;
  }

  pub gives_up-IsValid : (id : TunnelId) → IsValid (record w { pending = Map.remove id w.pending })
  gives_up-IsValid id = record {
    below = λ i k e. v.below i k (claim_at-gives_up id i k e);
    apart = λ i k e. ground (arith, Map.get-remove id i w.pending, v.apart i k);
    label_held = λ i l e. v.label_held i l (claim_at-gives_up id i (http l) e);
    port_held = λ i p e. v.port_held i p (claim_at-gives_up id i (tcp p) e);
    label_unique = λ i j l e f.
        v.label_unique i j l (claim_at-gives_up id i (http l) e)
          (claim_at-gives_up id j (http l) f);
    port_unique = λ i j p e f.
        v.port_unique i j p (claim_at-gives_up id i (tcp p) e) (claim_at-gives_up id j (tcp p) f);
    labelled = v.labelled;
    routed = v.routed;
    distinct = v.distinct;
  }

  claim_at-unregisters :
      (id i : TunnelId) (k : RegisteredKind)
      → claim_at (record w { registry = remove_locked w.registry id }) i ≡ some k
      → (claim_at w i ≡ some k) × (id ≡ i → kind_at w.registry i ≡ none)
  unfolding claim_at
  claim_at-unregisters id i k e = ground (
    arith,
    kind_at-remove_locked w.registry id i,
    Option-cases (kind_at w.registry i),
    v.apart i k,
  )

  pub unregisters-IsValid :
      (id : TunnelId) → IsValid (record w { registry = remove_locked w.registry id })
  unregisters-IsValid id = record {
    below = λ i k e.
        let (old, _) = claim_at-unregisters id i k e in rw next_id-remove_locked (v.below i k old);
    apart = λ i k e. ground (arith, kind_at-remove_locked w.registry id i, v.apart i k e);
    label_held = λ i l e.
        let (old, gone) = claim_at-unregisters id i (http l) e in
        ground (
          arith,
          used_labels-remove_locked w.registry id l,
          holds_label→eq (kind_at w.registry id) l,
          claim_at-kind id (http l),
          v.label_unique id i l,
          v.label_held i l old,
        );
    port_held = λ i p e.
        let (old, gone) = claim_at-unregisters id i (tcp p) e in
        ground (
          arith,
          used_ports-remove_locked w.registry id p,
          holds_port→eq (kind_at w.registry id) p,
          claim_at-kind id (tcp p),
          v.port_unique id i p,
          v.port_held i p old,
        );
    label_unique = λ i j l e f.
        v.label_unique i j l (claim_at-unregisters id i (http l) e).0
          (claim_at-unregisters id j (http l) f).0;
    port_unique = λ i j p e f.
        v.port_unique i j p (claim_at-unregisters id i (tcp p) e).0
          (claim_at-unregisters id j (tcp p) f).0;
    labelled = λ l i e. ground (
      arith,
      labels-remove_locked w.registry id l,
      kind_at-remove_locked w.registry id i,
      v.labelled l i,
      bytes_eq_iff l l,
    );
    routed = λ i l e. ground (
      arith,
      labels-remove_locked w.registry id l,
      kind_at-remove_locked w.registry id i,
      v.routed i l,
      holds_label→eq (kind_at w.registry id) l,
      v.routed id l,
    );
    distinct =
        rw (tunnels-remove_locked w.registry id)
          (Map.remove-IsDistinct id w.registry.tunnels v.distinct);
  }
