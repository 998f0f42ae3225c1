-- ===== src/Server/Registry/Views.antt =====
-- What a registry operation does to the parts that routing reads: the kind of each tunnel, the
-- label index and the reservations.
use krot.Base.{
  nat_eq, text_eq, ℕ, ◌==◌, ◌≡◌, refl, sym, ap, ◌∙◌, not, ◌&&◌, if◌then◌else◌, Bool, true, false,
  Option, none, some, inl, inr, Option-cases, Bytes, bytes_eq, bytes_eq_iff, arith,
}
use krot.Base.Map
use krot.Base.HashSet
use krot.Proto.Frames.{TunnelId}
use krot.Server.Registry.{
  RegisteredKind, tcp, http, TunnelState, live, dangling, TunnelInfo, TunnelRegistry, insert,
  publish_label, release, fire, remove_locked,
}

abbrev pub kind_of : Option TunnelInfo → Option RegisteredKind
kind_of none = none
kind_of (some info) = some info.kind

-- The kind of the tunnel with an id, if there is one.
unfoldable pub kind_at : TunnelRegistry → TunnelId → Option RegisteredKind
kind_at r i = kind_of (Map.get i r.tunnels)

-- Whether the tunnel of a kind holds a label, or a port.
abbrev pub holds_label : Option RegisteredKind → Bytes → Bool
holds_label none l = false
holds_label (some (tcp p)) l = false
holds_label (some (http m)) l = bytes_eq m l

abbrev pub holds_port : Option RegisteredKind → ℕ → Bool
holds_port none p = false
holds_port (some (tcp q)) p = q == p
holds_port (some (http m)) p = false

pub holds_label→eq :
    (k : Option RegisteredKind) (l : Bytes) → holds_label k l ≡ true → k ≡ some (http l)
holds_label→eq none l h = cc
holds_label→eq (some (tcp q)) l h = cc
holds_label→eq (some (http m)) l h = ap (λ (t : Bytes). some (http t)) ((bytes_eq_iff m l).0 h)

pub holds_port→eq : (k : Option RegisteredKind) (p : ℕ) → holds_port k p ≡ true → k ≡ some (tcp p)
holds_port→eq none p h = cc
holds_port→eq (some (tcp q)) p h = ground arith
holds_port→eq (some (http m)) p h = cc

pub kind_at-insert :
    (r : TunnelRegistry) (info : TunnelInfo) (i : TunnelId)
    → kind_at (insert r info) i ≡ (if info.id == i then some info.kind else kind_at r i)
unfolding kind_at insert
kind_at-insert r info i = rw Map.get-insert (ground arith)

pub labels-insert :
    (r : TunnelRegistry) (info : TunnelInfo) (l : Bytes)
    → Map.get l (insert r info).labels
      ≡ (if holds_label (some info.kind) l then some info.id else Map.get l r.labels)
unfolding insert
labels-insert r info l = go info.kind
  where
    go :
        (k : RegisteredKind)
        → Map.get l (publish_label k info.id r.labels)
          ≡ (if holds_label (some k) l then some info.id else Map.get l r.labels)
    go (tcp p) = refl
    go (http m) = Map.get-insert m l info.id r.labels

-- `fire` touches the record of fired handles alone.
pub fire_lem :
    (s : TunnelState) (r : TunnelRegistry)
    → ((fire s r).tunnels ≡ r.tunnels)
      × ((fire s r).labels ≡ r.labels)
      × ((fire s r).used_labels ≡ r.used_labels)
      × ((fire s r).used_ports ≡ r.used_ports)
      × ((fire s r).next_id ≡ r.next_id)
unfolding fire
fire_lem (live c (some a)) r = (refl, refl, refl, refl, refl)
fire_lem (live c none) r = (refl, refl, refl, refl, refl)
fire_lem (dangling e) r = (refl, refl, refl, refl, refl)

release_lem :
    (k : RegisteredKind) (r : TunnelRegistry)
    → ((release k r).tunnels ≡ r.tunnels)
      × ((release k r).next_id ≡ r.next_id)
      × ((l : Bytes)
          → Map.get l (release k r).labels
            ≡ (if holds_label (some k) l then none else Map.get l r.labels))
      × ((l : Bytes)
          → HashSet.contains l (release k r).used_labels
            ≡ (not (holds_label (some k) l) && HashSet.contains l r.used_labels))
      × ((p : ℕ)
          → HashSet.contains p (release k r).used_ports
            ≡ (not (holds_port (some k) p) && HashSet.contains p r.used_ports))
unfolding release
release_lem (tcp q) r =
    (refl, refl, λ l. refl, λ l. refl, λ p. HashSet.contains-remove q p r.used_ports)
release_lem (http m) r = (
  refl,
  refl,
  λ l. Map.get-remove m l r.labels,
  λ l. HashSet.contains-remove m l r.used_labels,
  λ p. refl,
)

module _ (r : TunnelRegistry) (id : TunnelId) where
  pub tunnels-remove_locked : (remove_locked r id).tunnels ≡ Map.remove id r.tunnels
  unfolding remove_locked
  tunnels-remove_locked = elim (Option-cases (Map.get id r.tunnels)) [
    | inl e ↦ rw (e, remove_locked) (sym (Map.remove-absent id r.tunnels e))
    | inr (info, e) ↦
        rw (e, remove_locked) ((fire_lem info.state _).0 ∙ (release_lem info.kind _).0)
  ]

  pub kind_at-remove_locked :
      (i : TunnelId) → kind_at (remove_locked r id) i ≡ (if id == i then none else kind_at r i)
  unfolding kind_at
  kind_at-remove_locked i = rw tunnels-remove_locked (rw Map.get-remove (ground arith))

  pub next_id-remove_locked : (remove_locked r id).next_id ≡ r.next_id
  unfolding remove_locked
  next_id-remove_locked = elim (Option-cases (Map.get id r.tunnels)) [
    | inl e ↦ rw (e, remove_locked) refl
    | inr (info, e) ↦
        rw (e, remove_locked) ((fire_lem info.state _).4 ∙ (release_lem info.kind _).1)
  ]

  pub labels-remove_locked :
      (l : Bytes)
      → Map.get l (remove_locked r id).labels
        ≡ (if holds_label (kind_at r id) l then none else Map.get l r.labels)
  unfolding kind_at remove_locked
  labels-remove_locked l = elim (Option-cases (Map.get id r.tunnels)) [
    | inl e ↦ rw (e, remove_locked) refl
    | inr (info, e) ↦
        rw (e, remove_locked) (rw (fire_lem info.state _).1 ((release_lem info.kind _).2 l))
  ]

  pub used_labels-remove_locked :
      (l : Bytes)
      → HashSet.contains l (remove_locked r id).used_labels
        ≡ (not (holds_label (kind_at r id) l) && HashSet.contains l r.used_labels)
  unfolding kind_at remove_locked
  used_labels-remove_locked l = elim (Option-cases (Map.get id r.tunnels)) [
    | inl e ↦ rw (e, remove_locked) refl
    | inr (info, e) ↦
        rw (e, remove_locked) (rw (fire_lem info.state _).2 ((release_lem info.kind _).3 l))
  ]

  pub used_ports-remove_locked :
      (p : ℕ)
      → HashSet.contains p (remove_locked r id).used_ports
        ≡ (not (holds_port (kind_at r id) p) && HashSet.contains p r.used_ports)
  unfolding kind_at remove_locked
  used_ports-remove_locked p = elim (Option-cases (Map.get id r.tunnels)) [
    | inl e ↦ rw (e, remove_locked) refl
    | inr (info, e) ↦
        rw (e, remove_locked) (rw (fire_lem info.state _).3 ((release_lem info.kind _).4 p))
  ]
