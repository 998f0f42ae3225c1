-- ===== src/Server/Session/Disposal.antt =====
-- What the end of a session does to the routes.
use krot.Base.{
  ◌↔◌, Bytes, nat_eq, text_eq, ℕ, ◌==◌, ◌≡◌, ◌≢◌, ◌+◌, refl, sym, ap, ◌∙◌, not, if◌then◌else◌,
  Option, none, some, Bool-cases, inl, inr, arith, ==_iff,
}
use krot.Base.Map
use krot.Proto.Frames.{TunnelId, PubKey}
use krot.Server.Registry.{live, TunnelInfo, ResolvedTunnel, resolve_label, remove_all_owned_by}
use krot.Server.Registry.Lease.{is_dangling}
use krot.Server.Registry.LeaseLaws.{get-mark_dangling, get-remove_all_owned_by, leased}
use krot.Server.Registry.Interleaving.{World, Reach, next, leaves, drops}
use krot.Server.Registry.Interleaving.Allocation.{start, start-IsValid}
use krot.Server.Registry.Interleaving.Histories.{Reach-IsValid, resolve_label_exact}
use krot.Server.Session.{bye, dropped, terminal}
use krot.Server.Session.Ending.{Returned, dispose, dispose_lem}

-- Tunnels of others are kept as they are.
filter-other :
    (pubkey : PubKey) (entry : Option TunnelInfo) (info : TunnelInfo)
    → info.owner ≢ pubkey
    → (Map.filter_option (λ (x : TunnelInfo). not (x.owner == pubkey)) entry ≡ some info)
      ↔ (entry ≡ some info)
filter-other pubkey none info h = (λ e. cc, λ e. cc)
filter-other pubkey (some x) info h = (
  λ e. ground (arith, e, h, ==_iff x.owner pubkey),
  λ e. ground (arith, e, h, ==_iff x.owner pubkey),
)

leased-owner : (expires_at : ℕ) (x : TunnelInfo) → (leased expires_at x).owner ≡ x.owner
unfolding is_dangling
leased-owner expires_at x = elim (Bool-cases (is_dangling x.state)) [
  | inl d ↦ rw d refl
  | inr d ↦ rw d refl
]

some-injective : {x y : TunnelInfo} → ◌≡◌ {A = Option TunnelInfo} (some x) (some y) → x ≡ y
some-injective e = cc

map-other :
    (pubkey : PubKey) (expires_at : ℕ) (entry : Option TunnelInfo) (info : TunnelInfo)
    → info.owner ≢ pubkey
    → (Map.map_option
          (λ (x : TunnelInfo). if x.owner == pubkey then leased expires_at x else x)
          entry
        ≡ some info)
      ↔ (entry ≡ some info)
map-other pubkey expires_at none info h = (λ e. cc, λ e. cc)
map-other pubkey expires_at (some x) info h = elim (Bool-cases (x.owner == pubkey)) [
  | inl owns ↦
      let own : x.owner ≡ pubkey = (==_iff x.owner pubkey).0 owns in
      (
        λ e.
            let same : leased expires_at x ≡ info = some-injective (rw owns at e) in
            absurd (h (ap (λ y. y.owner) (sym same) ∙ leased-owner expires_at x ∙ own)),
        λ e.
            let same : x ≡ info = some-injective e in
            absurd (h (ap (λ y. y.owner) (sym same) ∙ own)),
      )
  | inr other ↦ rw other (λ e. e, λ e. e)
]

module _ (pool_start pool_end : ℕ) (w : World) (reach : Reach (start pool_start pool_end) w)
    (pubkey : PubKey) (grace now : ℕ) where
  get-dispose-other :
      (result : Returned) (i : TunnelId) (info : TunnelInfo)
      → info.owner ≢ pubkey
      → (Map.get i (dispose w.registry pubkey result grace now).tunnels ≡ some info)
        ↔ (Map.get i w.registry.tunnels ≡ some info)
  unfolding dispose
  get-dispose-other result i info h = go result
    where
      distinct : Map.IsDistinct w.registry.tunnels
      distinct = (Reach-IsValid reach (start-IsValid pool_start pool_end)).distinct

      removed :
          (Map.get i (remove_all_owned_by w.registry pubkey).tunnels ≡ some info)
          ↔ (Map.get i w.registry.tunnels ≡ some info)
      removed =
          rw (get-remove_all_owned_by w.registry distinct i pubkey)
            (filter-other pubkey (Map.get i w.registry.tunnels) info h)

      go :
          (result : Returned)
          → (Map.get i (dispose w.registry pubkey result grace now).tunnels ≡ some info)
            ↔ (Map.get i w.registry.tunnels ≡ some info)
      go none = removed
      go (some bye) = removed
      go (some terminal) = removed
      go (some dropped) =
          rw (get-mark_dangling w.registry pubkey grace now i distinct)
            (map-other pubkey (now + grace) (Map.get i w.registry.tunnels) info h)

  abbrev disposed : Returned → World
  disposed result = record w { registry = dispose w.registry pubkey result grace now }

  disposed-Reach : (result : Returned) → Reach (start pool_start pool_end) (disposed result)
  unfolding dispose
  disposed-Reach none = next reach (leaves w pubkey)
  disposed-Reach (some bye) = next reach (leaves w pubkey)
  disposed-Reach (some terminal) = next reach (leaves w pubkey)
  disposed-Reach (some dropped) = next reach (drops w pubkey grace now)

  -- In every registry that interleaved sessions reach from the empty one before the ids of 64 bits
  -- run out: once a session has ended, however it ended, a label routes to a tunnel exactly if it did
  -- before and that tunnel is not its identity's.
  pub resolve_label-dispose :
      (result : Returned) (label : Bytes) (t : ResolvedTunnel)
      → (resolve_label (dispose w.registry pubkey result grace now) label ≡ some t) ↔ (
          (resolve_label w.registry label ≡ some t)
          × ((info : TunnelInfo)
              → Map.get t.id w.registry.tunnels ≡ some info
              → info.owner ≢ pubkey))
  unfolding is_dangling
  resolve_label-dispose result label t =
      let before = resolve_label_exact pool_start pool_end w reach label t in
      let after =
        resolve_label_exact pool_start pool_end (disposed result) (disposed-Reach result) label t in
      (
        λ e.
            let (info, abort, found, kind, alive, rate, inspects) = after.0 e in
            let foreign = not_owned result t.id info t.connection abort found alive in
            let had = (get-dispose-other result t.id info foreign).0 found in
            (
              before.1 (info, abort, had, kind, alive, rate, inspects),
              λ other got owned.
                  foreign (ap (λ y. y.owner) (some-injective (sym had ∙ got)) ∙ owned),
            ),
        λ (e, foreign).
            let (info, abort, found, kind, alive, rate, inspects) = before.0 e in
            after.1 (
              info,
              abort,
              (get-dispose-other result t.id info (foreign info found)).1 found,
              kind,
              alive,
              rate,
              inspects,
            ),
      )
    where
      not_owned :
          (result : Returned) (i : TunnelId) (info : TunnelInfo) (c : ℕ) (abort : Option ℕ)
          → Map.get i (dispose w.registry pubkey result grace now).tunnels ≡ some info
          → info.state ≡ live c abort
          → info.owner ≢ pubkey
      not_owned result i info c abort found alive owned = ground (
        arith,
        alive,
        (dispose_lem pool_start pool_end w reach pubkey result grace now i info found owned).1,
      )
