-- ===== src/Server/Session/Ending.antt =====
-- crates/krot-server/src/session.rs: `run`, by what its `select!` picks; and the end of
-- `handle_connection` of crates/krot-server/src/server.rs, which disposes of the tunnels.
use krot.Base.{
  nat_eq, text_eq, ℕ, ◌==◌, ◌≡◌, ◌≢◌, ◌+◌, refl, sym, subst, ◌∙◌, not, if◌then◌else◌, true, Option,
  none, some, Bool-cases, inl, inr, List, [], ◌∷◌, ◌++◌, arith, ==_iff,
}
use krot.Base.Map
use krot.Proto.Error as code
use krot.Proto.Frames.{TunnelId, PubKey, ClientFrame, ServerFrame, server_bye}
use krot.Server.Registry.{TunnelInfo, TunnelRegistry, remove_all_owned_by}
use krot.Server.Registry.Lease.{is_dangling, mark_dangling}
use krot.Server.Registry.LeaseLaws.{get-mark_dangling, get-remove_all_owned_by, leased}
use krot.Server.Registry.Interleaving.{World, Reach}
use krot.Server.Registry.Interleaving.Allocation.{start, start-IsValid}
use krot.Server.Registry.Interleaving.Histories.{Reach-IsValid}
use krot.Server.Session.{
  SessionOutcome, bye, dropped, terminal, continue, stop, Session, Outside, dispatch,
}

-- What `select!` may pick: the server stops, the key is revoked, a frame of the client, the end of
-- the stream or a frame that does not decode, and a frame of a data path for the client.
pub data Event : Type 0 where
  shutdown revoked broken : Event
  received : ClientFrame → Event
  outbound : ServerFrame → Event

-- The value that `run` returns; `none` stands for an error.
abbrev pub Returned : Type 0
Returned = Option SessionOutcome

-- The result if the events end the session, the table, and the frames written.
pub record Run : Type 0 where
  pub returned : Option Returned
  pub registry : TunnelRegistry
  pub sent : List ServerFrame

module _ (o : Outside) (s : Session) where
  unfoldable pub run : TunnelRegistry → List Event → Run
  run r [] = record { returned = none; registry = r; sent = [] }
  run r (shutdown ∷ events) = record {
    returned = some (some terminal);
    registry = r;
    sent = server_bye code.server_shutdown ∷ [];
  }
  run r (revoked ∷ events) = record {
    returned = some (some terminal);
    registry = r;
    sent = server_bye code.key_revoked ∷ [];
  }
  run r (broken ∷ events) = record { returned = some (some dropped); registry = r; sent = [] }
  run r (outbound frame ∷ events) =
      let rest = run r events in record rest { sent = frame ∷ rest.sent }
  run r (received frame ∷ events) =
      let (effect, outcome) = dispatch o s r frame in
      let rest = run effect.registry events in
      if effect.failed
      then record { returned = some none; registry = effect.registry; sent = effect.sent }
      else elim outcome [
        | continue ↦ record rest { sent = effect.sent ++ rest.sent }
        | stop reason ↦ record {
          returned = some (some reason);
          registry = effect.registry;
          sent = effect.sent;
        }
      ]

-- What becomes of the identity's tunnels.
unfoldable pub dispose : TunnelRegistry → PubKey → Returned → (grace now : ℕ) → TunnelRegistry
dispose r pubkey (some dropped) grace now = mark_dangling r pubkey grace now
dispose r pubkey (some bye) grace now = remove_all_owned_by r pubkey
dispose r pubkey (some terminal) grace now = remove_all_owned_by r pubkey
dispose r pubkey none grace now = remove_all_owned_by r pubkey

filter-removes :
    (pubkey : PubKey) (entry : Option TunnelInfo) (info : TunnelInfo)
    → Map.filter_option (λ (x : TunnelInfo). not (x.owner == pubkey)) entry ≡ some info
    → info.owner ≢ pubkey
filter-removes pubkey none info e same = cc
filter-removes pubkey (some x) info e same = ground (arith, ==_iff x.owner pubkey)

leased-IsDangling :
    (expires_at : ℕ) (x : TunnelInfo) → is_dangling (leased expires_at x).state ≡ true
unfolding is_dangling
leased-IsDangling expires_at x = elim (Bool-cases (is_dangling x.state)) [
  | inl d ↦ rw d d
  | inr d ↦ rw d refl
]

map-leases :
    (pubkey : PubKey) (expires_at : ℕ) (entry : Option TunnelInfo) (info : TunnelInfo)
    → Map.map_option
        (λ (x : TunnelInfo). if x.owner == pubkey then leased expires_at x else x)
        entry
      ≡ some info
    → info.owner ≡ pubkey
    → is_dangling info.state ≡ true
map-leases pubkey expires_at none info e same = cc
map-leases pubkey expires_at (some x) info e same = elim (Bool-cases (x.owner == pubkey)) [
  | inl owns ↦
      subst (λ o. Map.test_option (λ (v : TunnelInfo). is_dangling v.state) o ≡ true) (rw owns at e)
        (leased-IsDangling expires_at x)
  | inr other ↦ absurd (ground (arith, ==_iff x.owner pubkey))
]

-- Once a session has ended, each tunnel that its identity still has dangles, and it has one only if
-- the session ended by a drop.
pub dispose_lem :
    (pool_start pool_end : ℕ) (w : World)
    → Reach (start pool_start pool_end) w
    → (pubkey : PubKey) (result : Returned) (grace now : ℕ) (i : TunnelId) (info : TunnelInfo)
    → Map.get i (dispose w.registry pubkey result grace now).tunnels ≡ some info
    → info.owner ≡ pubkey
    → (result ≡ some dropped) × (is_dangling info.state ≡ true)
unfolding dispose is_dangling
dispose_lem pool_start pool_end w reach pubkey result grace now i info found owned =
    let distinct = (Reach-IsValid reach (start-IsValid pool_start pool_end)).distinct in
    go distinct result found
  where
    removed :
        Map.IsDistinct w.registry.tunnels
        → Map.get i (remove_all_owned_by w.registry pubkey).tunnels ≢ some info
    removed distinct e =
        filter-removes pubkey (Map.get i w.registry.tunnels) info
          (sym (get-remove_all_owned_by w.registry distinct i pubkey) ∙ e) owned

    go :
        Map.IsDistinct w.registry.tunnels
        → (result : Returned)
        → Map.get i (dispose w.registry pubkey result grace now).tunnels ≡ some info
        → (result ≡ some dropped) × (is_dangling info.state ≡ true)
    go distinct none e = absurd (removed distinct e)
    go distinct (some bye) e = absurd (removed distinct e)
    go distinct (some terminal) e = absurd (removed distinct e)
    go distinct (some dropped) e = (
      refl,
      map-leases pubkey (now + grace) (Map.get i w.registry.tunnels) info
          (sym (get-mark_dangling w.registry pubkey grace now i distinct) ∙ e) owned,
    )
