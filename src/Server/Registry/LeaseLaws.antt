-- ===== src/Server/Registry/LeaseLaws.antt =====
-- What the bulk operations do to each tunnel.
use krot.Base.{
  nat_eq, text_eq, ℕ, ◌+◌, ◌==◌, ◌≡◌, refl, ap, if◌then◌else◌, not, Option, none, inl, inr,
  Option-cases, Bool-cases, List, [], ◌∷◌, arith, ==_iff,
}
use krot.Base.Map
use krot.Base.Map.{map_option, test_option, filter_option}
use krot.Base.HashSet
use krot.Proto.Frames.{TunnelId, PubKey}
use krot.Server.Registry.{
  dangling, TunnelInfo, TunnelRegistry, remove_locked, remove_each, remove_all_owned_by,
}
use krot.Server.Registry.Lease.{
  is_dangling, mark_one, mark_each, mark_dangling, is_expired, reap_expired,
}
use krot.Server.Registry.Views.{tunnels-remove_locked, fire_lem}

get-remove_each :
    (r : TunnelRegistry) (ids : List TunnelId) (i : TunnelId)
    → Map.get i (remove_each r ids).tunnels
      ≡ (if HashSet.contains i ids then none else Map.get i r.tunnels)
unfolding remove_each HashSet.contains
get-remove_each r [] i = refl
get-remove_each r (id ∷ ids) i = ground (
  arith,
  get-remove_each (remove_locked r id) ids i,
  ap (λ (m : Map.Map TunnelId TunnelInfo). Map.get i m) (tunnels-remove_locked r id),
  Map.get-remove id i r.tunnels,
)

module _ (r : TunnelRegistry) (distinct : Map.IsDistinct r.tunnels) (i : TunnelId) where
  -- In a table whose ids are distinct, leaving removes every tunnel of the owner, and no other.
  pub get-remove_all_owned_by :
      (owner : PubKey)
      → Map.get i (remove_all_owned_by r owner).tunnels
        ≡ filter_option (λ info. not (info.owner == owner)) (Map.get i r.tunnels)
  unfolding remove_all_owned_by
  get-remove_all_owned_by owner = ground (
    arith,
    get-remove_each r (Map.keys_where (λ info. info.owner == owner) r.tunnels) i,
    Map.contains-keys_where (λ (info : TunnelInfo). info.owner == owner) i r.tunnels distinct,
    Option-cases (Map.get i r.tunnels),
  )

  -- In a table whose ids are distinct, the reaper removes the dangling tunnels whose lease has run
  -- out, and no other.
  pub get-reap_expired :
      (now : ℕ)
      → Map.get i (reap_expired r now).1.tunnels
        ≡ filter_option (λ info. not (is_expired now info.state)) (Map.get i r.tunnels)
  unfolding reap_expired
  get-reap_expired now = ground (
    arith,
    get-remove_each r (Map.keys_where (λ info. is_expired now info.state) r.tunnels) i,
    Map.contains-keys_where (λ (info : TunnelInfo). is_expired now info.state) i r.tunnels distinct,
    Option-cases (Map.get i r.tunnels),
  )

-- A lease that runs until `expires_at`, for a tunnel that has none yet.
abbrev pub leased : ℕ → TunnelInfo → TunnelInfo
leased expires_at info =
    if is_dangling info.state then info else record info { state = dangling expires_at }

get-mark_one :
    (expires_at : ℕ) (r : TunnelRegistry) (id i : TunnelId)
    → Map.get i (mark_one expires_at r id).tunnels ≡ (
        if id == i
        then map_option (leased expires_at) (Map.get i r.tunnels)
        else Map.get i r.tunnels)
unfolding mark_one
get-mark_one expires_at r id i = elim (Option-cases (Map.get id r.tunnels)) [
  | inl e ↦ rw (e, mark_one) (ground (arith, ==_iff id i))
  | inr (info, e) ↦ elim (Bool-cases (is_dangling info.state)) [
    | inl d ↦ rw (e, mark_one) (rw d (ground (arith, ==_iff id i)))
    | inr d ↦
        rw (e, mark_one)
          (rw d (
            ground (
              arith,
              ==_iff id i,
              ap (λ (m : Map.Map TunnelId TunnelInfo). Map.get i m) (fire_lem info.state _).0,
              Map.get-update id i
                  (λ (info : TunnelInfo). record info { state = dangling expires_at }) r.tunnels,
            )))
  ]
]

leased-leased :
    (expires_at : ℕ) (o : Option TunnelInfo)
    → map_option (leased expires_at) (map_option (leased expires_at) o)
      ≡ map_option (leased expires_at) o
unfolding is_dangling
leased-leased expires_at o = ground arith

get-mark_each :
    (expires_at : ℕ) (r : TunnelRegistry) (ids : List TunnelId) (i : TunnelId)
    → Map.get i (mark_each expires_at r ids).tunnels ≡ (
        if HashSet.contains i ids
        then map_option (leased expires_at) (Map.get i r.tunnels)
        else Map.get i r.tunnels)
unfolding mark_each HashSet.contains
get-mark_each expires_at r [] i = refl
get-mark_each expires_at r (id ∷ ids) i = ground (
  arith,
  get-mark_each expires_at (mark_one expires_at r id) ids i,
  get-mark_one expires_at r id i,
  leased-leased expires_at (Map.get i r.tunnels),
)

-- In a table whose ids are distinct, after a drop every live tunnel of the owner dangles until the
-- grace period ends; a lease that runs already keeps its end, and no tunnel of another owner changes.
pub get-mark_dangling :
    (r : TunnelRegistry) (owner : PubKey) (grace now : ℕ) (i : TunnelId)
    → Map.IsDistinct r.tunnels
    → Map.get i (mark_dangling r owner grace now).tunnels
      ≡ map_option
          (λ info. if info.owner == owner then leased (now + grace) info else info)
          (Map.get i r.tunnels)
unfolding mark_dangling
get-mark_dangling r owner grace now i distinct = ground (
  arith,
  get-mark_each (now + grace) r (Map.keys_where (λ info. info.owner == owner) r.tunnels) i,
  Map.contains-keys_where (λ (info : TunnelInfo). info.owner == owner) i r.tunnels distinct,
  Option-cases (Map.get i r.tunnels),
)
