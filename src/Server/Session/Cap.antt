-- ===== src/Server/Session/Cap.antt =====
-- The cap of an entry with several sessions of the identity at work. A registration counts the
-- identity's tunnels in one section under the registry's lock and inserts its own in a later one, so
-- other sessions run in between.
use krot.Base.{
  nat_eq, text_eq, ℕ, suc, ◌+◌, ◌<◌, ◌≤◌, ◌==◌, ◌≡◌, ◌≢◌, ==_iff, refl, false, Option, List, [],
  ◌∷◌, Bytes, ok, arith,
}
use krot.Base.Map
use krot.Proto.Frames.{TunnelId, SessionId, PubKey}
use krot.Server.Registry.{
  TunnelInfo, TunnelRegistry, allocate_http, allocate_tcp, insert, remove, remove_locked,
  remove_each, remove_all_owned_by, fire, dangling,
}
use krot.Server.Registry.Lease.{
  mark_one, mark_each, mark_dangling, reap_expired, try_resume, set_tcp_abort, count_owned_by,
}
use krot.Server.Registry.Views.{tunnels-remove_locked}
use krot.Server.Session.{is_full}
use krot.Server.Session.Quota.{
  keys_where-remove, keys_where-update, count-insert, count-remove, count-set_tcp_abort,
  count-try_resume, count-allocate_http, count-allocate_tcp,
}

-- The table, and how many registrations of the identity have passed the test of the cap and not yet
-- returned.
pub record Admissions : Type 0 where
  pub registry : TunnelRegistry
  pub under_way : ℕ

module _ (pubkey : PubKey) (limit most : ℕ) where
  -- One section under the lock, of any session.
  pub data Step : Admissions → Admissions → Type 0 where
    admits :
        (a : Admissions)
        → is_full limit (count_owned_by a.registry pubkey) ≡ false
        → a.under_way < most
        → Step a (record a { under_way = suc a.under_way })
    returns : (a : Admissions) (n : ℕ) → a.under_way ≡ suc n → Step a (record a { under_way = n })
    publishes :
        (a : Admissions) (info : TunnelInfo) (n : ℕ)
        → info.owner ≡ pubkey
        → a.under_way ≡ suc n
        → Step a (record { registry = insert a.registry info; under_way = n })
    publishes_other :
        (a : Admissions) (info : TunnelInfo)
        → info.owner ≢ pubkey
        → Step a (record a { registry = insert a.registry info })
    allocates_http :
        (a : Admissions) (label : Bytes) (id : TunnelId) (r : TunnelRegistry)
        → allocate_http a.registry label ≡ ok (id, r)
        → Step a (record a { registry = r })
    allocates_tcp :
        (a : Admissions) (allowlist : Option (List ℕ)) (id : TunnelId) (port : ℕ)
        (r : TunnelRegistry)
        → allocate_tcp a.registry allowlist ≡ ok ((id, port), r)
        → Step a (record a { registry = r })
    unregisters :
        (a : Admissions) (id : TunnelId) → Step a (record a { registry = remove a.registry id })
    leaves :
        (a : Admissions) (owner : PubKey)
        → Step a (record a { registry = remove_all_owned_by a.registry owner })
    drops :
        (a : Admissions) (owner : PubKey) (grace now : ℕ)
        → Step a (record a { registry = mark_dangling a.registry owner grace now })
    reaps :
        (a : Admissions) (now : ℕ)
        → Step a (record a { registry = (reap_expired a.registry now).1 })
    resumes :
        (a : Admissions) (label : Bytes) (session_id : SessionId) (key : PubKey) (connection : ℕ)
        → Step a (record a { registry = (try_resume a.registry label session_id key connection).1 })
    respawns :
        (a : Admissions) (id : TunnelId) (new_abort : ℕ)
        → Step a (record a { registry = set_tcp_abort a.registry id new_abort })

  pub data Reach (first : Admissions) : Admissions → Type 0 where
    here : Reach first first
    next : {a b : Admissions} → Reach first a → Step a b → Reach first b

module _ (pubkey : PubKey) where
  count-insert-other :
      (r : TunnelRegistry) (info : TunnelInfo)
      → info.owner ≢ pubkey
      → count_owned_by (insert r info) pubkey ≤ count_owned_by r pubkey
  unfolding count_owned_by insert Map.insert Map.keys_where
  count-insert-other r info h = ground (
    arith,
    h,
    ==_iff info.owner pubkey,
    keys_where-remove (λ (x : TunnelInfo). x.owner == pubkey) info.id r.tunnels,
  )

  count-remove_locked :
      (r : TunnelRegistry) (id : TunnelId)
      → count_owned_by (remove_locked r id) pubkey ≤ count_owned_by r pubkey
  unfolding count_owned_by
  count-remove_locked r id =
      rw (tunnels-remove_locked r id)
        (keys_where-remove (λ info. info.owner == pubkey) id r.tunnels)

  count-remove_each :
      (r : TunnelRegistry) (ids : List TunnelId)
      → count_owned_by (remove_each r ids) pubkey ≤ count_owned_by r pubkey
  unfolding remove_each
  count-remove_each r [] = omega arith
  count-remove_each r (id ∷ ids) =
      omega (arith, count-remove_each (remove_locked r id) ids, count-remove_locked r id)

  count-mark_one :
      (expires_at : ℕ) (r : TunnelRegistry) (id : TunnelId)
      → count_owned_by (mark_one expires_at r id) pubkey ≡ count_owned_by r pubkey
  unfolding count_owned_by mark_one fire
  count-mark_one expires_at r id = ground (
    arith,
    keys_where-update (λ info. info.owner == pubkey) id
        (λ info. record info { state = dangling expires_at }) r.tunnels (λ info. refl),
  )

  count-mark_each :
      (expires_at : ℕ) (r : TunnelRegistry) (ids : List TunnelId)
      → count_owned_by (mark_each expires_at r ids) pubkey ≡ count_owned_by r pubkey
  unfolding mark_each
  count-mark_each expires_at r [] = refl
  count-mark_each expires_at r (id ∷ ids) = omega (
    arith,
    count-mark_each expires_at (mark_one expires_at r id) ids,
    count-mark_one expires_at r id,
  )

module _ (pubkey : PubKey) (limit most : ℕ) where
  -- What is held and what is under way.
  abbrev IsWithin : Admissions → Type 0
  IsWithin a = count_owned_by a.registry pubkey + a.under_way < limit + most

  Step-IsWithin : {a b : Admissions} → Step pubkey limit most a b → IsWithin a → IsWithin b
  unfolding is_full remove_all_owned_by mark_dangling reap_expired
  Step-IsWithin (admits a free few) h = ground (arith, free, few)
  Step-IsWithin (returns a n e) h = omega (arith, e, h)
  Step-IsWithin (publishes a info n own e) h =
      omega (arith, e, h, count-insert a.registry pubkey info)
  Step-IsWithin (publishes_other a info other) h =
      omega (arith, h, count-insert-other pubkey a.registry info other)
  Step-IsWithin (allocates_http a label id r e) h =
      omega (arith, h, count-allocate_http a.registry pubkey label id r e)
  Step-IsWithin (allocates_tcp a allowlist id port r e) h =
      omega (arith, h, count-allocate_tcp a.registry pubkey allowlist id port r e)
  Step-IsWithin (unregisters a id) h = omega (arith, h, count-remove a.registry pubkey id)
  Step-IsWithin (leaves a owner) h = omega (arith, h, count-remove_each pubkey a.registry _)
  Step-IsWithin (drops a owner grace now) h =
      omega (arith, h, count-mark_each pubkey (now + grace) a.registry _)
  Step-IsWithin (reaps a now) h = omega (arith, h, count-remove_each pubkey a.registry _)
  Step-IsWithin (resumes a label session_id key connection) h =
      omega (arith, h, count-try_resume a.registry pubkey label session_id key connection)
  Step-IsWithin (respawns a id new_abort) h =
      omega (arith, h, count-set_tcp_abort a.registry pubkey id new_abort)

  Reach-IsWithin :
      (first : Admissions) {a : Admissions}
      → Reach pubkey limit most first a
      → IsWithin first
      → IsWithin a
  Reach-IsWithin first here h = h
  Reach-IsWithin first (next before step) h = Step-IsWithin step (Reach-IsWithin first before h)

  pub count-reached :
      (first : Admissions) {a : Admissions}
      → Reach pubkey limit most first a
      → 0 < most
      → first.under_way ≡ 0
      → count_owned_by first.registry pubkey ≤ limit
      → count_owned_by a.registry pubkey < limit + most
  count-reached first {a = a} reached one idle within =
      let kept : IsWithin a = Reach-IsWithin first reached (omega (arith, one, idle, within)) in
      omega (arith, kept)
