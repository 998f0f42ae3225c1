-- ===== src/Server/Session/Quota.antt =====
-- What the operations of the table do to the number of tunnels of an identity.
use krot.Base.{
  nat_eq, text_eq, ℕ, suc, ◌==◌, ◌≡◌, refl, ◌≤◌, Bool, Option, none, inl, inr, Option-cases, List,
  [], ◌∷◌, Bytes, length, ok, arith,
}
use krot.Base.Map
use krot.Proto.Frames.{TunnelId, SessionId, PubKey}
use krot.Server.Registry.{
  live, TunnelInfo, TunnelRegistry, allocate_http, allocate_tcp, insert, remove,
}
use krot.Server.Registry.Lease.{resumed_info, reattach, try_resume, set_tcp_abort, count_owned_by}
use krot.Server.Registry.Views.{tunnels-remove_locked}
use krot.Server.Registry.Resume.{try_resume_cases}

-- The keys that a change of the table leaves to a test.
module _ {V : Type 0} (p : V → Bool) (k : TunnelId) where
  pub keys_where-remove :
      (m : Map.Map TunnelId V)
      → length (Map.keys_where p (Map.remove k m)) ≤ length (Map.keys_where p m)
  unfolding Map.keys_where Map.remove
  keys_where-remove [] = omega arith
  keys_where-remove ((j, v) ∷ m) = ground (arith, keys_where-remove m)

  pub keys_where-insert :
      (v : V) (m : Map.Map TunnelId V)
      → length (Map.keys_where p (Map.insert k v m)) ≤ suc (length (Map.keys_where p m))
  unfolding Map.keys_where Map.insert
  keys_where-insert v m = ground (arith, keys_where-remove m)

  pub keys_where-update :
      (f : V → V) (m : Map.Map TunnelId V)
      → ((v : V) → p (f v) ≡ p v)
      → length (Map.keys_where p (Map.update k f m)) ≡ length (Map.keys_where p m)
  unfolding Map.keys_where Map.update
  keys_where-update f [] h = refl
  keys_where-update f ((j, v) ∷ m) h = ground (arith, keys_where-update f m h, h v)

module _ (r : TunnelRegistry) (pubkey : PubKey) where
  pub count-insert :
      (info : TunnelInfo) → count_owned_by (insert r info) pubkey ≤ suc (count_owned_by r pubkey)
  unfolding count_owned_by insert
  count-insert info = keys_where-insert (λ info. info.owner == pubkey) info.id info r.tunnels

  pub count-remove : (id : TunnelId) → count_owned_by (remove r id) pubkey ≤ count_owned_by r pubkey
  unfolding count_owned_by remove
  count-remove id =
      rw (tunnels-remove_locked r id)
        (keys_where-remove (λ info. info.owner == pubkey) id r.tunnels)

  pub count-set_tcp_abort :
      (id : TunnelId) (new_abort : ℕ)
      → count_owned_by (set_tcp_abort r id new_abort) pubkey ≡ count_owned_by r pubkey
  unfolding count_owned_by set_tcp_abort
  count-set_tcp_abort id new_abort =
      keys_where-update (λ info. info.owner == pubkey) id _ r.tunnels (λ info. refl)

  count-reattach :
      (id : TunnelId) (info : TunnelInfo) (connection : ℕ)
      → count_owned_by (reattach r id info connection).1 pubkey ≡ count_owned_by r pubkey
  unfolding count_owned_by reattach
  count-reattach id info connection =
      let same =
        keys_where-update (λ info. info.owner == pubkey) id
          (λ info. record info { state = live connection none }) r.tunnels (λ info. refl) in
      ground (arith, Option-cases (resumed_info info.kind info.tcp_listener))

  pub count-try_resume :
      (label : Bytes) (session_id : SessionId) (key : PubKey) (connection : ℕ)
      → count_owned_by (try_resume r label session_id key connection).1 pubkey
        ≡ count_owned_by r pubkey
  count-try_resume label session_id key connection =
      elim (try_resume_cases r label session_id key connection) [
        | inl (same, _) ↦ rw same refl
        | inr (id, info, _, same) ↦ rw same (count-reattach id info connection)
      ]

  pub count-allocate_http :
      (label : Bytes) (id : TunnelId) (r' : TunnelRegistry)
      → allocate_http r label ≡ ok (id, r')
      → count_owned_by r' pubkey ≡ count_owned_by r pubkey
  unfolding count_owned_by allocate_http
  count-allocate_http label id r' e = ground arith

  pub count-allocate_tcp :
      (allowlist : Option (List ℕ)) (id : TunnelId) (port : ℕ) (r' : TunnelRegistry)
      → allocate_tcp r allowlist ≡ ok ((id, port), r')
      → count_owned_by r' pubkey ≡ count_owned_by r pubkey
  unfolding count_owned_by allocate_tcp
  count-allocate_tcp allowlist id port r' e = ground arith
