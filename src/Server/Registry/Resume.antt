-- ===== src/Server/Registry/Resume.antt =====
-- The resumption of a lease: who may take a tunnel back, and what it changes.
use krot.Base.{
  nat_eq, text_eq, ℕ, ◌==◌, ◌≡◌, ◌≢◌, refl, Bool, true, some, ◌⊎◌, inl, inr, Option-cases,
  Bool-cases, Bytes, ==_iff,
}
use krot.Base.Map
use krot.Proto.Frames.{TunnelId, SessionId, PubKey}
use krot.Server.Registry.{TunnelInfo, TunnelRegistry}
use krot.Server.Registry.Lease.{
  is_dangling, ResumedInfo, reattached, candidate, reattach, resume_found, try_resume,
}

module _ (r : TunnelRegistry) (label : Bytes) (session_id : SessionId) (pubkey : PubKey)
    (connection : ℕ) where
  -- A tunnel that the caller may take back.
  pub record Resumable (id : TunnelId) (info : TunnelInfo) : Type 0 where
    pub found : candidate r label session_id ≡ some id
    pub here : Map.get id r.tunnels ≡ some info
    pub waits : is_dangling info.state ≡ true
    pub same_session : info.session_id ≡ session_id
    pub same_owner : info.owner ≡ pubkey

  pub try_resume_cases :
      ((try_resume r label session_id pubkey connection).1 ≡ r)
        × ((id : TunnelId) (resumed : ResumedInfo) (inspect : Bool)
            → (try_resume r label session_id pubkey connection).0 ≢ reattached id resumed inspect)
      ⊎ ((id : TunnelId) × (info : TunnelInfo) × Resumable id info
          × (try_resume r label session_id pubkey connection ≡ reattach r id info connection))
  unfolding try_resume resume_found
  try_resume_cases = elim (Option-cases (candidate r label session_id)) [
    | inl e ↦ rw (e, try_resume) (inl (refl, λ id resumed inspect q. cc))
    | inr (id, e) ↦ elim (Option-cases (Map.get id r.tunnels)) [
      | inl g ↦ rw (e, try_resume) (rw (g, try_resume) (inl (refl, λ id resumed inspect q. cc)))
      | inr (info, g) ↦ rw (e, try_resume) (rw (g, try_resume) (guards id info e g))
    ]
  ]
    where
      guards :
          (id : TunnelId) (info : TunnelInfo)
          → candidate r label session_id ≡ some id
          → Map.get id r.tunnels ≡ some info
          → let x = resume_found r id info session_id pubkey connection in
            (x.1 ≡ r)
              × ((id : TunnelId) (resumed : ResumedInfo) (inspect : Bool)
                  → x.0 ≢ reattached id resumed inspect)
            ⊎ ((id : TunnelId) × (info : TunnelInfo) × Resumable id info
                × (x ≡ reattach r id info connection))
      guards id info e g = elim (Bool-cases (is_dangling info.state)) [
        | inl d ↦ elim (Bool-cases (info.session_id == session_id)) [
          | inl s ↦ elim (Bool-cases (info.owner == pubkey)) [
            | inl o ↦ inr (
              id,
              info,
              record {
                found = e;
                here = g;
                waits = d;
                same_session = (==_iff _ _).0 s;
                same_owner = (==_iff _ _).0 o;
              },
              rw (d, resume_found) (rw s (rw o refl)),
            )
            | inr o ↦ inl (rw (d, resume_found) (rw s (rw o (refl, λ id resumed inspect q. cc))))
          ]
          | inr s ↦ inl (rw (d, resume_found) (rw s (refl, λ id resumed inspect q. cc)))
        ]
        | inr d ↦ inl (rw (d, resume_found) (refl, λ id resumed inspect q. cc))
      ]
