-- ===== src/Server/Session/Sections.antt =====
-- What `register` does to the table is one section under the lock after the other.
use krot.Base.{
  nat_eq, text_eq, ℕ, suc, ◌+◌, ◌≤◌, ◌<◌, ◌≡◌, refl, Bool, Option, none, some, inl, inr,
  Option-cases, Bool-cases, Bytes, Result-cases, arith,
}
use krot.Proto.Frames
use krot.Proto.Frames.{TunnelId, SessionId, PubKey, TunnelKind, tunnel_rejected}
use krot.Proto.Error as code
use krot.Base.{text}
use krot.Server.PeerLookup.{CollisionCheck-cases, check_collision}
use krot.Server.Registry.{TunnelRegistry, allocate_http, allocate_tcp}
use krot.Server.Registry.Lease.{
  ResumedInfo, resumed_http, resumed_tcp, ResumeOutcome, reattached, unknown, identity_mismatch,
  try_resume, count_owned_by,
}
use krot.Server.Registry.Label.{is_valid_label}
use krot.Server.Session.{
  Session, Outside, Effect, http_info, publish_http, checked_http, register_http, tcp_info,
  listen_tcp, register_tcp, finish_resume, register_kind, is_full, register_fresh, resume_or_fresh,
  register, candidate_peers, Mode-cases, is_forbidden_port, is_permitted,
}
use krot.Server.Session.Cap.{
  count-reached, Admissions, Reach, here, next, admits, returns, publishes, allocates_http,
  allocates_tcp, unregisters, resumes, respawns,
}

abbrev at : ℕ → TunnelRegistry → Admissions
at n r = record { registry = r; under_way = n }

Reach-trans :
    {pubkey : PubKey} {limit most : ℕ} {a b c : Admissions}
    → Reach pubkey limit most a b
    → Reach pubkey limit most b c
    → Reach pubkey limit most a c
Reach-trans before here = before
Reach-trans before (next more step) = next (Reach-trans before more) step

module _ (o : Outside) (s : Session) (limit most n : ℕ) where
  -- The sections behind the test of the cap.
  abbrev Runs : TunnelRegistry → Effect → Type 0
  Runs r e = Reach s.pubkey limit most (at (suc n) r) (at n e.registry)

  publish_http-Runs :
      (r : TunnelRegistry) (apex label : Bytes) (inspect : Bool)
      → Runs r (publish_http o s r apex label inspect)
  unfolding publish_http
  publish_http-Runs r apex label inspect = elim (Result-cases (allocate_http r label)) [
    | inl (e, h) ↦ rw (h, publish_http) (next here (returns (at (suc n) r) n refl))
    | inr ((id, r'), h) ↦
        rw (h, publish_http)
          (next (next here (allocates_http (at (suc n) r) label id r' h))
            (publishes (at (suc n) r') (http_info o s label inspect id) n refl refl))
  ]

  checked_http-Runs :
      (r : TunnelRegistry) (apex label : Bytes) (inspect : Bool)
      → Runs r (checked_http o s r apex label inspect)
  unfolding checked_http
  checked_http-Runs r apex label inspect =
      elim (CollisionCheck-cases (
        check_collision s.peer_lookup label s.pubkey
          (candidate_peers s.peer_list s.entry.federation))) [
            | inl (peer, e) ↦ rw (e, checked_http) (next here (returns (at (suc n) r) n refl))
            | inr (matched, e) ↦ rw (e, checked_http) (publish_http-Runs r apex label inspect)
          ]

  register_http-Runs :
      (r : TunnelRegistry) (label : Bytes) (inspect : Bool)
      → Runs r (register_http o s r label inspect)
  unfolding register_http
  register_http-Runs r label inspect = elim (Mode-cases s.mode) [
    | inl (_, e) ↦ rw (e, register_http) (next here (returns (at (suc n) r) n refl))
    | inr (apex, e) ↦ elim (Bool-cases (is_valid_label label)) [
      | inr v ↦ rw (e, register_http) (rw v (next here (returns (at (suc n) r) n refl)))
      | inl v ↦ elim (Bool-cases (is_permitted s.entry label)) [
        | inr g ↦ rw (e, register_http) (rw (v, g) (next here (returns (at (suc n) r) n refl)))
        | inl g ↦ rw (e, register_http) (rw (v, g) (checked_http-Runs r apex label inspect))
      ]
    ]
  ]

  listen_tcp-Runs :
      (r : TunnelRegistry) (id : TunnelId) (port : ℕ) (inspect : Bool)
      → Runs r (listen_tcp o s r id port inspect)
  unfolding listen_tcp
  listen_tcp-Runs r id port inspect = elim (Result-cases (o.bind port)) [
    | inl (e, h) ↦ rw (h, listen_tcp) (next here (returns (at (suc n) r) n refl))
    | inr (listener, h) ↦ elim (Option-cases (o.local_port listener)) [
      | inl g ↦ rw (h, listen_tcp) (rw (g, listen_tcp) (next here (returns (at (suc n) r) n refl)))
      | inr (public_port, g) ↦
          rw (h, listen_tcp)
            (rw (g, listen_tcp)
              (next here (
                publishes (at (suc n) r) (tcp_info o s public_port listener inspect id) n refl
                  refl)))
    ]
  ]

  register_tcp-Runs :
      (r : TunnelRegistry) (remote_port : Option ℕ) (inspect : Bool)
      → Runs r (register_tcp o s r remote_port inspect)
  unfolding register_tcp
  register_tcp-Runs r remote_port inspect =
      elim (Option-cases (is_forbidden_port remote_port s.entry.allowed_ports)) [
        | inr (p, f) ↦ rw (f, register_tcp) (next here (returns (at (suc n) r) n refl))
        | inl f ↦ elim (Result-cases (allocate_tcp r s.entry.allowed_ports)) [
          | inl (e, h) ↦
              rw (f, register_tcp)
                (rw (h, register_tcp) (next here (returns (at (suc n) r) n refl)))
          | inr (((id, port), r'), h) ↦
              rw (f, register_tcp)
                (rw (h, register_tcp)
                  (Reach-trans
                    (next here (allocates_tcp (at (suc n) r) s.entry.allowed_ports id port r' h))
                    (listen_tcp-Runs r' id port inspect)))
        ]
      ]

  register_kind-Runs :
      (r : TunnelRegistry) (label : Bytes) (kind : TunnelKind) (inspect : Bool)
      → Runs r (register_kind o s r label kind inspect)
  unfolding register_kind
  register_kind-Runs r label Frames.http inspect = register_http-Runs r label inspect
  register_kind-Runs r label (Frames.tcp remote_port) inspect =
      register_tcp-Runs r remote_port inspect

  -- The sections of a whole registration.
  abbrev Passes : TunnelRegistry → Effect → Type 0
  Passes r e = Reach s.pubkey limit most (at n r) (at n e.registry)

  register_fresh-Passes :
      (r : TunnelRegistry) (label : Bytes) (kind : TunnelKind) (inspect : Bool)
      → s.entry.max_conns ≡ some limit
      → n < most
      → Passes r (register_fresh o s r label kind inspect)
  unfolding register_fresh
  register_fresh-Passes r label kind inspect capped few =
      elim (Bool-cases (is_full limit (count_owned_by r s.pubkey))) [
        | inl full ↦ rw (capped, register_fresh) (rw full here)
        | inr free ↦
            rw (capped, register_fresh)
              (rw free (
                Reach-trans (next here (admits (at n r) free few))
                  (register_kind-Runs r label kind inspect)))
      ]

  finish_resume-Passes :
      (r : TunnelRegistry) (id : TunnelId) (info : ResumedInfo)
      → Passes r (finish_resume o s r id info)
  unfolding finish_resume
  finish_resume-Passes r id (resumed_http label) = elim (Mode-cases s.mode) [
    | inl (_, e) ↦
        let frame = tunnel_rejected code.internal_error (text "resume across mode change") in
        elim (Bool-cases (o.writes frame)) [
          | inl written ↦ rw (e, finish_resume) (rw written (next here (unregisters (at n r) id)))
          | inr failed ↦ rw (e, finish_resume) (rw failed here)
        ]
    | inr (apex, e) ↦ rw (e, finish_resume) here
  ]
  finish_resume-Passes r id (resumed_tcp public_port listener) =
      next here (respawns (at n r) id (o.spawn listener))

  resume_or_fresh-Passes :
      (outcome : ResumeOutcome) (r : TunnelRegistry) (label : Bytes) (kind : TunnelKind)
      (inspect : Bool)
      → s.entry.max_conns ≡ some limit
      → n < most
      → Passes r (resume_or_fresh o s outcome r label kind inspect)
  unfolding resume_or_fresh
  resume_or_fresh-Passes (reattached id info resumed_inspect) r label kind inspect capped few =
      finish_resume-Passes r id info
  resume_or_fresh-Passes identity_mismatch r label kind inspect capped few = here
  resume_or_fresh-Passes unknown r label kind inspect capped few =
      register_fresh-Passes r label kind inspect capped few

  -- A registration is sections of the relation, one after the other.
  register-Passes :
      (r : TunnelRegistry) (label : Bytes) (kind : TunnelKind) (resume : Option SessionId)
      (inspect : Bool)
      → s.entry.max_conns ≡ some limit
      → n < most
      → Passes r (register o s r label kind resume inspect)
  unfolding register
  register-Passes r label kind none inspect capped few =
      register_fresh-Passes r label kind inspect capped few
  register-Passes r label kind (some prev) inspect capped few =
      Reach-trans (next here (resumes (at n r) label prev s.pubkey s.connection)) (
        resume_or_fresh-Passes (try_resume r label prev s.pubkey s.connection).0
          (try_resume r label prev s.pubkey s.connection).1 label kind inspect capped few)

-- An identity starts with no more tunnels than its cap, live or dangling, and no registration under
-- way. However the sections of all sessions then follow one another, as long as at most `most`
-- registrations of the identity are behind the test of the cap at once, it has at most the cap and
-- `most - 1` further tunnels; and so it has after any whole registration there, be it fresh or a
-- resumption, granted or not. With one registration at a time, that is the cap.
pub count-register :
    (o : Outside) (s : Session) (limit most : ℕ) (first a : Admissions) (label : Bytes)
    (kind : TunnelKind) (resume : Option SessionId) (inspect : Bool)
    → s.entry.max_conns ≡ some limit
    → first.under_way ≡ 0
    → count_owned_by first.registry s.pubkey ≤ limit
    → Reach s.pubkey limit most first a
    → a.under_way < most
    → (count_owned_by a.registry s.pubkey < limit + most)
      × (count_owned_by (register o s a.registry label kind resume inspect).registry s.pubkey
          < limit + most)
count-register o s limit most first a label kind resume inspect capped idle within reached few =
    let passes =
      register-Passes o s limit most a.under_way a.registry label kind resume inspect capped few in
    (
      count-reached s.pubkey limit most first reached (omega (arith, few)) idle within,
      count-reached s.pubkey limit most first (Reach-trans reached passes) (omega (arith, few)) idle
          within,
    )
