-- ===== src/Server/Session/Sockets.antt =====
-- What a registration of a TCP tunnel grants, and what a refusal leaves.
use krot.Base.{
  nat_eq, text_eq, ℕ, ◌≡◌, ◌≢◌, refl, Bool, true, Option, none, some, ◌⊎◌, inl, inr, Option-cases,
  [], ◌∷◌, Result-cases, ok, arith, ==_iff,
}
use krot.Base.Map
use krot.Base.HashSet
use krot.Proto.Frames.{TunnelId, tunnel_registered}
use krot.Server.Registry.{TunnelRegistry, allocate_tcp, insert, pick_free_port}
use krot.Server.Registry.Ports.{IsFirstFree, pick_free_port_exact}
use krot.Server.Session.{
  Session, Outside, Effect, is_forbidden_port, tcp_info, tcp_url, listen_tcp, register_tcp,
}
use krot.Server.Session.Register.{Refused}

module _ (o : Outside) (s : Session) (r : TunnelRegistry) (remote_port : Option ℕ)
    (inspect : Bool) where
  -- The port is the first of the pool that is free and that the entry allows.
  pub record TcpGranted (e : Effect) : Type 0 where
    pub id : TunnelId
    pub port : ℕ
    pub listener : ℕ
    pub public_port : ℕ
    pub not_forbidden : is_forbidden_port remote_port s.entry.allowed_ports ≡ none
    pub picked : IsFirstFree r.pool_start r.pool_end r.used_ports s.entry.allowed_ports port
    pub bound : o.bind port ≡ ok listener
    pub reported : o.local_port listener ≡ some public_port
    pub told : e.sent ≡ tunnel_registered id (tcp_url o s public_port) (some public_port) ∷ []
    pub published :
        Map.get id e.registry.tunnels ≡ some (tcp_info o s public_port listener inspect id)
    pub now_held : HashSet.contains port e.registry.used_ports ≡ true

  -- The port was free and is now reserved though there is no tunnel for it.
  pub record PortLost (e : Effect) : Type 0 where
    pub port : ℕ
    pub picked : IsFirstFree r.pool_start r.pool_end r.used_ports s.entry.allowed_ports port
    pub now_held : HashSet.contains port e.registry.used_ports ≡ true
    pub no_tunnel : e.registry.tunnels ≡ r.tunnels
    pub not_bound :
        (listener public_port : ℕ)
        → o.bind port ≡ ok listener
        → o.local_port listener ≢ some public_port

  allocate_tcp-taken :
      (id : TunnelId) (port : ℕ) (r' : TunnelRegistry)
      → allocate_tcp r s.entry.allowed_ports ≡ ok ((id, port), r')
      → (pick_free_port r.pool_start r.pool_end r.used_ports s.entry.allowed_ports ≡ some port)
        × (HashSet.contains port r'.used_ports ≡ true)
        × (r'.tunnels ≡ r.tunnels)
  unfolding allocate_tcp
  allocate_tcp-taken id port r' e = ground (
    arith,
    HashSet.contains-insert port port r.used_ports,
    Option-cases (pick_free_port r.pool_start r.pool_end r.used_ports s.entry.allowed_ports),
  )

  -- Every TCP registration is refused, with one frame and no change of the table; or no listener
  -- binds, and the first free port stays reserved without a tunnel; or it is granted: the request
  -- is not for a port off the entry's list, the listener is bound to the first port of the pool
  -- that is free and on that list, and the tunnel is published under the id that the client is
  -- told with the URL.
  pub register_tcp_lem :
      let e = register_tcp o s r remote_port inspect in Refused r e ⊎ PortLost e ⊎ TcpGranted e
  unfolding register_tcp listen_tcp insert
  register_tcp_lem = elim (Option-cases (is_forbidden_port remote_port s.entry.allowed_ports)) [
    | inr (p, f) ↦
        rw (f, register_tcp) (inl (record { code = _; detail = _; told = refl; unchanged = refl }))
    | inl f ↦ elim (Result-cases (allocate_tcp r s.entry.allowed_ports)) [
      | inl (e, h) ↦
          rw (f, register_tcp)
            (rw (h, register_tcp)
              (inl (record { code = _; detail = _; told = refl; unchanged = refl })))
      | inr (((id, port), r'), h) ↦
          rw (f, register_tcp) (rw (h, register_tcp) (inr (listens id port r' f h)))
    ]
  ]
    where
      published :
          (r' : TunnelRegistry) (id : TunnelId) (public_port listener : ℕ)
          → Map.get id (insert r' (tcp_info o s public_port listener inspect id)).tunnels
            ≡ some (tcp_info o s public_port listener inspect id)
      published r' id public_port listener = rw (Map.get-insert, (==_iff id id).1 refl) refl

      listens :
          (id : TunnelId) (port : ℕ) (r' : TunnelRegistry)
          → is_forbidden_port remote_port s.entry.allowed_ports ≡ none
          → allocate_tcp r s.entry.allowed_ports ≡ ok ((id, port), r')
          → let e = listen_tcp o s r' id port inspect in PortLost e ⊎ TcpGranted e
      listens id port r' f h =
          let (found, held, same) = allocate_tcp-taken id port r' h in
          let first =
            ((pick_free_port_exact r.pool_start r.pool_end r.used_ports s.entry.allowed_ports).0
                port).0
              found in
          elim (Result-cases (o.bind port)) [
            | inl (e, b) ↦ inl (
                rw (b, listen_tcp)
                  (record {
                    port = port;
                    picked = first;
                    now_held = held;
                    no_tunnel = same;
                    not_bound = λ listener public_port q. cc;
                  }))
            | inr (listener, b) ↦ elim (Option-cases (o.local_port listener)) [
              | inl g ↦ inl (
                  rw (b, listen_tcp)
                    (rw (g, listen_tcp)
                      (record {
                        port = port;
                        picked = first;
                        now_held = held;
                        no_tunnel = same;
                        not_bound = λ other public_port q. ground (arith, b, g);
                      })))
              | inr (public_port, g) ↦ inr (
                  rw (b, listen_tcp)
                    (rw (g, listen_tcp)
                      (record {
                        id = id;
                        port = port;
                        listener = listener;
                        public_port = public_port;
                        not_forbidden = f;
                        picked = first;
                        bound = b;
                        reported = g;
                        told = refl;
                        published = published r' id public_port listener;
                        now_held = held;
                      })))
            ]
          ]
