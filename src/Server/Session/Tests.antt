-- ===== src/Server/Session/Tests.antt =====
-- Runs of a session of an identity that may register `api` and ports 1000 and 1001, two tunnels at
-- most.
use krot.Base.{
  ◌+◌, ◌<◌, ◌↔◌, ◌≢◌, nat_eq, text_eq, ◌≡◌, ◌⊎◌, refl, true, false, none, some, [], ◌∷◌, text, ok,
  arith, bytes_eq, all,
}
use krot.Base.Map
use krot.Base.HashSet
use krot.Proto.Frames
use krot.Proto.Frames.{
  TunnelId, ServerFrame, tunnel_registered, tunnel_rejected, ping, pong, server_bye, auth_request,
}
use krot.Server.PeerLookup.{not_found, check_collision}
use krot.Server.Registry.{
  ResolvedTunnel, resolve_label, insert, TunnelRegistry, allocate_http, TunnelInfo,
}
use krot.Server.Registry.Lease.{count_owned_by}
use krot.Server.Registry.Label.{is_valid_label}
use krot.Server.Session.{
  domain, Session, Outside, candidate_peers, is_permitted, register_http, register_tcp, is_full,
  register, dispatch, dropped, terminal,
}
use krot.Server.Keys.{AuthorizedEntry}
use krot.Server.Session.Register.{Refused}
use krot.Server.Session.Sockets.{PortLost, TcpGranted, register_tcp_lem}
use krot.Server.Session.Cap.{Admissions, Reach, here, next, admits, publishes}
use krot.Server.Session.Sections.{count-register}
use krot.Server.Session.Ending.{received, run, dispose}
use krot.Server.Session.Disposal.{resolve_label-dispose}
use krot.Server.Registry.Tests.{api_info, running, world_running, Reach-running}

abbrev entry : AuthorizedEntry
entry = record {
  allow_any_subdomain = false;
  allowed_subdomains = text "api" ∷ [];
  max_conns = some 2;
  allowed_ports = some (1000 ∷ 1001 ∷ []);
  bw = none;
  quota = none;
  federation = [];
  comment = none;
}

abbrev session : Session
session = record {
  pubkey = 70;
  session_id = 5;
  connection = 40;
  mode = domain (text "example.org");
  entry = entry;
  rate = 8;
  peer_list = [];
  peer_lookup = λ peer label. not_found;
}

-- Every write succeeds, every port binds and reports itself, and a task has its listener's number.
abbrev outside : Outside
outside = record {
  writes = λ frame. true;
  bind = λ port. ok port;
  local_port = λ listener. some listener;
  spawn = λ listener. listener;
}

abbrev empty : TunnelRegistry
empty = record {
  pool_start = 1000;
  pool_end = 1001;
  next_id = 1;
  used_ports = [];
  used_labels = [];
  tunnels = [];
  labels = [];
  aborted = [];
}

grants_api :
    (register_http outside session empty (text "api") false).sent
    ≡ tunnel_registered 1 (text "https://api.example.org") none ∷ []
unfolding register_http is_valid_label bytes_eq is_permitted HashSet.contains check_collision
    candidate_peers allocate_http all
grants_api = refl

refuses_web :
    (register_http outside session empty (text "web") false).sent
    ≡ tunnel_rejected 0x21 (text "`web` not permitted for this identity") ∷ []
unfolding register_http is_valid_label bytes_eq is_permitted HashSet.contains all
refuses_web = refl

register_tcp_lem_example :
    Refused empty (register_tcp outside session empty (some 1001) false)
    ⊎ PortLost outside session empty
        (some 1001)
        false
        (register_tcp outside session empty (some 1001) false)
    ⊎ TcpGranted outside session empty
        (some 1001)
        false
        (register_tcp outside session empty (some 1001) false)
register_tcp_lem_example = register_tcp_lem outside session empty (some 1001) false

nothing_owned : count_owned_by empty 70 ≡ 0
unfolding count_owned_by Map.keys_where
nothing_owned = refl

-- Two registrations pass the test of the cap before either inserts its tunnel.
abbrev idle : Admissions
idle = record { registry = empty; under_way = 0 }

abbrev owned_by_70 : TunnelId → TunnelInfo
owned_by_70 id = record api_info { id = id; owner = 70 }

abbrev inserted : Admissions
inserted = record {
  registry = insert (insert empty (owned_by_70 1)) (owned_by_70 2);
  under_way = 0;
}

has_room : is_full 2 (count_owned_by empty 70) ≡ false
unfolding is_full count_owned_by Map.keys_where
has_room = refl

overrun : Reach 70 2 2 idle inserted
overrun =
    next
      (next
        (next (next here (admits idle has_room (omega arith)))
          (admits (record idle { under_way = 1 }) has_room (omega arith)))
        (publishes (record idle { under_way = 2 }) (owned_by_70 1) 1 refl refl))
      (publishes (record { registry = insert empty (owned_by_70 1); under_way = 1 }) (owned_by_70 2)
        0 refl refl)

two_owned : count_owned_by inserted.registry 70 ≡ 2
unfolding count_owned_by Map.keys_where insert Map.insert Map.remove
two_owned = refl

count-register_example :
    (count_owned_by inserted.registry 70 < 2 + 2)
    × (count_owned_by
          (register outside session inserted.registry
            (text "api")
            Frames.http
            (some 4)
            false).registry
          70
        < 2 + 2)
count-register_example =
    count-register outside session 2 2 idle inserted (text "api") Frames.http (some 4) false refl
      refl (omega (arith, nothing_owned)) overrun (omega arith)

abbrev to_api : ResolvedTunnel
to_api = record { id = 1; connection = 40; rate = 8; inspect = false }

resolve_label-dispose_example :
    (resolve_label (dispose running 70 (some dropped) 30000 500) (text "api") ≡ some to_api) ↔ (
      (resolve_label running (text "api") ≡ some to_api)
      × ((info : TunnelInfo) → Map.get 1 running.tunnels ≡ some info → info.owner ≢ 70))
resolve_label-dispose_example =
    resolve_label-dispose 1000 1001 world_running Reach-running 70 30000 500 (some dropped)
      (text "api") to_api

-- A ping is answered, and a frame of the handshake then ends the session.
run_ping :
    run outside session empty (received (ping 7) ∷ received (auth_request 70) ∷ []) ≡ record {
      returned = some (some terminal);
      registry = empty;
      sent = pong 7 ∷ server_bye 0x1 ∷ [];
    }
unfolding run dispatch
run_ping = refl
