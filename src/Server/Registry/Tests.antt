-- ===== src/Server/Registry/Tests.antt =====
-- Runs of the registry: a pool of two ports, two identities, an HTTP and a TCP tunnel.
use krot.Base.{
  nat_eq, text_eq, ℕ, ◌+◌, ◌≤◌, ◌≡◌, ◌≢◌, ◌↔◌, refl, if◌then◌else◌, not, ◌==◌, true, false, Option,
  none, some, [], ◌∷◌, Bytes, text, arith, bytes_eq,
}
use krot.Base.Map
use krot.Base.HashSet
use krot.Proto.Frames.{TunnelId}
use krot.Server.Registry.{
  http, live, dangling, TunnelInfo, TunnelRegistry, new, allocate_http, insert, ResolvedTunnel,
  resolve_label, remove_all_owned_by, pick_free_port, is_free_port,
}
use krot.Server.Registry.Lease.{
  mark_dangling, reap_expired, candidate, resume_found, reattach, try_resume, is_expired,
  resumed_http, resumed_info, reattached,
}
use krot.Server.Registry.Views.{kind_at}
use krot.Server.Registry.Resume.{Resumable}
use krot.Server.Registry.LeaseLaws.{
  leased, get-mark_dangling, get-reap_expired, get-remove_all_owned_by,
}
use krot.Server.Registry.Reconnect.{drop_and_resume, reattached_sound}
use krot.Server.Registry.Ports.{IsFirstFree, pick_free_port_exact}
use krot.Server.Registry.Label.{is_valid_label, Label, is_valid_label_exact}
use krot.Server.Registry.Interleaving.{
  World, Step, allocates_http, publishes, Reach, here, next, IsValid,
}
use krot.Server.Registry.Interleaving.Allocation.{start, start-IsValid}
use krot.Server.Registry.Interleaving.Histories.{Step-IsValid, no_sharing, resolve_label_exact}

abbrev api : Bytes
api = text "api"

abbrev pub api_info : TunnelInfo
api_info = record {
  id = 1;
  owner = 70;
  session_id = 5;
  kind = http api;
  state = live 40 none;
  tcp_listener = none;
  rate = 8;
  inspect = false;
}

-- The label is reserved, and the tunnel is not published yet.
abbrev reserved_api : TunnelRegistry
reserved_api = record {
  pool_start = 1000;
  pool_end = 1001;
  next_id = 2;
  used_ports = [];
  used_labels = api ∷ [];
  tunnels = [];
  labels = [];
  aborted = [];
}

abbrev pub running : TunnelRegistry
running = record reserved_api { tunnels = (1, api_info) ∷ []; labels = (api, 1) ∷ [] }

abbrev world_start : World
world_start = record { registry = new 1000 1001; pending = [] }

abbrev world_reserved : World
world_reserved = record { registry = reserved_api; pending = (1, http api) ∷ [] }

abbrev pub world_running : World
world_running = record { registry = running; pending = [] }

Step-allocates : Step (start 1000 1001) world_reserved
unfolding start new allocate_http Map.insert Map.remove HashSet.insert HashSet.contains
Step-allocates = allocates_http world_start api 1 reserved_api (omega arith) refl

Step-publishes : Step world_reserved world_running
unfolding insert Map.insert Map.remove Map.get
Step-publishes = publishes world_reserved api_info refl

pub Reach-running : Reach (start 1000 1001) world_running
Reach-running = next (next here Step-allocates) Step-publishes

Step-IsValid_example : IsValid world_reserved
Step-IsValid_example = Step-IsValid Step-allocates (start-IsValid 1000 1001)

kind_of_api : kind_at running 1 ≡ some (http api)
unfolding kind_at Map.get
kind_of_api = refl

no_sharing_example : ◌≡◌ {A = TunnelId} 1 1
no_sharing_example =
    no_sharing 1000 1001 world_running Reach-running 1 1 (http api) kind_of_api kind_of_api

resolve_api :
    resolve_label running api ≡ some (record { id = 1; connection = 40; rate = 8; inspect = false })
unfolding resolve_label Map.get bytes_eq
resolve_api = refl

abbrev resolved_api : ResolvedTunnel
resolved_api = record { id = 1; connection = 40; rate = 8; inspect = false }

resolve_label_exact_example : (resolve_label running api ≡ some resolved_api) ↔ (
    (info : TunnelInfo) × (abort : Option ℕ) × (Map.get 1 running.tunnels ≡ some info)
    × (info.kind ≡ http api)
    × (info.state ≡ live 40 abort)
    × (8 ≡ info.rate)
    × (false ≡ info.inspect))
resolve_label_exact_example =
    resolve_label_exact 1000 1001 world_running Reach-running api resolved_api

running-IsDistinct : Map.IsDistinct running.tunnels
unfolding Map.get
running-IsDistinct = (refl, tt)

get_api : Map.get 1 running.tunnels ≡ some api_info
unfolding Map.get
get_api = refl

get_label : Map.get api running.labels ≡ some 1
unfolding Map.get bytes_eq
get_label = refl

get-mark_dangling_example :
    Map.get 1 (mark_dangling running 70 30000 500).tunnels
    ≡ Map.map_option
        (λ (info : TunnelInfo). if info.owner == 70 then leased (500 + 30000) info else info)
        (Map.get 1 running.tunnels)
get-mark_dangling_example = get-mark_dangling running 70 30000 500 1 running-IsDistinct

get-reap_expired_example :
    Map.get 1 (reap_expired running 500).1.tunnels
    ≡ Map.filter_option
        (λ (info : TunnelInfo). not (is_expired 500 info.state))
        (Map.get 1 running.tunnels)
get-reap_expired_example = get-reap_expired running running-IsDistinct 1 500

get-remove_all_owned_by_example :
    Map.get 1 (remove_all_owned_by running 70).tunnels
    ≡ Map.filter_option (λ (info : TunnelInfo). not (info.owner == 70)) (Map.get 1 running.tunnels)
get-remove_all_owned_by_example = get-remove_all_owned_by running running-IsDistinct 1 70

drop_and_resume_example :
    let dropped = mark_dangling running 70 30000 500 in
    let (answer, resumed) = try_resume dropped api 5 70 41 in
    (resolve_label dropped api ≡ none)
    × (answer ≡ reattached 1 (resumed_http api) false)
    × (resolve_label resumed api
        ≡ some (record { id = 1; connection = 41; rate = 8; inspect = false }))
drop_and_resume_example =
    drop_and_resume running 30000 500 api 1 api_info none 40 41 running-IsDistinct get_label get_api
      refl refl

abbrev waiting : TunnelRegistry
waiting = record running { tunnels = (1, record api_info { state = dangling 30500 }) ∷ [] }

resume_waiting : (try_resume waiting api 5 70 41).0 ≡ reattached 1 (resumed_http api) false
unfolding try_resume candidate resume_found reattach Map.get bytes_eq
resume_waiting = refl

reattached_sound_example :
    (info : TunnelInfo) × Resumable waiting api 5 70 41 1 info
    × (resumed_info info.kind info.tcp_listener ≡ some (resumed_http api))
    × (false ≡ info.inspect)
    × ((i : TunnelId)
        → Map.get i (try_resume waiting api 5 70 41).1.tunnels ≡ (
            if 1 == i
            then some (record info { state = live 41 none })
            else Map.get i waiting.tunnels))
reattached_sound_example =
    reattached_sound waiting api 5 70 41 1 (resumed_http api) false resume_waiting

pick_free_port_exact_example :
    ((port : ℕ)
      → (pick_free_port 1000 1001 (1000 ∷ []) none ≡ some port)
        ↔ IsFirstFree 1000 1001 (1000 ∷ []) none port)
    × ((pick_free_port 1000 1001 (1000 ∷ []) none ≡ none)
        ↔ ((q : ℕ) → 1000 ≤ q → q ≤ 1001 → is_free_port (1000 ∷ []) none q ≡ false))
pick_free_port_exact_example = pick_free_port_exact 1000 1001 (1000 ∷ []) none

pick_second : pick_free_port 1000 1001 (1000 ∷ []) none ≡ some 1001
unfolding pick_free_port HashSet.contains
pick_second = refl

is_valid_label_exact_example : (is_valid_label api ≡ true) ↔ ((api ≢ text "admin") × Label api)
is_valid_label_exact_example = is_valid_label_exact api

label_admin : is_valid_label (text "admin") ≡ false
unfolding is_valid_label bytes_eq
label_admin = refl

label_dash : is_valid_label (text "api-") ≡ false
unfolding is_valid_label bytes_eq
label_dash = refl
