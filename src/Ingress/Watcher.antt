-- ===== src/Ingress/Watcher.antt =====
-- The IngressWatcher of internal/ingress/watcher.go: its route cache and what it reports to the
-- control plane, which answers through `Controller`. `detected` is the ingress controller's service
-- that detectIngressControllerService finds. Events and syncs are steps, one after the other.
pub mod Sync
pub mod Lifecycle
pub mod Steps
pub mod Cache
pub mod SyncSound
pub mod Sound
pub mod Lookup
pub mod Events
use pipeops_k8_agent.Prelude.{
  ℕ, Bool, true, false, not, ◌&&◌, ◌==◌, Option, none, some, List, [], ◌∷◌, ◌++◌, if◌then◌else◌,
}
use pipeops_k8_agent.Prelude.Bytes.{is_empty, Bytes, Bytes-discrete, codes}
use pipeops_k8_agent.Prelude.Text.{has_infix, before}
use pipeops_k8_agent.Prelude.Map
use pipeops_k8_agent.Prelude.Map.{Map}
use pipeops_k8_agent.Ingress.Routes.{
  Services, HttpPath, ServiceBackend, Rule, Ingress, Route, is_pipe_ops_managed, path_port,
  or_prefix, extract_routes,
}
use pipeops_k8_agent.Ingress.Retry.{
  Answer, RetryEnd, RetryRun, max_route_delay, max_sync_delay, with_retry,
}

pub record IngressService : Type 0 where
  pub name : Bytes
  pub namespace : Bytes
  pub port : ℕ

pub record RegisterRouteRequest : Type 0 where
  pub hostname : Bytes
  pub cluster_uuid : Bytes
  pub namespace : Bytes
  pub service_name : Bytes
  pub service_port : ℕ
  pub ingress_name : Bytes
  pub path : Bytes
  pub path_type : Bytes
  pub tls : Bool
  pub annotations : Map Bytes Bytes
  pub public_endpoint : Bytes
  pub routing_mode : Bytes
  pub deployment_id : Bytes
  pub deployment_name : Bytes

pub record IngressPath : Type 0 where
  pub path : Bytes
  pub path_type : Bytes
  pub service_name : Bytes
  pub service_port : ℕ

pub record IngressRule : Type 0 where
  pub host : Bytes
  pub tls : Bool
  pub paths : List IngressPath

pub record IngressData : Type 0 where
  pub namespace : Bytes
  pub ingress_name : Bytes
  pub annotations : Map Bytes Bytes
  pub rules : List IngressRule

pub record SyncIngressesRequest : Type 0 where
  pub cluster_uuid : Bytes
  pub public_endpoint : Bytes
  pub routing_mode : Bytes
  pub ingresses : List IngressData
  pub controller : IngressService
  pub controller_type : Bytes

-- The control plane: its answer to each attempt of each request, and the jitters of the waits.
pub record Controller : Type 0 where
  pub register : RegisterRouteRequest → ℕ → Answer
  pub unregister : Bytes → ℕ → Answer
  pub sync : SyncIngressesRequest → ℕ → Answer
  pub jitter : ℕ → ℕ

-- A request with the end of its retries.
pub data Report : Type 0 where
  registers : RegisterRouteRequest → RetryEnd → Report
  unregisters : Bytes → RetryEnd → Report
  syncs : SyncIngressesRequest → RetryEnd → Report

-- `stop_closed` says whether the channel stopCh is closed; `reports` has the latest first.
pub record IngressWatcher : Type 0 where
  pub cluster_uuid : Bytes
  pub public_endpoint : Bytes
  pub routing_mode : Bytes
  pub route_cache : Map Bytes Route
  pub ingress_service : Option IngressService
  pub is_running : Bool
  pub stop_closed : Bool
  pub reports : List Report

unfoldable pub new_ingress_watcher : Bytes → Bytes → Bytes → IngressWatcher
new_ingress_watcher cluster_uuid public_endpoint routing_mode = record {
  cluster_uuid = cluster_uuid;
  public_endpoint = public_endpoint;
  routing_mode = routing_mode;
  route_cache = [];
  ingress_service = none;
  is_running = false;
  stop_closed = false;
  reports = [];
}

-- The value of a key, and "" for one that is missing.
abbrev value_of : Map Bytes Bytes → Bytes → Bytes
value_of m k = elim (Map.lookup Bytes-discrete k m) [ none ↦ [] | some v ↦ v ]

abbrev first_part : Bytes → Bytes
first_part host = elim (before b'.' host) [ none ↦ host | some part ↦ part ]

unfoldable pub deployment_id_of : Map Bytes Bytes → Bytes
deployment_id_of annotations =
    let id = value_of annotations (codes "pipeops.io/deployment-id") in
    let owner = value_of annotations (codes "pipeops.io/owner") in
    let environment = value_of annotations (codes "pipeops.io/environment") in
    if is_empty id && not (is_empty owner) && not (is_empty environment)
    then environment ++ b':' ∷ owner
    else id

unfoldable pub deployment_name_of : Map Bytes Bytes → Bytes → Bytes
deployment_name_of annotations hostname =
    let name = value_of annotations (codes "pipeops.io/deployment-name") in
    let owner = value_of annotations (codes "pipeops.io/owner") in
    if not (is_empty name)
    then name
    else if not (is_empty owner)
    then owner
    else first_part hostname

-- The request for a route: its target is the ingress controller's service.
unfoldable pub register_request :
    IngressWatcher → IngressService → Ingress → Route → RegisterRouteRequest
register_request w s g r = record {
  hostname = r.host;
  cluster_uuid = w.cluster_uuid;
  namespace = s.namespace;
  service_name = s.name;
  service_port = s.port;
  ingress_name = r.ingress_name;
  path = r.path;
  path_type = r.path_type;
  tls = r.tls;
  annotations = r.annotations;
  public_endpoint = w.public_endpoint;
  routing_mode = w.routing_mode;
  deployment_id = deployment_id_of g.annotations;
  deployment_name = deployment_name_of g.annotations r.host;
}

unfoldable pub register_route :
    Controller → IngressService → Ingress → Route → IngressWatcher → IngressWatcher
register_route c s g r w =
    let request = register_request w s g r in
    record w {
      route_cache = Map.insert Bytes-discrete r.host r w.route_cache;
      reports =
          registers request (with_retry max_route_delay (c.register request) c.jitter).ended
          ∷ w.reports;
    }

unfoldable pub register_routes :
    Controller → IngressService → Ingress → List Route → IngressWatcher → IngressWatcher
register_routes c s g [] w = w
register_routes c s g (r ∷ rs) w = register_routes c s g rs (register_route c s g r w)

unfoldable pub unregister_route : Controller → Route → IngressWatcher → IngressWatcher
unregister_route c r w = record w {
  route_cache = Map.delete Bytes-discrete r.host w.route_cache;
  reports =
      unregisters r.host (with_retry max_route_delay (c.unregister r.host) c.jitter).ended
      ∷ w.reports;
}

unfoldable pub unregister_routes : Controller → List Route → IngressWatcher → IngressWatcher
unregister_routes c [] w = w
unregister_routes c (r ∷ rs) w = unregister_routes c rs (unregister_route c r w)

-- The service that is known, or else detected.
unfoldable pub controller_service :
    Option IngressService → Option IngressService → Option IngressService
controller_service (some s) detected = some s
controller_service none detected = detected

pub data Action : Type 0 where
  add update delete : Action

-- The cases of onIngressEvent "add" and "update" with the service that was found.
unfoldable pub routes_added :
    Controller → Option IngressService → Ingress → List Route → IngressWatcher → IngressWatcher
routes_added c none g routes w = w
routes_added c (some s) g routes w =
    register_routes c s g routes (record w { ingress_service = some s })

unfoldable pub event_routes :
    Controller
    → Option IngressService
    → Ingress
    → Action
    → List Route
    → IngressWatcher
    → IngressWatcher
event_routes c detected g action [] w = w
event_routes c detected g delete (r ∷ rs) w = unregister_routes c (r ∷ rs) w
event_routes c detected g add (r ∷ rs) w =
    routes_added c (controller_service w.ingress_service detected) g (r ∷ rs) w
event_routes c detected g update (r ∷ rs) w =
    routes_added c (controller_service w.ingress_service detected) g (r ∷ rs) w

unfoldable pub on_ingress_event :
    Services
    → Controller
    → Option IngressService
    → Ingress
    → Action
    → IngressWatcher
    → IngressWatcher
on_ingress_event services c detected g action w =
    if is_pipe_ops_managed g
    then event_routes c detected g action (extract_routes services g) w
    else w

-- LookupRoute: the host, or what stands before its first colon, if that is not at the start.
unfoldable pub lookup_without_port : Option Bytes → IngressWatcher → Option Route
lookup_without_port none w = none
lookup_without_port (some []) w = none
lookup_without_port (some (x ∷ s)) w = Map.lookup Bytes-discrete (x ∷ s) w.route_cache

unfoldable pub lookup_route : IngressWatcher → Bytes → Option Route
lookup_route w host = elim (Map.lookup Bytes-discrete host w.route_cache) [
  | some r ↦ some r
  | none ↦ lookup_without_port (before b':' host) w
]

unfoldable pub update_cluster_uuid : Bytes → IngressWatcher → IngressWatcher
update_cluster_uuid uuid w = record w { cluster_uuid = uuid }
