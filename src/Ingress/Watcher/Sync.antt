-- ===== src/Ingress/Watcher/Sync.antt =====
-- syncExistingIngresses of internal/ingress/watcher.go. Rules are grouped by host in the order in
-- which the hosts come; `listed` is what the API lists, `none` an error.
use pipeops_k8_agent.Prelude.{
  ℕ, Bool, true, false, Option, none, some, List, [], ◌∷◌, ◌++◌, if◌then◌else◌,
}
use pipeops_k8_agent.Prelude.Bytes.{Bytes, Bytes-discrete, codes}
use pipeops_k8_agent.Prelude.Text.{has_infix}
use pipeops_k8_agent.Prelude.Map
use pipeops_k8_agent.Prelude.Map.{Map}
use pipeops_k8_agent.Ingress.Routes.{
  Services, HttpPath, Rule, Ingress, Route, is_pipe_ops_managed, path_port, or_prefix,
}
use pipeops_k8_agent.Ingress.Retry.{RetryEnd, succeeded, max_sync_delay, with_retry}
use pipeops_k8_agent.Ingress.Watcher.{
  IngressService, IngressPath, IngressRule, IngressData, SyncIngressesRequest, Controller, syncs,
  IngressWatcher, controller_service,
}

-- The target of every path is the ingress controller's service.
unfoldable pub sync_path :
    IngressService → HttpPath → Option ℕ → List IngressPath → List IngressPath
sync_path s p none rest = rest
sync_path s p (some port) rest =
    record {
      path = p.path;
      path_type = or_prefix p.path_type;
      service_name = s.name;
      service_port = s.port;
    }
    ∷ rest

unfoldable pub sync_paths : Services → IngressService → Ingress → List HttpPath → List IngressPath
sync_paths services s g [] = []
sync_paths services s g (p ∷ ps) =
    let rest = sync_paths services s g ps in
    elim p.service [ none ↦ rest | some b ↦ sync_path s p (path_port services g.namespace b) rest ]

abbrev pub paths_so_far : Option (List IngressPath) → List IngressPath
paths_so_far none = []
paths_so_far (some ps) = ps

-- rulesByHost
unfoldable pub group_rules :
    Services
    → IngressService
    → Ingress
    → List Rule
    → Map Bytes (List IngressPath)
    → Map Bytes (List IngressPath)
group_rules services s g [] by_host = by_host
group_rules services s g (rule ∷ rules) by_host = elim rule.paths [
  | none ↦ group_rules services s g rules by_host
  | some ps ↦ group_rules services s g rules (
      Map.insert Bytes-discrete rule.host
        (paths_so_far (Map.lookup Bytes-discrete rule.host by_host) ++ sync_paths services s g ps)
        by_host)
]

unfoldable pub cached_route : IngressService → Ingress → Bytes → IngressPath → Route
cached_route s g host p = record {
  host = host;
  path = p.path;
  path_type = p.path_type;
  service = p.service_name;
  namespace = s.namespace;
  ingress_name = g.name;
  port = p.service_port;
  tls = g.has_tls;
  annotations = g.annotations;
}

-- A host's entry is its last path; a host without a path has none.
unfoldable pub cache_paths :
    IngressService → Ingress → Bytes → List IngressPath → Map Bytes Route → Map Bytes Route
cache_paths s g host [] cache = cache
cache_paths s g host (p ∷ ps) cache =
    cache_paths s g host ps (Map.insert Bytes-discrete host (cached_route s g host p) cache)

unfoldable pub cache_hosts :
    IngressService → Ingress → Map Bytes (List IngressPath) → Map Bytes Route → Map Bytes Route
cache_hosts s g [] cache = cache
cache_hosts s g ((host, ps) ∷ hosts) cache = cache_hosts s g hosts (cache_paths s g host ps cache)

pub rules_of : Ingress → Map Bytes (List IngressPath) → List IngressRule
rules_of g [] = []
rules_of g ((host, ps) ∷ hosts) =
    record { host = host; tls = g.has_tls; paths = ps } ∷ rules_of g hosts

pub data_of : Ingress → Map Bytes (List IngressPath) → IngressData
data_of g by_host = record {
  namespace = g.namespace;
  ingress_name = g.name;
  annotations = g.annotations;
  rules = rules_of g by_host;
}

-- One Ingress: an entry in the request if it has rules.
unfoldable pub sync_ingress :
    IngressService
    → Ingress
    → Map Bytes (List IngressPath)
    → List IngressData × Map Bytes Route
    → List IngressData × Map Bytes Route
sync_ingress s g [] (entries, cache) = (entries, cache)
sync_ingress s g (h ∷ hosts) (entries, cache) =
    (entries ++ data_of g (h ∷ hosts) ∷ [], cache_hosts s g (h ∷ hosts) cache)

unfoldable pub sync_ingresses :
    Services
    → IngressService
    → List Ingress
    → List IngressData × Map Bytes Route
    → List IngressData × Map Bytes Route
sync_ingresses services s [] acc = acc
sync_ingresses services s (g ∷ gs) acc = sync_ingresses services s gs (
    if is_pipe_ops_managed g
    then sync_ingress s g (group_rules services s g g.rules []) acc
    else acc)

pub controller_type : Bytes → Bytes
controller_type name =
    if has_infix name (codes "traefik")
    then codes "traefik"
    else if has_infix name (codes "nginx")
    then codes "nginx"
    else codes "unknown"

pub sync_request : IngressWatcher → IngressService → List IngressData → SyncIngressesRequest
sync_request w s entries = record {
  cluster_uuid = w.cluster_uuid;
  public_endpoint = w.public_endpoint;
  routing_mode = w.routing_mode;
  ingresses = entries;
  controller = s;
  controller_type = controller_type s.name;
}

abbrev is_success : RetryEnd → Bool
is_success succeeded = true
is_success _ = false

-- The bulk request, which is sent if there is an entry.
unfoldable pub send_sync :
    Controller → IngressService → List IngressData → IngressWatcher → IngressWatcher × Bool
send_sync c s [] w = (w, true)
send_sync c s (e ∷ es) w =
    let request = sync_request w s (e ∷ es) in
    let ended = (with_retry max_sync_delay (c.sync request) c.jitter).ended in
    (record w { reports = syncs request ended ∷ w.reports }, is_success ended)

unfoldable pub sync_with :
    Services
    → Controller
    → Option IngressService
    → Option (List Ingress)
    → IngressWatcher
    → IngressWatcher × Bool
sync_with services c none listed w = (w, false)
sync_with services c (some s) none w = (record w { ingress_service = some s }, false)
sync_with services c (some s) (some gs) w =
    let (entries, cache) = sync_ingresses services s gs ([], w.route_cache) in
    send_sync c s entries (record w { ingress_service = some s; route_cache = cache })

-- The second component is false where an error is returned.
unfoldable pub sync_existing_ingresses :
    Services
    → Controller
    → Option IngressService
    → Option (List Ingress)
    → IngressWatcher
    → IngressWatcher × Bool
sync_existing_ingresses services c detected listed w =
    sync_with services c (controller_service w.ingress_service detected) listed w

unfoldable pub trigger_resync :
    Services
    → Controller
    → Option IngressService
    → Option (List Ingress)
    → IngressWatcher
    → IngressWatcher × Bool
trigger_resync services c detected listed w =
    if w.is_running then sync_existing_ingresses services c detected listed w else (w, false)
