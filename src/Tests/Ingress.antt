-- ===== src/Tests/Ingress.antt =====
-- Runs of the model of internal/ingress/watcher.go, and its theorems at concrete inputs.
use pipeops_k8_agent.Prelude.{
  ℕ, zero, suc, ◌≤◌, ◌<◌, ◌/◌, ◌^◌, ℕ_discrete, ◌≡◌, refl, ◌⊎◌, ◌↔◌, true, false, none, some, [],
  ◌∷◌, All, length, arith,
}
use pipeops_k8_agent.Prelude.Bytes.{Bytes-discrete, codes}
use pipeops_k8_agent.Prelude.Text.{before}
use pipeops_k8_agent.Prelude.Map
use pipeops_k8_agent.Ingress.Routes.{
  cluster_ip, Services, ServiceBackend, Rule, Ingress, Route, extract_routes, is_pipe_ops_managed,
  routes_of_rules, rule_routes, path_routes, path_port, backend_port, is_service_allowed,
  is_system_namespace, may_expose, add_route, route_of,
}
use pipeops_k8_agent.Ingress.Routes.Allowed.{IsSafeRoute, extract_routes-IsSafeRoute}
use pipeops_k8_agent.Ingress.Retry.{
  Answer, accepted, refused, succeeded, max_route_delay, with_retry, capped_delay,
}
use pipeops_k8_agent.Ingress.Retry.Outcome.{IsWait, with_retry_iff, with_retry_bounds}
use pipeops_k8_agent.Ingress.Watcher.{
  IngressService, Controller, IngressWatcher, add, update, new_ingress_watcher, on_ingress_event,
  lookup_route, lookup_without_port, event_routes, routes_added, register_routes, register_route,
  controller_service,
}
use pipeops_k8_agent.Ingress.Watcher.Lifecycle.{stop}
use pipeops_k8_agent.Ingress.Watcher.Steps.{event, WatcherReach, here, next}
use pipeops_k8_agent.Ingress.Watcher.Cache.{IsPublic, IsTo}
use pipeops_k8_agent.Ingress.Watcher.Lookup.{lookup_route-IsCached}
use pipeops_k8_agent.Ingress.Watcher.Events.{EntryAfter, cached_under, on_ingress_event-EntryAfter}

abbrev shop_services : Services
shop_services namespace name = some (record { kind = cluster_ip; ports = [] })

abbrev shop_backend : ServiceBackend
shop_backend = record { name = codes "web"; port_number = 80; port_name = [] }

abbrev shop_rule : Rule
shop_rule = record {
  host = codes "a.io";
  paths = some (record { path = codes "/"; path_type = none; service = some shop_backend } ∷ []);
}

abbrev shop : Ingress
shop = record {
  namespace = codes "shop";
  name = codes "front";
  labels = (codes "pipeops.io/managed", codes "true") ∷ [];
  annotations = [];
  has_tls = false;
  rules = shop_rule ∷ [];
}

abbrev shop_route : Route
shop_route = record {
  host = codes "a.io";
  path = codes "/";
  path_type = codes "Prefix";
  service = codes "web";
  namespace = codes "shop";
  ingress_name = codes "front";
  port = 80;
  tls = false;
  annotations = [];
}

shop_extracted : extract_routes shop_services shop ≡ shop_route ∷ []
unfolding extract_routes Bytes-discrete ℕ_discrete routes_of_rules rule_routes path_routes path_port
    backend_port is_service_allowed is_system_namespace may_expose add_route route_of
shop_extracted = refl

extract_routes-IsSafeRoute_example :
    All (IsSafeRoute shop_services shop) (extract_routes shop_services shop)
extract_routes-IsSafeRoute_example = extract_routes-IsSafeRoute shop_services shop

-- The second attempt is accepted.
abbrev second_time : ℕ → Answer
second_time zero = refused
second_time (suc k) = accepted

with_retry_iff_example : ((with_retry max_route_delay second_time (λ k. 0)).ended ≡ succeeded) ↔ (
    (second_time 0 ≡ accepted)
    ⊎ ((second_time 0 ≡ refused) × (second_time 1 ≡ accepted))
    ⊎ ((second_time 0 ≡ refused) × (second_time 1 ≡ refused) × (second_time 2 ≡ accepted)))
with_retry_iff_example = with_retry_iff max_route_delay second_time (λ k. 0)

power_pos : (k : ℕ) → 1 ≤ 2 ^ k
power_pos zero = omega arith
power_pos (suc k) = let before_it = power_pos k in omega arith

no_jitter : (k : ℕ) → 0 < capped_delay max_route_delay k / 2
no_jitter k = unfold capped_delay in let p = power_pos k in ground arith

with_retry_bounds_example :
    ((with_retry max_route_delay second_time (λ k. 0)).calls ≤ 3)
    × (length (with_retry max_route_delay second_time (λ k. 0)).waits
        < (with_retry max_route_delay second_time (λ k. 0)).calls)
    × All (IsWait max_route_delay) (with_retry max_route_delay second_time (λ k. 0)).waits
with_retry_bounds_example = with_retry_bounds max_route_delay second_time (λ k. 0) no_jitter

-- Accepts every request at once.
abbrev willing : Controller
willing = record {
  register = λ request k. accepted;
  unregister = λ host k. accepted;
  sync = λ request k. accepted;
  jitter = λ k. 0;
}

abbrev traefik : IngressService
traefik = record { name = codes "traefik"; namespace = codes "ingress"; port = 80 }

abbrev fresh_watcher : IngressWatcher
fresh_watcher = new_ingress_watcher (codes "u") (codes "e") (codes "tunnel")

abbrev running_watcher : IngressWatcher
running_watcher = record {
  cluster_uuid = codes "u";
  public_endpoint = codes "e";
  routing_mode = codes "tunnel";
  route_cache = [];
  ingress_service = none;
  is_running = true;
  stop_closed = false;
  reports = [];
}

abbrev stopped_watcher : IngressWatcher
stopped_watcher = record running_watcher { is_running = false; stop_closed = true }

stopped : stop running_watcher ≡ some stopped_watcher
unfolding stop
stopped = refl

abbrev shop_added : IngressWatcher
shop_added = on_ingress_event shop_services willing (some traefik) shop add fresh_watcher

shop_reached : WatcherReach (λ s. 0 < s.port) fresh_watcher shop_added
shop_reached = next here (event shop_services willing (some traefik) shop add (omega arith))

shop_found : lookup_route shop_added (codes "a.io:443") ≡ some shop_route
unfolding lookup_route Bytes-discrete ℕ_discrete lookup_without_port before Map.lookup Map.insert
    on_ingress_event event_routes routes_added register_routes register_route extract_routes
    routes_of_rules rule_routes path_routes path_port backend_port is_service_allowed
    is_system_namespace may_expose add_route route_of is_pipe_ops_managed new_ingress_watcher
    controller_service
shop_found = refl

lookup_route-IsCached_example :
    ((shop_route.host ≡ codes "a.io:443") ⊎ (before b':' (codes "a.io:443") ≡ some shop_route.host))
    × (IsPublic shop_route ⊎ IsTo (λ s. 0 < s.port) shop_route)
lookup_route-IsCached_example =
    lookup_route-IsCached (λ s. 0 < s.port) (codes "u") (codes "e") (codes "tunnel") shop_added
      (codes "a.io:443") shop_route shop_reached shop_found

shop_managed : is_pipe_ops_managed shop ≡ true
unfolding is_pipe_ops_managed Bytes-discrete ℕ_discrete Map.lookup
shop_managed = refl

-- The update has no rule any more, and the host keeps its route.
abbrev closed_shop : Ingress
closed_shop = record shop { rules = [] }

closed_managed : is_pipe_ops_managed closed_shop ≡ true
unfolding is_pipe_ops_managed Bytes-discrete ℕ_discrete Map.lookup
closed_managed = refl

still_traefik : controller_service shop_added.ingress_service none ≡ some traefik
unfolding Map.lookup Bytes-discrete ℕ_discrete on_ingress_event event_routes routes_added
    register_routes register_route extract_routes routes_of_rules rule_routes path_routes path_port
    backend_port is_service_allowed is_system_namespace may_expose add_route route_of
    is_pipe_ops_managed new_ingress_watcher controller_service
still_traefik = refl

on_ingress_event-EntryAfter_example :
    EntryAfter update
      (extract_routes shop_services closed_shop)
      (codes "a.io")
      (cached_under shop_added (codes "a.io"))
      (cached_under
        (on_ingress_event shop_services willing none closed_shop update shop_added)
        (codes "a.io"))
on_ingress_event-EntryAfter_example =
    on_ingress_event-EntryAfter shop_services willing none traefik closed_shop update (codes "a.io")
      shop_added closed_managed still_traefik
