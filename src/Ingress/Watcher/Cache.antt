-- ===== src/Ingress/Watcher/Cache.antt =====
-- What the route cache holds after any events, syncs, starts and stops.
use pipeops_k8_agent.Prelude.{
  ◌<◌, ◌≡◌, refl, ◌≢◌, ◌⊎◌, inl, inr, Option, none, some, List, [], ◌∷◌, All, Bool-cases,
}
use pipeops_k8_agent.Prelude.Bytes.{Bytes, Bytes-discrete, codes}
use pipeops_k8_agent.Prelude.Map.Entries.{Entries, insert-Entries, delete-Entries}
use pipeops_k8_agent.Ingress.Routes.{Services, Ingress, Route, is_pipe_ops_managed, extract_routes}
use pipeops_k8_agent.Ingress.Routes.Allowed.{IsSafeRoute, extract_routes-IsSafeRoute}
use pipeops_k8_agent.Ingress.Watcher.{
  IngressService, Controller, IngressWatcher, Action, add, update, delete, register_route,
  register_routes, unregister_route, unregister_routes, controller_service, routes_added,
  event_routes, on_ingress_event,
}
use pipeops_k8_agent.Ingress.Watcher.Steps.{IsDetected}

-- A route with a port, outside the system namespaces, and not to the API server.
abbrev pub IsPublic : Route → Type 0
IsPublic r =
    (0 < r.port)
    × ((r.namespace ≢ codes "kube-system")
        × (r.namespace ≢ codes "kube-public")
        × (r.namespace ≢ codes "kube-node-lease"))
    × ((r.namespace ≡ codes "default") → (r.service ≢ codes "kubernetes"))

module _ (P : IngressService → Type 0) where
  abbrev pub IsTo : Route → Type 0
  IsTo r =
      (s : IngressService) × P s
      × (r.service ≡ s.name)
      × (r.namespace ≡ s.namespace)
      × (r.port ≡ s.port)

  -- An entry under its own host, to a public service or to a detected ingress controller.
  abbrev pub IsCached : Bytes → Route → Type 0
  IsCached host r = (r.host ≡ host) × (IsPublic r ⊎ IsTo r)

  pub record IsSound (w : IngressWatcher) : Type 0 where
    pub cached : Entries IsCached w.route_cache
    pub detected : IsDetected P w.ingress_service

  register_routes-IsSound :
      (c : Controller) (s : IngressService) (g : Ingress) (services : Services) (rs : List Route)
      (w : IngressWatcher)
      → All (IsSafeRoute services g) rs
      → IsSound w
      → IsSound (register_routes c s g rs w)
  unfolding register_routes register_route
  register_routes-IsSound c s g services [] w h v = v
  register_routes-IsSound c s g services (r ∷ rs) w h v =
      let safe = h.0.2 in
      register_routes-IsSound c s g services rs (register_route c s g r w) h.1 (record {
        cached =
            insert-Entries Bytes-discrete IsCached r.host r w.route_cache
              (refl, inl (h.0.1, safe.no_system_namespace, safe.no_api_server)) v.cached;
        detected = v.detected;
      })

  unregister_routes-IsSound :
      (c : Controller) (rs : List Route) (w : IngressWatcher)
      → IsSound w
      → IsSound (unregister_routes c rs w)
  unfolding unregister_routes unregister_route
  unregister_routes-IsSound c [] w v = v
  unregister_routes-IsSound c (r ∷ rs) w v =
      unregister_routes-IsSound c rs (unregister_route c r w) (record {
        cached = delete-Entries Bytes-discrete IsCached r.host w.route_cache v.cached;
        detected = v.detected;
      })

  pub controller_service-IsDetected :
      (a b : Option IngressService)
      → IsDetected P a
      → IsDetected P b
      → IsDetected P (controller_service a b)
  unfolding controller_service
  controller_service-IsDetected none b h k = k
  controller_service-IsDetected (some s) b h k = h

  routes_added-IsSound :
      (c : Controller) (o : Option IngressService) (g : Ingress) (services : Services)
      (rs : List Route) (w : IngressWatcher)
      → IsDetected P o
      → All (IsSafeRoute services g) rs
      → IsSound w
      → IsSound (routes_added c o g rs w)
  unfolding routes_added
  routes_added-IsSound c none g services rs w d h v = v
  routes_added-IsSound c (some s) g services rs w d h v =
      register_routes-IsSound c s g services rs (record w { ingress_service = some s }) h
        (record { cached = v.cached; detected = d })

  event_routes-IsSound :
      (c : Controller) (o : Option IngressService) (g : Ingress) (services : Services)
      (action : Action) (rs : List Route) (w : IngressWatcher)
      → IsDetected P o
      → All (IsSafeRoute services g) rs
      → IsSound w
      → IsSound (event_routes c o g action rs w)
  unfolding event_routes
  event_routes-IsSound c o g services action [] w d h v = v
  event_routes-IsSound c o g services delete (r ∷ rs) w d h v =
      unregister_routes-IsSound c (r ∷ rs) w v
  event_routes-IsSound c o g services add (r ∷ rs) w d h v =
      routes_added-IsSound c (controller_service w.ingress_service o) g services (r ∷ rs) w
        (controller_service-IsDetected w.ingress_service o v.detected d) h v
  event_routes-IsSound c o g services update (r ∷ rs) w d h v =
      routes_added-IsSound c (controller_service w.ingress_service o) g services (r ∷ rs) w
        (controller_service-IsDetected w.ingress_service o v.detected d) h v

  pub on_ingress_event-IsSound :
      (services : Services) (c : Controller) (o : Option IngressService) (g : Ingress)
      (action : Action) (w : IngressWatcher)
      → IsDetected P o
      → IsSound w
      → IsSound (on_ingress_event services c o g action w)
  unfolding on_ingress_event
  on_ingress_event-IsSound services c o g action w d v = elim (Bool-cases (is_pipe_ops_managed g)) [
    | inl e ↦ rw e (
        event_routes-IsSound c o g services action (extract_routes services g) w d
          (extract_routes-IsSafeRoute services g) v)
    | inr e ↦ rw e v
  ]
