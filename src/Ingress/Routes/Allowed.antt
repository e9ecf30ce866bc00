-- ===== src/Ingress/Routes/Allowed.antt =====
-- No route leads to a service that an Ingress must not expose.
use pipeops_k8_agent.Prelude.{
  All-append, ℕ, ◌<◌, ◌≡◌, refl, ◌≢◌, inl, inr, true, Option, none, some, List, [], ◌∷◌, All, arith,
  Option-cases,
}
use pipeops_k8_agent.Prelude.Bytes.{Bytes, codes}
use pipeops_k8_agent.Ingress.Routes.{
  load_balancer, external_name, Service, Services, ServiceBackend, HttpPath, Rule, Ingress, Route,
  is_system_namespace, may_expose, is_service_allowed, path_port, route_of, add_route, path_routes,
  rule_routes, routes_of_rules, extract_routes,
}

-- A service that may be exposed: outside the system namespaces, not the API server's, and there
-- as a service of the cluster itself.
pub record IsExposable (services : Services) (namespace name : Bytes) : Type 0 where
  pub no_system_namespace :
      (namespace ≢ codes "kube-system")
      × (namespace ≢ codes "kube-public")
      × (namespace ≢ codes "kube-node-lease")
  pub no_api_server : (namespace ≡ codes "default") → (name ≢ codes "kubernetes")
  pub there :
      (s : Service) × (services namespace name ≡ some s)
      × (s.kind ≢ load_balancer)
      × (s.kind ≢ external_name)

may_expose_iff :
    (o : Option Service)
    → may_expose o ≡ true
    → (s : Service) × (o ≡ some s) × (s.kind ≢ load_balancer) × (s.kind ≢ external_name)
unfolding may_expose
may_expose_iff none e = cc
may_expose_iff (some s) e = (s, refl, ground arith, ground arith)

is_service_allowed-IsExposable :
    (services : Services) (namespace name : Bytes)
    → is_service_allowed services namespace name ≡ true
    → IsExposable services namespace name
unfolding is_service_allowed is_system_namespace
is_service_allowed-IsExposable services namespace name e = record {
  no_system_namespace = (λ p. ground arith, λ p. ground arith, λ p. ground arith);
  no_api_server = λ p q. ground arith;
  there = may_expose_iff (services namespace name) (ground arith);
}

-- A route of the Ingress: in its namespace, with a port, to a service that may be exposed.
abbrev pub IsSafeRoute : Services → Ingress → Route → Type 0
IsSafeRoute services g r =
    (r.namespace ≡ g.namespace) × (0 < r.port) × IsExposable services r.namespace r.service

path_port-IsExposable :
    (services : Services) (namespace : Bytes) (b : ServiceBackend) (port : ℕ)
    → path_port services namespace b ≡ some port
    → (0 < port) × IsExposable services namespace b.name
unfolding path_port
path_port-IsExposable services namespace b port e = (
  ground (arith, e),
  is_service_allowed-IsExposable services namespace b.name (ground (arith, e)),
)

add_route-All :
    (services : Services) (g : Ingress) (rule : Rule) (p : HttpPath) (b : ServiceBackend)
    (o : Option ℕ) (rest : List Route)
    → path_port services g.namespace b ≡ o
    → All (IsSafeRoute services g) rest
    → All (IsSafeRoute services g) (add_route g rule p b o rest)
unfolding add_route route_of
add_route-All services g rule p b none rest e h = h
add_route-All services g rule p b (some port) rest e h =
    let (pos, safe) = path_port-IsExposable services g.namespace b port e in ((refl, pos, safe), h)

path_routes-All :
    (services : Services) (g : Ingress) (rule : Rule) (ps : List HttpPath)
    → All (IsSafeRoute services g) (path_routes services g rule ps)
unfolding path_routes
path_routes-All services g rule [] = tt
path_routes-All services g rule (p ∷ ps) =
    let rest = path_routes services g rule ps in
    let ih = path_routes-All services g rule ps in
    elim (Option-cases p.service) [
      | inl n ↦ rw (n, path_routes) ih
      | inr (b, s) ↦
          rw (s, path_routes)
            (add_route-All services g rule p b (path_port services g.namespace b) rest refl ih)
    ]

rule_routes-All :
    (services : Services) (g : Ingress) (rule : Rule)
    → All (IsSafeRoute services g) (rule_routes services g rule)
unfolding rule_routes
rule_routes-All services g rule = elim (Option-cases rule.paths) [
  | inl n ↦ rw (n, rule_routes) tt
  | inr (ps, s) ↦ rw (s, rule_routes) (path_routes-All services g rule ps)
]

routes_of_rules-All :
    (services : Services) (g : Ingress) (rules : List Rule)
    → All (IsSafeRoute services g) (routes_of_rules services g rules)
unfolding routes_of_rules
routes_of_rules-All services g [] = tt
routes_of_rules-All services g (rule ∷ rules) =
    All-append (IsSafeRoute services g) (rule_routes services g rule)
      (routes_of_rules services g rules) (rule_routes-All services g rule)
      (routes_of_rules-All services g rules)

-- Every route that extractRoutes takes from an Ingress is in the namespace of the Ingress, has a
-- port other than 0, and leads to a service that the API knows there, of no system namespace, not
-- the API server, and neither a load balancer nor an external name.
pub extract_routes-IsSafeRoute :
    (services : Services) (g : Ingress) → All (IsSafeRoute services g) (extract_routes services g)
unfolding extract_routes
extract_routes-IsSafeRoute services g = routes_of_rules-All services g g.rules
