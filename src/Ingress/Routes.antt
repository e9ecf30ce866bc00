-- ===== src/Ingress/Routes.antt =====
-- The routes of an Ingress, of internal/ingress/watcher.go. `services` is what the Kubernetes API
-- answers for a service of a namespace, `none` an error; it is the same for all the reads of one
-- call. Ports are numbers that the API server has validated, 0 an absent one.
pub mod Allowed
use pipeops_k8_agent.Prelude.{
  ℕ, Bool, true, false, not, ◌&&◌, ◌||◌, ◌==◌, Option, none, some, List, [], ◌∷◌, ◌++◌,
  if◌then◌else◌,
}
use pipeops_k8_agent.Prelude.Bytes.{Bytes, Bytes-discrete, bytes_eq, codes}
use pipeops_k8_agent.Prelude.Map
use pipeops_k8_agent.Prelude.Map.{Map}

pub data ServiceType : Type 0 where
  cluster_ip node_port load_balancer external_name : ServiceType

-- A Service: its type and the ports by name.
pub record Service : Type 0 where
  pub kind : ServiceType
  pub ports : List (Bytes × ℕ)

abbrev pub Services : Type 0
Services = Bytes → Bytes → Option Service

pub record ServiceBackend : Type 0 where
  pub name : Bytes
  pub port_number : ℕ
  pub port_name : Bytes

pub record HttpPath : Type 0 where
  pub path : Bytes
  pub path_type : Option Bytes
  pub service : Option ServiceBackend

-- A rule; `none` is a rule without HTTP.
pub record Rule : Type 0 where
  pub host : Bytes
  pub paths : Option (List HttpPath)

pub record Ingress : Type 0 where
  pub namespace : Bytes
  pub name : Bytes
  pub labels : Map Bytes Bytes
  pub annotations : Map Bytes Bytes
  pub has_tls : Bool
  pub rules : List Rule

pub record Route : Type 0 where
  pub host : Bytes
  pub path : Bytes
  pub path_type : Bytes
  pub service : Bytes
  pub namespace : Bytes
  pub ingress_name : Bytes
  pub port : ℕ
  pub tls : Bool
  pub annotations : Map Bytes Bytes

abbrev found_is : Option Bytes → Bytes → Bool
found_is none v = false
found_is (some w) v = bytes_eq w v

unfoldable pub is_pipe_ops_managed : Ingress → Bool
is_pipe_ops_managed g =
    found_is (Map.lookup Bytes-discrete (codes "pipeops.io/managed") g.labels) (codes "true")
    || found_is (Map.lookup Bytes-discrete (codes "pipeops.io/managed-by") g.annotations)
        (codes "pipeops")

abbrev port_named : Bytes → List (Bytes × ℕ) → Option ℕ
port_named name [] = none
port_named name ((n, port) ∷ ports) = if bytes_eq n name then some port else port_named name ports

abbrev ports_of : Option Service → Bytes → Option ℕ
ports_of none name = none
ports_of (some s) name = port_named name s.ports

unfoldable pub resolve_service_port : Services → Bytes → Bytes → Bytes → Option ℕ
resolve_service_port services namespace service name = ports_of (services namespace service) name

-- The port of a backend: `none` where its name cannot be resolved.
unfoldable pub backend_port : Services → Bytes → ServiceBackend → Option ℕ
backend_port services namespace b =
    if not (b.port_number == 0)
    then some b.port_number
    else if not (bytes_eq b.port_name [])
    then resolve_service_port services namespace b.name b.port_name
    else some 0

unfoldable pub is_system_namespace : Bytes → Bool
is_system_namespace namespace =
    bytes_eq namespace (codes "kube-system")
    || bytes_eq namespace (codes "kube-public")
    || bytes_eq namespace (codes "kube-node-lease")

unfoldable pub may_expose : Option Service → Bool
may_expose none = false
may_expose (some s) = elim s.kind [ load_balancer ↦ false | external_name ↦ false | _ ↦ true ]

unfoldable pub is_service_allowed : Services → Bytes → Bytes → Bool
is_service_allowed services namespace name =
    if bytes_eq namespace (codes "default") && bytes_eq name (codes "kubernetes")
    then false
    else if is_system_namespace namespace
    then false
    else may_expose (services namespace name)

abbrev pub or_prefix : Option Bytes → Bytes
or_prefix none = codes "Prefix"
or_prefix (some t) = t

-- The port of a path that extractRoutes keeps; `none` is a `continue`.
unfoldable pub path_port : Services → Bytes → ServiceBackend → Option ℕ
path_port services namespace b = elim (backend_port services namespace b) [
  | none ↦ none
  | some port ↦
      if port == 0
      then none
      else if is_service_allowed services namespace b.name
      then some port
      else none
]

unfoldable pub route_of : Ingress → Rule → HttpPath → ServiceBackend → ℕ → Route
route_of g rule p b port = record {
  host = rule.host;
  path = p.path;
  path_type = or_prefix p.path_type;
  service = b.name;
  namespace = g.namespace;
  ingress_name = g.name;
  port = port;
  tls = g.has_tls;
  annotations = g.annotations;
}

-- The route of a path in front of those of the later ones.
unfoldable pub add_route :
    Ingress → Rule → HttpPath → ServiceBackend → Option ℕ → List Route → List Route
add_route g rule p b none routes = routes
add_route g rule p b (some port) routes = route_of g rule p b port ∷ routes

unfoldable pub path_routes : Services → Ingress → Rule → List HttpPath → List Route
path_routes services g rule [] = []
path_routes services g rule (p ∷ ps) =
    let rest = path_routes services g rule ps in
    elim p.service [
      | none ↦ rest
      | some b ↦ add_route g rule p b (path_port services g.namespace b) rest
    ]

unfoldable pub rule_routes : Services → Ingress → Rule → List Route
rule_routes services g rule = elim rule.paths [
  | none ↦ []
  | some ps ↦ path_routes services g rule ps
]

unfoldable pub routes_of_rules : Services → Ingress → List Rule → List Route
routes_of_rules services g [] = []
routes_of_rules services g (rule ∷ rules) =
    rule_routes services g rule ++ routes_of_rules services g rules

unfoldable pub extract_routes : Services → Ingress → List Route
extract_routes services g = routes_of_rules services g g.rules
