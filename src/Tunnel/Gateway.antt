-- ===== src/Tunnel/Gateway.antt =====
-- The objects of the Gateway API that internal/tunnel/gateway_watcher.go reads, and its search for
-- the service behind a listener.
use pipeops_k8_agent.Prelude.{
  ℕ, Bool, true, false, ◌&&◌, ◌||◌, Option, none, some, List, [], ◌∷◌, if◌then◌else◌,
}
use pipeops_k8_agent.Prelude.Bytes.{Bytes, bytes_eq}
use pipeops_k8_agent.Prelude.Map.{Map}

pub data Protocol : Type 0 where
  tcp udp : Protocol

-- The protocols of a listener; all but TCP and UDP are one.
pub data ListenerProtocol : Type 0 where
  tcp_protocol udp_protocol other_protocol : ListenerProtocol

pub record Listener : Type 0 where
  pub name : Bytes
  pub protocol : ListenerProtocol
  pub port : ℕ

-- An address of the status: whether its type is IPAddress, and its value.
pub record Address : Type 0 where
  pub is_ip : Bool
  pub value : Bytes

pub record Gateway : Type 0 where
  pub namespace : Bytes
  pub name : Bytes
  pub labels : Map Bytes Bytes
  pub annotations : Map Bytes Bytes
  pub listeners : List Listener
  pub addresses : List Address

pub record BackendRef : Type 0 where
  pub name : Bytes
  pub namespace : Option Bytes
  pub port : Option ℕ

pub record ParentRef : Type 0 where
  pub name : Bytes
  pub section_name : Option Bytes

-- A TCPRoute or UDPRoute: its parents, and for each rule its backends.
pub record Route : Type 0 where
  pub parents : List ParentRef
  pub rules : List (List BackendRef)

-- The test on a parent reference.
unfoldable pub section_matches : Option Bytes → Bytes → Bool
section_matches none listener_name = true
section_matches (some s) listener_name = bytes_eq s listener_name

unfoldable pub parent_matches : Bytes → Bytes → ParentRef → Bool
unfolding section_matches
parent_matches gateway_name listener_name p =
    bytes_eq p.name gateway_name && section_matches p.section_name listener_name

unfoldable pub any_parent : Bytes → Bytes → List ParentRef → Bool
any_parent gateway_name listener_name [] = false
any_parent gateway_name listener_name (p ∷ ps) =
    parent_matches gateway_name listener_name p || any_parent gateway_name listener_name ps

-- The first backend of the first rule.
unfoldable pub first_backend : List (List BackendRef) → Option BackendRef
first_backend ((b ∷ bs) ∷ rules) = some b
first_backend _ = none

abbrev pub or_default {ℓ} : {A : Type ℓ} → Option A → A → A
or_default none d = d
or_default (some a) d = a

unfoldable pub backend_of : Bytes → BackendRef → Bytes × Bytes × ℕ
backend_of namespace b = (b.name, or_default b.namespace namespace, or_default b.port 0)

-- The search through one list of routes: a route with a matching parent and no backend is passed.
unfoldable pub find_backend : Bytes → Bytes → Bytes → List Route → Bytes × Bytes × ℕ
find_backend namespace gateway_name listener_name [] = ([], [], 0)
find_backend namespace gateway_name listener_name (r ∷ routes) =
    let rest = find_backend namespace gateway_name listener_name routes in
    if any_parent gateway_name listener_name r.parents
    then (elim (first_backend r.rules) [ some b ↦ backend_of namespace b | none ↦ rest ])
    else rest

-- The routes that the API lists for a namespace; a list that fails is empty.
pub record Routes : Type 0 where
  pub tcp_routes : List Route
  pub udp_routes : List Route

unfoldable pub lookup_backend_service : Routes → Gateway → Listener → Protocol → Bytes × Bytes × ℕ
lookup_backend_service routes g l tcp = find_backend g.namespace g.name l.name routes.tcp_routes
lookup_backend_service routes g l udp = find_backend g.namespace g.name l.name routes.udp_routes
