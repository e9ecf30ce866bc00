-- ===== src/Tunnel/GatewayWatcher.antt =====
-- internal/tunnel/gateway_watcher.go. Strings are their bytes, the empty one where the source has
-- "". The Gateway API and the control plane are the environment's: a Gateway, the lists of routes,
-- and `register`, which answers a registration with the tunnel's port and endpoint, or fails.
pub mod Routing
pub mod Cache
pub mod Clash
use pipeops_k8_agent.Prelude.{
  ℕ, ◌+◌, ◌/◌, ◌%◌, zero, suc, Bool, true, false, ltb, ◌&&◌, ◌||◌, ◌==◌, Option, none, some, List,
  [], ◌∷◌, ◌++◌, ite, if◌then◌else◌,
}
use pipeops_k8_agent.Prelude.Bytes.{is_empty, Bytes, Bytes-discrete, bytes_eq, codes}
use pipeops_k8_agent.Prelude.Map
use pipeops_k8_agent.Prelude.Text.{decimal}
use pipeops_k8_agent.Prelude.Map.{Map}
use pipeops_k8_agent.Tunnel.Gateway.{
  Address, BackendRef, Gateway, Listener, ListenerProtocol, ParentRef, Protocol, Route, Routes,
  any_parent, backend_of, find_backend, first_backend, lookup_backend_service, or_default,
  other_protocol, parent_matches, section_matches, tcp, tcp_protocol, udp, udp_protocol,
}

pub data RoutingMode : Type 0 where
  direct tunnel dual : RoutingMode

pub data ClusterType : Type 0 where
  public_cluster private_cluster unknown_cluster : ClusterType

pub record TunnelService : Type 0 where
  pub protocol : Protocol
  pub gateway_name : Bytes
  pub gateway_namespace : Bytes
  pub gateway_port : ℕ
  pub service_name : Bytes
  pub service_namespace : Bytes
  pub service_port : ℕ
  pub routing_mode : RoutingMode
  pub tunnel_id : Bytes
  pub public_endpoint : Bytes
  pub tunnel_port : ℕ
  pub tunnel_endpoint : Bytes
  pub labels : Map Bytes Bytes
  pub annotations : Map Bytes Bytes
  pub is_active : Bool

pub record GatewayWatcher : Type 0 where
  pub cluster_uuid : Bytes
  pub force_tunnel_mode : Bool
  pub dual_mode_enabled : Bool
  pub tunnels : Map Bytes TunnelService
  pub cluster_type : ClusterType

unfoldable pub get_protocol_from_listener : ListenerProtocol → Option Protocol
get_protocol_from_listener tcp_protocol = some tcp
get_protocol_from_listener udp_protocol = some udp
get_protocol_from_listener other_protocol = none

unfoldable pub get_gateway_public_ip : List Address → Bytes
get_gateway_public_ip [] = []
get_gateway_public_ip (a ∷ rest) = if a.is_ip then a.value else get_gateway_public_ip rest

-- The override of the annotation pipeops.io/routing-mode; any other text is none.
unfoldable pub routing_override : Option Bytes → Option RoutingMode
routing_override none = none
routing_override (some mode) =
    if bytes_eq mode (codes "direct")
    then some direct
    else if bytes_eq mode (codes "tunnel")
    then some tunnel
    else if bytes_eq mode (codes "dual")
    then some dual
    else none

abbrev pub is_private : ClusterType → Bool
is_private private_cluster = true
is_private _ = false

-- determineRoutingMode once the annotations have been looked up.
unfoldable pub choose_routing_mode : GatewayWatcher → Option RoutingMode → Bytes → RoutingMode
choose_routing_mode w (some mode) public_ip = mode
choose_routing_mode w none public_ip =
    if w.force_tunnel_mode
    then tunnel
    else if is_private w.cluster_type || is_empty public_ip
    then tunnel
    else if w.dual_mode_enabled
    then dual
    else direct

unfoldable pub determine_routing_mode : GatewayWatcher → Gateway → Bytes → RoutingMode
determine_routing_mode w gateway public_ip =
    choose_routing_mode w
      (routing_override
        (Map.lookup Bytes-discrete (codes "pipeops.io/routing-mode") gateway.annotations))
      public_ip

unfoldable pub protocol_name : Protocol → Bytes
protocol_name tcp = codes "tcp"
protocol_name udp = codes "udp"

unfoldable pub make_tunnel_id : Bytes → Protocol → Bytes → ℕ → Bytes
make_tunnel_id cluster_uuid protocol gateway_name port =
    protocol_name protocol
    ++ (codes "-" ++ (cluster_uuid ++ (codes "-" ++ (gateway_name ++ (codes "-" ++ decimal port)))))

-- The tunnel of one listener, before its registration.
unfoldable pub build_tunnel :
    GatewayWatcher → Routes → Gateway → RoutingMode → Bytes → Listener → Protocol → TunnelService
build_tunnel w routes g mode public_ip l protocol =
    let (service_name, service_namespace, service_port) =
      lookup_backend_service routes g l protocol in
    record {
      protocol = protocol;
      gateway_name = g.name;
      gateway_namespace = g.namespace;
      gateway_port = l.port;
      service_name = service_name;
      service_namespace = service_namespace;
      service_port = service_port;
      routing_mode = mode;
      tunnel_id = make_tunnel_id w.cluster_uuid protocol g.name l.port;
      public_endpoint =
          if is_empty public_ip then [] else public_ip ++ (codes ":" ++ decimal l.port);
      tunnel_port = 0;
      tunnel_endpoint = [];
      labels = g.labels;
      annotations = g.annotations;
      is_active = false;
    }

-- What the control plane answers to a registration.
abbrev pub Register : Type 0
Register = TunnelService → Option (ℕ × Bytes)

unfoldable pub register_tunnel : Register → TunnelService → Option TunnelService
register_tunnel register t = elim (register t) [
  | none ↦ none
  | some (port, endpoint) ↦
      some (record t { tunnel_port = port; tunnel_endpoint = endpoint; is_active = true })
]

-- The cache after one registration.
unfoldable pub cache_tunnel :
    Map Bytes TunnelService → Option TunnelService → Map Bytes TunnelService
cache_tunnel tunnels none = tunnels
cache_tunnel tunnels (some t) = Map.insert Bytes-discrete t.tunnel_id t tunnels

unfoldable pub process_listener :
    GatewayWatcher
    → Register
    → Routes
    → Gateway
    → RoutingMode
    → Bytes
    → Listener
    → Map Bytes TunnelService
    → Map Bytes TunnelService
process_listener w register routes g mode public_ip l tunnels =
    elim (get_protocol_from_listener l.protocol) [
      | none ↦ tunnels
      | some protocol ↦
          cache_tunnel tunnels
            (register_tunnel register (build_tunnel w routes g mode public_ip l protocol))
    ]

unfoldable pub process_listeners :
    GatewayWatcher
    → Register
    → Routes
    → Gateway
    → RoutingMode
    → Bytes
    → List Listener
    → Map Bytes TunnelService
    → Map Bytes TunnelService
process_listeners w register routes g mode public_ip [] tunnels = tunnels
process_listeners w register routes g mode public_ip (l ∷ ls) tunnels =
    process_listeners w register routes g mode public_ip ls
      (process_listener w register routes g mode public_ip l tunnels)

unfoldable pub process_gateway : GatewayWatcher → Register → Routes → Gateway → GatewayWatcher
process_gateway w register routes g =
    let public_ip = get_gateway_public_ip g.addresses in
    record w {
      tunnels =
          process_listeners w register routes g (determine_routing_mode w g public_ip) public_ip
            g.listeners w.tunnels;
    }

unfoldable pub belongs_to : Bytes → Bytes → TunnelService → Bool
belongs_to namespace name t = bytes_eq t.gateway_namespace namespace && bytes_eq t.gateway_name name

-- The range of deregisterGatewayTunnels: an entry goes whether or not the control plane agrees.
unfoldable pub keep_other_tunnels :
    Bytes → Bytes → Map Bytes TunnelService → Map Bytes TunnelService
keep_other_tunnels namespace name [] = []
keep_other_tunnels namespace name ((id, t) ∷ m) =
    let rest = keep_other_tunnels namespace name m in
    if belongs_to namespace name t then rest else (id, t) ∷ rest

unfoldable pub deregister_gateway_tunnels : GatewayWatcher → Bytes → Bytes → GatewayWatcher
deregister_gateway_tunnels w namespace name = record w {
  tunnels = keep_other_tunnels namespace name w.tunnels;
}
