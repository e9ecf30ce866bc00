-- ===== src/Tests/Tunnel.antt =====
-- Runs of the model of internal/tunnel, and its theorems at concrete inputs.
use pipeops_k8_agent.Prelude.{
  ◌≡◌, refl, inl, inr, ◌↔◌, true, false, none, some, [], ◌∷◌, ◌++◌, arith,
}
use pipeops_k8_agent.Prelude.Bytes.{Bytes, codes}
use pipeops_k8_agent.Prelude.Text.{decimal}
use pipeops_k8_agent.Tunnel.StreamHeader.{TunnelStreamHeader, decode, encode, write_string}
use pipeops_k8_agent.Tunnel.StreamHeader.RoundTrip.{Fits, decode-encode_iff}
use pipeops_k8_agent.Tunnel.Gateway.{tcp, tcp_protocol, other_protocol, Listener, Gateway, Routes}
use pipeops_k8_agent.Tunnel.GatewayWatcher.{
  public_cluster, GatewayWatcher, Register, process_gateway, make_tunnel_id, protocol_name,
  deregister_gateway_tunnels, get_protocol_from_listener,
}
use pipeops_k8_agent.Tunnel.GatewayWatcher.Cache.{Serves, cached, mode_of, cached-process_gateway}
use pipeops_k8_agent.Tunnel.GatewayWatcher.Clash.{gateway_clash}

abbrev header : TunnelStreamHeader
header = record {
  version = 1;
  protocol = 1;
  service_port = 5432;
  service_name = codes "db";
  service_namespace = codes "default";
  tunnel_id = [];
}

header_bytes :
    encode header ≡ 1 ∷ 1 ∷ 21 ∷ 56 ∷ 0 ∷ 2 ∷ 100 ∷ 98 ∷ 0 ∷ 7 ∷ (codes "default" ++ 0 ∷ 0 ∷ [])
unfolding encode write_string
header_bytes = refl

decode-encode_iff_example : (decode (encode header ++ 9 ∷ []) ≡ some (header, 9 ∷ [])) ↔ Fits header
unfolding encode write_string
decode-encode_iff_example = decode-encode_iff header (9 ∷ []) (omega arith) (omega arith)

abbrev watcher : GatewayWatcher
watcher = record {
  cluster_uuid = codes "c1";
  force_tunnel_mode = false;
  dual_mode_enabled = true;
  tunnels = [];
  cluster_type = public_cluster;
}

abbrev postgres : Listener
postgres = record { name = codes "pg"; protocol = tcp_protocol; port = 5432 }

abbrev web : Listener
web = record { name = codes "web"; protocol = other_protocol; port = 80 }

abbrev gateway_in : Bytes → Gateway
gateway_in namespace = record {
  namespace = namespace;
  name = codes "edge";
  labels = [];
  annotations = [];
  listeners = web ∷ postgres ∷ [];
  addresses = record { is_ip = true; value = codes "1.2.3.4" } ∷ [];
}

abbrev no_routes : Routes
no_routes = record { tcp_routes = []; udp_routes = [] }

abbrev accept_all : Register
accept_all t = some (15432, codes "gw")

postgres_id : make_tunnel_id (codes "c1") tcp (codes "edge") 5432 ≡ codes "tcp-c1-edge-5432"
unfolding make_tunnel_id protocol_name decimal
postgres_id = refl

cached-process_gateway_example :
    let g = gateway_in (codes "a") in
    Serves g (mode_of watcher g) (
      cached
        (process_gateway watcher accept_all no_routes g)
        (make_tunnel_id (codes "c1") tcp (codes "edge") 5432))
unfolding get_protocol_from_listener
cached-process_gateway_example =
    cached-process_gateway watcher accept_all no_routes (gateway_in (codes "a")) postgres tcp
      (inr (inl refl)) refl (λ e. cc)

-- The routes of another namespace.
abbrev other_routes : Routes
other_routes = record {
  tcp_routes =
      record {
        parents = record { name = codes "edge"; section_name = none } ∷ [];
        rules = (record { name = codes "db"; namespace = none; port = some 5432 } ∷ []) ∷ [];
      }
      ∷ [];
  udp_routes = [];
}

gateway_clash_example :
    let g = gateway_in (codes "a") in
    let k = gateway_in (codes "b") in
    let first = process_gateway watcher accept_all no_routes g in
    let second = process_gateway first accept_all other_routes k in
    let id = make_tunnel_id (codes "c1") tcp (codes "edge") 5432 in
    Serves g (mode_of watcher g) (cached first id)
    × ¬ Serves g (mode_of watcher g) (cached second id)
    × (cached (deregister_gateway_tunnels second (codes "b") (codes "edge")) id ≡ none)
unfolding get_protocol_from_listener
gateway_clash_example =
    gateway_clash watcher accept_all no_routes other_routes (gateway_in (codes "a"))
      (gateway_in (codes "b")) postgres postgres tcp tt (λ t e. cc) refl (λ e. ground arith)
      (inr (inl refl)) (inr (inl refl)) refl refl refl
