-- ===== src/Tests/Udp.antt =====
-- Runs of the model of internal/agent/udp_tunnel.go, and its theorems at concrete inputs.
use pipeops_k8_agent.Prelude.{ℕ, ◌≡◌, refl, true, some, [], ◌∷◌, arith, ℕ_discrete}
use pipeops_k8_agent.Prelude.Bytes.{Bytes-discrete, codes}
use pipeops_k8_agent.Prelude.Map
use pipeops_k8_agent.Agent.UdpSessions.{UdpTunnel, update_session}
use pipeops_k8_agent.Agent.TunnelManager.{
  TunnelManagerConfig, new_tunnel_manager, get_udp_session, register_udp_session,
}
use pipeops_k8_agent.Agent.UdpTunnel.{
  UdpAgent, datagram, new_udp_agent, new_udp_tunnel, handle_udp_tunnel_data, listen, clean_udp,
  here, next, handles, with_tunnel, get_or_create_udp_tunnel, create_udp_tunnel, created,
  datagram_found, store_udp,
}
use pipeops_k8_agent.Agent.UdpTunnel.Sessions.{InSent}
use pipeops_k8_agent.Agent.UdpTunnel.Listeners.{registered_listened}
use pipeops_k8_agent.Agent.UdpTunnel.Reply.{client_reached}

abbrev udp_config : TunnelManagerConfig
udp_config = record {
  tcp_idle_timeout = 300;
  tcp_max_connections = 2;
  udp_session_timeout = 300;
  udp_max_sessions = 2;
}

abbrev socket : ℕ
socket = 7

abbrev fresh_agent : UdpAgent
fresh_agent = new_udp_agent udp_config

abbrev first_datagram : UdpAgent
first_datagram =
    (handle_udp_tunnel_data fresh_agent (codes "t") 53 (some 7) (codes "10.0.0.9") 4000 true 100).0

client_reached_example :
    (t : UdpTunnel) × (get_udp_session (clean_udp first_datagram 350).manager (codes "t") ≡ some t)
    × (Map.lookup ℕ_discrete t.socket (clean_udp first_datagram 350).listeners ≡ some (codes "t"))
    × InSent
        (codes "t", codes "10.0.0.9", 4000)
        (listen (clean_udp first_datagram 350) (codes "t") t.socket datagram).sent
unfolding handle_udp_tunnel_data new_udp_agent new_tunnel_manager new_udp_tunnel with_tunnel
    get_or_create_udp_tunnel get_udp_session Map.lookup create_udp_tunnel created
    register_udp_session datagram_found store_udp
client_reached_example =
    client_reached udp_config fresh_agent (codes "t") 53 (some 7) (codes "10.0.0.9") 4000 100 350
      here refl refl (omega arith)

-- The tunnel of the first datagram.
abbrev first_tunnel : UdpTunnel
first_tunnel = record {
  tunnel_id = codes "t";
  gateway_port = 53;
  socket = 7;
  sessions =
      (
        (codes "10.0.0.9", 4000),
        record { client_addr = codes "10.0.0.9"; client_port = 4000; last_activity = 100 },
      )
      ∷ [];
  start_time = 100;
  last_activity = 100;
  packets_sent = 1;
  packets_recv = 0;
}

first_registered : get_udp_session first_datagram.manager (codes "t") ≡ some first_tunnel
unfolding handle_udp_tunnel_data new_udp_agent new_tunnel_manager new_udp_tunnel with_tunnel
    get_or_create_udp_tunnel get_udp_session Map.lookup Map.insert create_udp_tunnel created
    register_udp_session datagram_found store_udp update_session Bytes-discrete ℕ_discrete
first_registered = refl

registered_listened_example : Map.lookup ℕ_discrete 7 first_datagram.listeners ≡ some (codes "t")
unfolding Map.lookup new_udp_agent
registered_listened_example =
    registered_listened udp_config first_datagram (codes "t") first_tunnel
      (next here (handles (codes "t") 53 (some 7) (codes "10.0.0.9") 4000 true 100 refl))
      first_registered
