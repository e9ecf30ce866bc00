-- ===== src/Tests/Agent.antt =====
-- Runs of the model of internal/agent, and its theorems at concrete inputs.
use pipeops_k8_agent.Prelude.{ℕ, ◌≡◌, refl, ◌≢◌, ◌⊎◌, inl, none, some, [], ◌∷◌, ℕ_discrete}
use pipeops_k8_agent.Prelude.Bytes.{Bytes-discrete, codes}
use pipeops_k8_agent.Prelude.Map
use pipeops_k8_agent.Agent.TunnelManager.{
  TunnelManager, TunnelManagerConfig, TcpTunnel, new_tcp_tunnel, new_tunnel_manager,
  register_tcp_connection, get_tcp_connection,
}
use pipeops_k8_agent.Agent.TunnelManager.Bounds.{
  registers_tcp, IsBounded, apply_all, new-apply_all-IsBounded,
}
use pipeops_k8_agent.Agent.TunnelManager.Cleanup.{In}
use pipeops_k8_agent.Agent.TcpTunnel.{
  TcpAgent, new_tcp_agent, handle_tcp_tunnel_start, handle_tcp_tunnel_close, Reach, here, next,
  starts, closes, start_registered,
}
use pipeops_k8_agent.Agent.TcpTunnel.Entries.{reader}
use pipeops_k8_agent.Agent.TcpTunnel.NoLeak.{no_leak, registered_read}

abbrev config : TunnelManagerConfig
config = record {
  tcp_idle_timeout = 300;
  tcp_max_connections = 2;
  udp_session_timeout = 300;
  udp_max_sessions = 2;
}

abbrev tunnel_on : ℕ → ℕ → TcpTunnel
tunnel_on conn now = record {
  request_id = codes "r";
  tunnel_id = codes "t";
  gateway_port = 5432;
  service_conn = conn;
  start_time = now;
  last_activity = now;
  bytes_sent = 0;
  bytes_recv = 0;
}

abbrev busy : TunnelManager
busy = record {
  config = config;
  tcp_connections = (codes "r", tunnel_on 7 100) ∷ [];
  udp_sessions = [];
  tcp_connections_total = 1;
  tcp_bytes_transferred = 0;
  udp_sessions_total = 0;
  udp_packets_transferred = 0;
  closed = [];
}

new-apply_all-IsBounded_example :
    IsBounded config
      (apply_all (new_tunnel_manager config) (registers_tcp (codes "r") (tunnel_on 7 100) ∷ []))
new-apply_all-IsBounded_example =
    new-apply_all-IsBounded config (registers_tcp (codes "r") (tunnel_on 7 100) ∷ [])

-- A tunnel that is started.
started : TcpAgent
started = handle_tcp_tunnel_start (new_tcp_agent config) (codes "r") (codes "t") 5432 (some 7) 100

started_reached : Reach (new_tcp_agent config) started
unfolding started new_tcp_agent Map.lookup
started_reached = next here (starts (codes "r") (codes "t") 5432 7 100 refl)

closed_reached : Reach (new_tcp_agent config) (handle_tcp_tunnel_close started (codes "r"))
closed_reached = next started_reached (closes (codes "r"))

no_leak_example : In 7 started.manager.closed ⊎ (reader started 7 ≢ none)
unfolding started new_tcp_agent Map.lookup handle_tcp_tunnel_start start_registered
    register_tcp_connection new_tcp_tunnel new_tunnel_manager
no_leak_example = no_leak config started 7 started_reached (inl refl)

registered_read_example : reader started 7 ≡ some (codes "r")
unfolding started new_tcp_agent Map.lookup handle_tcp_tunnel_start start_registered
    register_tcp_connection new_tcp_tunnel new_tunnel_manager get_tcp_connection Map.insert
    Bytes-discrete ℕ_discrete
registered_read_example =
    registered_read config started (codes "r") (tunnel_on 7 100) started_reached refl
