-- ===== src/Agent/TunnelManager.antt =====
-- internal/agent/tunnel_manager.go. The keys of the two maps are the request and tunnel IDs, times
-- and durations are nanoseconds of a clock that does not go back, and the atomic 64-bit counters
-- wrap. A connection or socket is a number; closing one is recorded in the list of closed ones.
pub mod Bounds
pub mod Cleanup
use pipeops_k8_agent.Prelude.{
  ℕ, ◌+◌, ◌-◌, ◌%◌, ◌^◌, Bool, true, false, ltb, leb, ◌==◌, ◌&&◌, Option, none, some, List, [], ◌∷◌,
  ◌++◌, length, if◌then◌else◌, ℕ_discrete,
}
use pipeops_k8_agent.Prelude.Bytes.{Bytes, Bytes-discrete}
use pipeops_k8_agent.Prelude.Map
use pipeops_k8_agent.Prelude.Map.{Map}
use pipeops_k8_agent.Agent.UdpSessions.{UdpTunnel, is_stale, cleanup_stale_sessions}

abbrev pub u64 : ℕ → ℕ
u64 n = n % 18446744073709551616

pub record TunnelManagerConfig : Type 0 where
  pub tcp_idle_timeout : ℕ
  pub tcp_max_connections : ℕ
  pub udp_session_timeout : ℕ
  pub udp_max_sessions : ℕ

-- DefaultTunnelManagerConfig, for the settings that the manager reads.
unfoldable pub default_tunnel_manager_config : TunnelManagerConfig
default_tunnel_manager_config = record {
  tcp_idle_timeout = 300000000000;
  tcp_max_connections = 1000;
  udp_session_timeout = 300000000000;
  udp_max_sessions = 1000;
}

pub record TcpTunnel : Type 0 where
  pub request_id : Bytes
  pub tunnel_id : Bytes
  pub gateway_port : ℕ
  pub service_conn : ℕ
  pub start_time : ℕ
  pub last_activity : ℕ
  pub bytes_sent : ℕ
  pub bytes_recv : ℕ

pub record TunnelManager : Type 0 where
  pub config : TunnelManagerConfig
  pub tcp_connections : Map Bytes TcpTunnel
  pub udp_sessions : Map Bytes UdpTunnel
  pub tcp_connections_total : ℕ
  pub tcp_bytes_transferred : ℕ
  pub udp_sessions_total : ℕ
  pub udp_packets_transferred : ℕ
  pub closed : List ℕ

pub data RegisterError : Type 0 where
  max_reached already_exists : RegisterError

unfoldable pub new_tunnel_manager : TunnelManagerConfig → TunnelManager
new_tunnel_manager config = record {
  config = config;
  tcp_connections = [];
  udp_sessions = [];
  tcp_connections_total = 0;
  tcp_bytes_transferred = 0;
  udp_sessions_total = 0;
  udp_packets_transferred = 0;
  closed = [];
}

unfoldable pub new_tcp_tunnel : Bytes → Bytes → ℕ → ℕ → ℕ → TcpTunnel
new_tcp_tunnel request_id tunnel_id gateway_port conn now = record {
  request_id = request_id;
  tunnel_id = tunnel_id;
  gateway_port = gateway_port;
  service_conn = conn;
  start_time = now;
  last_activity = now;
  bytes_sent = 0;
  bytes_recv = 0;
}

unfoldable pub register_tcp_connection :
    TunnelManager → Bytes → TcpTunnel → TunnelManager × Option RegisterError
register_tcp_connection tm id tunnel =
    if leb tm.config.tcp_max_connections (length tm.tcp_connections)
    then (tm, some max_reached)
    else elim (Map.lookup Bytes-discrete id tm.tcp_connections) [
      | some _ ↦ (tm, some already_exists)
      | none ↦ (
        record tm {
          tcp_connections = Map.insert Bytes-discrete id tunnel tm.tcp_connections;
          tcp_connections_total = u64 (tm.tcp_connections_total + 1);
        },
        none,
      )
    ]

unfoldable pub get_tcp_connection : TunnelManager → Bytes → Option TcpTunnel
get_tcp_connection tm id = Map.lookup Bytes-discrete id tm.tcp_connections

unfoldable pub remove_tcp_connection : TunnelManager → Bytes → TunnelManager
remove_tcp_connection tm id = elim (Map.lookup Bytes-discrete id tm.tcp_connections) [
  | none ↦ tm
  | some tunnel ↦ record tm {
    tcp_connections = Map.delete Bytes-discrete id tm.tcp_connections;
    tcp_bytes_transferred =
        u64 (tm.tcp_bytes_transferred + (tunnel.bytes_sent + tunnel.bytes_recv));
  }
]

unfoldable pub is_idle : TcpTunnel → ℕ → ℕ → Bool
is_idle t timeout now = ltb timeout (now - t.last_activity)

-- The range of cleanupIdleTCP: the connections that it closes, and the entries that stay.
unfoldable pub idle_conns : ℕ → ℕ → Map Bytes TcpTunnel → List ℕ
idle_conns timeout now [] = []
idle_conns timeout now ((id, t) ∷ m) =
    let rest = idle_conns timeout now m in
    if is_idle t timeout now then t.service_conn ∷ rest else rest

unfoldable pub active_tcp : ℕ → ℕ → Map Bytes TcpTunnel → Map Bytes TcpTunnel
active_tcp timeout now [] = []
active_tcp timeout now ((id, t) ∷ m) =
    let rest = active_tcp timeout now m in if is_idle t timeout now then rest else (id, t) ∷ rest

unfoldable pub cleanup_idle_tcp : TunnelManager → ℕ → TunnelManager
cleanup_idle_tcp tm now = record tm {
  tcp_connections = active_tcp tm.config.tcp_idle_timeout now tm.tcp_connections;
  closed = idle_conns tm.config.tcp_idle_timeout now tm.tcp_connections ++ tm.closed;
}

unfoldable pub register_udp_session :
    TunnelManager → Bytes → UdpTunnel → TunnelManager × Option RegisterError
register_udp_session tm id tunnel =
    if leb tm.config.udp_max_sessions (length tm.udp_sessions)
    then (tm, some max_reached)
    else elim (Map.lookup Bytes-discrete id tm.udp_sessions) [
      | some _ ↦ (tm, none)
      | none ↦ (
        record tm {
          udp_sessions = Map.insert Bytes-discrete id tunnel tm.udp_sessions;
          udp_sessions_total = u64 (tm.udp_sessions_total + 1);
        },
        none,
      )
    ]

unfoldable pub get_udp_session : TunnelManager → Bytes → Option UdpTunnel
get_udp_session tm id = Map.lookup Bytes-discrete id tm.udp_sessions

unfoldable pub remove_udp_session : TunnelManager → Bytes → TunnelManager
remove_udp_session tm id = elim (Map.lookup Bytes-discrete id tm.udp_sessions) [
  | none ↦ tm
  | some tunnel ↦ record tm {
    udp_sessions = Map.delete Bytes-discrete id tm.udp_sessions;
    udp_packets_transferred =
        u64 (tm.udp_packets_transferred + (tunnel.packets_sent + tunnel.packets_recv));
  }
]

unfoldable pub stale_sockets : ℕ → ℕ → Map Bytes UdpTunnel → List ℕ
stale_sockets timeout now [] = []
stale_sockets timeout now ((id, t) ∷ m) =
    let rest = stale_sockets timeout now m in
    if is_stale (cleanup_stale_sessions t timeout now) timeout now then t.socket ∷ rest else rest

unfoldable pub active_udp : ℕ → ℕ → Map Bytes UdpTunnel → Map Bytes UdpTunnel
active_udp timeout now [] = []
active_udp timeout now ((id, t) ∷ m) =
    let rest = active_udp timeout now m in
    if is_stale (cleanup_stale_sessions t timeout now) timeout now
    then rest
    else (id, cleanup_stale_sessions t timeout now) ∷ rest

unfoldable pub cleanup_stale_udp : TunnelManager → ℕ → TunnelManager
cleanup_stale_udp tm now = record tm {
  udp_sessions = active_udp tm.config.udp_session_timeout now tm.udp_sessions;
  closed = stale_sockets tm.config.udp_session_timeout now tm.udp_sessions ++ tm.closed;
}

pub record TunnelMetrics : Type 0 where
  pub tcp_connections_active : ℕ
  pub tcp_connections_total : ℕ
  pub tcp_bytes_transferred : ℕ
  pub udp_sessions_active : ℕ
  pub udp_sessions_total : ℕ
  pub udp_packets_transferred : ℕ

unfoldable pub get_metrics : TunnelManager → TunnelMetrics
get_metrics tm = record {
  tcp_connections_active = length tm.tcp_connections;
  tcp_connections_total = tm.tcp_connections_total;
  tcp_bytes_transferred = tm.tcp_bytes_transferred;
  udp_sessions_active = length tm.udp_sessions;
  udp_sessions_total = tm.udp_sessions_total;
  udp_packets_transferred = tm.udp_packets_transferred;
}

unfoldable pub service_conns : Map Bytes TcpTunnel → List ℕ
service_conns [] = []
service_conns ((id, t) ∷ m) = t.service_conn ∷ service_conns m

unfoldable pub sockets : Map Bytes UdpTunnel → List ℕ
sockets [] = []
sockets ((id, t) ∷ m) = t.socket ∷ sockets m

unfoldable pub stop : TunnelManager → TunnelManager
stop tm = record tm {
  tcp_connections = [];
  udp_sessions = [];
  closed = sockets tm.udp_sessions ++ (service_conns tm.tcp_connections ++ tm.closed);
}
