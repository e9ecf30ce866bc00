-- ===== src/Agent/TcpTunnel.antt =====
-- internal/agent/tcp_tunnel.go. Dialling, reading and writing are the environment's: each handler
-- takes their outcome. The goroutine of forwardServiceToGateway is an entry of `forwarders`, which
-- gives the request ID for the connection that it reads; a step is one handler, one round of a
-- forwarder, or its end.
pub mod Entries
pub mod Invariant
pub mod NoLeak
use pipeops_k8_agent.Prelude.{
  ℕ, ◌+◌, ◌≡◌, Bool, true, false, Option, none, some, List, [], ◌∷◌, if◌then◌else◌, ℕ_discrete,
  ◌==◌,
}
use pipeops_k8_agent.Prelude.Bytes.{Bytes, Bytes-discrete}
use pipeops_k8_agent.Prelude.Map
use pipeops_k8_agent.Prelude.Map.{Map}
use pipeops_k8_agent.Agent.TunnelManager.{
  TunnelManager, TunnelManagerConfig, TcpTunnel, RegisterError, u64, new_tunnel_manager,
  new_tcp_tunnel, register_tcp_connection, get_tcp_connection, remove_tcp_connection,
  cleanup_idle_tcp,
}

pub data CloseReason : Type 0 where
  connection_failed registration_failed write_error service_closed : CloseReason

-- `sent` holds the close messages for the gateway, `dialed` the connections that were made.
pub record TcpAgent : Type 0 where
  pub manager : TunnelManager
  pub forwarders : Map ℕ Bytes
  pub sent : List (Bytes × CloseReason)
  pub dialed : List ℕ

unfoldable pub new_tcp_agent : TunnelManagerConfig → TcpAgent
new_tcp_agent config = record {
  manager = new_tunnel_manager config;
  forwarders = [];
  sent = [];
  dialed = [];
}

-- TCPTunnel.Close, for the manager that keeps count of what is closed.
unfoldable pub close_conn : ℕ → TunnelManager → TunnelManager
close_conn conn tm = record tm { closed = conn ∷ tm.closed }

-- A write through the pointer that the map holds under `id`.
unfoldable pub store : Bytes → TcpTunnel → TunnelManager → TunnelManager
store id t tm = record tm { tcp_connections = Map.insert Bytes-discrete id t tm.tcp_connections }

-- HandleTCPTunnelStart once it has dialled: a registration that fails closes the connection.
unfoldable pub start_registered :
    TcpAgent → Bytes → ℕ → TunnelManager × Option RegisterError → TcpAgent
start_registered a id conn (tm, some e) = record a {
  manager = close_conn conn tm;
  sent = (id, registration_failed) ∷ a.sent;
  dialed = conn ∷ a.dialed;
}
start_registered a id conn (tm, none) = record a {
  manager = tm;
  forwarders = Map.insert ℕ_discrete conn id a.forwarders;
  dialed = conn ∷ a.dialed;
}

unfoldable pub handle_tcp_tunnel_start : TcpAgent → Bytes → Bytes → ℕ → Option ℕ → ℕ → TcpAgent
handle_tcp_tunnel_start a id tunnel_id port none now = record a {
  sent = (id, connection_failed) ∷ a.sent;
}
handle_tcp_tunnel_start a id tunnel_id port (some conn) now =
    start_registered a id conn
      (register_tcp_connection a.manager id (new_tcp_tunnel id tunnel_id port conn now))

-- HandleTCPTunnelData on a tunnel that is there; `none` is a failed write.
unfoldable pub data_found : TcpAgent → Bytes → TcpTunnel → Option ℕ → ℕ → TcpAgent
data_found a id t (some n) now = record a {
  manager =
      store id (record t { last_activity = now; bytes_sent = u64 (t.bytes_sent + n) }) a.manager;
}
data_found a id t none now = record a {
  manager =
      remove_tcp_connection
        (close_conn t.service_conn (store id (record t { last_activity = now }) a.manager)) id;
  sent = (id, write_error) ∷ a.sent;
}

-- The second component is false for the error "tunnel not found".
unfoldable pub handle_tcp_tunnel_data : TcpAgent → Bytes → Option ℕ → ℕ → TcpAgent × Bool
handle_tcp_tunnel_data a id write now = elim (get_tcp_connection a.manager id) [
  | none ↦ (a, false)
  | some t ↦ (data_found a id t write now, true)
]

unfoldable pub close_found : TcpAgent → Bytes → TcpTunnel → TcpAgent
close_found a id t = record a {
  manager = remove_tcp_connection (close_conn t.service_conn a.manager) id;
}

unfoldable pub handle_tcp_tunnel_close : TcpAgent → Bytes → TcpAgent
handle_tcp_tunnel_close a id = elim (get_tcp_connection a.manager id) [
  | none ↦ a
  | some t ↦ close_found a id t
]

-- A forwarder's tunnel object is the one under its ID, if that has its connection.
unfoldable pub received : TunnelManager → Bytes → ℕ → ℕ → ℕ → TunnelManager
received tm id conn n now = elim (get_tcp_connection tm id) [
  | none ↦ tm
  | some t ↦
      if t.service_conn == conn
      then store id (record t { last_activity = now; bytes_recv = u64 (t.bytes_recv + n) }) tm
      else tm
]

-- The deferred end of forwardServiceToGateway.
unfoldable pub forwarder_exit : TcpAgent → Bytes → ℕ → TcpAgent
forwarder_exit a id conn = record a {
  manager = remove_tcp_connection (close_conn conn a.manager) id;
  forwarders = Map.delete ℕ_discrete conn a.forwarders;
  sent = (id, service_closed) ∷ a.sent;
}

-- One round that read `n` bytes and sent them, or failed to.
unfoldable pub forward_read : TcpAgent → Bytes → ℕ → ℕ → ℕ → Bool → TcpAgent
forward_read a id conn n now delivered =
    let a' : TcpAgent = record a { manager = received a.manager id conn n now } in
    if delivered then a' else forwarder_exit a' id conn

pub data Step (a : TcpAgent) : TcpAgent → Type 0 where
  starts :
      (id tunnel_id : Bytes) (port conn now : ℕ)
      → Map.lookup ℕ_discrete conn a.forwarders ≡ none
      → Step a (handle_tcp_tunnel_start a id tunnel_id port (some conn) now)
  fails :
      (id tunnel_id : Bytes) (port now : ℕ)
      → Step a (handle_tcp_tunnel_start a id tunnel_id port none now)
  writes :
      (id : Bytes) (write : Option ℕ) (now : ℕ) → Step a (handle_tcp_tunnel_data a id write now).0
  closes : (id : Bytes) → Step a (handle_tcp_tunnel_close a id)
  reads :
      (id : Bytes) (conn n now : ℕ) (delivered : Bool)
      → Map.lookup ℕ_discrete conn a.forwarders ≡ some id
      → Step a (forward_read a id conn n now delivered)
  exits :
      (id : Bytes) (conn : ℕ)
      → Map.lookup ℕ_discrete conn a.forwarders ≡ some id
      → Step a (forwarder_exit a id conn)
  cleans : (now : ℕ) → Step a (record a { manager = cleanup_idle_tcp a.manager now })

pub data Reach (a : TcpAgent) : TcpAgent → Type 0 where
  here : Reach a a
  next : {b c : TcpAgent} → Reach a b → Step b c → Reach a c
