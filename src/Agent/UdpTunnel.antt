-- ===== src/Agent/UdpTunnel.antt =====
-- internal/agent/udp_tunnel.go. Dialling, reading and writing are the environment's: each function
-- takes their outcome. A socket that is dialled has a number of its own. The goroutine of
-- listenForUDPResponses is an entry of `listeners`, which gives the tunnel ID for the socket that it
-- reads; a tunnel that the end of another listener took out of the manager's map is an entry of
-- `orphans` under its socket, and only its own listener still has it. A step is one datagram of the
-- gateway, one round of a listener, or a cleanup.
pub mod Sessions
pub mod Addresses
pub mod Steps
pub mod Listeners
pub mod Reply
pub mod Acceptance
use pipeops_k8_agent.Prelude.{
  ℕ, ◌+◌, ◌≡◌, Bool, true, false, Option, none, some, List, [], ◌∷◌, ◌++◌, length, if◌then◌else◌,
  ℕ_discrete, ◌==◌,
}
use pipeops_k8_agent.Prelude.Bytes.{Bytes, Bytes-discrete}
use pipeops_k8_agent.Prelude.Map
use pipeops_k8_agent.Prelude.Map.{Map}
use pipeops_k8_agent.Agent.UdpSessions.{UdpTunnel, UdpSession, SessionKey, update_session}
use pipeops_k8_agent.Agent.TunnelManager.{
  TunnelManager, TunnelManagerConfig, RegisterError, u64, new_tunnel_manager, register_udp_session,
  get_udp_session, remove_udp_session, cleanup_stale_udp,
}

-- A datagram for a client: the tunnel's ID, the client's address and port.
abbrev pub Message : Type 0
Message = Bytes × Bytes × ℕ

pub record UdpAgent : Type 0 where
  pub manager : TunnelManager
  pub listeners : Map ℕ Bytes
  pub orphans : Map ℕ UdpTunnel
  pub sent : List Message

unfoldable pub new_udp_agent : TunnelManagerConfig → UdpAgent
new_udp_agent config = record {
  manager = new_tunnel_manager config;
  listeners = [];
  orphans = [];
  sent = [];
}

unfoldable pub new_udp_tunnel : Bytes → ℕ → ℕ → ℕ → UdpTunnel
new_udp_tunnel tunnel_id gateway_port socket now = record {
  tunnel_id = tunnel_id;
  gateway_port = gateway_port;
  socket = socket;
  sessions = [];
  start_time = now;
  last_activity = now;
  packets_sent = 0;
  packets_recv = 0;
}

-- UDPTunnel.Close, for the manager that keeps count of what is closed.
unfoldable pub close_socket : ℕ → TunnelManager → TunnelManager
close_socket socket tm = record tm { closed = socket ∷ tm.closed }

-- A write through the pointer that the map holds under `id`.
unfoldable pub store_udp : Bytes → UdpTunnel → TunnelManager → TunnelManager
store_udp id t tm = record tm { udp_sessions = Map.insert Bytes-discrete id t tm.udp_sessions }

-- getOrCreateUDPTunnel once it has dialled: a registration that fails closes the socket.
unfoldable pub created :
    UdpAgent
    → Bytes
    → UdpTunnel
    → TunnelManager × Option RegisterError
    → UdpAgent × Option UdpTunnel
created a id t (tm, some e) = (record a { manager = close_socket t.socket tm }, none)
created a id t (tm, none) =
    (record a { manager = tm; listeners = Map.insert ℕ_discrete t.socket id a.listeners }, some t)

unfoldable pub create_udp_tunnel : UdpAgent → Bytes → ℕ → Option ℕ → ℕ → UdpAgent × Option UdpTunnel
create_udp_tunnel a id port none now = (a, none)
create_udp_tunnel a id port (some socket) now =
    let t = new_udp_tunnel id port socket now in
    created a id t (register_udp_session a.manager id t)

unfoldable pub get_or_create_udp_tunnel :
    UdpAgent → Bytes → ℕ → Option ℕ → ℕ → UdpAgent × Option UdpTunnel
get_or_create_udp_tunnel a id port dial now = elim (get_udp_session a.manager id) [
  | some t ↦ (a, some t)
  | none ↦ create_udp_tunnel a id port dial now
]

-- HandleUDPTunnelData on its tunnel: the session, then the write, which may fail.
unfoldable pub datagram_found : UdpAgent → Bytes → UdpTunnel → Bytes → ℕ → Bool → ℕ → UdpAgent
datagram_found a id t addr port written now =
    let t' = update_session t addr port now in
    let counted : UdpTunnel = record t' { packets_sent = u64 (t'.packets_sent + 1) } in
    record a { manager = store_udp id (if written then counted else t') a.manager }

-- The second component is false where HandleUDPTunnelData returns an error.
unfoldable pub with_tunnel :
    Bytes → Bytes → ℕ → Bool → ℕ → UdpAgent × Option UdpTunnel → UdpAgent × Bool
with_tunnel id addr port written now (a, none) = (a, false)
with_tunnel id addr port written now (a, some t) =
    (datagram_found a id t addr port written now, written)

unfoldable pub handle_udp_tunnel_data :
    UdpAgent → Bytes → ℕ → Option ℕ → Bytes → ℕ → Bool → ℕ → UdpAgent × Bool
handle_udp_tunnel_data a id gateway_port dial addr port written now =
    with_tunnel id addr port written now (get_or_create_udp_tunnel a id gateway_port dial now)

-- forwardUDPResponseToClients: the datagrams that it sends, one for each session.
unfoldable pub responses : Bytes → Map SessionKey UdpSession → List Message
responses id [] = []
responses id ((k, s) ∷ m) = (id, s.client_addr, s.client_port) ∷ responses id m

-- What a read of the socket gives: the deadline, an error, no bytes, or a datagram.
pub data Reading : Type 0 where
  timed_out read_failed nothing_read datagram : Reading

-- A tunnel that is taken out of the map lives on for its own listener, if that is another one.
abbrev pub orphaned : ℕ → Option UdpTunnel → Map ℕ UdpTunnel → Map ℕ UdpTunnel
orphaned socket none m = m
orphaned socket (some t) m = if t.socket == socket then m else Map.insert ℕ_discrete t.socket t m

-- The deferred end of listenForUDPResponses.
unfoldable pub listener_exit : UdpAgent → Bytes → ℕ → UdpAgent
listener_exit a id socket = record a {
  manager = remove_udp_session (close_socket socket a.manager) id;
  listeners = Map.delete ℕ_discrete socket a.listeners;
  orphans = Map.delete ℕ_discrete socket (orphaned socket (get_udp_session a.manager id) a.orphans);
}

-- The tunnel of a listener, if it is in the map under its ID.
unfoldable pub listened : TunnelManager → Bytes → ℕ → Option UdpTunnel
listened tm id socket = elim (get_udp_session tm id) [
  | none ↦ none
  | some t ↦ if t.socket == socket then some t else none
]

abbrev pub received_one : UdpTunnel → UdpTunnel
received_one t = record t { packets_recv = u64 (t.packets_recv + 1) }

-- The tunnel of a listener in the map, else among the orphans; one that a cleanup took out of the
-- map is in neither, and has no session.
unfoldable pub answer : UdpAgent → Bytes → ℕ → Option UdpTunnel → Option UdpTunnel → UdpAgent
answer a id socket (some t) o = record a {
  manager = store_udp id (received_one t) a.manager;
  sent = responses id t.sessions ++ a.sent;
}
answer a id socket none none = a
answer a id socket none (some t) = record a {
  orphans = Map.insert ℕ_discrete socket (received_one t) a.orphans;
  sent = responses id t.sessions ++ a.sent;
}

abbrev pub deadline_of : UdpAgent → Bytes → ℕ → UdpTunnel → UdpAgent
deadline_of a id socket t = if length t.sessions == 0 then listener_exit a id socket else a

unfoldable pub deadline : UdpAgent → Bytes → ℕ → Option UdpTunnel → Option UdpTunnel → UdpAgent
deadline a id socket (some t) o = deadline_of a id socket t
deadline a id socket none none = listener_exit a id socket
deadline a id socket none (some t) = deadline_of a id socket t

unfoldable pub listen : UdpAgent → Bytes → ℕ → Reading → UdpAgent
listen a id socket timed_out =
    deadline a id socket (listened a.manager id socket) (Map.lookup ℕ_discrete socket a.orphans)
listen a id socket read_failed = listener_exit a id socket
listen a id socket nothing_read = a
listen a id socket datagram =
    answer a id socket (listened a.manager id socket) (Map.lookup ℕ_discrete socket a.orphans)

unfoldable pub clean_udp : UdpAgent → ℕ → UdpAgent
clean_udp a now = record a { manager = cleanup_stale_udp a.manager now }

-- A socket that is dialled is not one that a listener reads.
abbrev pub IsNew : Option ℕ → UdpAgent → Type 0
IsNew none a = Unit {0}
IsNew (some socket) a = Map.lookup ℕ_discrete socket a.listeners ≡ none

pub data UdpStep (a : UdpAgent) : UdpAgent → Type 0 where
  handles :
      (id : Bytes) (gateway_port : ℕ) (dial : Option ℕ) (addr : Bytes) (port : ℕ) (written : Bool)
      (now : ℕ)
      → IsNew dial a
      → UdpStep a (handle_udp_tunnel_data a id gateway_port dial addr port written now).0
  listens :
      (id : Bytes) (socket : ℕ) (reading : Reading)
      → Map.lookup ℕ_discrete socket a.listeners ≡ some id
      → UdpStep a (listen a id socket reading)
  cleans : (now : ℕ) → UdpStep a (clean_udp a now)

pub data UdpReach (a : UdpAgent) : UdpAgent → Type 0 where
  here : UdpReach a a
  next : {b c : UdpAgent} → UdpReach a b → UdpStep b c → UdpReach a c
