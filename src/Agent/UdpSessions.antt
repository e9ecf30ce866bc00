-- ===== src/Agent/UdpSessions.antt =====
-- UDPTunnel of internal/agent/tunnel_manager.go: the sessions of the clients of one UDP tunnel.
use pipeops_k8_agent.Prelude.{
  ℕ, ◌-◌, Bool, ltb, ◌==◌, ◌&&◌, none, some, [], ◌∷◌, length, if◌then◌else◌, ℕ_discrete,
}
use pipeops_k8_agent.Prelude.Bytes.{Bytes}
use pipeops_k8_agent.Prelude.Map
use pipeops_k8_agent.Prelude.Map.{Map}

pub record UdpSession : Type 0 where
  pub client_addr : Bytes
  pub client_port : ℕ
  pub last_activity : ℕ

pub record UdpTunnel : Type 0 where
  pub tunnel_id : Bytes
  pub gateway_port : ℕ
  pub socket : ℕ
  pub sessions : Map (Bytes × ℕ) UdpSession
  pub start_time : ℕ
  pub last_activity : ℕ
  pub packets_sent : ℕ
  pub packets_recv : ℕ

-- "addr:port" as the pair: the text has one reading, since a printed port has no colon.
abbrev pub SessionKey : Type 0
SessionKey = Bytes × ℕ

unfoldable pub SessionKey-discrete : Discrete SessionKey
SessionKey-discrete = hlevel ℕ_discrete

-- UpdateSession: the session is made or touched, and so is the tunnel.
unfoldable pub update_session : UdpTunnel → Bytes → ℕ → ℕ → UdpTunnel
update_session t addr port now =
    let s : UdpSession = record { client_addr = addr; client_port = port; last_activity = now } in
    let touched : UdpSession = elim (Map.lookup SessionKey-discrete (addr, port) t.sessions) [
      | none ↦ s
      | some old ↦ record old { last_activity = now }
    ] in
    record t {
      sessions = Map.insert SessionKey-discrete (addr, port) touched t.sessions;
      last_activity = now;
    }

unfoldable pub live_sessions : ℕ → ℕ → Map SessionKey UdpSession → Map SessionKey UdpSession
live_sessions timeout now [] = []
live_sessions timeout now ((k, s) ∷ m) =
    let rest = live_sessions timeout now m in
    if ltb timeout (now - s.last_activity) then rest else (k, s) ∷ rest

unfoldable pub cleanup_stale_sessions : UdpTunnel → ℕ → ℕ → UdpTunnel
cleanup_stale_sessions t timeout now = record t { sessions = live_sessions timeout now t.sessions }

-- The test of cleanupStaleUDP on a tunnel whose stale sessions are gone.
unfoldable pub is_stale : UdpTunnel → ℕ → ℕ → Bool
is_stale t timeout now = length t.sessions == 0 && ltb timeout (now - t.last_activity)
