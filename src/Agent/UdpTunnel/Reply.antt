-- ===== src/Agent/UdpTunnel/Reply.antt =====
-- A response of the service reaches the clients whose sessions are live.
use pipeops_k8_agent.Prelude.{
  ℕ, ◌-◌, ◌≤◌, ◌≡◌, refl, true, false, Option, none, some, [], ◌∷◌, arith, length, ◌==◌, ℕ_discrete,
}
use pipeops_k8_agent.Prelude.Bytes.{Bytes, Bytes-discrete}
use pipeops_k8_agent.Prelude.Map
use pipeops_k8_agent.Prelude.Map.{Map}
use pipeops_k8_agent.Agent.UdpSessions.{
  UdpTunnel, UdpSession, SessionKey, SessionKey-discrete, live_sessions, cleanup_stale_sessions,
  is_stale,
}
use pipeops_k8_agent.Agent.TunnelManager.{
  TunnelManagerConfig, active_udp, cleanup_stale_udp, get_udp_session,
}
use pipeops_k8_agent.Agent.UdpTunnel.{
  UdpAgent, datagram, new_udp_agent, store_udp, get_or_create_udp_tunnel, datagram_found,
  with_tunnel, handle_udp_tunnel_data, listened, answer, listen, clean_udp, IsNew, UdpReach,
}
use pipeops_k8_agent.Agent.UdpTunnel.Sessions.{
  session, InSent, update_session-session, lookup-live, responses-InSent,
}
use pipeops_k8_agent.Agent.UdpTunnel.Addresses.{KeyedAgent, lookup-AllKeyed}
use pipeops_k8_agent.Agent.UdpTunnel.Listeners.{
  handle-IsListened, reach-IsListened, new-IsListened, clean-IsListened, get-Listens,
}
use pipeops_k8_agent.Agent.UdpTunnel.Steps.{
  handle-KeyedAgent, clean-KeyedAgent, reach-KeyedAgent, new-KeyedAgent,
}

-- A tunnel under the ID with a session under the key that is within the timeout.
abbrev HasLive : UdpAgent → Bytes → SessionKey → ℕ → ℕ → Type 0
HasLive a id k timeout now =
    (t : UdpTunnel) × (s : UdpSession) × (get_udp_session a.manager id ≡ some t)
    × (session t k ≡ some s)
    × (now - s.last_activity ≤ timeout)

with_tunnel-HasLive :
    (id addr : Bytes) (port now later timeout : ℕ) (r : UdpAgent × Option UdpTunnel)
    → (with_tunnel id addr port true now r).1 ≡ true
    → later - now ≤ timeout
    → HasLive (with_tunnel id addr port true now r).0 id (addr, port) timeout later
unfolding with_tunnel datagram_found store_udp get_udp_session
with_tunnel-HasLive id addr port now later timeout (a, none) e le = absurd (ground (arith, e))
with_tunnel-HasLive id addr port now later timeout (a, some t) e le =
    let (s, found, at) = update_session-session t addr port now in
    (_, s, Map.lookup-insert_self Bytes-discrete id _ a.manager.udp_sessions, found, rw at le)

not_empty :
    (k : SessionKey) (s : UdpSession) (m : Map SessionKey UdpSession)
    → Map.lookup SessionKey-discrete k m ≡ some s
    → (length m == 0) ≡ false
unfolding Map.lookup
not_empty k s [] e = cc
not_empty k s (x ∷ m) e = ground arith

lookup-active_udp :
    (timeout now : ℕ) (id : Bytes) (t : UdpTunnel) (m : Map Bytes UdpTunnel)
    → is_stale (cleanup_stale_sessions t timeout now) timeout now ≡ false
    → Map.lookup Bytes-discrete id m ≡ some t
    → Map.lookup Bytes-discrete id (active_udp timeout now m)
      ≡ some (cleanup_stale_sessions t timeout now)
unfolding Map.lookup active_udp
lookup-active_udp timeout now id t [] live e = cc
lookup-active_udp timeout now id t ((j, u) ∷ m) live e =
    ground (arith, lookup-active_udp timeout now id t m)

live_tunnel :
    (t : UdpTunnel) (k : SessionKey) (s : UdpSession) (timeout now : ℕ)
    → session t k ≡ some s
    → now - s.last_activity ≤ timeout
    → is_stale (cleanup_stale_sessions t timeout now) timeout now ≡ false
unfolding is_stale cleanup_stale_sessions
live_tunnel t k s timeout now e le =
    rw
      (not_empty k s (live_sessions timeout now t.sessions)
        (lookup-live timeout now k s t.sessions e le))
      refl

clean-session :
    (a : UdpAgent) (id : Bytes) (k : SessionKey) (now : ℕ)
    → HasLive a id k a.manager.config.udp_session_timeout now
    → (t : UdpTunnel) × (s : UdpSession) × (get_udp_session (clean_udp a now).manager id ≡ some t)
      × (session t k ≡ some s)
unfolding clean_udp cleanup_stale_udp get_udp_session cleanup_stale_sessions
clean-session a id k now (t, s, e, f, le) =
    let timeout = a.manager.config.udp_session_timeout in
    (
      _,
      s,
      lookup-active_udp timeout now id t a.manager.udp_sessions (live_tunnel t k s timeout now f le)
          e,
      lookup-live timeout now k s t.sessions f le,
    )

listen-InSent :
    (a : UdpAgent) (id : Bytes) (k : SessionKey) (t : UdpTunnel) (s : UdpSession)
    → KeyedAgent a
    → get_udp_session a.manager id ≡ some t
    → session t k ≡ some s
    → InSent (id, k.0, k.1) (listen a id t.socket datagram).sent
unfolding listen answer
listen-InSent a id k t s h e f =
    let found : listened a.manager id t.socket ≡ some t = unfold listened in ground (arith, e) in
    rw found (
      responses-InSent id k s t.sessions a.sent f
        (lookup-AllKeyed id t a.manager.udp_sessions (unfold get_udp_session in e) h))

-- When the datagram of a client has been forwarded, and a cleanup comes no later than the session
-- timeout after it, the tunnel is still there, a goroutine listens on its socket under its ID, and
-- the next response that it reads is sent to that client. The state before may be any that
-- datagrams, listeners and cleanups, one after the other, make of a new agent; a socket that is
-- dialled is none that a goroutine listens on.
pub client_reached :
    (config : TunnelManagerConfig) (a : UdpAgent) (id : Bytes) (gateway_port : ℕ) (dial : Option ℕ)
    (addr : Bytes) (port now later : ℕ)
    → UdpReach (new_udp_agent config) a
    → IsNew dial a
    → (handle_udp_tunnel_data a id gateway_port dial addr port true now).1 ≡ true
    → later - now
      ≤ (handle_udp_tunnel_data a id gateway_port dial addr port true
          now).0.manager.config.udp_session_timeout
    → let b = (handle_udp_tunnel_data a id gateway_port dial addr port true now).0 in
      (t : UdpTunnel) × (get_udp_session (clean_udp b later).manager id ≡ some t)
      × (Map.lookup ℕ_discrete t.socket (clean_udp b later).listeners ≡ some id)
      × InSent (id, addr, port) (listen (clean_udp b later) id t.socket datagram).sent
client_reached config a id gateway_port dial addr port now later r new e le =
    let b = (handle_udp_tunnel_data a id gateway_port dial addr port true now).0 in
    let timeout = b.manager.config.udp_session_timeout in
    let before =
      handle-KeyedAgent a id gateway_port dial addr port true now
        (reach-KeyedAgent r (new-KeyedAgent config)) in
    let heard =
      handle-IsListened a id gateway_port dial addr port true now new
        (reach-IsListened r (new-IsListened config)) in
    let live : HasLive b id (addr, port) timeout later =
      unfold handle_udp_tunnel_data in
      with_tunnel-HasLive id addr port now later timeout
        (get_or_create_udp_tunnel a id gateway_port dial now) (unfold handle_udp_tunnel_data in e)
        le in
    let (t, s, found, there) = clean-session b id (addr, port) later live in
    (
      t,
      found,
      get-Listens (clean_udp b later) id t found (clean-IsListened b later heard),
      listen-InSent (clean_udp b later) id (addr, port) t s (clean-KeyedAgent b later before) found
          there,
    )
