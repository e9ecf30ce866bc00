-- ===== src/Agent/UdpTunnel/Steps.antt =====
-- Every step of the UDP tunnels keeps each session under its own address.
use pipeops_k8_agent.Prelude.{
  ℕ, ◌≡◌, refl, ◌∙◌, ap, inl, inr, Bool, Option, none, some, arith, length, Option-cases,
  Bool-cases, ◌==◌,
}
use pipeops_k8_agent.Prelude.Bytes.{Bytes}
use pipeops_k8_agent.Agent.UdpSessions.{UdpTunnel}
use pipeops_k8_agent.Agent.TunnelManager.{
  TunnelManagerConfig, cleanup_stale_udp, get_udp_session, new_tunnel_manager,
}
use pipeops_k8_agent.Agent.UdpTunnel.{
  UdpAgent, Reading, timed_out, read_failed, nothing_read, datagram, new_udp_agent, store_udp,
  get_or_create_udp_tunnel, with_tunnel, handle_udp_tunnel_data, listened, answer, deadline,
  deadline_of, listen, clean_udp, UdpStep, handles, listens, cleans, UdpReach, here, next,
}
use pipeops_k8_agent.Agent.UdpTunnel.Sessions.{Keyed}
use pipeops_k8_agent.Agent.UdpTunnel.Addresses.{
  KeyedAgent, insert-AllKeyed, lookup-AllKeyed, active_udp-AllKeyed, exit-KeyedAgent,
  get_or_create-KeyedAgent, datagram-KeyedAgent, get_or_create-Keyed,
}

with_tunnel-KeyedAgent :
    (id addr : Bytes) (port : ℕ) (written : Bool) (now : ℕ) (r : UdpAgent × Option UdpTunnel)
    → KeyedAgent r.0
    → ((t : UdpTunnel) → r.1 ≡ some t → Keyed t.sessions)
    → KeyedAgent (with_tunnel id addr port written now r).0
unfolding with_tunnel
with_tunnel-KeyedAgent id addr port written now (a, none) h k = h
with_tunnel-KeyedAgent id addr port written now (a, some t) h k =
    datagram-KeyedAgent a id t addr port written now (k t refl) h

pub handle-KeyedAgent :
    (a : UdpAgent) (id : Bytes) (gateway_port : ℕ) (dial : Option ℕ) (addr : Bytes) (port : ℕ)
    (written : Bool) (now : ℕ)
    → KeyedAgent a
    → KeyedAgent (handle_udp_tunnel_data a id gateway_port dial addr port written now).0
unfolding handle_udp_tunnel_data
handle-KeyedAgent a id gateway_port dial addr port written now h =
    with_tunnel-KeyedAgent id addr port written now
      (get_or_create_udp_tunnel a id gateway_port dial now)
      (get_or_create-KeyedAgent a id gateway_port dial now h)
      (λ t. get_or_create-Keyed a id gateway_port dial now t h)

listened-Keyed :
    (a : UdpAgent) (id : Bytes) (socket : ℕ) (t : UdpTunnel)
    → KeyedAgent a
    → listened a.manager id socket ≡ some t
    → Keyed t.sessions
unfolding listened get_udp_session
listened-Keyed a id socket t h e = elim (Option-cases (get_udp_session a.manager id)) [
  | inl n ↦ absurd (ground (arith, e, n))
  | inr (u, o) ↦
      let same : u ≡ t = ground (arith, e, o) in
      lookup-AllKeyed id t a.manager.udp_sessions (o ∙ ap some same) h
]

answer-KeyedAgent :
    (a : UdpAgent) (id : Bytes) (socket : ℕ) (r o : Option UdpTunnel)
    → KeyedAgent a
    → ((t : UdpTunnel) → r ≡ some t → Keyed t.sessions)
    → KeyedAgent (answer a id socket r o)
unfolding answer store_udp
answer-KeyedAgent a id socket (some t) o h k =
    insert-AllKeyed id _ a.manager.udp_sessions (k t refl) h
answer-KeyedAgent a id socket none none h k = h
answer-KeyedAgent a id socket none (some t) h k = h

deadline_of-KeyedAgent :
    (a : UdpAgent) (id : Bytes) (socket : ℕ) (t : UdpTunnel)
    → KeyedAgent a
    → KeyedAgent (deadline_of a id socket t)
deadline_of-KeyedAgent a id socket t h = elim (Bool-cases (length t.sessions == 0)) [
  | inl e ↦ rw e (exit-KeyedAgent a id socket h)
  | inr e ↦ rw e h
]

deadline-KeyedAgent :
    (a : UdpAgent) (id : Bytes) (socket : ℕ) (r o : Option UdpTunnel)
    → KeyedAgent a
    → KeyedAgent (deadline a id socket r o)
unfolding deadline
deadline-KeyedAgent a id socket (some t) o h = deadline_of-KeyedAgent a id socket t h
deadline-KeyedAgent a id socket none none h = exit-KeyedAgent a id socket h
deadline-KeyedAgent a id socket none (some t) h = deadline_of-KeyedAgent a id socket t h

listen-KeyedAgent :
    (a : UdpAgent) (id : Bytes) (socket : ℕ) (reading : Reading)
    → KeyedAgent a
    → KeyedAgent (listen a id socket reading)
unfolding listen
listen-KeyedAgent a id socket timed_out h = deadline-KeyedAgent a id socket _ _ h
listen-KeyedAgent a id socket read_failed h = exit-KeyedAgent a id socket h
listen-KeyedAgent a id socket nothing_read h = h
listen-KeyedAgent a id socket datagram h =
    answer-KeyedAgent a id socket (listened a.manager id socket) _ h
      (λ t. listened-Keyed a id socket t h)

pub clean-KeyedAgent : (a : UdpAgent) (now : ℕ) → KeyedAgent a → KeyedAgent (clean_udp a now)
unfolding clean_udp cleanup_stale_udp
clean-KeyedAgent a now h =
    active_udp-AllKeyed a.manager.config.udp_session_timeout now a.manager.udp_sessions h

step-KeyedAgent : {a b : UdpAgent} → UdpStep a b → KeyedAgent a → KeyedAgent b
step-KeyedAgent {a} (handles id gateway_port dial addr port written now new) h =
    handle-KeyedAgent a id gateway_port dial addr port written now h
step-KeyedAgent {a} (listens id socket reading r) h = listen-KeyedAgent a id socket reading h
step-KeyedAgent {a} (cleans now) h = clean-KeyedAgent a now h

pub reach-KeyedAgent : {a b : UdpAgent} → UdpReach a b → KeyedAgent a → KeyedAgent b
reach-KeyedAgent here h = h
reach-KeyedAgent (next r s) h = step-KeyedAgent s (reach-KeyedAgent r h)

pub new-KeyedAgent : (config : TunnelManagerConfig) → KeyedAgent (new_udp_agent config)
unfolding new_udp_agent new_tunnel_manager
new-KeyedAgent config = tt
