-- ===== src/Agent/UdpTunnel/Acceptance.antt =====
-- When a datagram of the gateway is accepted.
use pipeops_k8_agent.Prelude.{
  ℕ, ◌<◌, ◌≤◌, ◌≡◌, refl, sym, ◌∙◌, ap, ◌≢◌, ◌↔◌, ◌⊎◌, inl, inr, true, Option, none, some, arith,
  length, Option-cases, Bool-cases, leb,
}
use pipeops_k8_agent.Prelude.Bytes.{Bytes, Bytes-discrete}
use pipeops_k8_agent.Prelude.Map
use pipeops_k8_agent.Agent.UdpSessions.{UdpTunnel}
use pipeops_k8_agent.Agent.TunnelManager.{
  TunnelManager, RegisterError, get_udp_session, register_udp_session,
}
use pipeops_k8_agent.Agent.UdpTunnel.{
  UdpAgent, new_udp_tunnel, created, create_udp_tunnel, get_or_create_udp_tunnel, with_tunnel,
  handle_udp_tunnel_data,
}

abbrev pub or_new : Option UdpTunnel → UdpTunnel → UdpTunnel
or_new none t = t
or_new (some u) t = u

-- RegisterUDPSession fails exactly when there is no room, and then changes nothing. With room it
-- always succeeds: a new ID leads to the given tunnel, and an ID in use to the tunnel that it had,
-- so that the given one is dropped without an error.
register_udp_session_lem :
    (tm : TunnelManager) (id : Bytes) (t : UdpTunnel)
    → ((tm.config.udp_max_sessions ≤ length tm.udp_sessions)
        × ((register_udp_session tm id t).1 ≢ none)
        × ((register_udp_session tm id t).0 ≡ tm))
      ⊎ ((length tm.udp_sessions < tm.config.udp_max_sessions)
          × ((register_udp_session tm id t).1 ≡ none)
          × (get_udp_session (register_udp_session tm id t).0 id
              ≡ some (or_new (get_udp_session tm id) t)))
unfolding register_udp_session get_udp_session
register_udp_session_lem tm id t =
    elim (Bool-cases (leb tm.config.udp_max_sessions (length tm.udp_sessions))) [
      | inl full ↦ inl (ground (arith, full), ground (arith, full), ground (arith, full))
      | inr room ↦ elim (Option-cases (Map.lookup Bytes-discrete id tm.udp_sessions)) [
        | inl new ↦ inr (
          ground (arith, room),
          ground (arith, room, new),
          ground (arith, room, new, Map.lookup-insert_self Bytes-discrete id t tm.udp_sessions),
        )
        | inr (u, old) ↦
            inr (ground (arith, room), ground (arith, room, old), ground (arith, room, old))
      ]
    ]

-- An ID without a tunnel gets one made.
pub get_or_create_new :
    (a : UdpAgent) (id : Bytes) (port : ℕ) (dial : Option ℕ) (now : ℕ)
    → get_udp_session a.manager id ≡ none
    → get_or_create_udp_tunnel a id port dial now ≡ create_udp_tunnel a id port dial now
unfolding get_or_create_udp_tunnel
get_or_create_new a id port dial now n = rw (n, get_or_create_udp_tunnel) refl

-- An ID with a tunnel keeps it.
get_or_create_old :
    (a : UdpAgent) (id : Bytes) (port : ℕ) (dial : Option ℕ) (now : ℕ) (t : UdpTunnel)
    → get_udp_session a.manager id ≡ some t
    → get_or_create_udp_tunnel a id port dial now ≡ (a, some t)
unfolding get_or_create_udp_tunnel
get_or_create_old a id port dial now t o = rw (o, get_or_create_udp_tunnel) refl

with_tunnel_accepts :
    (id addr : Bytes) (port now : ℕ) (r : UdpAgent × Option UdpTunnel)
    → ((with_tunnel id addr port true now r).1 ≡ true) ↔ (r.1 ≢ none)
unfolding with_tunnel
with_tunnel_accepts id addr port now (a, none) = ground arith
with_tunnel_accepts id addr port now (a, some t) = ground arith

created_iff :
    (a : UdpAgent) (id : Bytes) (t : UdpTunnel) (r : TunnelManager × Option RegisterError)
    → ((created a id t r).1 ≢ none) ↔ (r.1 ≡ none)
unfolding created
created_iff a id t (tm, none) = (λ x. refl, λ y e. cc)
created_iff a id t (tm, some e) = (λ x. absurd (x refl), λ y. cc)

create_iff :
    (a : UdpAgent) (id : Bytes) (port : ℕ) (dial : Option ℕ) (now : ℕ)
    → get_udp_session a.manager id ≡ none
    → ((create_udp_tunnel a id port dial now).1 ≢ none)
      ↔ ((dial ≢ none) × (length a.manager.udp_sessions < a.manager.config.udp_max_sessions))
unfolding create_udp_tunnel
create_iff a id port none now n = (λ x. absurd (x refl), λ y. absurd (y.0 refl))
create_iff a id port (some socket) now n =
    let t = new_udp_tunnel id port socket now in
    let same = created_iff a id t (register_udp_session a.manager id t) in
    elim (register_udp_session_lem a.manager id t) [
      | inl (full, fails, kept) ↦
          (λ x. absurd (fails (same.0 x)), λ y. absurd (omega (arith, full, y.1)))
      | inr (room, succeeds, found) ↦ (λ x. ((λ e. cc), room), λ y. same.1 succeeds)
    ]

-- A datagram that the socket takes is accepted exactly when its tunnel ID has a tunnel already, or
-- when a socket can be dialled and the manager has room for one more.
handle_accepts_iff :
    (a : UdpAgent) (id : Bytes) (gateway_port : ℕ) (dial : Option ℕ) (addr : Bytes) (port now : ℕ)
    → ((handle_udp_tunnel_data a id gateway_port dial addr port true now).1 ≡ true) ↔ (
        (get_udp_session a.manager id ≢ none)
        ⊎ ((dial ≢ none) × (length a.manager.udp_sessions < a.manager.config.udp_max_sessions)))
unfolding handle_udp_tunnel_data
handle_accepts_iff a id gateway_port dial addr port now =
    let r = get_or_create_udp_tunnel a id gateway_port dial now in
    let outer = with_tunnel_accepts id addr port now r in
    elim (Option-cases (get_udp_session a.manager id)) [
      | inl n ↦
          let step : r ≡ create_udp_tunnel a id gateway_port dial now =
            get_or_create_new a id gateway_port dial now n in
          let inner = create_iff a id gateway_port dial now n in
          (
            λ x. inr (inner.0 (λ e. outer.0 x (ap (λ q. q.1) step ∙ e))),
            λ y. elim y [
              | inl old ↦ absurd (old n)
              | inr room ↦ outer.1 (λ e. inner.1 room (ap (λ q. q.1) (sym step) ∙ e))
            ],
          )
      | inr (t, o) ↦ (
        λ x. inl (λ e. let clash = sym o ∙ e in cc clash),
        λ y. outer.1 (λ e.
            let clash =
              ap (λ q. q.1) (sym (get_or_create_old a id gateway_port dial now t o)) ∙ e in
            cc clash),
      )
    ]
