-- ===== src/Agent/UdpTunnel/Addresses.antt =====
-- Every session of every registered UDP tunnel stands under its own address.
use pipeops_k8_agent.Prelude.{
  ℕ, ◌≡◌, sym, ◌∙◌, ap, inl, inr, Bool, true, false, Option, none, some, [], ◌∷◌, arith, length,
  Option-cases, Bool-cases, if_pos, if_neg, leb,
}
use pipeops_k8_agent.Prelude.Bytes.{Bytes, Bytes-discrete}
use pipeops_k8_agent.Prelude.Map
use pipeops_k8_agent.Prelude.Map.{Map}
use pipeops_k8_agent.Agent.UdpSessions.{UdpTunnel, cleanup_stale_sessions, is_stale}
use pipeops_k8_agent.Agent.TunnelManager.{
  TunnelManager, RegisterError, active_udp, get_udp_session, register_udp_session,
  remove_udp_session,
}
use pipeops_k8_agent.Agent.UdpTunnel.{
  UdpAgent, new_udp_tunnel, close_socket, store_udp, created, create_udp_tunnel,
  get_or_create_udp_tunnel, datagram_found, listener_exit,
}
use pipeops_k8_agent.Agent.UdpTunnel.Sessions.{Keyed, AllKeyed, update_session-Keyed, live-Keyed}
use pipeops_k8_agent.Agent.UdpTunnel.Acceptance.{get_or_create_new}

abbrev pub KeyedAgent : UdpAgent → Type 0
KeyedAgent a = AllKeyed a.manager.udp_sessions

pub insert-AllKeyed :
    (id : Bytes) (t : UdpTunnel) (m : Map Bytes UdpTunnel)
    → Keyed t.sessions
    → AllKeyed m
    → AllKeyed (Map.insert Bytes-discrete id t m)
unfolding Map.insert
insert-AllKeyed id t [] k h = (k, tt)
insert-AllKeyed id t ((j, u) ∷ m) k h = elim (Bytes-discrete j id) [
  | yes p ↦ rw (if_pos _ p) (k, h.1)
  | no p ↦ rw (if_neg _ p) (h.0, insert-AllKeyed id t m k h.1)
]

delete-AllKeyed :
    (id : Bytes) (m : Map Bytes UdpTunnel) → AllKeyed m → AllKeyed (Map.delete Bytes-discrete id m)
unfolding Map.delete
delete-AllKeyed id [] h = tt
delete-AllKeyed id ((j, u) ∷ m) h = elim (Bytes-discrete j id) [
  | yes p ↦ rw (if_pos _ p) (delete-AllKeyed id m h.1)
  | no p ↦ rw (if_neg _ p) (h.0, delete-AllKeyed id m h.1)
]

pub lookup-AllKeyed :
    (id : Bytes) (t : UdpTunnel) (m : Map Bytes UdpTunnel)
    → Map.lookup Bytes-discrete id m ≡ some t
    → AllKeyed m
    → Keyed t.sessions
unfolding Map.lookup
lookup-AllKeyed id t [] e h = cc
lookup-AllKeyed id t ((j, u) ∷ m) e h = elim (Bytes-discrete j id) [
  | yes p ↦ let same : u ≡ t = ground (arith, e, p) in rw (← same) (h.0)
  | no p ↦ lookup-AllKeyed id t m (ground (arith, e, p)) h.1
]

pub active_udp-AllKeyed :
    (timeout now : ℕ) (m : Map Bytes UdpTunnel) → AllKeyed m → AllKeyed (active_udp timeout now m)
unfolding active_udp cleanup_stale_sessions
active_udp-AllKeyed timeout now [] h = tt
active_udp-AllKeyed timeout now ((j, u) ∷ m) h =
    elim (Bool-cases (is_stale (cleanup_stale_sessions u timeout now) timeout now)) [
      | inl e ↦ rw e (active_udp-AllKeyed timeout now m h.1)
      | inr e ↦ rw e (live-Keyed timeout now u.sessions h.0, active_udp-AllKeyed timeout now m h.1)
    ]

register-AllKeyed :
    (tm : TunnelManager) (id : Bytes) (t : UdpTunnel)
    → Keyed t.sessions
    → AllKeyed tm.udp_sessions
    → AllKeyed (register_udp_session tm id t).0.udp_sessions
unfolding register_udp_session
register-AllKeyed tm id t k h =
    elim (Bool-cases (leb tm.config.udp_max_sessions (length tm.udp_sessions))) [
      | inl full ↦ rw full h
      | inr room ↦ elim (Option-cases (Map.lookup Bytes-discrete id tm.udp_sessions)) [
        | inl new ↦ rw (room, new) (insert-AllKeyed id t tm.udp_sessions k h)
        | inr (u, old) ↦ rw (room, old) h
      ]
    ]

created-KeyedAgent :
    (a : UdpAgent) (id : Bytes) (t : UdpTunnel) (tm : TunnelManager) (e : Option RegisterError)
    → AllKeyed tm.udp_sessions
    → KeyedAgent (created a id t (tm, e)).0
unfolding created close_socket
created-KeyedAgent a id t tm none h = h
created-KeyedAgent a id t tm (some e) h = h

remove-AllKeyed :
    (tm : TunnelManager) (id : Bytes)
    → AllKeyed tm.udp_sessions
    → AllKeyed (remove_udp_session tm id).udp_sessions
unfolding remove_udp_session
remove-AllKeyed tm id h = elim (Option-cases (Map.lookup Bytes-discrete id tm.udp_sessions)) [
  | inl e ↦ rw (e, remove_udp_session) h
  | inr (t, e) ↦ rw (e, remove_udp_session) (delete-AllKeyed id tm.udp_sessions h)
]

pub exit-KeyedAgent :
    (a : UdpAgent) (id : Bytes) (socket : ℕ) → KeyedAgent a → KeyedAgent (listener_exit a id socket)
unfolding listener_exit close_socket
exit-KeyedAgent a id socket h = remove-AllKeyed (close_socket socket a.manager) id h

pub get_or_create-KeyedAgent :
    (a : UdpAgent) (id : Bytes) (port : ℕ) (dial : Option ℕ) (now : ℕ)
    → KeyedAgent a
    → KeyedAgent (get_or_create_udp_tunnel a id port dial now).0
unfolding get_or_create_udp_tunnel create_udp_tunnel new_udp_tunnel
get_or_create-KeyedAgent a id port none now h = elim (Option-cases (get_udp_session a.manager id)) [
  | inl e ↦ rw (e, get_or_create_udp_tunnel) h
  | inr (t, e) ↦ rw (e, get_or_create_udp_tunnel) h
]
get_or_create-KeyedAgent a id port (some socket) now h =
    elim (Option-cases (get_udp_session a.manager id)) [
      | inl e ↦
          let t = new_udp_tunnel id port socket now in
          let r = register_udp_session a.manager id t in
          rw (e, get_or_create_udp_tunnel)
            (created-KeyedAgent a id t r.0 r.1 (register-AllKeyed a.manager id t tt h))
      | inr (t, e) ↦ rw (e, get_or_create_udp_tunnel) h
    ]

pub datagram-KeyedAgent :
    (a : UdpAgent) (id : Bytes) (t : UdpTunnel) (addr : Bytes) (port : ℕ) (written : Bool) (now : ℕ)
    → Keyed t.sessions
    → KeyedAgent a
    → KeyedAgent (datagram_found a id t addr port written now)
unfolding datagram_found store_udp
datagram-KeyedAgent a id t addr port true now k h =
    insert-AllKeyed id _ a.manager.udp_sessions (update_session-Keyed t addr port now k) h
datagram-KeyedAgent a id t addr port false now k h =
    insert-AllKeyed id _ a.manager.udp_sessions (update_session-Keyed t addr port now k) h

created-Keyed :
    (a : UdpAgent) (id : Bytes) (t u : UdpTunnel) (r : TunnelManager × Option RegisterError)
    → Keyed t.sessions
    → (created a id t r).1 ≡ some u
    → Keyed u.sessions
unfolding created
created-Keyed a id t u (tm, none) k e = let same : t ≡ u = cc in rw (← same) k
created-Keyed a id t u (tm, some x) k e = cc

create-Keyed :
    (a : UdpAgent) (id : Bytes) (port : ℕ) (dial : Option ℕ) (now : ℕ) (t : UdpTunnel)
    → (create_udp_tunnel a id port dial now).1 ≡ some t
    → Keyed t.sessions
unfolding create_udp_tunnel
create-Keyed a id port none now t e = cc
create-Keyed a id port (some socket) now t e =
    let u = new_udp_tunnel id port socket now in
    created-Keyed a id u t (register_udp_session a.manager id u) (unfold new_udp_tunnel in tt) e

pub get_or_create-Keyed :
    (a : UdpAgent) (id : Bytes) (port : ℕ) (dial : Option ℕ) (now : ℕ) (t : UdpTunnel)
    → KeyedAgent a
    → (get_or_create_udp_tunnel a id port dial now).1 ≡ some t
    → Keyed t.sessions
unfolding get_or_create_udp_tunnel create_udp_tunnel new_udp_tunnel get_udp_session
get_or_create-Keyed a id port dial now t h e = elim (Option-cases (get_udp_session a.manager id)) [
  | inl n ↦
      create-Keyed a id port dial now t
        (ap (λ r. r.1) (sym (get_or_create_new a id port dial now n)) ∙ e)
  | inr (u, o) ↦
      let same : u ≡ t = ground (arith, e, o) in
      lookup-AllKeyed id t a.manager.udp_sessions (o ∙ ap some same) h
]
