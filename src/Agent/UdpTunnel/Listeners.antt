-- ===== src/Agent/UdpTunnel/Listeners.antt =====
-- Every UDP tunnel in the manager's map has its listener.
use pipeops_k8_agent.Prelude.{
  ℕ, ◌≡◌, ◌≢◌, refl, sym, ◌∙◌, ap, inl, inr, Bool, true, false, Option, none, some, [], ◌∷◌, arith,
  length, Option-cases, Bool-cases, if_pos, if_neg, leb, ◌==◌, ℕ_discrete,
}
use pipeops_k8_agent.Prelude.Bytes.{Bytes, Bytes-discrete}
use pipeops_k8_agent.Prelude.Map
use pipeops_k8_agent.Prelude.Map.{Map, lookup-insert_self, lookup-insert_ne, lookup-delete_ne}
use pipeops_k8_agent.Prelude.Map.Entries.{Entries, insert-Entries, lookup-Entries}
use pipeops_k8_agent.Agent.UdpSessions.{UdpTunnel, update_session, cleanup_stale_sessions, is_stale}
use pipeops_k8_agent.Agent.TunnelManager.{
  TunnelManagerConfig, active_udp, get_udp_session, register_udp_session, remove_udp_session,
  cleanup_stale_udp, new_tunnel_manager,
}
use pipeops_k8_agent.Agent.UdpTunnel.{
  UdpAgent, new_udp_agent, new_udp_tunnel, close_socket, store_udp, created, create_udp_tunnel,
  get_or_create_udp_tunnel, datagram_found, with_tunnel, handle_udp_tunnel_data, listener_exit,
  Reading, timed_out, read_failed, nothing_read, datagram, listened, answer, deadline, deadline_of,
  listen, clean_udp, IsNew, UdpStep, handles, listens, cleans, UdpReach, here, next,
}

-- The goroutine that reads the socket of a tunnel has its ID.
abbrev pub Listens : Map ℕ Bytes → Bytes → UdpTunnel → Type 0
Listens ls id t = Map.lookup ℕ_discrete t.socket ls ≡ some id

abbrev pub IsListened : UdpAgent → Type 0
IsListened a = Entries (Listens a.listeners) a.manager.udp_sessions

add-Listens :
    (socket : ℕ) (id : Bytes) (ls : Map ℕ Bytes) (m : Map Bytes UdpTunnel)
    → Map.lookup ℕ_discrete socket ls ≡ none
    → Entries (Listens ls) m
    → Entries (Listens (Map.insert ℕ_discrete socket id ls)) m
add-Listens socket id ls [] new h = tt
add-Listens socket id ls ((j, t) ∷ m) new h =
    let other : t.socket ≢ socket =
      λ e. let clash = sym new ∙ ap (λ s. Map.lookup ℕ_discrete s ls) (sym e) ∙ h.0 in cc clash in
    (
      lookup-insert_ne ℕ_discrete socket t.socket id ls other ∙ h.0,
      add-Listens socket id ls m new h.1,
    )

-- A listener ends: the tunnels of other IDs keep theirs.
other-Listens :
    (socket : ℕ) (id j : Bytes) (t : UdpTunnel) (ls : Map ℕ Bytes)
    → Map.lookup ℕ_discrete socket ls ≡ some id
    → j ≢ id
    → Listens ls j t
    → Listens (Map.delete ℕ_discrete socket ls) j t
other-Listens socket id j t ls own n h =
    let other : t.socket ≢ socket = λ e.
      let clash : some j ≡ some id = sym h ∙ ap (λ s. Map.lookup ℕ_discrete s ls) e ∙ own in
      n (ground (arith, clash)) in
    lookup-delete_ne ℕ_discrete socket t.socket ls other ∙ h

delete-Listens :
    (socket : ℕ) (id : Bytes) (ls : Map ℕ Bytes) (m : Map Bytes UdpTunnel)
    → Map.lookup ℕ_discrete socket ls ≡ some id
    → Entries (Listens ls) m
    → Entries (Listens (Map.delete ℕ_discrete socket ls)) (Map.delete Bytes-discrete id m)
unfolding Map.delete
delete-Listens socket id ls [] own h = tt
delete-Listens socket id ls ((j, t) ∷ m) own h = elim (Bytes-discrete j id) [
  | yes e ↦ rw (if_pos _ e) (delete-Listens socket id ls m own h.1)
  | no n ↦
      rw (if_neg _ n)
        (other-Listens socket id j t ls own n h.0, delete-Listens socket id ls m own h.1)
]

absent-Listens :
    (socket : ℕ) (id : Bytes) (ls : Map ℕ Bytes) (m : Map Bytes UdpTunnel)
    → Map.lookup ℕ_discrete socket ls ≡ some id
    → Map.lookup Bytes-discrete id m ≡ none
    → Entries (Listens ls) m
    → Entries (Listens (Map.delete ℕ_discrete socket ls)) m
unfolding Map.lookup
absent-Listens socket id ls [] own none_there h = tt
absent-Listens socket id ls ((j, t) ∷ m) own none_there h = elim (Bytes-discrete j id) [
  | yes e ↦ absurd (ground (arith, none_there, e))
  | no n ↦ (
    other-Listens socket id j t ls own n h.0,
    absent-Listens socket id ls m own (ground (arith, none_there, n)) h.1,
  )
]

exit-IsListened :
    (a : UdpAgent) (id : Bytes) (socket : ℕ)
    → Map.lookup ℕ_discrete socket a.listeners ≡ some id
    → IsListened a
    → IsListened (listener_exit a id socket)
unfolding listener_exit close_socket remove_udp_session
exit-IsListened a id socket own h =
    elim (Option-cases (Map.lookup Bytes-discrete id a.manager.udp_sessions)) [
      | inl e ↦
          rw (e, remove_udp_session)
            (absent-Listens socket id a.listeners a.manager.udp_sessions own e h)
      | inr (t, e) ↦
          rw (e, remove_udp_session)
            (delete-Listens socket id a.listeners a.manager.udp_sessions own h)
    ]

active_udp-Listens :
    (ls : Map ℕ Bytes) (timeout now : ℕ) (m : Map Bytes UdpTunnel)
    → Entries (Listens ls) m
    → Entries (Listens ls) (active_udp timeout now m)
unfolding active_udp cleanup_stale_sessions
active_udp-Listens ls timeout now [] h = tt
active_udp-Listens ls timeout now ((j, u) ∷ m) h =
    elim (Bool-cases (is_stale (cleanup_stale_sessions u timeout now) timeout now)) [
      | inl e ↦ rw e (active_udp-Listens ls timeout now m h.1)
      | inr e ↦ rw e (h.0, active_udp-Listens ls timeout now m h.1)
    ]

pub clean-IsListened : (a : UdpAgent) (now : ℕ) → IsListened a → IsListened (clean_udp a now)
unfolding clean_udp cleanup_stale_udp
clean-IsListened a now h =
    active_udp-Listens a.listeners a.manager.config.udp_session_timeout now a.manager.udp_sessions h

-- The agent that getOrCreateUDPTunnel leaves, and the tunnel that it returns.
HasListener : Bytes → UdpAgent × Option UdpTunnel → Type 0
HasListener id (a, none) = IsListened a
HasListener id (a, some t) = IsListened a × Listens a.listeners id t

create-HasListener :
    (a : UdpAgent) (id : Bytes) (port socket now : ℕ)
    → get_udp_session a.manager id ≡ none
    → IsNew (some socket) a
    → IsListened a
    → HasListener id (create_udp_tunnel a id port (some socket) now)
unfolding HasListener create_udp_tunnel created register_udp_session new_udp_tunnel get_udp_session
    close_socket
create-HasListener a id port socket now absent new h =
    let t = new_udp_tunnel id port socket now in
    let self = lookup-insert_self ℕ_discrete socket id a.listeners in
    elim (Bool-cases (leb a.manager.config.udp_max_sessions (length a.manager.udp_sessions))) [
      | inl full ↦ rw full h
      | inr room ↦
          rw (room, absent)
            (
              insert-Entries Bytes-discrete (Listens (Map.insert ℕ_discrete socket id a.listeners))
                  id t a.manager.udp_sessions self
                  (add-Listens socket id a.listeners a.manager.udp_sessions new h),
              self,
            )
    ]

dialled-HasListener :
    (a : UdpAgent) (id : Bytes) (port : ℕ) (dial : Option ℕ) (now : ℕ)
    → get_udp_session a.manager id ≡ none
    → IsNew dial a
    → IsListened a
    → HasListener id (create_udp_tunnel a id port dial now)
dialled-HasListener a id port none now absent new h = unfold create_udp_tunnel HasListener in h
dialled-HasListener a id port (some socket) now absent new h =
    create-HasListener a id port socket now absent new h

get_or_create-HasListener :
    (a : UdpAgent) (id : Bytes) (port : ℕ) (dial : Option ℕ) (now : ℕ)
    → IsNew dial a
    → IsListened a
    → HasListener id (get_or_create_udp_tunnel a id port dial now)
unfolding get_or_create_udp_tunnel
get_or_create-HasListener a id port dial now new h =
    elim (Option-cases (get_udp_session a.manager id)) [
      | inl e ↦ rw (e, get_or_create_udp_tunnel) (dialled-HasListener a id port dial now e new h)
      | inr (t, e) ↦
          rw (e, get_or_create_udp_tunnel)
            (unfold HasListener in
              (
                h,
                lookup-Entries Bytes-discrete (Listens a.listeners) id t a.manager.udp_sessions
                    (unfold get_udp_session in e) h,
              ))
    ]

with_tunnel-IsListened :
    (id addr : Bytes) (port : ℕ) (written : Bool) (now : ℕ) (r : UdpAgent × Option UdpTunnel)
    → HasListener id r
    → IsListened (with_tunnel id addr port written now r).0
unfolding with_tunnel datagram_found store_udp update_session HasListener
with_tunnel-IsListened id addr port written now (a, none) h = h
with_tunnel-IsListened id addr port true now (a, some t) (h, own) =
    insert-Entries Bytes-discrete (Listens a.listeners) id _ a.manager.udp_sessions own h
with_tunnel-IsListened id addr port false now (a, some t) (h, own) =
    insert-Entries Bytes-discrete (Listens a.listeners) id _ a.manager.udp_sessions own h

pub handle-IsListened :
    (a : UdpAgent) (id : Bytes) (gateway_port : ℕ) (dial : Option ℕ) (addr : Bytes) (port : ℕ)
    (written : Bool) (now : ℕ)
    → IsNew dial a
    → IsListened a
    → IsListened (handle_udp_tunnel_data a id gateway_port dial addr port written now).0
unfolding handle_udp_tunnel_data
handle-IsListened a id gateway_port dial addr port written now new h =
    with_tunnel-IsListened id addr port written now
      (get_or_create_udp_tunnel a id gateway_port dial now)
      (get_or_create-HasListener a id gateway_port dial now new h)

listened-Listens :
    (a : UdpAgent) (id : Bytes) (socket : ℕ) (t : UdpTunnel)
    → listened a.manager id socket ≡ some t
    → IsListened a
    → Listens a.listeners id t
unfolding listened get_udp_session
listened-Listens a id socket t e h = elim (Option-cases (get_udp_session a.manager id)) [
  | inl n ↦ absurd (ground (arith, e, n))
  | inr (u, o) ↦
      let same : u ≡ t = ground (arith, e, o) in
      lookup-Entries Bytes-discrete (Listens a.listeners) id t a.manager.udp_sessions
        (o ∙ ap some same) h
]

answer-IsListened :
    (a : UdpAgent) (id : Bytes) (socket : ℕ) (r o : Option UdpTunnel)
    → ((t : UdpTunnel) → r ≡ some t → Listens a.listeners id t)
    → IsListened a
    → IsListened (answer a id socket r o)
unfolding answer store_udp
answer-IsListened a id socket (some t) o own h =
    insert-Entries Bytes-discrete (Listens a.listeners) id _ a.manager.udp_sessions (own t refl) h
answer-IsListened a id socket none none own h = h
answer-IsListened a id socket none (some t) own h = h

module _ (a : UdpAgent) (id : Bytes) (socket : ℕ)
    (own : Map.lookup ℕ_discrete socket a.listeners ≡ some id) (h : IsListened a) where
  deadline_of-IsListened : (t : UdpTunnel) → IsListened (deadline_of a id socket t)
  deadline_of-IsListened t = elim (Bool-cases (length t.sessions == 0)) [
    | inl e ↦ rw e (exit-IsListened a id socket own h)
    | inr e ↦ rw e h
  ]

  deadline-IsListened : (r o : Option UdpTunnel) → IsListened (deadline a id socket r o)
  unfolding deadline
  deadline-IsListened (some t) o = deadline_of-IsListened t
  deadline-IsListened none none = exit-IsListened a id socket own h
  deadline-IsListened none (some t) = deadline_of-IsListened t

  listen-IsListened : (reading : Reading) → IsListened (listen a id socket reading)
  unfolding listen
  listen-IsListened timed_out = deadline-IsListened _ _
  listen-IsListened read_failed = exit-IsListened a id socket own h
  listen-IsListened nothing_read = h
  listen-IsListened datagram =
      answer-IsListened a id socket (listened a.manager id socket) _
        (λ t e. listened-Listens a id socket t e h) h

step-IsListened : {a b : UdpAgent} → UdpStep a b → IsListened a → IsListened b
step-IsListened {a} (handles id gateway_port dial addr port written now new) h =
    handle-IsListened a id gateway_port dial addr port written now new h
step-IsListened {a} (listens id socket reading own) h = listen-IsListened a id socket own h reading
step-IsListened {a} (cleans now) h = clean-IsListened a now h

pub reach-IsListened : {a b : UdpAgent} → UdpReach a b → IsListened a → IsListened b
reach-IsListened here h = h
reach-IsListened (next r s) h = step-IsListened s (reach-IsListened r h)

pub new-IsListened : (config : TunnelManagerConfig) → IsListened (new_udp_agent config)
unfolding new_udp_agent new_tunnel_manager
new-IsListened config = tt

-- A tunnel in the map is read under its ID.
pub get-Listens :
    (a : UdpAgent) (id : Bytes) (t : UdpTunnel)
    → get_udp_session a.manager id ≡ some t
    → IsListened a
    → Listens a.listeners id t
unfolding get_udp_session
get-Listens a id t e h =
    lookup-Entries Bytes-discrete (Listens a.listeners) id t a.manager.udp_sessions e h

-- After any datagrams of the gateway, rounds of listeners and cleanups on a new agent, in any order
-- and where a socket that is dialled is none that a goroutine listens on: a goroutine listens on
-- the socket of every tunnel in the manager's map, under the tunnel's own ID.
pub registered_listened :
    (config : TunnelManagerConfig) (a : UdpAgent) (id : Bytes) (t : UdpTunnel)
    → UdpReach (new_udp_agent config) a
    → get_udp_session a.manager id ≡ some t
    → Map.lookup ℕ_discrete t.socket a.listeners ≡ some id
registered_listened config a id t r e =
    get-Listens a id t e (reach-IsListened r (new-IsListened config))
