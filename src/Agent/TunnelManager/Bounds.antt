-- ===== src/Agent/TunnelManager/Bounds.antt =====
-- The limits of internal/agent/tunnel_manager.go under any sequence of its operations.
use pipeops_k8_agent.Prelude.{
  true, false, ℕ, ◌+◌, ◌≤◌, ◌<◌, ◌≡◌, refl, ◌≢◌, ◌⊎◌, inl, inr, none, some, List, [], ◌∷◌, arith,
  Bool-cases, Option-cases, length, leb, leb→le, ap, ◌∙◌, ite, if_pos, if_neg,
}
use pipeops_k8_agent.Prelude.Bytes.{Bytes, Bytes-discrete}
use pipeops_k8_agent.Prelude.Map
use pipeops_k8_agent.Prelude.Map.{Map}
use pipeops_k8_agent.Agent.UdpSessions.{UdpTunnel}
use pipeops_k8_agent.Agent.TunnelManager.{
  TunnelManager, TunnelManagerConfig, TcpTunnel, new_tunnel_manager, register_tcp_connection,
  get_tcp_connection, remove_tcp_connection, active_tcp, cleanup_idle_tcp, register_udp_session,
  remove_udp_session, active_udp, cleanup_stale_udp, stop, u64,
}

pub data Operation : Type 0 where
  registers_tcp : Bytes → TcpTunnel → Operation
  removes_tcp : Bytes → Operation
  cleans_tcp : ℕ → Operation
  registers_udp : Bytes → UdpTunnel → Operation
  removes_udp : Bytes → Operation
  cleans_udp : ℕ → Operation
  stops : Operation

unfoldable pub apply : TunnelManager → Operation → TunnelManager
apply tm (registers_tcp id t) = (register_tcp_connection tm id t).0
apply tm (removes_tcp id) = remove_tcp_connection tm id
apply tm (cleans_tcp now) = cleanup_idle_tcp tm now
apply tm (registers_udp id t) = (register_udp_session tm id t).0
apply tm (removes_udp id) = remove_udp_session tm id
apply tm (cleans_udp now) = cleanup_stale_udp tm now
apply tm stops = stop tm

unfoldable pub apply_all : TunnelManager → List Operation → TunnelManager
apply_all tm [] = tm
apply_all tm (o ∷ os) = apply_all (apply tm o) os

pub record IsBounded (config : TunnelManagerConfig) (tm : TunnelManager) : Type 0 where
  pub same_config : tm.config ≡ config
  pub tcp_bounded : length tm.tcp_connections ≤ config.tcp_max_connections
  pub udp_bounded : length tm.udp_sessions ≤ config.udp_max_sessions

length-active_tcp :
    (timeout now : ℕ) (m : Map Bytes TcpTunnel) → length (active_tcp timeout now m) ≤ length m
unfolding active_tcp
length-active_tcp timeout now [] = omega arith
length-active_tcp timeout now ((id, t) ∷ m) = ground (arith, length-active_tcp timeout now m)

length-active_udp :
    (timeout now : ℕ) (m : Map Bytes UdpTunnel) → length (active_udp timeout now m) ≤ length m
unfolding active_udp
length-active_udp timeout now [] = omega arith
length-active_udp timeout now ((id, t) ∷ m) = ground (arith, length-active_udp timeout now m)

config-apply : (tm : TunnelManager) (o : Operation) → (apply tm o).config ≡ tm.config
unfolding apply register_tcp_connection remove_tcp_connection cleanup_idle_tcp register_udp_session
    remove_udp_session cleanup_stale_udp stop
config-apply tm (registers_tcp id t) = ground arith
config-apply tm _ = ground arith

tcp-apply :
    (tm : TunnelManager) (o : Operation)
    → length tm.tcp_connections ≤ tm.config.tcp_max_connections
    → length (apply tm o).tcp_connections ≤ tm.config.tcp_max_connections
unfolding apply register_tcp_connection remove_tcp_connection cleanup_idle_tcp register_udp_session
    remove_udp_session cleanup_stale_udp stop
tcp-apply tm (registers_tcp id t) h =
    ground (arith, Map.length-insert_new Bytes-discrete id t tm.tcp_connections)
tcp-apply tm (removes_tcp id) h =
    ground (arith, Map.length-delete-le Bytes-discrete id tm.tcp_connections)
tcp-apply tm (cleans_tcp now) h =
    omega (arith, length-active_tcp tm.config.tcp_idle_timeout now tm.tcp_connections)
tcp-apply tm _ h = ground arith

udp-apply :
    (tm : TunnelManager) (o : Operation)
    → length tm.udp_sessions ≤ tm.config.udp_max_sessions
    → length (apply tm o).udp_sessions ≤ tm.config.udp_max_sessions
unfolding apply register_tcp_connection remove_tcp_connection cleanup_idle_tcp register_udp_session
    remove_udp_session cleanup_stale_udp stop
udp-apply tm (registers_udp id t) h =
    ground (arith, Map.length-insert_new Bytes-discrete id t tm.udp_sessions)
udp-apply tm (removes_udp id) h =
    ground (arith, Map.length-delete-le Bytes-discrete id tm.udp_sessions)
udp-apply tm (cleans_udp now) h =
    omega (arith, length-active_udp tm.config.udp_session_timeout now tm.udp_sessions)
udp-apply tm _ h = ground arith

abbrev max_tcp : TunnelManagerConfig → ℕ
max_tcp c = c.tcp_max_connections

abbrev max_udp : TunnelManagerConfig → ℕ
max_udp c = c.udp_max_sessions

apply-IsBounded :
    (config : TunnelManagerConfig) (tm : TunnelManager) (o : Operation)
    → IsBounded config tm
    → IsBounded config (apply tm o)
apply-IsBounded config tm o b =
    let c = b.same_config in
    record {
      same_config = config-apply tm o ∙ c;
      tcp_bounded =
          omega (arith, tcp-apply tm o (omega (arith, b.tcp_bounded, ap max_tcp c)), ap max_tcp c);
      udp_bounded =
          omega (arith, udp-apply tm o (omega (arith, b.udp_bounded, ap max_udp c)), ap max_udp c);
    }

apply_all-IsBounded :
    (config : TunnelManagerConfig) (tm : TunnelManager) (os : List Operation)
    → IsBounded config tm
    → IsBounded config (apply_all tm os)
unfolding apply_all
apply_all-IsBounded config tm [] b = b
apply_all-IsBounded config tm (o ∷ os) b =
    apply_all-IsBounded config (apply tm o) os (apply-IsBounded config tm o b)

-- After any operations on a new manager, with any IDs and tunnels, at most the configured numbers
-- of TCP connections and of UDP sessions are registered.
pub new-apply_all-IsBounded :
    (config : TunnelManagerConfig) (os : List Operation)
    → IsBounded config (apply_all (new_tunnel_manager config) os)
unfolding new_tunnel_manager
new-apply_all-IsBounded config os =
    apply_all-IsBounded config (new_tunnel_manager config) os
      (record { same_config = refl; tcp_bounded = omega arith; udp_bounded = omega arith })

module _ (tm : TunnelManager) (id : Bytes) (t : TcpTunnel) where
  registered :
      leb tm.config.tcp_max_connections (length tm.tcp_connections) ≡ false
      → get_tcp_connection tm id ≡ none
      → register_tcp_connection tm id t ≡ (
        record tm {
          tcp_connections = Map.insert Bytes-discrete id t tm.tcp_connections;
          tcp_connections_total = u64 (tm.tcp_connections_total + 1);
        },
        none,
      )
  unfolding register_tcp_connection get_tcp_connection
  registered room new = ground (arith, room, new)

  refused :
      (leb tm.config.tcp_max_connections (length tm.tcp_connections) ≡ true)
        ⊎ (get_tcp_connection tm id ≢ none)
      → ((register_tcp_connection tm id t).1 ≢ none) × ((register_tcp_connection tm id t).0 ≡ tm)
  unfolding register_tcp_connection get_tcp_connection
  refused h = ground arith

  get-insert :
      (j : Bytes)
      → Map.lookup Bytes-discrete j (Map.insert Bytes-discrete id t tm.tcp_connections)
        ≡ ite (Bytes-discrete j id) (some t) (get_tcp_connection tm j)
  unfolding get_tcp_connection
  get-insert j = elim (Bytes-discrete j id) [
    | yes p ↦ rw (if_pos _ p, p) (Map.lookup-insert_self Bytes-discrete id t tm.tcp_connections)
    | no p ↦ rw (if_neg _ p) (Map.lookup-insert_ne Bytes-discrete id j t tm.tcp_connections p)
  ]

-- RegisterTCPConnection succeeds exactly when there is room and the ID is not in use. On success
-- the ID leads to the new tunnel and every other ID to what it led to; on an error the manager
-- is as it was.
register_tcp_connection_lem :
    (tm : TunnelManager) (id j : Bytes) (t : TcpTunnel)
    → (((register_tcp_connection tm id t).1 ≡ none)
        × (length tm.tcp_connections < tm.config.tcp_max_connections)
        × (get_tcp_connection tm id ≡ none)
        × (get_tcp_connection (register_tcp_connection tm id t).0 j
            ≡ ite (Bytes-discrete j id) (some t) (get_tcp_connection tm j)))
      ⊎ (((register_tcp_connection tm id t).1 ≢ none)
          × ((tm.config.tcp_max_connections ≤ length tm.tcp_connections)
              ⊎ (get_tcp_connection tm id ≢ none))
          × ((register_tcp_connection tm id t).0 ≡ tm))
register_tcp_connection_lem tm id j t =
    elim (Bool-cases (leb tm.config.tcp_max_connections (length tm.tcp_connections))) [
      | inl full ↦
          let (e, same) = refused tm id t (inl full) in inr (e, inl (leb→le _ _ full), same)
      | inr room ↦ elim (Option-cases (get_tcp_connection tm id)) [
        | inl new ↦ inl (
          rw (registered tm id t room new) refl,
          ground (arith, room),
          new,
          rw (registered tm id t room new) (unfold get_tcp_connection in get-insert tm id t j),
        )
        | inr (u, old) ↦
            let used : get_tcp_connection tm id ≢ none = λ z. cc (z, old) in
            let (e, same) = refused tm id t (inr used) in inr (e, inr used, same)
      ]
    ]
