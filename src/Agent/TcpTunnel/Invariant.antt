-- ===== src/Agent/TcpTunnel/Invariant.antt =====
-- The invariant of the TCP tunnels, and the operations that dial or end a connection.
use pipeops_k8_agent.Prelude.{
  ℕ, ◌≡◌, sym, ◌∙◌, ap, ◌≢◌, ◌⊎◌, inl, inr, none, some, List, ◌∷◌, ◌+◌, arith, Bool-cases,
  Option-cases, ℕ_discrete, leb, length,
}
use pipeops_k8_agent.Prelude.Bytes.{Bytes, Bytes-discrete}
use pipeops_k8_agent.Prelude.Map
use pipeops_k8_agent.Agent.TunnelManager.{
  TunnelManager, TcpTunnel, RegisterError, max_reached, already_exists, get_tcp_connection, u64,
  register_tcp_connection, remove_tcp_connection, new_tcp_tunnel,
}
use pipeops_k8_agent.Agent.TunnelManager.Cleanup.{HasKeys, In}
use pipeops_k8_agent.Agent.TcpTunnel.Entries.{
  reader, IsServed, Shrinks, Shrinks-IsServed, Shrinks-trans, remove-lookup, remove-Shrinks,
  close-Shrinks,
}
use pipeops_k8_agent.Agent.TcpTunnel.{
  TcpAgent, CloseReason, close_conn, store, start_registered, handle_tcp_tunnel_start,
  forwarder_exit,
}

-- A dialled connection is closed or read, an entry of the map is read by its own forwarder, and no
-- ID stands twice in the map.
pub record Inv (a : TcpAgent) : Type 0 where
  pub kept : (c : ℕ) → In c a.dialed → In c a.manager.closed ⊎ (reader a c ≢ none)
  pub served : IsServed a.manager (reader a)
  pub keys : HasKeys a.manager.tcp_connections

abbrev pub Grows : TunnelManager → TunnelManager → Type 0
Grows tm tm' = (c : ℕ) → In c tm.closed → In c tm'.closed

-- A change of the manager alone.
pub manager-Inv :
    (a : TcpAgent) (tm : TunnelManager) (msgs : List (Bytes × CloseReason))
    → Inv a
    → Shrinks a.manager tm
    → Grows a.manager tm
    → HasKeys tm.tcp_connections
    → Inv (record a { manager = tm; sent = msgs })
manager-Inv a tm msgs v sh g k = record {
  kept = λ c i. elim (v.kept c i) [ inl x ↦ inl (g c x) | inr y ↦ inr y ];
  served = Shrinks-IsServed a.manager tm (reader a) sh v.served;
  keys = k;
}

-- Closing a connection and removing an ID.
unfoldable pub close_remove : TunnelManager → ℕ → Bytes → TunnelManager
close_remove tm conn id = remove_tcp_connection (close_conn conn tm) id

close_remove-closed :
    (tm : TunnelManager) (conn : ℕ) (id : Bytes)
    → (close_remove tm conn id).closed ≡ conn ∷ tm.closed
unfolding close_remove close_conn remove_tcp_connection
close_remove-closed tm conn id = ground arith

pub close_remove-HasKeys :
    (tm : TunnelManager) (conn : ℕ) (id : Bytes)
    → HasKeys tm.tcp_connections
    → HasKeys (close_remove tm conn id).tcp_connections
unfolding close_remove close_conn remove_tcp_connection
close_remove-HasKeys tm conn id k =
    elim (Option-cases (Map.lookup Bytes-discrete id tm.tcp_connections)) [
      | inl e ↦ rw (e, remove_tcp_connection) k
      | inr (t, e) ↦
          rw (e, remove_tcp_connection) (Map.delete-HasKeys Bytes-discrete id tm.tcp_connections k)
    ]

pub close_remove-Shrinks :
    (tm : TunnelManager) (conn : ℕ) (id : Bytes) → Shrinks tm (close_remove tm conn id)
unfolding close_remove
close_remove-Shrinks tm conn id =
    Shrinks-trans tm (close_conn conn tm) (close_remove tm conn id) (close-Shrinks tm conn)
      (remove-Shrinks (close_conn conn tm) id)

pub store-HasKeys :
    (tm : TunnelManager) (id : Bytes) (t : TcpTunnel)
    → HasKeys tm.tcp_connections
    → HasKeys (store id t tm).tcp_connections
unfolding store
store-HasKeys tm id t k = Map.insert-HasKeys Bytes-discrete id t tm.tcp_connections k

pub close_remove-Grows :
    (tm : TunnelManager) (conn : ℕ) (id : Bytes) → Grows tm (close_remove tm conn id)
close_remove-Grows tm conn id c i = rw (close_remove-closed tm conn id) (inr i)

some_injective {ℓ} : {A : Type ℓ} {x y : A} → some x ≡ some y → x ≡ y
some_injective e = cc

pub exit-Inv :
    (a : TcpAgent) (id : Bytes) (conn : ℕ)
    → reader a conn ≡ some id
    → Inv a
    → Inv (forwarder_exit a id conn)
unfolding forwarder_exit close_remove
exit-Inv a id conn r v = record {
  kept = λ c i. elim (ℕ_discrete c conn) [
    | yes p ↦ inl (rw (close_remove-closed a.manager conn id) (inl p))
    | no p ↦ elim (v.kept c i) [
      | inl x ↦ inl (close_remove-Grows a.manager conn id c x)
      | inr y ↦ inr (rw (Map.lookup-delete_ne ℕ_discrete conn c a.forwarders p) y)
    ]
  ];
  served = λ j t e.
      let (ne, e') = remove-lookup (close_conn conn a.manager) id j t e in
      let mine = v.served j t (unfold close_conn get_tcp_connection in e') in
      let other : t.service_conn ≢ conn =
        λ p. ne (some_injective (sym mine ∙ (ap (reader a) p ∙ r))) in
      Map.lookup-delete_ne ℕ_discrete conn t.service_conn a.forwarders other ∙ mine;
  keys = close_remove-HasKeys a.manager conn id v.keys;
}

-- A registration is refused and changes nothing, or adds the new tunnel.
register_cases :
    (tm : TunnelManager) (id : Bytes) (t : TcpTunnel)
    → ((e : RegisterError) × (register_tcp_connection tm id t ≡ (tm, some e)))
      ⊎ (register_tcp_connection tm id t ≡ (
        record (store id t tm) { tcp_connections_total = u64 (tm.tcp_connections_total + 1) },
        none,
      ))
unfolding register_tcp_connection store
register_cases tm id t =
    elim (Bool-cases (leb tm.config.tcp_max_connections (length tm.tcp_connections))) [
      | inl full ↦ inl (max_reached, ground (arith, full))
      | inr room ↦ elim (Option-cases (Map.lookup Bytes-discrete id tm.tcp_connections)) [
        | inl new ↦ inr (ground (arith, room, new))
        | inr (u, old) ↦ inl (already_exists, ground (arith, room, old))
      ]
    ]

refused-Inv :
    (a : TcpAgent) (id : Bytes) (conn : ℕ) (e : RegisterError)
    → Inv a
    → Inv (start_registered a id conn (a.manager, some e))
unfolding start_registered close_conn get_tcp_connection
refused-Inv a id conn e v = record {
  kept = λ c i. elim i [
    | inl same ↦ inl (inl same)
    | inr old ↦ elim (v.kept c old) [ inl x ↦ inl (inr x) | inr y ↦ inr y ]
  ];
  served = v.served;
  keys = v.keys;
}

added-Inv :
    (a : TcpAgent) (id : Bytes) (t : TcpTunnel) (total : ℕ)
    → reader a t.service_conn ≡ none
    → Inv a
    → Inv (
        start_registered a id t.service_conn
          (record (store id t a.manager) { tcp_connections_total = total }, none))
unfolding start_registered store get_tcp_connection
added-Inv a id t total fresh v =
    let conn = t.service_conn in
    let set : Map.lookup ℕ_discrete conn (Map.insert ℕ_discrete conn id a.forwarders) ≡ some id =
      Map.lookup-insert_self ℕ_discrete conn id a.forwarders in
    record {
      kept = λ c i. elim (ℕ_discrete c conn) [
        | yes p ↦ inr (λ z. cc (z, set, p))
        | no p ↦ elim i [
          | inl same ↦ absurd (p same)
          | inr old ↦ elim (v.kept c old) [
            | inl x ↦ inl x
            | inr y ↦ inr (rw (Map.lookup-insert_ne ℕ_discrete conn c id a.forwarders p) y)
          ]
        ]
      ];
      served = λ j u e. elim (Bytes-discrete j id) [
        | yes p ↦
            let is_new : t ≡ u = some_injective (
              sym (Map.lookup-insert_self Bytes-discrete id t a.manager.tcp_connections)
              ∙ (ap
                    (λ k.
                      Map.lookup Bytes-discrete k
                        (Map.insert Bytes-discrete id t a.manager.tcp_connections))
                    (sym p)
                  ∙ e)) in
            ap
              (λ w.
                Map.lookup ℕ_discrete w.service_conn (Map.insert ℕ_discrete conn id a.forwarders))
              (sym is_new)
            ∙ (set ∙ ap some (sym p))
        | no p ↦
            let mine =
              v.served j u (
                sym (Map.lookup-insert_ne Bytes-discrete id j t a.manager.tcp_connections p) ∙ e) in
            let apart : u.service_conn ≢ conn =
              λ q. let clash = sym mine ∙ (ap (reader a) q ∙ fresh) in cc clash in
            Map.lookup-insert_ne ℕ_discrete conn u.service_conn id a.forwarders apart ∙ mine
      ];
      keys = Map.insert-HasKeys Bytes-discrete id t a.manager.tcp_connections v.keys;
    }

pub start-Inv :
    (a : TcpAgent) (id tunnel_id : Bytes) (port conn now : ℕ)
    → reader a conn ≡ none
    → Inv a
    → Inv (handle_tcp_tunnel_start a id tunnel_id port (some conn) now)
unfolding handle_tcp_tunnel_start new_tcp_tunnel
start-Inv a id tunnel_id port conn now fresh v =
    let t = new_tcp_tunnel id tunnel_id port conn now in
    elim (register_cases a.manager id t) [
      | inl (e, refused) ↦ rw refused (refused-Inv a id conn e v)
      | inr added ↦ rw added (added-Inv a id t (u64 (a.manager.tcp_connections_total + 1)) fresh v)
    ]
