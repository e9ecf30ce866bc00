-- ===== src/Agent/TcpTunnel/Entries.antt =====
-- How the operations change the entries of the manager's map.
use pipeops_k8_agent.Prelude.{
  ℕ, ◌≡◌, refl, sym, ◌∙◌, ap, ◌≢◌, ◌⊎◌, inl, inr, Option, none, some, arith, ◌+◌, ◌==◌, Bool-cases,
  Option-cases, ℕ_discrete,
}
use pipeops_k8_agent.Prelude.Bytes.{Bytes, Bytes-discrete}
use pipeops_k8_agent.Prelude.Map
use pipeops_k8_agent.Agent.TunnelManager.{
  TunnelManager, TcpTunnel, get_tcp_connection, remove_tcp_connection, cleanup_idle_tcp, u64,
}
use pipeops_k8_agent.Agent.TunnelManager.Cleanup.{HasKeys, lookup-active_tcp}
use pipeops_k8_agent.Agent.TcpTunnel.{TcpAgent, close_conn, store, received}

abbrev pub reader : TcpAgent → ℕ → Option Bytes
reader a conn = Map.lookup ℕ_discrete conn a.forwarders

-- What the manager's map holds is read by its own forwarder.
abbrev pub IsServed : TunnelManager → (ℕ → Option Bytes) → Type 0
IsServed tm read =
    (id : Bytes) (t : TcpTunnel) → get_tcp_connection tm id ≡ some t → read t.service_conn ≡ some id

-- Every entry of the second manager is one of the first, up to its counters.
abbrev pub Shrinks : TunnelManager → TunnelManager → Type 0
Shrinks tm tm' =
    (id : Bytes) (t : TcpTunnel)
    → get_tcp_connection tm' id ≡ some t
    → (u : TcpTunnel) × (get_tcp_connection tm id ≡ some u) × (u.service_conn ≡ t.service_conn)

pub Shrinks-IsServed :
    (tm tm' : TunnelManager) (read : ℕ → Option Bytes)
    → Shrinks tm tm'
    → IsServed tm read
    → IsServed tm' read
Shrinks-IsServed tm tm' read sh s id t e =
    let (u, eu, same) = sh id t e in ap read (sym same) ∙ s id u eu

get-remove_self :
    (tm : TunnelManager) (id : Bytes) → get_tcp_connection (remove_tcp_connection tm id) id ≡ none
unfolding get_tcp_connection remove_tcp_connection
get-remove_self tm id = ground (arith, Map.lookup-delete_self Bytes-discrete id tm.tcp_connections)

get-remove_ne :
    (tm : TunnelManager) (id j : Bytes)
    → j ≢ id
    → get_tcp_connection (remove_tcp_connection tm id) j ≡ get_tcp_connection tm j
unfolding get_tcp_connection remove_tcp_connection
get-remove_ne tm id j ne =
    ground (arith, Map.lookup-delete_ne Bytes-discrete id j tm.tcp_connections ne)

pub remove-lookup :
    (tm : TunnelManager) (id j : Bytes) (t : TcpTunnel)
    → get_tcp_connection (remove_tcp_connection tm id) j ≡ some t
    → (j ≢ id) × (get_tcp_connection tm j ≡ some t)
remove-lookup tm id j t e = elim (Bytes-discrete j id) [
  | yes p ↦
      let gone : get_tcp_connection (remove_tcp_connection tm id) j ≡ none =
        ap (get_tcp_connection (remove_tcp_connection tm id)) p ∙ get-remove_self tm id in
      absurd (cc gone)
  | no p ↦ (p, sym (get-remove_ne tm id j p) ∙ e)
]

pub remove-Shrinks : (tm : TunnelManager) (id : Bytes) → Shrinks tm (remove_tcp_connection tm id)
remove-Shrinks tm id j t e = (t, (remove-lookup tm id j t e).1, refl)

pub close-Shrinks : (tm : TunnelManager) (conn : ℕ) → Shrinks tm (close_conn conn tm)
unfolding close_conn get_tcp_connection
close-Shrinks tm conn j t e = (t, e, refl)

pub Shrinks-trans : (a b c : TunnelManager) → Shrinks a b → Shrinks b c → Shrinks a c
Shrinks-trans a b c p q id t e =
    let (u, eu, su) = q id t e in let (v, ev, sv) = p id u eu in (v, ev, sv ∙ su)

pub cleanup-Shrinks :
    (tm : TunnelManager) (now : ℕ)
    → HasKeys tm.tcp_connections
    → Shrinks tm (cleanup_idle_tcp tm now)
unfolding cleanup_idle_tcp get_tcp_connection
cleanup-Shrinks tm now keys id t e = (
  t,
  ground (arith, lookup-active_tcp tm.config.tcp_idle_timeout now id tm.tcp_connections keys),
  refl,
)

pub store-Shrinks :
    (tm : TunnelManager) (id : Bytes) (t u : TcpTunnel)
    → get_tcp_connection tm id ≡ some u
    → u.service_conn ≡ t.service_conn
    → Shrinks tm (store id t tm)
unfolding get_tcp_connection store
store-Shrinks tm id t u eu same j v e = elim (Bytes-discrete j id) [
  | yes p ↦ (
    u,
    rw p eu,
    ground (arith, same, p, Map.lookup-insert_self Bytes-discrete id t tm.tcp_connections),
  )
  | no p ↦
      (v, ground (arith, Map.lookup-insert_ne Bytes-discrete id j t tm.tcp_connections p), refl)
]

received_cases :
    (tm : TunnelManager) (id : Bytes) (conn n now : ℕ)
    → (received tm id conn n now ≡ tm)
      ⊎ ((t u : TcpTunnel) × (get_tcp_connection tm id ≡ some u)
          × (u.service_conn ≡ t.service_conn)
          × (received tm id conn n now ≡ store id t tm))
unfolding received
received_cases tm id conn n now = elim (Option-cases (get_tcp_connection tm id)) [
  | inl missing ↦ inl (ground (arith, missing))
  | inr (u, found) ↦ elim (Bool-cases (u.service_conn == conn)) [
    | inl same ↦ inr (
      record u { last_activity = now; bytes_recv = u64 (u.bytes_recv + n) },
      u,
      found,
      refl,
      ground (arith, found, same),
    )
    | inr other ↦ inl (ground (arith, found, other))
  ]
]

pub received-Shrinks :
    (tm : TunnelManager) (id : Bytes) (conn n now : ℕ) → Shrinks tm (received tm id conn n now)
received-Shrinks tm id conn n now = elim (received_cases tm id conn n now) [
  | inl same ↦ rw same (λ j t e. (t, e, refl))
  | inr (t, u, found, conns, stored) ↦ rw stored (store-Shrinks tm id t u found conns)
]

pub received-kept :
    (tm : TunnelManager) (id : Bytes) (conn n now : ℕ)
    → HasKeys tm.tcp_connections
    → ((received tm id conn n now).closed ≡ tm.closed)
      × HasKeys (received tm id conn n now).tcp_connections
unfolding store
received-kept tm id conn n now keys = elim (received_cases tm id conn n now) [
  | inl same ↦ rw same (refl, keys)
  | inr (t, u, found, conns, stored) ↦
      rw stored (refl, Map.insert-HasKeys Bytes-discrete id t tm.tcp_connections keys)
]
