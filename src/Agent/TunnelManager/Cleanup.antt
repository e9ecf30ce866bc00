-- ===== src/Agent/TunnelManager/Cleanup.antt =====
-- The cleanups of internal/agent/tunnel_manager.go, entry by entry.
use pipeops_k8_agent.Prelude.{
  ℕ, ◌≡◌, refl, ◌⊎◌, inl, inr, true, false, Option, none, some, List, [], ◌∷◌, ◌++◌, arith,
  Bool-cases, if◌then◌else◌, if_neg,
}
use pipeops_k8_agent.Prelude.Bytes.{Bytes, Bytes-discrete}
use pipeops_k8_agent.Prelude.Map
use pipeops_k8_agent.Prelude.Map.{Map}
use pipeops_k8_agent.Agent.TunnelManager.{
  TunnelManager, TcpTunnel, get_tcp_connection, is_idle, idle_conns, active_tcp, cleanup_idle_tcp,
}

abbrev pub HasKeys : {V : Type 0} → Map Bytes V → Type 0
HasKeys = Map.HasKeys Bytes-discrete

active_tcp-Fresh :
    (timeout now : ℕ) (id : Bytes) (m : Map Bytes TcpTunnel)
    → Map.Fresh Bytes-discrete id m
    → Map.Fresh Bytes-discrete id (active_tcp timeout now m)
unfolding active_tcp
active_tcp-Fresh timeout now id [] f = tt
active_tcp-Fresh timeout now id ((j, t) ∷ m) f = elim (Bool-cases (is_idle t timeout now)) [
  | inl e ↦ rw e (active_tcp-Fresh timeout now id m f.1)
  | inr e ↦ rw e (f.0, active_tcp-Fresh timeout now id m f.1)
]

pub active_tcp-HasKeys :
    (timeout now : ℕ) (m : Map Bytes TcpTunnel) → HasKeys m → HasKeys (active_tcp timeout now m)
unfolding active_tcp
active_tcp-HasKeys timeout now [] h = tt
active_tcp-HasKeys timeout now ((j, t) ∷ m) h = elim (Bool-cases (is_idle t timeout now)) [
  | inl e ↦ rw e (active_tcp-HasKeys timeout now m h.1)
  | inr e ↦ rw e (active_tcp-Fresh timeout now j m h.0, active_tcp-HasKeys timeout now m h.1)
]

-- A cleanup keeps the entries that are not idle, and drops the others.
abbrev pub unless_idle : ℕ → ℕ → Option TcpTunnel → Option TcpTunnel
unless_idle timeout now none = none
unless_idle timeout now (some t) = if is_idle t timeout now then none else some t

lookup-Fresh :
    {V : Type 0} (id : Bytes) (m : Map Bytes V)
    → Map.Fresh Bytes-discrete id m
    → Map.lookup Bytes-discrete id m ≡ none
unfolding Map.lookup
lookup-Fresh id [] f = refl
lookup-Fresh id ((j, t) ∷ m) f = rw (if_neg _ f.0) (lookup-Fresh id m f.1)

pub lookup-active_tcp :
    (timeout now : ℕ) (id : Bytes) (m : Map Bytes TcpTunnel)
    → HasKeys m
    → Map.lookup Bytes-discrete id (active_tcp timeout now m)
      ≡ unless_idle timeout now (Map.lookup Bytes-discrete id m)
unfolding active_tcp Map.lookup
lookup-active_tcp timeout now id [] h = refl
lookup-active_tcp timeout now id ((j, t) ∷ m) h = ground (
  arith,
  lookup-active_tcp timeout now id m h.1,
  lookup-Fresh j (active_tcp timeout now m) (active_tcp-Fresh timeout now j m h.0),
)

-- A list of numbers that holds one of them.
abbrev pub In : ℕ → List ℕ → Type 0
In x [] = ⊥
In x (y ∷ ys) = (x ≡ y) ⊎ In x ys

pub In-append_left : (x : ℕ) (xs ys : List ℕ) → In x xs → In x (xs ++ ys)
In-append_left x [] ys h = absurd h
In-append_left x (y ∷ xs) ys (inl e) = inl e
In-append_left x (y ∷ xs) ys (inr h) = inr (In-append_left x xs ys h)

pub In-append_right : (x : ℕ) (xs ys : List ℕ) → In x ys → In x (xs ++ ys)
In-append_right x [] ys h = h
In-append_right x (y ∷ xs) ys h = inr (In-append_right x xs ys h)

idle_conns-In :
    (timeout now : ℕ) (id : Bytes) (t : TcpTunnel) (m : Map Bytes TcpTunnel)
    → Map.lookup Bytes-discrete id m ≡ some t
    → is_idle t timeout now ≡ true
    → In t.service_conn (idle_conns timeout now m)
unfolding idle_conns Map.lookup
idle_conns-In timeout now id t [] e idle = cc
idle_conns-In timeout now id t ((j, u) ∷ m) e idle =
    ground (arith, idle_conns-In timeout now id t m)

-- On a map that binds no ID twice, cleanupIdleTCP keeps a connection, as it was, when it has not
-- been idle for longer than the timeout, and otherwise drops it and closes it.
cleanup_idle_tcp-lookup :
    (tm : TunnelManager) (now : ℕ) (id : Bytes) (t : TcpTunnel)
    → HasKeys tm.tcp_connections
    → get_tcp_connection tm id ≡ some t
    → ((is_idle t tm.config.tcp_idle_timeout now ≡ false)
        × (get_tcp_connection (cleanup_idle_tcp tm now) id ≡ some t))
      ⊎ ((is_idle t tm.config.tcp_idle_timeout now ≡ true)
          × (get_tcp_connection (cleanup_idle_tcp tm now) id ≡ none)
          × In t.service_conn (cleanup_idle_tcp tm now).closed)
unfolding cleanup_idle_tcp get_tcp_connection
cleanup_idle_tcp-lookup tm now id t keys e =
    let timeout = tm.config.tcp_idle_timeout in
    let kept = lookup-active_tcp timeout now id tm.tcp_connections keys in
    elim (Bool-cases (is_idle t timeout now)) [
      | inl idle ↦ inr (
        idle,
        ground (arith, kept),
        In-append_left t.service_conn (idle_conns timeout now tm.tcp_connections) tm.closed
            (idle_conns-In timeout now id t tm.tcp_connections e idle),
      )
      | inr busy ↦ inl (busy, ground (arith, kept))
    ]
