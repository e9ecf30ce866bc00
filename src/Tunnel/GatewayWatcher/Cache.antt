-- ===== src/Tunnel/GatewayWatcher/Cache.antt =====
-- The cache of tunnels of internal/tunnel/gateway_watcher.go.
use pipeops_k8_agent.Prelude.{
  ◌≡◌, refl, ◌≢◌, ◌⊎◌, inl, inr, true, Option, none, some, List, [], ◌∷◌, arith, Option-cases,
  if◌then◌else◌, subst,
}
use pipeops_k8_agent.Prelude.Bytes.{Bytes, Bytes-discrete}
use pipeops_k8_agent.Prelude.Map
use pipeops_k8_agent.Prelude.Map.{Map}
use pipeops_k8_agent.Tunnel.Gateway.{Gateway, Listener, Protocol, Routes}
use pipeops_k8_agent.Tunnel.GatewayWatcher.{
  TunnelService, GatewayWatcher, RoutingMode, Register, get_protocol_from_listener, make_tunnel_id,
  build_tunnel, register_tunnel, cache_tunnel, process_listener, process_listeners, process_gateway,
  belongs_to, keep_other_tunnels, deregister_gateway_tunnels, determine_routing_mode,
  get_gateway_public_ip,
}

abbrev pub HasKeys : Map Bytes TunnelService → Type 0
HasKeys = Map.HasKeys Bytes-discrete

abbrev pub cached : GatewayWatcher → Bytes → Option TunnelService
cached w id = Map.lookup Bytes-discrete id w.tunnels

abbrev pub unless_belongs : Bytes → Bytes → Option TunnelService → Option TunnelService
unless_belongs namespace name none = none
unless_belongs namespace name (some t) = if belongs_to namespace name t then none else some t

keep_other-Fresh :
    (namespace name id : Bytes) (m : Map Bytes TunnelService)
    → Map.Fresh Bytes-discrete id m
    → Map.lookup Bytes-discrete id (keep_other_tunnels namespace name m) ≡ none
unfolding keep_other_tunnels Map.lookup
keep_other-Fresh namespace name id [] f = refl
keep_other-Fresh namespace name id ((j, t) ∷ m) f =
    ground (arith, f.0, keep_other-Fresh namespace name id m f.1)

lookup-keep_other :
    (namespace name id : Bytes) (m : Map Bytes TunnelService)
    → HasKeys m
    → Map.lookup Bytes-discrete id (keep_other_tunnels namespace name m)
      ≡ unless_belongs namespace name (Map.lookup Bytes-discrete id m)
unfolding keep_other_tunnels Map.lookup
lookup-keep_other namespace name id [] h = refl
lookup-keep_other namespace name id ((j, t) ∷ m) h =
    ground
      (arith, lookup-keep_other namespace name id m h.1, keep_other-Fresh namespace name j m h.0)

-- On a cache that binds no ID twice, deregistering a Gateway drops exactly the tunnels of that
-- namespace and name.
pub cached-deregister :
    (w : GatewayWatcher) (namespace name id : Bytes)
    → HasKeys w.tunnels
    → cached (deregister_gateway_tunnels w namespace name) id
      ≡ unless_belongs namespace name (cached w id)
unfolding deregister_gateway_tunnels
cached-deregister w namespace name id h = lookup-keep_other namespace name id w.tunnels h

-- A listener is one of the list.
abbrev pub Listed : Listener → List Listener → Type 0
Listed l [] = ⊥
Listed l (k ∷ ks) = (l ≡ k) ⊎ Listed l ks

-- The entry of an ID is an active tunnel of the Gateway in this mode.
abbrev pub Serves : Gateway → RoutingMode → Option TunnelService → Type 0
Serves g mode none = ⊥
Serves g mode (some t) =
    (t.gateway_name ≡ g.name)
    × (t.gateway_namespace ≡ g.namespace)
    × (t.routing_mode ≡ mode)
    × (t.is_active ≡ true)

module _ (w : GatewayWatcher) (register : Register) (routes : Routes) (g : Gateway)
    (mode : RoutingMode) (ip : Bytes) where
  unfoldable pub process_one : Listener → Map Bytes TunnelService → Map Bytes TunnelService
  process_one = process_listener w register routes g mode ip

  -- One listener writes no entry, or one that serves the Gateway.
  pub one_cases :
      (l : Listener) (m : Map Bytes TunnelService)
      → (process_one l m ≡ m)
        ⊎ ((t : TunnelService) × Serves g mode (some t)
            × (process_one l m ≡ Map.insert Bytes-discrete t.tunnel_id t m))
  unfolding process_one process_listener cache_tunnel register_tunnel build_tunnel
  one_cases l m = elim (Option-cases (get_protocol_from_listener l.protocol)) [
    | inl e ↦ inl (ground (arith, e))
    | inr (p, e) ↦ elim (Option-cases (register (build_tunnel w routes g mode ip l p))) [
      | inl refused ↦ inl (ground (arith, e, refused))
      | inr ((port, endpoint), accepted) ↦ inr (
        record (build_tunnel w routes g mode ip l p) {
          tunnel_port = port;
          tunnel_endpoint = endpoint;
          is_active = true;
        },
        (refl, refl, refl, refl),
        ground (arith, e, accepted),
      )
    ]
  ]

  insert-Serves :
      (t : TunnelService) (m : Map Bytes TunnelService) (id : Bytes)
      → Serves g mode (some t)
      → (id ≡ t.tunnel_id) ⊎ Serves g mode (Map.lookup Bytes-discrete id m)
      → Serves g mode (Map.lookup Bytes-discrete id (Map.insert Bytes-discrete t.tunnel_id t m))
  insert-Serves t m id st s = elim (Bytes-discrete id t.tunnel_id) [
    | yes p ↦ rw (p, Map.lookup-insert_self Bytes-discrete t.tunnel_id t m) st
    | no p ↦
        rw (Map.lookup-insert_ne Bytes-discrete t.tunnel_id id t m p)
          (elim s [ inl q ↦ absurd (p q) | inr h ↦ h ])
  ]

  one-Serves :
      (l : Listener) (m : Map Bytes TunnelService) (id : Bytes)
      → Serves g mode (Map.lookup Bytes-discrete id m)
      → Serves g mode (Map.lookup Bytes-discrete id (process_one l m))
  one-Serves l m id s = elim (one_cases l m) [
    | inl same ↦ rw same s
    | inr (t, st, eq) ↦ rw eq (insert-Serves t m id st (inr s))
  ]

  -- A listener that is registered has its entry.
  one_registered :
      (l : Listener) (p : Protocol) (m : Map Bytes TunnelService)
      → get_protocol_from_listener l.protocol ≡ some p
      → register (build_tunnel w routes g mode ip l p) ≢ none
      → Serves g mode (
          Map.lookup Bytes-discrete
            (make_tunnel_id w.cluster_uuid p g.name l.port)
            (process_one l m))
  unfolding process_one process_listener cache_tunnel register_tunnel
  one_registered l p m e ne = elim (Option-cases (register (build_tunnel w routes g mode ip l p))) [
    | inl refused ↦ absurd (ne refused)
    | inr ((port, endpoint), accepted) ↦
        let t = record (build_tunnel w routes g mode ip l p) {
          tunnel_port = port;
          tunnel_endpoint = endpoint;
          is_active = true;
        } in
        rw (e, process_listener, register_tunnel, accepted)
          (unfold build_tunnel in insert-Serves t m t.tunnel_id (refl, refl, refl, refl) (inl refl))
  ]

  all-Serves :
      (ls : List Listener) (m : Map Bytes TunnelService) (id : Bytes)
      → Serves g mode (Map.lookup Bytes-discrete id m)
      → Serves g mode
          (Map.lookup Bytes-discrete id (process_listeners w register routes g mode ip ls m))
  unfolding process_listeners process_one
  all-Serves [] m id s = s
  all-Serves (l ∷ ls) m id s = all-Serves ls (process_one l m) id (one-Serves l m id s)

  all_registered :
      (ls : List Listener) (l : Listener) (p : Protocol) (m : Map Bytes TunnelService)
      → Listed l ls
      → get_protocol_from_listener l.protocol ≡ some p
      → register (build_tunnel w routes g mode ip l p) ≢ none
      → Serves g mode (
          Map.lookup Bytes-discrete
            (make_tunnel_id w.cluster_uuid p g.name l.port)
            (process_listeners w register routes g mode ip ls m))
  unfolding process_listeners process_one
  all_registered [] l p m i e ne = absurd i
  all_registered (k ∷ ks) l p m (inl same) e ne =
      let id = make_tunnel_id w.cluster_uuid p g.name l.port in
      all-Serves ks (process_one k m) id (
        subst (λ q. Serves g mode (Map.lookup Bytes-discrete id (process_one q m))) same
          (one_registered l p m e ne))
  all_registered (k ∷ ks) l p m (inr i) e ne = all_registered ks l p (process_one k m) i e ne

-- The mode that a watcher gives to a Gateway, and the tunnel that it asks to register.
abbrev pub mode_of : GatewayWatcher → Gateway → RoutingMode
mode_of w g = determine_routing_mode w g (get_gateway_public_ip g.addresses)

abbrev pub tunnel_of : GatewayWatcher → Routes → Gateway → Listener → Protocol → TunnelService
tunnel_of w routes g l p =
    build_tunnel w routes g (mode_of w g) (get_gateway_public_ip g.addresses) l p

-- After a Gateway is processed, each of its TCP and UDP listeners whose registration the control
-- plane accepts has under its tunnel ID an active tunnel of this Gateway, in the Gateway's
-- routing mode, whatever the cache held and whatever the other listeners are.
pub cached-process_gateway :
    (w : GatewayWatcher) (register : Register) (routes : Routes) (g : Gateway) (l : Listener)
    (p : Protocol)
    → Listed l g.listeners
    → get_protocol_from_listener l.protocol ≡ some p
    → register (tunnel_of w routes g l p) ≢ none
    → Serves g (mode_of w g) (
        cached
          (process_gateway w register routes g)
          (make_tunnel_id w.cluster_uuid p g.name l.port))
unfolding process_gateway
cached-process_gateway w register routes g l p i e ne =
    let ip = get_gateway_public_ip g.addresses in
    all_registered w register routes g (determine_routing_mode w g ip) ip g.listeners l p w.tunnels
      i e ne
