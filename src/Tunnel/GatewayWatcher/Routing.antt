-- ===== src/Tunnel/GatewayWatcher/Routing.antt =====
-- How internal/tunnel/gateway_watcher.go chooses a routing mode.
use pipeops_k8_agent.Prelude.{◌≡◌, ◌⊎◌, ◌↔◌, true, false, Option, none, [], ◌∷◌, arith}
use pipeops_k8_agent.Prelude.Bytes.{Bytes, Bytes-discrete, codes}
use pipeops_k8_agent.Prelude.Map
use pipeops_k8_agent.Tunnel.Gateway.{Gateway}
use pipeops_k8_agent.Prelude.Bytes.{is_empty}
use pipeops_k8_agent.Tunnel.GatewayWatcher.{
  RoutingMode, direct, tunnel, dual, private_cluster, ClusterType, GatewayWatcher, routing_override,
  choose_routing_mode, determine_routing_mode, is_private,
}

abbrev pub override : Gateway → Option RoutingMode
override g =
    routing_override (Map.lookup Bytes-discrete (codes "pipeops.io/routing-mode") g.annotations)

-- The cluster cannot be reached from outside, as far as the watcher knows.
abbrev pub IsInward : GatewayWatcher → Bytes → Type 0
IsInward w public_ip =
    (w.force_tunnel_mode ≡ true) ⊎ ((w.cluster_type ≡ private_cluster) ⊎ (public_ip ≡ []))

private_iff : (c : ClusterType) → (is_private c ≡ true) ↔ (c ≡ private_cluster)
private_iff c = ground arith

empty_iff : (s : Bytes) → (is_empty s ≡ true) ↔ (s ≡ [])
empty_iff [] = ground arith
empty_iff (x ∷ s) = ground arith

choose_tunnel_iff :
    (w : GatewayWatcher) (ip : Bytes) → (choose_routing_mode w none ip ≡ tunnel) ↔ IsInward w ip
unfolding choose_routing_mode
choose_tunnel_iff w ip = ground (arith, private_iff w.cluster_type, empty_iff ip)

choose_dual_iff :
    (w : GatewayWatcher) (ip : Bytes)
    → (choose_routing_mode w none ip ≡ dual) ↔ (¬ IsInward w ip × (w.dual_mode_enabled ≡ true))
unfolding choose_routing_mode
choose_dual_iff w ip = ground (arith, private_iff w.cluster_type, empty_iff ip)

choose_direct_iff :
    (w : GatewayWatcher) (ip : Bytes)
    → (choose_routing_mode w none ip ≡ direct) ↔ (¬ IsInward w ip × (w.dual_mode_enabled ≡ false))
unfolding choose_routing_mode
choose_direct_iff w ip = ground (arith, private_iff w.cluster_type, empty_iff ip)

-- Without an override in the Gateway's annotations, the mode is tunnel exactly when tunnels are
-- forced, the cluster is private or there is no public IP; in all other cases it is dual with the
-- dual mode enabled, and direct without it.
determine_routing_mode_lem :
    (w : GatewayWatcher) (g : Gateway) (ip : Bytes)
    → override g ≡ none
    → ((determine_routing_mode w g ip ≡ tunnel) ↔ IsInward w ip)
      × ((determine_routing_mode w g ip ≡ dual) ↔ (¬ IsInward w ip × (w.dual_mode_enabled ≡ true)))
      × ((determine_routing_mode w g ip ≡ direct)
          ↔ (¬ IsInward w ip × (w.dual_mode_enabled ≡ false)))
unfolding determine_routing_mode
determine_routing_mode_lem w g ip e =
    rw e (choose_tunnel_iff w ip, choose_dual_iff w ip, choose_direct_iff w ip)
