-- ===== src/Tunnel/GatewayWatcher/Clash.antt =====
-- Two Gateways of one name in different namespaces: the tunnel IDs of
-- internal/tunnel/gateway_watcher.go leave the namespace out.
use pipeops_k8_agent.Prelude.{
  ◌≡◌, ◌≢◌, inl, inr, Option, none, some, List, [], ◌∷◌, arith, sym, ◌∙◌, subst,
}
use pipeops_k8_agent.Prelude.Bytes.{Bytes, Bytes-discrete}
use pipeops_k8_agent.Prelude.Map
use pipeops_k8_agent.Prelude.Map.{Map}
use pipeops_k8_agent.Tunnel.Gateway.{Gateway, Listener, Protocol, Routes}
use pipeops_k8_agent.Tunnel.GatewayWatcher.{
  TunnelService, GatewayWatcher, RoutingMode, Register, get_protocol_from_listener, make_tunnel_id,
  process_listeners, process_gateway, belongs_to, deregister_gateway_tunnels,
}
use pipeops_k8_agent.Tunnel.GatewayWatcher.Cache.{
  HasKeys, cached, Listed, Serves, mode_of, unless_belongs, one_cases, process_one,
  cached-process_gateway, cached-deregister,
}

module _ (w : GatewayWatcher) (register : Register) (routes : Routes) (g : Gateway)
    (mode : RoutingMode) (ip : Bytes) where
  process_listeners-HasKeys :
      (ls : List Listener) (m : Map Bytes TunnelService)
      → HasKeys m
      → HasKeys (process_listeners w register routes g mode ip ls m)
  unfolding process_listeners process_one
  process_listeners-HasKeys [] m h = h
  process_listeners-HasKeys (l ∷ ls) m h =
      process_listeners-HasKeys ls (process_one w register routes g mode ip l m)
        (elim (one_cases w register routes g mode ip l m) [
          | inl same ↦ rw same h
          | inr (t, st, eq) ↦ rw eq (Map.insert-HasKeys Bytes-discrete t.tunnel_id t m h)
        ])

pub process_gateway-HasKeys :
    (w : GatewayWatcher) (register : Register) (routes : Routes) (g : Gateway)
    → HasKeys w.tunnels
    → HasKeys (process_gateway w register routes g).tunnels
unfolding process_gateway
process_gateway-HasKeys w register routes g h =
    process_listeners-HasKeys w register routes g _ _ g.listeners w.tunnels h

-- The namespace and the name of an entry that is there.
gone_after :
    (g : Gateway) (mode : RoutingMode) (o : Option TunnelService)
    → Serves g mode o
    → unless_belongs g.namespace g.name o ≡ none
unfolding belongs_to
gone_after g mode none s = absurd s
gone_after g mode (some t) s = ground arith

not_served :
    (g k : Gateway) (mode mode' : RoutingMode) (o : Option TunnelService)
    → g.namespace ≢ k.namespace
    → Serves k mode o
    → ¬ Serves g mode' o
not_served g k mode mode' none h s = λ x. x
not_served g k mode mode' (some t) h s = λ x. h (sym x.1 ∙ s.1)

same_tunnel_id :
    (w : GatewayWatcher) (register : Register) (routes : Routes) (g k : Gateway) (p : Protocol)
    (l m : Listener)
    → g.name ≡ k.name
    → l.port ≡ m.port
    → make_tunnel_id (process_gateway w register routes g).cluster_uuid p k.name m.port
      ≡ make_tunnel_id w.cluster_uuid p g.name l.port
unfolding process_gateway
same_tunnel_id w register routes g k p l m name port = cc

-- Of two Gateways with one name in different namespaces, each with the routes of its own namespace,
-- with listeners of one protocol and port, and where every registration is accepted, the one that is processed last takes over the tunnel
-- of the first; deregistering it leaves no tunnel under that ID. The cache at the start binds no
-- ID twice.
pub gateway_clash :
    (w : GatewayWatcher) (register : Register) (routes routes' : Routes) (g k : Gateway)
    (l m : Listener) (p : Protocol)
    → HasKeys w.tunnels
    → ((t : TunnelService) → register t ≢ none)
    → g.name ≡ k.name
    → g.namespace ≢ k.namespace
    → Listed l g.listeners
    → Listed m k.listeners
    → get_protocol_from_listener l.protocol ≡ some p
    → get_protocol_from_listener m.protocol ≡ some p
    → l.port ≡ m.port
    → let first = process_gateway w register routes g in
      let second = process_gateway first register routes' k in
      let id = make_tunnel_id w.cluster_uuid p g.name l.port in
      Serves g (mode_of w g) (cached first id)
      × ¬ Serves g (mode_of w g) (cached second id)
      × (cached (deregister_gateway_tunnels second k.namespace k.name) id ≡ none)
gateway_clash w register routes routes' g k l m p keys accepts name namespace il im pl pm port =
    let first = process_gateway w register routes g in
    let second = process_gateway first register routes' k in
    let id = make_tunnel_id w.cluster_uuid p g.name l.port in
    let same_id : make_tunnel_id first.cluster_uuid p k.name m.port ≡ id =
      same_tunnel_id w register routes g k p l m name port in
    let taken : Serves k (mode_of first k) (cached second id) =
      subst (λ i. Serves k (mode_of first k) (cached second i)) same_id
        (cached-process_gateway first register routes' k m p im pm (accepts _)) in
    (
      cached-process_gateway w register routes g l p il pl (accepts _),
      not_served g k (mode_of first k) (mode_of w g) (cached second id) namespace taken,
      cached-deregister second k.namespace k.name id (
            process_gateway-HasKeys first register routes' k
              (process_gateway-HasKeys w register routes g keys))
          ∙ gone_after k (mode_of first k) (cached second id) taken,
    )
