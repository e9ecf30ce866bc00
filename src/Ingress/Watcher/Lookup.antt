-- ===== src/Ingress/Watcher/Lookup.antt =====
-- What LookupRoute answers.
use pipeops_k8_agent.Prelude.{
  ◌≡◌, refl, ◌⊎◌, inl, inr, Option, none, some, [], ◌∷◌, arith, Option-cases,
}
use pipeops_k8_agent.Prelude.Bytes.{Bytes, Bytes-discrete}
use pipeops_k8_agent.Prelude.Text.{before}
use pipeops_k8_agent.Prelude.Map
use pipeops_k8_agent.Prelude.Map.Entries.{lookup-Entries}
use pipeops_k8_agent.Ingress.Routes.{Route}
use pipeops_k8_agent.Ingress.Watcher.{
  IngressService, IngressWatcher, new_ingress_watcher, lookup_without_port, lookup_route,
}
use pipeops_k8_agent.Ingress.Watcher.Cache.{IsPublic, IsTo, IsCached}
use pipeops_k8_agent.Ingress.Watcher.Sound.{reach-IsSound, new-IsSound}
use pipeops_k8_agent.Ingress.Watcher.Steps.{WatcherReach}

without_port :
    (w : IngressWatcher) (o : Option Bytes) (r : Route)
    → lookup_without_port o w ≡ some r
    → (h : Bytes) × (o ≡ some h) × (Map.lookup Bytes-discrete h w.route_cache ≡ some r)
unfolding lookup_without_port
without_port w none r e = cc
without_port w (some []) r e = cc
without_port w (some (x ∷ s)) r e = (x ∷ s, refl, e)

lookup_cases :
    (w : IngressWatcher) (host : Bytes) (r : Route)
    → lookup_route w host ≡ some r
    → (h : Bytes) × ((h ≡ host) ⊎ (before b':' host ≡ some h))
      × (Map.lookup Bytes-discrete h w.route_cache ≡ some r)
unfolding lookup_route
lookup_cases w host r e = elim (Option-cases (Map.lookup Bytes-discrete host w.route_cache)) [
  | inl n ↦
      let (h, o, l) = without_port w (before b':' host) r (ground (arith, e, n)) in (h, inr o, l)
  | inr (s, f) ↦ (host, inl refl, ground (arith, e, f))
]

-- Let every ingress controller that is detected satisfy P. After any events, resyncs, starts and
-- stops of a new watcher, a route that LookupRoute answers has as its host the host that was asked
-- for, or that host up to its first colon; and it leads to a detected ingress controller, or it
-- has a port, is in no system namespace, and is not to the API server.
pub lookup_route-IsCached :
    (P : IngressService → Type 0) (uuid endpoint mode : Bytes) (w : IngressWatcher) (host : Bytes)
    (r : Route)
    → WatcherReach P (new_ingress_watcher uuid endpoint mode) w
    → lookup_route w host ≡ some r
    → ((r.host ≡ host) ⊎ (before b':' host ≡ some r.host)) × (IsPublic r ⊎ IsTo P r)
lookup_route-IsCached P uuid endpoint mode w host r reach e =
    let (h, from, found) = lookup_cases w host r e in
    let sound = reach-IsSound P reach (new-IsSound P uuid endpoint mode) in
    let (own, target) =
      lookup-Entries Bytes-discrete (IsCached P) h r w.route_cache found sound.cached in
    (elim from [ inl p ↦ inl (rw own p) | inr p ↦ inr (rw own p) ], target)
