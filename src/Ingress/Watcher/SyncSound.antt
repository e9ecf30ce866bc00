-- ===== src/Ingress/Watcher/SyncSound.antt =====
-- The paths that a sync sends lead to its ingress controller, and so do the routes it caches.
use pipeops_k8_agent.Prelude.{
  All-append, ℕ, ◌≡◌, refl, inl, inr, if◌then◌else◌, Option, none, some, List, [], ◌∷◌, ◌++◌, All,
  Bool-cases, Option-cases,
}
use pipeops_k8_agent.Prelude.Bytes.{Bytes, Bytes-discrete}
use pipeops_k8_agent.Prelude.Map
use pipeops_k8_agent.Prelude.Map.{Map}
use pipeops_k8_agent.Prelude.Map.Entries.{Entries, insert-Entries, lookup-Entries}
use pipeops_k8_agent.Ingress.Routes.{
  Services, HttpPath, Rule, Ingress, Route, is_pipe_ops_managed, path_port,
}
use pipeops_k8_agent.Ingress.Watcher.{IngressService, IngressPath, IngressData}
use pipeops_k8_agent.Ingress.Watcher.Sync.{
  sync_path, sync_paths, paths_so_far, group_rules, cached_route, cache_paths, cache_hosts,
  sync_ingress, sync_ingresses,
}
use pipeops_k8_agent.Ingress.Watcher.Cache.{IsCached}

-- A path whose target is the given service.
abbrev IsFor : IngressService → IngressPath → Type 0
IsFor s p = (p.service_name ≡ s.name) × (p.service_port ≡ s.port)

abbrev AllFor : IngressService → Bytes → List IngressPath → Type 0
AllFor s host ps = All (IsFor s) ps

sync_path-IsFor :
    (s : IngressService) (p : HttpPath) (o : Option ℕ) (rest : List IngressPath)
    → All (IsFor s) rest
    → All (IsFor s) (sync_path s p o rest)
unfolding sync_path
sync_path-IsFor s p none rest h = h
sync_path-IsFor s p (some port) rest h = ((refl, refl), h)

sync_paths-IsFor :
    (services : Services) (s : IngressService) (g : Ingress) (ps : List HttpPath)
    → All (IsFor s) (sync_paths services s g ps)
unfolding sync_paths
sync_paths-IsFor services s g [] = tt
sync_paths-IsFor services s g (p ∷ ps) =
    let rest = sync_paths services s g ps in
    let ih = sync_paths-IsFor services s g ps in
    elim (Option-cases p.service) [
      | inl n ↦ rw (n, sync_paths) ih
      | inr (b, e) ↦
          rw (e, sync_paths) (sync_path-IsFor s p (path_port services g.namespace b) rest ih)
    ]

paths_so_far-IsFor :
    (s : IngressService) (o : Option (List IngressPath)) (host : Bytes)
    (by_host : Map Bytes (List IngressPath))
    → Map.lookup Bytes-discrete host by_host ≡ o
    → Entries (AllFor s) by_host
    → All (IsFor s) (paths_so_far o)
paths_so_far-IsFor s none host by_host e h = tt
paths_so_far-IsFor s (some ps) host by_host e h =
    lookup-Entries Bytes-discrete (AllFor s) host ps by_host e h

group_rules-AllFor :
    (services : Services) (s : IngressService) (g : Ingress) (rules : List Rule)
    (by_host : Map Bytes (List IngressPath))
    → Entries (AllFor s) by_host
    → Entries (AllFor s) (group_rules services s g rules by_host)
unfolding group_rules
group_rules-AllFor services s g [] by_host h = h
group_rules-AllFor services s g (rule ∷ rules) by_host h = elim (Option-cases rule.paths) [
  | inl n ↦ rw (n, group_rules) (group_rules-AllFor services s g rules by_host h)
  | inr (ps, e) ↦
      let old = paths_so_far (Map.lookup Bytes-discrete rule.host by_host) in
      let new = sync_paths services s g ps in
      rw (e, group_rules)
        (group_rules-AllFor services s g rules
          (Map.insert Bytes-discrete rule.host (old ++ new) by_host)
          (insert-Entries Bytes-discrete (AllFor s) rule.host (old ++ new) by_host
            (All-append (IsFor s) old new
              (paths_so_far-IsFor s (Map.lookup Bytes-discrete rule.host by_host) rule.host by_host
                refl h)
              (sync_paths-IsFor services s g ps))
            h))
]

module _ (P : IngressService → Type 0) where
  cache_paths-IsCached :
      (s : IngressService) (g : Ingress) (host : Bytes) (ps : List IngressPath)
      (cache : Map Bytes Route)
      → P s
      → All (IsFor s) ps
      → Entries (IsCached P) cache
      → Entries (IsCached P) (cache_paths s g host ps cache)
  unfolding cache_paths cached_route
  cache_paths-IsCached s g host [] cache d h v = v
  cache_paths-IsCached s g host (p ∷ ps) cache d h v =
      let r = cached_route s g host p in
      cache_paths-IsCached s g host ps (Map.insert Bytes-discrete host r cache) d h.1 (
        insert-Entries Bytes-discrete (IsCached P) host r cache
          (refl, inr (s, d, h.0.0, refl, h.0.1)) v)

  cache_hosts-IsCached :
      (s : IngressService) (g : Ingress) (hosts : Map Bytes (List IngressPath))
      (cache : Map Bytes Route)
      → P s
      → Entries (AllFor s) hosts
      → Entries (IsCached P) cache
      → Entries (IsCached P) (cache_hosts s g hosts cache)
  unfolding cache_hosts
  cache_hosts-IsCached s g [] cache d h v = v
  cache_hosts-IsCached s g ((host, ps) ∷ hosts) cache d h v =
      cache_hosts-IsCached s g hosts (cache_paths s g host ps cache) d h.1
        (cache_paths-IsCached s g host ps cache d h.0 v)

  sync_ingress-IsCached :
      (s : IngressService) (g : Ingress) (hosts : Map Bytes (List IngressPath))
      (acc : List IngressData × Map Bytes Route)
      → P s
      → Entries (AllFor s) hosts
      → Entries (IsCached P) acc.1
      → Entries (IsCached P) (sync_ingress s g hosts acc).1
  unfolding sync_ingress
  sync_ingress-IsCached s g [] (entries, cache) d h v = v
  sync_ingress-IsCached s g (host ∷ hosts) (entries, cache) d h v =
      cache_hosts-IsCached s g (host ∷ hosts) cache d h v

  -- A sync keeps the cache sound.
  pub sync_ingresses-IsCached :
      (services : Services) (s : IngressService) (gs : List Ingress)
      (acc : List IngressData × Map Bytes Route)
      → P s
      → Entries (IsCached P) acc.1
      → Entries (IsCached P) (sync_ingresses services s gs acc).1
  unfolding sync_ingresses
  sync_ingresses-IsCached services s [] acc d v = v
  sync_ingresses-IsCached services s (g ∷ gs) acc d v =
      let by_host = group_rules services s g g.rules [] in
      let after = if is_pipe_ops_managed g then sync_ingress s g by_host acc else acc in
      let kept : Entries (IsCached P) after.1 = elim (Bool-cases (is_pipe_ops_managed g)) [
        | inl e ↦ rw e (
            sync_ingress-IsCached s g by_host acc d (group_rules-AllFor services s g g.rules [] tt)
              v)
        | inr e ↦ rw e v
      ] in
      sync_ingresses-IsCached services s gs after d kept
