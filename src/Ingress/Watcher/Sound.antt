-- ===== src/Ingress/Watcher/Sound.antt =====
-- Syncs, starts and stops keep the route cache sound.
use pipeops_k8_agent.Prelude.{
  ◌≡◌, if◌then◌else◌, Bool, true, false, not, ◌&&◌, Option, none, some, List, [], ◌∷◌, arith,
}
use pipeops_k8_agent.Prelude.Bytes.{Bytes}
use pipeops_k8_agent.Ingress.Routes.{Services, Ingress}
use pipeops_k8_agent.Ingress.Watcher.{
  IngressService, Controller, IngressWatcher, IngressData, controller_service, update_cluster_uuid,
  new_ingress_watcher,
}
use pipeops_k8_agent.Ingress.Watcher.Sync.{
  sync_ingresses, send_sync, sync_with, sync_existing_ingresses, trigger_resync,
}
use pipeops_k8_agent.Ingress.Watcher.Lifecycle.{started, start, stop}
use pipeops_k8_agent.Ingress.Watcher.Steps.{
  IsDetected, WatcherStep, event, resync, starts, update_uuid, stops, WatcherReach, here, next,
}
use pipeops_k8_agent.Ingress.Watcher.Cache.{
  IsSound, controller_service-IsDetected, on_ingress_event-IsSound,
}
use pipeops_k8_agent.Ingress.Watcher.SyncSound.{sync_ingresses-IsCached}

module _ (P : IngressService → Type 0) where
  send_sync-IsSound :
      (c : Controller) (s : IngressService) (es : List IngressData) (w : IngressWatcher)
      → IsSound P w
      → IsSound P (send_sync c s es w).0
  unfolding send_sync
  send_sync-IsSound c s [] w v = v
  send_sync-IsSound c s (e ∷ es) w v = record { cached = v.cached; detected = v.detected }

  sync_with-IsSound :
      (services : Services) (c : Controller) (o : Option IngressService)
      (listed : Option (List Ingress)) (w : IngressWatcher)
      → IsDetected P o
      → IsSound P w
      → IsSound P (sync_with services c o listed w).0
  unfolding sync_with
  sync_with-IsSound services c none listed w d v = v
  sync_with-IsSound services c (some s) none w d v = record { cached = v.cached; detected = d }
  sync_with-IsSound services c (some s) (some gs) w d v =
      let acc = sync_ingresses services s gs ([], w.route_cache) in
      send_sync-IsSound c s acc.0 (record w { ingress_service = some s; route_cache = acc.1 })
        (record {
          cached = sync_ingresses-IsCached P services s gs ([], w.route_cache) d v.cached;
          detected = d;
        })

  sync-IsSound :
      (services : Services) (c : Controller) (o : Option IngressService)
      (listed : Option (List Ingress)) (w : IngressWatcher)
      → IsDetected P o
      → IsSound P w
      → IsSound P (sync_existing_ingresses services c o listed w).0
  unfolding sync_existing_ingresses
  sync-IsSound services c o listed w d v =
      sync_with-IsSound services c (controller_service w.ingress_service o) listed w
        (controller_service-IsDetected P w.ingress_service o v.detected d) v

  if-IsSound :
      (b : Bool) (x y : IngressWatcher × Bool)
      → IsSound P x.0
      → IsSound P y.0
      → IsSound P (if b then x else y).0
  if-IsSound true x y h k = h
  if-IsSound false x y h k = k

  resync-IsSound :
      (services : Services) (c : Controller) (o : Option IngressService)
      (listed : Option (List Ingress)) (w : IngressWatcher)
      → IsDetected P o
      → IsSound P w
      → IsSound P (trigger_resync services c o listed w).0
  unfolding trigger_resync
  resync-IsSound services c o listed w d v =
      if-IsSound w.is_running (sync_existing_ingresses services c o listed w) (w, false)
        (sync-IsSound services c o listed w d v) v

  started-IsSound :
      (o : Option IngressService) (w : IngressWatcher)
      → IsDetected P o
      → IsSound P w
      → IsSound P (started o w)
  unfolding started
  started-IsSound o w d v = record {
    cached = v.cached;
    detected = controller_service-IsDetected P o w.ingress_service d v.detected;
  }

  start-IsSound :
      (services : Services) (c : Controller) (o again : Option IngressService) (synced : Bool)
      (listed : Option (List Ingress)) (w : IngressWatcher)
      → IsDetected P o
      → IsDetected P again
      → IsSound P w
      → IsSound P (start services c o again synced listed w).0
  unfolding start
  start-IsSound services c o again synced listed w d d' v =
      let v' = started-IsSound o w d v in
      let synced_watcher = (sync_existing_ingresses services c again listed (started o w)).0 in
      let first =
        if synced && not w.stop_closed then (synced_watcher, true) else (started o w, false) in
      if-IsSound w.is_running (w, false) first v
        (if-IsSound (synced && not w.stop_closed) (synced_watcher, true) (started o w, false)
          (sync-IsSound services c again listed (started o w) d' v') v')

  stop-IsSound : (w v : IngressWatcher) → stop w ≡ some v → IsSound P w → IsSound P v
  unfolding stop
  stop-IsSound w v e s = record {
    cached = let same : w.route_cache ≡ v.route_cache = ground (arith, e) in rw (← same) (s.cached);
    detected =
        let same : w.ingress_service ≡ v.ingress_service = ground (arith, e) in
        rw (← same) (s.detected);
  }

  step-IsSound : {u v : IngressWatcher} → WatcherStep P u v → IsSound P u → IsSound P v
  step-IsSound {u} (event services c o g action d) s =
      on_ingress_event-IsSound P services c o g action u d s
  step-IsSound {u} (resync services c o listed d) s = resync-IsSound services c o listed u d s
  step-IsSound {u} (starts services c o again synced listed d d') s =
      start-IsSound services c o again synced listed u d d' s
  step-IsSound {u} (update_uuid uuid) s =
      unfold update_cluster_uuid in record { cached = s.cached; detected = s.detected }
  step-IsSound {u} (stops {v} e) s = stop-IsSound u v e s

  pub reach-IsSound : {u v : IngressWatcher} → WatcherReach P u v → IsSound P u → IsSound P v
  reach-IsSound here s = s
  reach-IsSound (next r st) s = step-IsSound st (reach-IsSound r s)

  pub new-IsSound :
      (uuid endpoint mode : Bytes) → IsSound P (new_ingress_watcher uuid endpoint mode)
  unfolding new_ingress_watcher
  new-IsSound uuid endpoint mode = record { cached = tt; detected = tt }
