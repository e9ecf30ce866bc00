-- ===== src/Ingress/Watcher/Lifecycle.antt =====
-- Start and Stop of internal/ingress/watcher.go. `detected` is what the wait for the ingress
-- controller's service finds, `redetected` what the first sync finds
-- where the wait found none, `synced` whether the informer's cache fills before the channel stopCh
-- is closed; on a channel that is closed already, WaitForCacheSync fails.
use pipeops_k8_agent.Prelude.{
  ◌≡◌, refl, Bool, true, false, not, ◌&&◌, Option, none, some, List, arith, if◌then◌else◌,
}
use pipeops_k8_agent.Ingress.Routes.{Services, Ingress}
use pipeops_k8_agent.Ingress.Watcher.{
  IngressService, Controller, IngressWatcher, controller_service,
}
use pipeops_k8_agent.Ingress.Watcher.Sync.{sync_existing_ingresses}

-- A service that Start finds replaces the one that is known.
unfoldable pub started : Option IngressService → IngressWatcher → IngressWatcher
started detected w = record w {
  is_running = true;
  ingress_service = controller_service detected w.ingress_service;
}

-- The second component is false where Start returns an error.
unfoldable pub start :
    Services
    → Controller
    → Option IngressService
    → Option IngressService
    → Bool
    → Option (List Ingress)
    → IngressWatcher
    → IngressWatcher × Bool
start services c detected redetected synced listed w =
    if w.is_running
    then (w, false)
    else if synced && not w.stop_closed
    then ((sync_existing_ingresses services c redetected listed (started detected w)).0, true)
    else (started detected w, false)

-- `none` is the panic of a second close of the channel.
unfoldable pub stop : IngressWatcher → Option IngressWatcher
stop w =
    if not w.is_running
    then some w
    else if w.stop_closed
    then none
    else some (record w { is_running = false; stop_closed = true })

stop_leaves :
    (w v : IngressWatcher)
    → w.is_running ≡ true
    → stop w ≡ some v
    → (v.is_running ≡ false) × (v.stop_closed ≡ true)
unfolding stop
stop_leaves w v running e = ground (arith, running, e)

start_closed :
    (v : IngressWatcher) (services : Services) (c : Controller)
    (detected redetected : Option IngressService) (synced : Bool) (listed : Option (List Ingress))
    → v.is_running ≡ false
    → v.stop_closed ≡ true
    → start services c detected redetected synced listed v ≡ (started detected v, false)
unfolding start
start_closed v services c detected redetected true listed off closed = rw (off, closed) refl
start_closed v services c detected redetected false listed off closed = rw (off, closed) refl

-- A watcher that was stopped while it ran never starts again: every Start fails, leaves it marked as
-- running, and the next Stop panics.
stop-start :
    (w v : IngressWatcher) (services : Services) (c : Controller)
    (detected redetected : Option IngressService) (synced : Bool) (listed : Option (List Ingress))
    → w.is_running ≡ true
    → stop w ≡ some v
    → ((start services c detected redetected synced listed v).1 ≡ false)
      × ((start services c detected redetected synced listed v).0.is_running ≡ true)
      × (stop (start services c detected redetected synced listed v).0 ≡ none)
unfolding started
stop-start w v services c detected redetected synced listed running e =
    let (off, closed) = stop_leaves w v running e in
    rw (start_closed v services c detected redetected synced listed off closed)
      (refl, refl, unfold stop in rw closed refl)
