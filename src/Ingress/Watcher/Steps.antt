-- ===== src/Ingress/Watcher/Steps.antt =====
-- What an IngressWatcher goes through. The API, the control plane and the detection of the ingress
-- controller may answer otherwise at each step; `P` is what every detected service satisfies.
use pipeops_k8_agent.Prelude.{◌≡◌, Bool, Option, none, some, List}
use pipeops_k8_agent.Prelude.Bytes.{Bytes}
use pipeops_k8_agent.Ingress.Routes.{Services, Ingress}
use pipeops_k8_agent.Ingress.Watcher.{
  IngressService, Controller, IngressWatcher, Action, on_ingress_event, update_cluster_uuid,
}
use pipeops_k8_agent.Ingress.Watcher.Sync.{trigger_resync}
use pipeops_k8_agent.Ingress.Watcher.Lifecycle.{start, stop}

abbrev pub IsDetected : (IngressService → Type 0) → Option IngressService → Type 0
IsDetected P none = Unit
IsDetected P (some s) = P s

pub data WatcherStep (P : IngressService → Type 0) (w : IngressWatcher)
    : IngressWatcher → Type 0 where
  event :
      (services : Services) (c : Controller) (detected : Option IngressService) (g : Ingress)
      (action : Action)
      → IsDetected P detected
      → WatcherStep P w (on_ingress_event services c detected g action w)
  resync :
      (services : Services) (c : Controller) (detected : Option IngressService)
      (listed : Option (List Ingress))
      → IsDetected P detected
      → WatcherStep P w (trigger_resync services c detected listed w).0
  starts :
      (services : Services) (c : Controller) (detected redetected : Option IngressService)
      (synced : Bool) (listed : Option (List Ingress))
      → IsDetected P detected
      → IsDetected P redetected
      → WatcherStep P w (start services c detected redetected synced listed w).0
  update_uuid : (uuid : Bytes) → WatcherStep P w (update_cluster_uuid uuid w)
  stops : {v : IngressWatcher} → stop w ≡ some v → WatcherStep P w v

pub data WatcherReach (P : IngressService → Type 0) (w : IngressWatcher)
    : IngressWatcher → Type 0 where
  here : WatcherReach P w w
  next : {u v : IngressWatcher} → WatcherReach P w u → WatcherStep P u v → WatcherReach P w v
