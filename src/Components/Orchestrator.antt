-- ===== src/Components/Orchestrator.antt =====
-- The installation plan of internal/components/orchestrator.go and its test of readiness. What an
-- InstallFunc returns is part of its step. The wait after a step only delays the next one, so that
-- it is an event here; what Kubernetes and Helm list is an argument of the test that it polls.
pub mod Plan
pub mod Readiness
use pipeops_k8_agent.Prelude.{
  ℕ, zero, suc, ◌+◌, ◌*◌, Bool, true, false, not, ◌&&◌, ◌||◌, ◌==◌, ltb, Option, none, some, List,
  [], ◌∷◌, ◌++◌, length, if◌then◌else◌,
}
use pipeops_k8_agent.Prelude.Bytes.{Bytes, bytes_eq, codes}

pub record InstallStep : Type 0 where
  pub name : Bytes
  pub namespace : Bytes
  pub release_name : Bytes
  pub critical : Bool
  pub installs : Bool

pub data Event : Type 0 where
  installing : Bytes → Event
  ingress_ready : Event
  waiting : Bytes → Bytes → Event

-- The error of a critical step with its name, or the components that failed; and what happened.
pub record PlanRun : Type 0 where
  pub error : Option Bytes
  pub failed_components : List Bytes
  pub events : List Event

-- What a step that was installed leads to; `has_callback` says whether OnIngressControllerReady is set.
unfoldable pub after_install : Bool → InstallStep → List Event
after_install has_callback s =
    if bytes_eq s.name (codes "ingress-controller") && has_callback
    then ingress_ready ∷ waiting s.namespace s.release_name ∷ []
    else waiting s.namespace s.release_name ∷ []

-- A step in front of the run of the later ones.
unfoldable pub run_step : Bool → InstallStep → PlanRun → PlanRun
run_step has_callback s later =
    if s.installs
    then record later { events = installing s.name ∷ after_install has_callback s ++ later.events }
    else if s.critical
    then record { error = some s.name; failed_components = []; events = installing s.name ∷ [] }
    else record later {
      failed_components = s.name ∷ later.failed_components;
      events = installing s.name ∷ later.events;
    }

unfoldable pub execute_installation_plan : Bool → List InstallStep → PlanRun
execute_installation_plan has_callback [] = record {
  error = none;
  failed_components = [];
  events = [];
}
execute_installation_plan has_callback (s ∷ steps) =
    run_step has_callback s (execute_installation_plan has_callback steps)

-- The replicas of a Deployment or StatefulSet and the ready ones; the unavailable ones of a DaemonSet.
pub data Workload : Type 0 where
  replicated : ℕ → ℕ → Workload
  daemon_set : ℕ → Workload

abbrev pub is_ready : Workload → Bool
is_ready (replicated replicas ready) = replicas == ready
is_ready (daemon_set unavailable) = not (ltb 0 unavailable)

unfoldable pub all_ready : List Workload → Bool
all_ready [] = true
all_ready (w ∷ workloads) = is_ready w && all_ready workloads

-- Whether all are ready, and how many match; `none` is an error of a list.
unfoldable pub are_resources_ready : Option (List Workload) → Bool × ℕ
are_resources_ready none = (false, 0)
are_resources_ready (some []) = (false, 0)
are_resources_ready (some (w ∷ workloads)) = (all_ready (w ∷ workloads), length (w ∷ workloads))

unfoldable pub is_release_deployed : Bytes → Option Bytes → Bool
is_release_deployed [] status = false
is_release_deployed (x ∷ name) none = false
is_release_deployed (x ∷ name) (some status) = bytes_eq status (codes "deployed")

unfoldable pub component_ready : Option (List Workload) → Bytes → Option Bytes → Bool
component_ready listed release_name status =
    let (ready, matched) = are_resources_ready listed in
    if ltb 0 matched then ready else is_release_deployed release_name status
