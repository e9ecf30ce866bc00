-- ===== src/Tests/Components.antt =====
-- Runs of the model of internal/components/orchestrator.go, and its theorems at concrete inputs.
use pipeops_k8_agent.Prelude.{◌≡◌, refl, ◌⊎◌, true, false, some, List, [], ◌∷◌}
use pipeops_k8_agent.Prelude.Bytes.{codes}
use pipeops_k8_agent.Components.Orchestrator.{InstallStep, execute_installation_plan, run_step}
use pipeops_k8_agent.Components.Orchestrator.Plan.{
  IsComplete, IsAborted, execute_installation_plan_lem,
}

abbrev plan : List InstallStep
plan =
    record {
      name = codes "metrics-server";
      namespace = codes "kube-system";
      release_name = codes "metrics-server";
      critical = false;
      installs = false;
    }
    ∷ record {
      name = codes "ingress-controller";
      namespace = codes "ingress";
      release_name = codes "traefik";
      critical = true;
      installs = false;
    }
    ∷ record {
      name = codes "prometheus";
      namespace = codes "monitoring";
      release_name = codes "prometheus";
      critical = false;
      installs = true;
    }
    ∷ []

plan_aborted : (execute_installation_plan true plan).error ≡ some (codes "ingress-controller")
unfolding execute_installation_plan run_step
plan_aborted = refl

execute_installation_plan_lem_example :
    IsComplete plan (execute_installation_plan true plan)
    ⊎ IsAborted plan (execute_installation_plan true plan)
execute_installation_plan_lem_example = execute_installation_plan_lem true plan
