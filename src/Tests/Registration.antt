-- ===== src/Tests/Registration.antt =====
-- Runs of the model of the registration, and its theorems at concrete inputs.
use pipeops_k8_agent.Prelude.{◌≡◌, refl, Bool, true, false, some, List, [], ◌∷◌, ◌⊎◌, ℕ_discrete}
use pipeops_k8_agent.Prelude.Bytes.{Bytes-discrete, codes}
use pipeops_k8_agent.Prelude.Text.{trim_space, trim_left, trim_right}
use pipeops_k8_agent.Agent.Heartbeat.{connected}
use pipeops_k8_agent.Agent.Registration.{
  Registrar, RegisterEnv, Event, registration_error, reconnects, task_runs, handle_events, register,
  register_with, register_as, take_result, take_token, kept_id, load_cluster_credentials,
  valid_token, try_token, fallback_token,
}
use pipeops_k8_agent.Agent.Registration.Once.{IsSingle, handle_events-IsSingle}
use pipeops_k8_agent.Agent.Registration.Registered.{IsRegistered, register-IsRegistered}
use pipeops_k8_agent.Agent.Registration.Forgotten.{
  in_gateway, all_gateway, IsForgotten, registration_error-IsForgotten,
}

-- An agent that is registered as "c".
abbrev agent : Registrar
agent = record {
  cluster_id = codes "c";
  cluster_token = [];
  connection_state = connected;
  stored = record { cluster_id = codes "c"; token = []; gateway_ws_url = [] };
  reregistering = false;
  tasks = [];
  has_watcher = true;
  actions = [];
}

-- The control plane gives the ID "d"; the token of the service account is valid.
abbrev env : Bool → RegisterEnv
env gateway = record {
  has_control_plane = true;
  gateway_mode = gateway;
  token_read = true;
  config_token = [];
  service_account_token = codes "t";
  certificate_changed = false;
  id_read = true;
  url_read = true;
  resumes = true;
  answer = some (record { cluster_id = codes "d"; token = []; gateway_ws_url = codes "u" });
  url_written = true;
  id_written = true;
  token_written = true;
  token_valid = λ t. true;
}

registered : (register (env false) agent).1 ≡ true
unfolding register register_with register_as take_result take_token kept_id load_cluster_credentials
    valid_token try_token fallback_token trim_space trim_left trim_right ℕ_discrete Bytes-discrete
registered = refl

registered_id : (register (env false) agent).0.stored.cluster_id ≡ codes "d"
unfolding register register_with register_as take_result take_token kept_id load_cluster_credentials
    valid_token try_token fallback_token trim_space trim_left trim_right ℕ_discrete Bytes-discrete
registered_id = refl

kept_token : (register (env false) agent).0.stored.token ≡ codes "t"
unfolding register register_with register_as take_result take_token kept_id load_cluster_credentials
    valid_token try_token fallback_token trim_space trim_left trim_right ℕ_discrete Bytes-discrete
kept_token = refl

register-IsRegistered_example :
    (((register (env false) agent).0 ≡ agent)
      × (((env false).has_control_plane ≡ false) ⊎ ((env false).gateway_mode ≡ true)))
    ⊎ IsRegistered (register (env false) agent).0
register-IsRegistered_example = register-IsRegistered (env false) agent refl registered

abbrev events : List Event
events = registration_error true ∷ reconnects false false ∷ task_runs (env false) ∷ []

handle_events-IsSingle_example : IsSingle (handle_events agent events)
handle_events-IsSingle_example = handle_events-IsSingle agent events refl

abbrev gateway_events : List Event
gateway_events = task_runs (env true) ∷ reconnects false true ∷ []

gateway : all_gateway gateway_events ≡ true
unfolding all_gateway in_gateway
gateway = refl

registration_error-IsForgotten_example :
    IsForgotten (handle_events agent (registration_error true ∷ gateway_events))
registration_error-IsForgotten_example =
    registration_error-IsForgotten agent gateway_events refl gateway
