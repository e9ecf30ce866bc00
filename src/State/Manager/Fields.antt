-- ===== src/State/Manager/Fields.antt =====
-- The reads and writes of single fields, and Clear, of pkg/state/state.go. A function that saves a
-- field loads the state, or takes the cached one where that fails, and saves it with the new field.
use pipeops_k8_agent.Prelude.{Bool, true, false, Option, none, some, [], ◌∷◌, if◌then◌else◌}
use pipeops_k8_agent.Prelude.Bytes.{Bytes}
use pipeops_k8_agent.State.Manager.{
  AgentState, empty_state, StateManager, Yaml, Reads, Writes, Object, Written, done, refused,
  unconfirmed, load, save, and_then, cache_saved,
}

unfoldable pub or_cached : Option AgentState → StateManager → AgentState
or_cached none sm = sm.cached_state
or_cached (some s) sm = s

unfoldable pub save_changed :
    Yaml → Reads → Writes → (AgentState → AgentState) → StateManager → Bool × StateManager
save_changed y r w change sm =
    let (loaded, sm') = load y r sm in save y w (change (or_cached loaded sm')) sm'

abbrev pub with_agent_id : Bytes → AgentState → AgentState
with_agent_id v s = record s { agent_id = v }

abbrev pub with_cluster_id : Bytes → AgentState → AgentState
with_cluster_id v s = record s { cluster_id = v }

abbrev pub with_cluster_token : Bytes → AgentState → AgentState
with_cluster_token v s = record s { cluster_token = v }

abbrev pub with_cluster_cert_data : Bytes → AgentState → AgentState
with_cluster_cert_data v s = record s { cluster_cert_data = v }

abbrev pub with_gateway_ws_url : Bytes → AgentState → AgentState
with_gateway_ws_url v s = record s { gateway_ws_url = v }

unfoldable pub save_agent_id : Yaml → Reads → Writes → Bytes → StateManager → Bool × StateManager
save_agent_id y r w v sm = save_changed y r w (with_agent_id v) sm

unfoldable pub save_cluster_id : Yaml → Reads → Writes → Bytes → StateManager → Bool × StateManager
save_cluster_id y r w v sm = save_changed y r w (with_cluster_id v) sm

unfoldable pub clear_cluster_id : Yaml → Reads → Writes → StateManager → Bool × StateManager
clear_cluster_id y r w sm = save_cluster_id y r w [] sm

unfoldable pub save_cluster_token :
    Yaml → Reads → Writes → Bytes → StateManager → Bool × StateManager
save_cluster_token y r w v sm = save_changed y r w (with_cluster_token v) sm

unfoldable pub save_cluster_cert_data :
    Yaml → Reads → Writes → Bytes → StateManager → Bool × StateManager
save_cluster_cert_data y r w v sm = save_changed y r w (with_cluster_cert_data v) sm

unfoldable pub save_gateway_ws_url :
    Yaml → Reads → Writes → Bytes → StateManager → Bool × StateManager
save_gateway_ws_url y r w v sm = save_changed y r w (with_gateway_ws_url v) sm

-- An empty field is an error.
unfoldable pub not_empty : Bytes → Option Bytes
not_empty [] = none
not_empty (x ∷ v) = some (x ∷ v)

unfoldable pub field_of : (AgentState → Option Bytes) → Option AgentState → Option Bytes
field_of f none = none
field_of f (some s) = f s

unfoldable pub get_agent_id : Yaml → Reads → StateManager → Option Bytes × StateManager
get_agent_id y r sm = let (s, sm') = load y r sm in (field_of (λ s. not_empty s.agent_id) s, sm')

unfoldable pub get_cluster_id : Yaml → Reads → StateManager → Option Bytes × StateManager
get_cluster_id y r sm =
    let (s, sm') = load y r sm in (field_of (λ s. not_empty s.cluster_id) s, sm')

unfoldable pub get_cluster_token : Yaml → Reads → StateManager → Option Bytes × StateManager
get_cluster_token y r sm =
    let (s, sm') = load y r sm in (field_of (λ s. not_empty s.cluster_token) s, sm')

unfoldable pub get_cluster_cert_data : Yaml → Reads → StateManager → Option Bytes × StateManager
get_cluster_cert_data y r sm =
    let (s, sm') = load y r sm in (field_of (λ s. not_empty s.cluster_cert_data) s, sm')

unfoldable pub get_gateway_ws_url : Yaml → Reads → StateManager → Option Bytes × StateManager
get_gateway_ws_url y r sm =
    let (s, sm') = load y r sm in (field_of (λ s. some s.gateway_ws_url) s, sm')

-- The answers to the deletions, of which one of a missing object counts as done.
pub record Deletes : Type 0 where
  pub file_remove_fails : Bool
  pub config_map_deleted : Written
  pub secret_deleted : Written

unfoldable pub delete_object : Written → Object → Bool × Object
delete_object done old = (true, none)
delete_object refused old = (false, old)
delete_object unconfirmed old = (false, none)

unfoldable pub delete_config_map : Deletes → StateManager → Bool × StateManager
delete_config_map d sm =
    let (ok, object) = delete_object d.config_map_deleted sm.config_map in
    (ok, record sm { config_map = object })

unfoldable pub delete_secret : Deletes → StateManager → Bool × StateManager
delete_secret d sm =
    let (ok, object) = delete_object d.secret_deleted sm.secret in
    (ok, record sm { secret = object })

unfoldable pub remove_file : Deletes → StateManager → Bool × StateManager
remove_file d sm = if d.file_remove_fails then (false, sm) else (true, record sm { file = none })

unfoldable pub clear : Deletes → StateManager → Bool × StateManager
clear d sm =
    if sm.use_file_store
    then and_then (remove_file d sm) (cache_saved empty_state)
    else if sm.use_config_map
    then and_then (and_then (delete_config_map d sm) (delete_secret d)) (cache_saved empty_state)
    else (true, sm)
