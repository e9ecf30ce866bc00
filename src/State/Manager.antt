-- ===== src/State/Manager.antt =====
-- The StateManager of pkg/state/state.go: the agent's state in a file, or in a ConfigMap and a
-- Secret, or nowhere, with a cache of it. YAML is a parameter; what the file system and the
-- Kubernetes API answer to a call is an argument. The manager stands with its file, its temporary
-- file and its two objects.
pub mod Fields
pub mod Stored
pub mod Atomic
use pipeops_k8_agent.Prelude.{
  Bool, true, false, not, ◌&&◌, ◌||◌, Option, none, some, [], ◌∷◌, if◌then◌else◌,
}
use pipeops_k8_agent.Prelude.Bytes.{Bytes, Bytes-discrete, codes}
use pipeops_k8_agent.Prelude.Map
use pipeops_k8_agent.Prelude.Map.{Map}

pub record AgentState : Type 0 where
  pub agent_id : Bytes
  pub cluster_id : Bytes
  pub cluster_token : Bytes
  pub cluster_cert_data : Bytes
  pub gateway_ws_url : Bytes

abbrev pub empty_state : AgentState
empty_state = record {
  agent_id = [];
  cluster_id = [];
  cluster_token = [];
  cluster_cert_data = [];
  gateway_ws_url = [];
}

-- The data of a ConfigMap or a Secret; `none` is an object that does not exist.
abbrev pub Object : Type 0
Object = Option (Map Bytes Bytes)

pub record StateManager : Type 0 where
  pub use_config_map : Bool
  pub use_file_store : Bool
  pub cached_state : AgentState
  pub file : Option Bytes
  pub temp_file : Option Bytes
  pub config_map : Object
  pub secret : Object

-- Marshal and Unmarshal; `none` is an error.
pub record Yaml : Type 0 where
  pub marshal : AgentState → Option Bytes
  pub unmarshal : Bytes → Option AgentState

-- Which reads fail, otherwise than for a missing file or object.
pub record Reads : Type 0 where
  pub file_fails : Bool
  pub config_map_fails : Bool
  pub secret_fails : Bool

-- A write through the API: done, refused, or done although an error is returned.
pub data Written : Type 0 where
  done refused unconfirmed : Written

-- What meets a Save: `partial` is what a failed write leaves in the temporary file.
pub record Writes : Type 0 where
  pub mkdir_fails : Bool
  pub partial : Option Bytes
  pub rename_fails : Bool
  pub config_map_get_fails : Bool
  pub config_map_written : Written
  pub secret_get_fails : Bool
  pub secret_written : Written

unfoldable pub new_state_manager : Bool → StateManager
new_state_manager in_cluster = record {
  use_config_map = in_cluster;
  use_file_store = false;
  cached_state = empty_state;
  file = none;
  temp_file = none;
  config_map = none;
  secret = none;
}

unfoldable pub new_state_manager_with_file : StateManager
new_state_manager_with_file = record (new_state_manager false) { use_file_store = true }

unfoldable pub update_cache : AgentState → StateManager → StateManager
update_cache s sm = record sm { cached_state = s }

-- data[key]
abbrev pub value_of : Object → Bytes → Bytes
value_of none key = []
value_of (some content) key = elim (Map.lookup Bytes-discrete key content) [
  | none ↦ []
  | some v ↦ v
]

unfoldable pub read_objects : Object → Object → AgentState
read_objects config_map secret = record {
  agent_id = value_of config_map (codes "agent_id");
  cluster_id = value_of config_map (codes "cluster_id");
  cluster_token = value_of secret (codes "cluster_token");
  cluster_cert_data = value_of secret (codes "cluster_cert_data");
  gateway_ws_url = value_of config_map (codes "gateway_ws_url");
}

-- The state in a file: the empty state for an empty one.
unfoldable pub parsed : Yaml → Bytes → Option AgentState
parsed y [] = some empty_state
parsed y (x ∷ content) = y.unmarshal (x ∷ content)

-- The state that is returned, `none` for an error, and cached.
unfoldable pub cache_loaded : Option AgentState → StateManager → Option AgentState × StateManager
cache_loaded none sm = (none, sm)
cache_loaded (some s) sm = (some s, update_cache s sm)

unfoldable pub read_file : Yaml → Option Bytes → StateManager → Option AgentState × StateManager
read_file y none sm = (some empty_state, sm)
read_file y (some content) sm = cache_loaded (parsed y content) sm

unfoldable pub load_from_file : Yaml → Reads → StateManager → Option AgentState × StateManager
load_from_file y r sm = if r.file_fails then (none, sm) else read_file y sm.file sm

unfoldable pub load_objects : Reads → StateManager → Option AgentState × StateManager
load_objects r sm =
    if r.config_map_fails || r.secret_fails
    then (none, sm)
    else cache_loaded (some (read_objects sm.config_map sm.secret)) sm

unfoldable pub load : Yaml → Reads → StateManager → Option AgentState × StateManager
load y r sm =
    if sm.use_file_store
    then load_from_file y r sm
    else if sm.use_config_map
    then load_objects r sm
    else (some empty_state, sm)

-- The temporary file is written and renamed. The first component is false for an error.
unfoldable pub commit_file : Writes → Bytes → StateManager → Bool × StateManager
commit_file w content sm = elim w.partial [
  | some left ↦ (false, record sm { temp_file = some left })
  | none ↦
      if w.rename_fails
      then (false, record sm { temp_file = none })
      else (true, record sm { file = some content; temp_file = none })
]

unfoldable pub save_to_file : Yaml → Writes → AgentState → StateManager → Bool × StateManager
save_to_file y w s sm = elim (y.marshal s) [
  | none ↦ (false, sm)
  | some content ↦ if w.mkdir_fails then (false, sm) else commit_file w content sm
]

-- Create or Update of an object with new data.
unfoldable pub write_object : Written → Map Bytes Bytes → Object → Bool × Object
write_object done content old = (true, some content)
write_object refused content old = (false, old)
write_object unconfirmed content old = (false, some content)

unfoldable pub config_map_data : AgentState → Map Bytes Bytes
config_map_data s =
    (codes "agent_id", s.agent_id)
    ∷ (codes "cluster_id", s.cluster_id)
    ∷ (codes "gateway_ws_url", s.gateway_ws_url)
    ∷ []

unfoldable pub secret_data : AgentState → Map Bytes Bytes
secret_data s =
    (codes "cluster_token", s.cluster_token) ∷ (codes "cluster_cert_data", s.cluster_cert_data) ∷ []

unfoldable pub save_to_config_map : Writes → AgentState → StateManager → Bool × StateManager
save_to_config_map w s sm =
    let (ok, object) = write_object w.config_map_written (config_map_data s) sm.config_map in
    if w.config_map_get_fails then (false, sm) else (ok, record sm { config_map = object })

unfoldable pub save_to_secret : Writes → AgentState → StateManager → Bool × StateManager
save_to_secret w s sm =
    let (ok, object) = write_object w.secret_written (secret_data s) sm.secret in
    if w.secret_get_fails then (false, sm) else (ok, record sm { secret = object })

-- What follows a step that returned no error.
unfoldable pub and_then :
    Bool × StateManager → (StateManager → Bool × StateManager) → Bool × StateManager
and_then (true, sm) f = f sm
and_then (false, sm) f = (false, sm)

unfoldable pub cache_saved : AgentState → StateManager → Bool × StateManager
cache_saved s sm = (true, update_cache s sm)

unfoldable pub save : Yaml → Writes → AgentState → StateManager → Bool × StateManager
save y w s sm =
    if sm.use_file_store
    then and_then (save_to_file y w s sm) (cache_saved s)
    else if sm.use_config_map
    then and_then (and_then (save_to_config_map w s sm) (save_to_secret w s)) (cache_saved s)
    else (true, sm)
