-- ===== src/Agent/Registration.antt =====
-- The registration of the agent with the control plane and the goroutines that repeat it, of
-- internal/agent/agent.go. What a registration meets is an argument. The registrations of the
-- start and of the heartbeat run outside of these goroutines.
pub mod Once
pub mod Registered
pub mod Forgotten
use pipeops_k8_agent.Prelude.{
  ℕ, Bool, true, false, not, ◌&&◌, ◌||◌, Option, none, some, List, [], ◌∷◌, if◌then◌else◌,
}
use pipeops_k8_agent.Prelude.Bytes.{Bytes, bytes_eq}
use pipeops_k8_agent.Prelude.Text.{trim_space}
use pipeops_k8_agent.Agent.Heartbeat.{ConnectionState, connecting, connected}

pub record RegistrationResult : Type 0 where
  pub cluster_id : Bytes
  pub token : Bytes
  pub gateway_ws_url : Bytes

-- The fields of the persistent state that a registration reads and writes.
pub record Stored : Type 0 where
  pub cluster_id : Bytes
  pub token : Bytes
  pub gateway_ws_url : Bytes

-- What a registration meets: the control plane and its mode, the credentials, the reads and writes
-- of the state, the resumption, the answer (`none` for an error) and the check of a token. The
-- token of the configuration is "" where there is no configuration.
pub record RegisterEnv : Type 0 where
  pub has_control_plane : Bool
  pub gateway_mode : Bool
  pub token_read : Bool
  pub config_token : Bytes
  pub service_account_token : Bytes
  pub certificate_changed : Bool
  pub id_read : Bool
  pub url_read : Bool
  pub resumes : Bool
  pub answer : Option RegistrationResult
  pub url_written : Bool
  pub id_written : Bool
  pub token_written : Bool
  pub token_valid : Bytes → Bool

-- The goroutines that register again.
pub data Task : Type 0 where
  after_error after_reconnect : Task

-- What a reconnect starts: a heartbeat, which reconnects where it fails, or calls of the watcher.
pub data Action : Type 0 where
  sends_heartbeat resyncs : Action
  updates_cluster_uuid : Bytes → Action

pub record Registrar : Type 0 where
  pub cluster_id : Bytes
  pub cluster_token : Bytes
  pub connection_state : ConnectionState
  pub stored : Stored
  pub reregistering : Bool
  pub tasks : List Task
  pub has_watcher : Bool
  pub actions : List Action

abbrev pub Outcome : Type 0
Outcome = Registrar × Bool

abbrev pub save_url : Bool → Bytes → Stored → Stored
save_url written [] s = s
save_url written (x ∷ url) s = if written then record s { gateway_ws_url = x ∷ url } else s

abbrev pub save_id : Bool → Bytes → Stored → Stored
save_id written id s = if written then record s { cluster_id = id } else s

abbrev pub set_token : RegisterEnv → Bool → Bytes → Registrar → Registrar
set_token env persist token a = record a {
  cluster_token = token;
  stored = if persist && env.token_written then record a.stored { token = token } else a.stored;
}

-- The second component is whether the token that the agent uses has changed.
unfoldable pub try_token : RegisterEnv → Bytes → Bool → Registrar × Bool → Registrar × Bool
try_token env raw persist (a, changed) =
    let token = trim_space raw in
    if bytes_eq token [] || not (env.token_valid token)
    then (a, changed)
    else (set_token env persist token a, changed || not (bytes_eq a.cluster_token token))

abbrev pub persisted_token : RegisterEnv → Registrar → Bytes
persisted_token env a = if env.token_read then a.stored.token else []

-- The tokens of the state, the configuration and the service account, in this order.
unfoldable pub valid_token : RegisterEnv → Bytes → Registrar → Registrar × Bool
valid_token env persisted a =
    let sa = env.service_account_token in
    let first =
      if bytes_eq persisted [] then (a, false) else try_token env persisted false (a, false) in
    let second =
      if bytes_eq first.0.cluster_token [] && not (bytes_eq (trim_space env.config_token) [])
      then try_token env (trim_space env.config_token) true first
      else first in
    if not (bytes_eq sa []) && (bytes_eq second.0.cluster_token [] || not (bytes_eq sa persisted))
    then try_token env sa true second
    else second

-- An agent without a token falls back to one that did not pass the check.
unfoldable pub fallback_token : RegisterEnv → Bytes → Registrar → Registrar
fallback_token env persisted a =
    let sa = env.service_account_token in
    let fallback = if bytes_eq sa [] then persisted else sa in
    if bytes_eq a.cluster_token [] && not (bytes_eq fallback [])
    then set_token env (not (bytes_eq sa [])) fallback a
    else a

unfoldable pub load_cluster_credentials : RegisterEnv → Registrar → Registrar × Bool
load_cluster_credentials env a =
    let persisted = persisted_token env a in
    let (a', changed) = valid_token env persisted a in
    (fallback_token env persisted a', changed || env.certificate_changed)

-- A token that is issued and passes the check is kept, and saved where that succeeds.
unfoldable pub take_token : RegisterEnv → Bytes → Registrar → Registrar
take_token env [] a = a
take_token env (x ∷ token) a =
    if env.token_valid (x ∷ token) then set_token env true (x ∷ token) a else a

abbrev pub set_connected : Registrar → Outcome
set_connected a = (record a { connection_state = connected }, true)

-- The state once the cluster ID is kept: it is saved where it is a new one.
unfoldable pub kept_id : RegisterEnv → Bytes → Bytes → Stored → Stored
kept_id env existing id s =
    if bytes_eq existing [] || not (bytes_eq id existing) then save_id env.id_written id s else s

-- The result of RegisterAgent for a cluster that was registered as `existing`, "" for a new one.
unfoldable pub take_result : RegisterEnv → Bytes → Registrar → Option RegistrationResult → Outcome
take_result env existing a none = (a, false)
take_result env existing a (some r) =
    let stored = save_url env.url_written r.gateway_ws_url a.stored in
    let a' = record a {
      cluster_id = r.cluster_id;
      stored = kept_id env existing r.cluster_id stored;
    } in
    if bytes_eq r.cluster_id []
    then (record a { stored = stored }, false)
    else set_connected (take_token env r.token a')

-- With the cluster ID of the state, if there is one, the session is resumed where it can be.
unfoldable pub register_as : RegisterEnv → Bool → Bytes → Registrar → Outcome
register_as env credentials_changed existing a =
    if not (bytes_eq existing [])
      && not credentials_changed
      && env.url_read
      && not (bytes_eq a.stored.gateway_ws_url [])
      && env.resumes
    then set_connected (record a { cluster_id = existing })
    else take_result env existing a env.answer

abbrev pub existing_id : RegisterEnv → Registrar → Bytes
existing_id env a = if env.id_read then a.stored.cluster_id else []

abbrev pub id_or : Bytes → Bytes → Bytes
id_or [] other = other
id_or (x ∷ id) other = x ∷ id

-- Once the credentials are loaded.
unfoldable pub register_with : RegisterEnv → Registrar × Bool → Outcome
register_with env (a, credentials_changed) =
    register_as env credentials_changed (existing_id env a)
      (record a { cluster_id = id_or (existing_id env a) a.cluster_id })

-- The second component is false for an error.
unfoldable pub register : RegisterEnv → Registrar → Outcome
register env a =
    if not env.has_control_plane || env.gateway_mode
    then (a, true)
    else register_with env
        (load_cluster_credentials env (record a { connection_state = connecting }))

abbrev pub start_task : Task → Registrar → Registrar
start_task t a = record a { reregistering = true; tasks = t ∷ a.tasks }

-- `cleared` is whether ClearClusterID succeeds.
unfoldable pub handle_registration_error : Bool → Registrar → Registrar
handle_registration_error cleared a =
    if a.reregistering
    then a
    else start_task after_error (record a {
      cluster_id = [];
      stored = if cleared then record a.stored { cluster_id = [] } else a.stored;
    })

abbrev pub resync : Registrar → Registrar
resync a = if a.has_watcher then record a { actions = resyncs ∷ a.actions } else a

unfoldable pub handle_control_plane_reconnect : Bool → Bool → Registrar → Registrar
handle_control_plane_reconnect done gateway_mode a =
    if done
    then a
    else if gateway_mode
    then resync (record a { actions = sends_heartbeat ∷ a.actions })
    else if not (bytes_eq a.cluster_id [])
    then resync a
    else if a.reregistering
    then a
    else start_task after_reconnect a

abbrev pub after_register : Task → Outcome → Registrar
after_register after_error (a, ok) = a
after_register after_reconnect (a, false) = a
after_register after_reconnect (a, true) =
    if a.has_watcher
    then record a { actions = resyncs ∷ updates_cluster_uuid a.cluster_id ∷ a.actions }
    else a

-- The goroutine that was started last registers and ends.
unfoldable pub run_task : RegisterEnv → List Task → Registrar → Registrar
run_task env [] a = a
run_task env (t ∷ rest) a = record (after_register t (register env a)) {
  reregistering = false;
  tasks = rest;
}

pub data Event : Type 0 where
  registration_error : Bool → Event
  reconnects : Bool → Bool → Event
  task_runs : RegisterEnv → Event

unfoldable pub handle_event : Registrar → Event → Registrar
handle_event a (registration_error cleared) = handle_registration_error cleared a
handle_event a (reconnects done gateway_mode) = handle_control_plane_reconnect done gateway_mode a
handle_event a (task_runs env) = run_task env a.tasks a

unfoldable pub handle_events : Registrar → List Event → Registrar
handle_events a [] = a
handle_events a (e ∷ es) = handle_events (handle_event a e) es
