-- ===== src/State/Manager/Atomic.antt =====
-- What a Save leaves when it fails.
use pipeops_k8_agent.Prelude.{◌≡◌, ◌⊎◌, Bool, true, false, some, arith}
use pipeops_k8_agent.State.Manager.{
  AgentState, StateManager, Yaml, Writes, save, and_then, cache_saved, save_to_file, commit_file,
  save_to_config_map, save_to_secret, write_object, config_map_data, secret_data, update_cache,
}
use pipeops_k8_agent.State.Manager.Stored.{save-file, save-objects}

-- The file has the whole YAML of the new state, which is cached; or an error, and both are as before.
abbrev pub FileOutcome : Yaml → AgentState → StateManager → Bool × StateManager → Type 0
FileOutcome y s sm (ok, after) =
    ((ok ≡ true) × (after.file ≡ y.marshal s) × (after.cached_state ≡ s))
    ⊎ ((ok ≡ false) × (after.file ≡ sm.file) × (after.cached_state ≡ sm.cached_state))

save_to_file-FileOutcome :
    (y : Yaml) (w : Writes) (s : AgentState) (sm : StateManager)
    → FileOutcome y s sm (and_then (save_to_file y w s sm) (cache_saved s))
unfolding and_then save_to_file cache_saved commit_file update_cache
save_to_file-FileOutcome y w s sm = ground arith

-- A Save to the file is all or nothing: without an error the file holds the whole YAML of the state,
-- and with an error, at whatever step, the file and the cached state are those before.
save-FileOutcome :
    (y : Yaml) (w : Writes) (s : AgentState) (sm : StateManager)
    → sm.use_file_store ≡ true
    → FileOutcome y s sm (save y w s sm)
save-FileOutcome y w s sm f = rw (save-file y w s sm f) (save_to_file-FileOutcome y w s sm)

-- The objects as before, or only the ConfigMap new, with an error; or both new.
abbrev pub ObjectsOutcome : AgentState → StateManager → Bool × StateManager → Type 0
ObjectsOutcome s sm (ok, after) =
    ((ok ≡ false)
      × (after.config_map ≡ sm.config_map)
      × (after.secret ≡ sm.secret)
      × (after.cached_state ≡ sm.cached_state))
    ⊎ ((ok ≡ false)
        × (after.config_map ≡ some (config_map_data s))
        × (after.secret ≡ sm.secret)
        × (after.cached_state ≡ sm.cached_state))
    ⊎ ((after.config_map ≡ some (config_map_data s))
        × (after.secret ≡ some (secret_data s))
        × (((ok ≡ true) × (after.cached_state ≡ s))
            ⊎ ((ok ≡ false) × (after.cached_state ≡ sm.cached_state))))

objects-ObjectsOutcome :
    (w : Writes) (s : AgentState) (sm : StateManager)
    → ObjectsOutcome s sm
        (and_then (and_then (save_to_config_map w s sm) (save_to_secret w s)) (cache_saved s))
unfolding and_then save_to_config_map save_to_secret write_object cache_saved update_cache
objects-ObjectsOutcome w s sm = ground arith

-- A Save to the ConfigMap and the Secret leaves both as before, or only the ConfigMap new, each time
-- with an error, or both new: a new Secret never stands with an old ConfigMap. The state is cached
-- exactly when there is no error.
save-ObjectsOutcome :
    (y : Yaml) (w : Writes) (s : AgentState) (sm : StateManager)
    → sm.use_file_store ≡ false
    → sm.use_config_map ≡ true
    → ObjectsOutcome s sm (save y w s sm)
save-ObjectsOutcome y w s sm f c = rw (save-objects y w s sm f c) (objects-ObjectsOutcome w s sm)
