-- ===== src/Tests/State.antt =====
-- Runs of the model of pkg/state/state.go, and its theorems at concrete inputs.
use pipeops_k8_agent.Prelude.{◌≡◌, refl, true, false, Option, none, some, [], ◌∷◌, arith}
use pipeops_k8_agent.Prelude.Bytes.{Bytes, codes}
use pipeops_k8_agent.State.Manager.{
  AgentState, empty_state, StateManager, Yaml, Reads, Writes, done, refused, load, save, and_then,
  save_to_file, commit_file, cache_saved, load_objects, save_to_config_map, write_object,
  save_to_secret, new_state_manager_with_file,
}
use pipeops_k8_agent.State.Manager.Fields.{or_cached, save_changed, with_agent_id}
use pipeops_k8_agent.State.Manager.Stored.{IsReadable, kept, base, load-save, load-save_changed}

abbrev agent_id_of : Bytes → Option AgentState
agent_id_of [] = none
agent_id_of (x ∷ d) = some (with_agent_id d empty_state)

-- A notation for states that have an agent ID only.
abbrev plain : Yaml
plain = record { marshal = λ s. some (1 ∷ s.agent_id); unmarshal = agent_id_of }

abbrev known : AgentState
known = with_agent_id (codes "a") empty_state

abbrev reads_well : Reads
reads_well = record { file_fails = false; config_map_fails = false; secret_fails = false }

abbrev writes_well : Writes
writes_well = record {
  mkdir_fails = false;
  partial = none;
  rename_fails = false;
  config_map_get_fails = false;
  config_map_written = done;
  secret_get_fails = false;
  secret_written = done;
}

-- The Secret is refused.
abbrev writes_half : Writes
writes_half = record writes_well { secret_written = refused }

known-IsReadable : IsReadable plain known
known-IsReadable d e =
    let q : 1 ∷ codes "a" ≡ d = ground (arith, e) in (ground (arith, e), rw (← q) refl)

known_saved : (save plain writes_well known new_state_manager_with_file).0 ≡ true
unfolding save new_state_manager_with_file and_then save_to_file commit_file cache_saved
known_saved = refl

load-save_example :
    (load plain reads_well (save plain writes_well known new_state_manager_with_file).1).0
    ≡ some (kept new_state_manager_with_file known)
load-save_example =
    load-save plain reads_well writes_well known new_state_manager_with_file known-IsReadable
      (refl, refl, refl) known_saved

-- A manager in a cluster that has loaded nothing yet, beside a ConfigMap with a cluster.
abbrev in_cluster : StateManager
in_cluster = record {
  use_config_map = true;
  use_file_store = false;
  cached_state = empty_state;
  file = none;
  temp_file = none;
  config_map = some ((codes "cluster_id", codes "c") ∷ []);
  secret = none;
}

-- The first read of the Secret fails.
abbrev reads_badly : Reads
reads_badly = record reads_well { secret_fails = true }

change-IsReadable : IsReadable plain (with_agent_id (codes "a") (base plain reads_badly in_cluster))
unfolding load or_cached load_objects
change-IsReadable = known-IsReadable

changed_saved :
    (save_changed plain reads_badly writes_well (with_agent_id (codes "a")) in_cluster).0 ≡ true
unfolding save_changed load save load_objects and_then save_to_config_map write_object
    save_to_secret cache_saved
changed_saved = refl

load-save_changed_example :
    (load plain reads_well
      (save_changed plain reads_badly writes_well (with_agent_id (codes "a")) in_cluster).1).0
    ≡ some (kept in_cluster (with_agent_id (codes "a") (base plain reads_badly in_cluster)))
load-save_changed_example =
    load-save_changed plain reads_badly reads_well writes_well (with_agent_id (codes "a"))
      in_cluster change-IsReadable (refl, refl, refl) changed_saved

-- The cluster ID that the ConfigMap held is lost.
cluster_id_lost :
    (load plain reads_well
      (save_changed plain reads_badly writes_well (with_agent_id (codes "a")) in_cluster).1).0
    ≡ some known
unfolding load or_cached load_objects
cluster_id_lost = load-save_changed_example
