-- ===== src/State/Manager/Stored.antt =====
-- What is loaded after a state, or a field of it, was saved.
use pipeops_k8_agent.Prelude.{
  ◌≡◌, refl, sym, ◌∙◌, ap, ◌≢◌, inl, inr, Bool, true, false, ◌||◌, Option, none, some, [], ◌∷◌,
  if◌then◌else◌, arith, Bool-cases, Option-cases, ℕ_discrete,
}
use pipeops_k8_agent.Prelude.Bytes.{Bytes, Bytes-discrete}
use pipeops_k8_agent.Prelude.Map
use pipeops_k8_agent.State.Manager.{
  AgentState, empty_state, StateManager, Yaml, Reads, Writes, load, save, and_then, cache_saved,
  save_to_file, commit_file, save_to_config_map, save_to_secret, write_object, config_map_data,
  secret_data, read_objects, load_from_file, load_objects, read_file, parsed, cache_loaded,
  update_cache,
}
use pipeops_k8_agent.State.Manager.Fields.{or_cached, save_changed}

-- The YAML of the state is not empty and is read back as the state.
abbrev pub IsReadable : Yaml → AgentState → Type 0
IsReadable y s = (d : Bytes) → y.marshal s ≡ some d → (d ≢ []) × (y.unmarshal d ≡ some s)

abbrev pub NoReadFails : Reads → Type 0
NoReadFails r = (r.file_fails ≡ false) × (r.config_map_fails ≡ false) × (r.secret_fails ≡ false)

file_saved :
    (y : Yaml) (w : Writes) (s : AgentState) (sm : StateManager)
    → (and_then (save_to_file y w s sm) (cache_saved s)).0 ≡ true
    → (d : Bytes) × (y.marshal s ≡ some d)
      × ((and_then (save_to_file y w s sm) (cache_saved s)).1
          ≡ record sm { file = some d; temp_file = none; cached_state = s })
unfolding and_then save_to_file cache_saved commit_file update_cache
file_saved y w s sm e = elim (Option-cases (y.marshal s)) [
  | inl n ↦ absurd (ground (arith, n, e))
  | inr (d, m) ↦ (d, m, ground (arith, m, e))
]

objects_saved :
    (w : Writes) (s : AgentState) (sm : StateManager)
    → (and_then (and_then (save_to_config_map w s sm) (save_to_secret w s)) (cache_saved s)).0
      ≡ true
    → (and_then (and_then (save_to_config_map w s sm) (save_to_secret w s)) (cache_saved s)).1
      ≡ record sm {
        config_map = some (config_map_data s);
        secret = some (secret_data s);
        cached_state = s;
      }
unfolding and_then save_to_config_map save_to_secret write_object cache_saved update_cache
objects_saved w s sm e = ground (arith, e)

read_objects_lem :
    (s : AgentState) → read_objects (some (config_map_data s)) (some (secret_data s)) ≡ s
unfolding read_objects config_map_data secret_data Map.lookup Bytes-discrete ℕ_discrete
read_objects_lem s = refl

parsed_lem :
    (y : Yaml) (s : AgentState) (d : Bytes) → d ≢ [] → y.unmarshal d ≡ some s → parsed y d ≡ some s
unfolding parsed
parsed_lem y s [] h e = absurd (h refl)
parsed_lem y s (x ∷ d) h e = e

load-file :
    (y : Yaml) (r : Reads) (s : AgentState) (sm : StateManager) (d : Bytes)
    → r.file_fails ≡ false
    → sm.use_file_store ≡ true
    → sm.file ≡ some d
    → d ≢ []
    → y.unmarshal d ≡ some s
    → load y r sm ≡ (some s, update_cache s sm)
unfolding load load_from_file read_file update_cache cache_loaded
load-file y r s sm d ok store f h e = rw (store, ok, f, parsed_lem y s d h e) refl

load-objects :
    (y : Yaml) (r : Reads) (s : AgentState) (sm : StateManager)
    → NoReadFails r
    → sm.use_file_store ≡ false
    → sm.use_config_map ≡ true
    → sm.config_map ≡ some (config_map_data s)
    → sm.secret ≡ some (secret_data s)
    → load y r sm ≡ (some s, update_cache s sm)
unfolding load load_objects cache_loaded
load-objects y r s sm (_, ok, ok') store cluster m e =
    rw (store, cluster, ok, ok', m, e, read_objects_lem s) refl

pub save-file :
    (y : Yaml) (w : Writes) (s : AgentState) (sm : StateManager)
    → sm.use_file_store ≡ true
    → save y w s sm ≡ and_then (save_to_file y w s sm) (cache_saved s)
unfolding save
save-file y w s sm f = rw f refl

pub save-objects :
    (y : Yaml) (w : Writes) (s : AgentState) (sm : StateManager)
    → sm.use_file_store ≡ false
    → sm.use_config_map ≡ true
    → save y w s sm
      ≡ and_then (and_then (save_to_config_map w s sm) (save_to_secret w s)) (cache_saved s)
unfolding save
save-objects y w s sm f c = rw (f, c) refl

load-file_saved :
    (y : Yaml) (r : Reads) (w : Writes) (s : AgentState) (sm : StateManager)
    → IsReadable y s
    → NoReadFails r
    → sm.use_file_store ≡ true
    → (save y w s sm).0 ≡ true
    → (load y r (save y w s sm).1).0 ≡ some s
load-file_saved y r w s sm h ok f e =
    let same = save-file y w s sm f in
    let (d, m, after) = file_saved y w s sm (ap (λ x. x.0) (sym same) ∙ e) in
    let (full, back) = h d m in
    let there = record sm { file = some d; temp_file = none; cached_state = s } in
    rw (same, after) (ap (λ x. x.0) (load-file y r s there d ok.0 f refl full back))

load-objects_saved :
    (y : Yaml) (r : Reads) (w : Writes) (s : AgentState) (sm : StateManager)
    → NoReadFails r
    → sm.use_file_store ≡ false
    → sm.use_config_map ≡ true
    → (save y w s sm).0 ≡ true
    → (load y r (save y w s sm).1).0 ≡ some s
load-objects_saved y r w s sm ok f c e =
    let same = save-objects y w s sm f c in
    let after = objects_saved w s sm (ap (λ x. x.0) (sym same) ∙ e) in
    let there = record sm {
      config_map = some (config_map_data s);
      secret = some (secret_data s);
      cached_state = s;
    } in
    rw (same, after) (ap (λ x. x.0) (load-objects y r s there ok f c refl refl))

load-nothing_saved :
    (y : Yaml) (r : Reads) (w : Writes) (s : AgentState) (sm : StateManager)
    → sm.use_file_store ≡ false
    → sm.use_config_map ≡ false
    → (load y r (save y w s sm).1).0 ≡ some empty_state
unfolding load save
load-nothing_saved y r w s sm f c = rw (f, c) refl

-- What is kept of a state that was saved: without a file and a cluster, nothing.
abbrev pub kept : StateManager → AgentState → AgentState
kept sm s = if sm.use_file_store || sm.use_config_map then s else empty_state

-- When Save returns without an error, and YAML reads its own output back, a Load whose reads do not
-- fail returns the state that was saved, from the file or from the ConfigMap and the Secret. With
-- neither it returns the empty state, although Save returned without an error.
pub load-save :
    (y : Yaml) (r : Reads) (w : Writes) (s : AgentState) (sm : StateManager)
    → IsReadable y s
    → NoReadFails r
    → (save y w s sm).0 ≡ true
    → (load y r (save y w s sm).1).0 ≡ some (kept sm s)
load-save y r w s sm h ok e = elim (Bool-cases sm.use_file_store) [
  | inl f ↦ load-file_saved y r w s sm h ok f e ∙ ap some (ground arith)
  | inr f ↦ elim (Bool-cases sm.use_config_map) [
    | inl c ↦ load-objects_saved y r w s sm ok f c e ∙ ap some (ground arith)
    | inr c ↦ load-nothing_saved y r w s sm f c ∙ ap some (ground arith)
  ]
]

if-modes :
    (P : StateManager → Type 0) (b : Bool) (x y : Option AgentState × StateManager)
    → P x.1
    → P y.1
    → P (if b then x else y).1
if-modes P true x y h k = h
if-modes P false x y h k = k

cache_loaded-kept :
    (o : Option AgentState) (sm : StateManager) (s : AgentState)
    → kept (cache_loaded o sm).1 s ≡ kept sm s
unfolding cache_loaded update_cache
cache_loaded-kept none sm s = refl
cache_loaded-kept (some t) sm s = refl

read_file-kept :
    (y : Yaml) (o : Option Bytes) (sm : StateManager) (s : AgentState)
    → kept (read_file y o sm).1 s ≡ kept sm s
unfolding read_file
read_file-kept y none sm s = refl
read_file-kept y (some d) sm s = cache_loaded-kept (parsed y d) sm s

load-kept :
    (y : Yaml) (r : Reads) (sm : StateManager) (s : AgentState) → kept (load y r sm).1 s ≡ kept sm s
unfolding load load_from_file load_objects
load-kept y r sm s =
    let P : StateManager → Type 0 = λ v. kept v s ≡ kept sm s in
    let from_objects = cache_loaded (some (read_objects sm.config_map sm.secret)) sm in
    if-modes P sm.use_file_store (load_from_file y r sm)
      (if sm.use_config_map then load_objects r sm else (some empty_state, sm))
      (if-modes P r.file_fails (none, sm) (read_file y sm.file sm) refl
        (read_file-kept y sm.file sm s))
      (if-modes P sm.use_config_map (load_objects r sm) (some empty_state, sm)
        (if-modes P (r.config_map_fails || r.secret_fails) (none, sm) from_objects refl
          (cache_loaded-kept (some (read_objects sm.config_map sm.secret)) sm s))
        refl)

-- The state that a function which saves one field starts from.
abbrev pub base : Yaml → Reads → StateManager → AgentState
base y r sm = or_cached (load y r sm).0 (load y r sm).1

pub load-save_changed :
    (y : Yaml) (r r' : Reads) (w : Writes) (change : AgentState → AgentState) (sm : StateManager)
    → IsReadable y (change (base y r sm))
    → NoReadFails r'
    → (save_changed y r w change sm).0 ≡ true
    → (load y r' (save_changed y r w change sm).1).0 ≡ some (kept sm (change (base y r sm)))
unfolding save_changed
load-save_changed y r r' w change sm h ok e =
    let s = change (base y r sm) in
    load-save y r' w s (load y r sm).1 h ok e ∙ ap some (load-kept y r sm s)
