-- ===== src/Agent/Registration/Registered.antt =====
-- What a registration leaves when it succeeds.
use pipeops_k8_agent.Prelude.{
  ◌≡◌, ◌≢◌, ◌⊎◌, refl, sym, subst, ◌∙◌, Bool, true, false, not, ◌&&◌, ◌||◌, Option, none, some, [],
  ◌∷◌, arith, if◌then◌else◌, Bool-cases, inl, inr,
}
use pipeops_k8_agent.Prelude.Bytes.{Bytes, bytes_eq, bytes_eq_iff}
use pipeops_k8_agent.Agent.Heartbeat.{connecting, connected}
use pipeops_k8_agent.Agent.Registration.{
  Registrar, RegisterEnv, RegistrationResult, Outcome, Stored, save_url, kept_id, take_token,
  set_connected, take_result, register_as, existing_id, id_or, register, register_with,
  load_cluster_credentials,
}

-- Connected, with a cluster ID that is the stored one.
abbrev pub IsRegistered : Registrar → Type 0
IsRegistered a =
    (a.connection_state ≡ connected) × (a.cluster_id ≢ []) × (a.stored.cluster_id ≡ a.cluster_id)

bytes_ne : (s t : Bytes) → bytes_eq s t ≡ false → s ≢ t
bytes_ne s t e same = absurd (ground (arith, e, (bytes_eq_iff s t).1 same))

take_token-cluster_id :
    (env : RegisterEnv) (token : Bytes) (a : Registrar)
    → ((take_token env token a).cluster_id ≡ a.cluster_id)
      × ((take_token env token a).stored.cluster_id ≡ a.stored.cluster_id)
unfolding take_token
take_token-cluster_id env [] a = (refl, refl)
take_token-cluster_id env (x ∷ token) a = elim (Bool-cases (env.token_valid (x ∷ token))) [
  | inl e ↦ (ground (arith, e), ground (arith, e))
  | inr e ↦ (ground (arith, e), ground (arith, e))
]

save_url-cluster_id :
    (written : Bool) (url : Bytes) (s : Stored) → (save_url written url s).cluster_id ≡ s.cluster_id
save_url-cluster_id written [] s = refl
save_url-cluster_id written (x ∷ url) s = ground arith

kept_id-cluster_id :
    (env : RegisterEnv) (existing id : Bytes) (s : Stored)
    → env.id_written ≡ true
    → (bytes_eq existing [] ≡ true) ⊎ (existing ≡ s.cluster_id)
    → (kept_id env existing id s).cluster_id ≡ id
unfolding kept_id
kept_id-cluster_id env existing id s w (inl h) = ground (arith, w, h)
kept_id-cluster_id env existing id s w (inr h) = elim (Bool-cases (bytes_eq id existing)) [
  | inl e ↦
      let same : id ≡ s.cluster_id = (bytes_eq_iff id existing).0 e ∙ h in
      let same' : s.cluster_id ≡ id = sym same in ground (arith, w, e, same')
  | inr e ↦ ground (arith, w, e)
]

if-result :
    (b : Bool) (c d : Outcome)
    → (if b then (c.0, false) else d).1 ≡ true
    → (b ≡ false) × ((if b then (c.0, false) else d) ≡ d)
if-result true c d h = absurd (ground (arith, h))
if-result false c d h = (refl, refl)

take_result-IsRegistered :
    (env : RegisterEnv) (existing : Bytes) (a : Registrar) (o : Option RegistrationResult)
    → env.id_written ≡ true
    → (bytes_eq existing [] ≡ true) ⊎ (existing ≡ a.stored.cluster_id)
    → (take_result env existing a o).1 ≡ true
    → IsRegistered (take_result env existing a o).0
unfolding take_result
take_result-IsRegistered env existing a none w h ok = absurd (ground (arith, ok))
take_result-IsRegistered env existing a (some r) w h ok =
    let stored = save_url env.url_written r.gateway_ws_url a.stored in
    let a' : Registrar = record a {
      cluster_id = r.cluster_id;
      stored = kept_id env existing r.cluster_id stored;
    } in
    let done = set_connected (take_token env r.token a') in
    let (some_id, same) =
      if-result (bytes_eq r.cluster_id []) (record a { stored = stored }, true) done ok in
    let same_url = save_url-cluster_id env.url_written r.gateway_ws_url a.stored in
    let h' : (bytes_eq existing [] ≡ true) ⊎ (existing ≡ stored.cluster_id) = elim h [
      | inl e ↦ inl e
      | inr e ↦ inr (e ∙ sym same_url)
    ] in
    let (id, stored_id) = take_token-cluster_id env r.token a' in
    let kept = kept_id-cluster_id env existing r.cluster_id stored w h' in
    let good : IsRegistered done.0 =
      (refl, λ e. bytes_ne r.cluster_id [] some_id (sym id ∙ e), stored_id ∙ kept ∙ sym id) in
    subst (λ o. IsRegistered o.0) (sym same) good

if-IsRegistered :
    (b : Bool) (c d : Outcome)
    → (b ≡ true → IsRegistered c.0)
    → (d.1 ≡ true → IsRegistered d.0)
    → (if b then c else d).1 ≡ true
    → IsRegistered (if b then c else d).0
if-IsRegistered true c d then_ else_ ok = then_ refl
if-IsRegistered false c d then_ else_ ok = else_ ok

and_fst : (b c d e f : Bool) → (b && c && d && e && f) ≡ true → b ≡ true
and_fst true c d e f h = refl
and_fst false c d e f h = ground (arith, h)

not-true : (b : Bool) → not b ≡ true → b ≡ false
not-true true h = absurd (ground (arith, h))
not-true false h = refl

resumed-IsRegistered :
    (existing : Bytes) (a : Registrar)
    → (bytes_eq existing [] ≡ true) ⊎ (existing ≡ a.stored.cluster_id)
    → bytes_eq existing [] ≡ false
    → IsRegistered (set_connected (record a { cluster_id = existing })).0
resumed-IsRegistered existing a (inl e) some_id = absurd (ground (arith, e, some_id))
resumed-IsRegistered existing a (inr e) some_id = (refl, bytes_ne existing [] some_id, sym e)

register_as-IsRegistered :
    (env : RegisterEnv) (changed : Bool) (existing : Bytes) (a : Registrar)
    → env.id_written ≡ true
    → (bytes_eq existing [] ≡ true) ⊎ (existing ≡ a.stored.cluster_id)
    → (register_as env changed existing a).1 ≡ true
    → IsRegistered (register_as env changed existing a).0
unfolding register_as
register_as-IsRegistered env changed existing a w h ok =
    let has_id = not (bytes_eq existing []) in
    let unchanged = not changed in
    let has_url = not (bytes_eq a.stored.gateway_ws_url []) in
    if-IsRegistered (has_id && unchanged && env.url_read && has_url && env.resumes)
      (set_connected (record a { cluster_id = existing })) (take_result env existing a env.answer)
      (λ c. resumed-IsRegistered existing a h (
        not-true (bytes_eq existing [])
          (and_fst has_id unchanged env.url_read has_url env.resumes c)))
      (take_result-IsRegistered env existing a env.answer w h) ok

id_or_none :
    (b : Bool) (id : Bytes)
    → (bytes_eq (if b then id else []) [] ≡ true) ⊎ ((if b then id else []) ≡ id)
id_or_none true id = inr refl
id_or_none false id = inl (ground arith)

register_branch :
    (has gateway : Bool) (a : Registrar) (d : Outcome)
    → (d.1 ≡ true → IsRegistered d.0)
    → (if not has || gateway then (a, true) else d).1 ≡ true
    → (((if not has || gateway then (a, true) else d).0 ≡ a) × ((has ≡ false) ⊎ (gateway ≡ true)))
      ⊎ IsRegistered (if not has || gateway then (a, true) else d).0
register_branch false gateway a d good ok = inl (refl, inl refl)
register_branch true true a d good ok = inl (refl, inr refl)
register_branch true false a d good ok = inr (good ok)

existing_id-or :
    (env : RegisterEnv) (a : Registrar)
    → (bytes_eq (existing_id env a) [] ≡ true) ⊎ (existing_id env a ≡ a.stored.cluster_id)
existing_id-or env a = id_or_none env.id_read a.stored.cluster_id

register_with-IsRegistered :
    (env : RegisterEnv) (loaded : Outcome)
    → env.id_written ≡ true
    → (register_with env loaded).1 ≡ true
    → IsRegistered (register_with env loaded).0
unfolding register_with
register_with-IsRegistered env (a, changed) w ok =
    register_as-IsRegistered env changed (existing_id env a)
      (record a { cluster_id = id_or (existing_id env a) a.cluster_id }) w (existing_id-or env a) ok

-- What register leaves when it returns no error, where a cluster ID that is new can be saved:
-- either nothing has changed, and there is no control plane or it is in gateway mode, or the
-- agent is connected, its cluster ID is not empty, and the stored one is the same.
pub register-IsRegistered :
    (env : RegisterEnv) (a : Registrar)
    → env.id_written ≡ true
    → (register env a).1 ≡ true
    → (((register env a).0 ≡ a) × ((env.has_control_plane ≡ false) ⊎ (env.gateway_mode ≡ true)))
      ⊎ IsRegistered (register env a).0
unfolding register
register-IsRegistered env a w ok =
    let loaded = load_cluster_credentials env (record a { connection_state = connecting }) in
    register_branch env.has_control_plane env.gateway_mode a (register_with env loaded)
      (register_with-IsRegistered env loaded w) ok
