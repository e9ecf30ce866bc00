-- ===== src/Components/Orchestrator/Readiness.antt =====
-- When a component counts as ready.
use pipeops_k8_agent.Prelude.{
  ◌≡◌, refl, ap, ◌≢◌, ◌⊎◌, ◌↔◌, inl, inr, true, Option, none, some, List, [], ◌∷◌, All, arith,
}
use mathlib.Core.Option.{some-injective}
use pipeops_k8_agent.Prelude.Bytes.{Bytes, bytes_eq_iff, codes}
use pipeops_k8_agent.Components.Orchestrator.{
  Workload, replicated, daemon_set, is_ready, all_ready, are_resources_ready, is_release_deployed,
  component_ready,
}

abbrev pub IsReady : Workload → Type 0
IsReady (replicated replicas ready) = replicas ≡ ready
IsReady (daemon_set unavailable) = unavailable ≡ 0

-- The API lists no workload, or fails to list them.
abbrev pub NoneMatches : Option (List Workload) → Type 0
NoneMatches none = Unit
NoneMatches (some []) = Unit
NoneMatches (some (w ∷ workloads)) = ⊥

abbrev pub AllReady : Option (List Workload) → Type 0
AllReady none = ⊥
AllReady (some []) = ⊥
AllReady (some (w ∷ workloads)) = All IsReady (w ∷ workloads)

is_ready-IsReady : (w : Workload) → (is_ready w ≡ true) ↔ IsReady w
is_ready-IsReady (replicated replicas ready) = (λ e. ground (arith, e), λ e. ground (arith, e))
is_ready-IsReady (daemon_set unavailable) = (λ e. ground (arith, e), λ e. ground (arith, e))

all_ready_iff : (workloads : List Workload) → (all_ready workloads ≡ true) ↔ All IsReady workloads
unfolding all_ready
all_ready_iff [] = (λ e. tt, λ h. refl)
all_ready_iff (w ∷ workloads) =
    let (there, back) = is_ready-IsReady w in
    let (rest, rest_back) = all_ready_iff workloads in
    (
      λ e. (there (ground (arith, e)), rest (ground (arith, e))),
      λ (h, hs). let first = back h in let later = rest_back hs in ground (arith, first, later),
    )

is_release_deployed_iff :
    (name : Bytes) (status : Option Bytes)
    → (is_release_deployed name status ≡ true) ↔ ((name ≢ []) × (status ≡ some (codes "deployed")))
unfolding is_release_deployed
is_release_deployed_iff [] status = (λ e. absurd (ground (arith, e)), λ h. absurd (h.0 refl))
is_release_deployed_iff (x ∷ name) none = (λ e. absurd (ground (arith, e)), λ h. ground (arith, h))
is_release_deployed_iff (x ∷ name) (some status) =
    let (there, back) = bytes_eq_iff status (codes "deployed") in
    (
      λ e. (ground arith, ap some (there e)),
      λ h. back (some-injective status (codes "deployed") h.1),
    )

-- A component is ready exactly when the API lists workloads of it and all of them are ready, or when
-- it lists none or fails to list them, and Helm says of the release, which has a name, that it is
-- deployed.
component_ready_iff :
    (listed : Option (List Workload)) (name : Bytes) (status : Option Bytes)
    → (component_ready listed name status ≡ true)
      ↔ (AllReady listed ⊎ (NoneMatches listed × (name ≢ []) × (status ≡ some (codes "deployed"))))
unfolding component_ready are_resources_ready
component_ready_iff none name status =
    let (there, back) = is_release_deployed_iff name status in
    (
      λ e. let (named, deployed) = there e in inr (tt, named, deployed),
      λ h. elim h [ inl x ↦ absurd x | inr (_, named, deployed) ↦ back (named, deployed) ],
    )
component_ready_iff (some []) name status =
    let (there, back) = is_release_deployed_iff name status in
    (
      λ e. let (named, deployed) = there e in inr (tt, named, deployed),
      λ h. elim h [ inl x ↦ absurd x | inr (_, named, deployed) ↦ back (named, deployed) ],
    )
component_ready_iff (some (w ∷ workloads)) name status =
    let (there, back) = all_ready_iff (w ∷ workloads) in
    (
      λ e. inl (there (ground (arith, e))),
      λ h. elim h [
        | inl x ↦ let ready = back x in ground (arith, ready)
        | inr (n, named, deployed) ↦ absurd n
      ],
    )
