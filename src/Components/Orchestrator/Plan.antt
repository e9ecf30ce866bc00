-- ===== src/Components/Orchestrator/Plan.antt =====
-- Which steps of a plan are taken, and how it ends.
use pipeops_k8_agent.Prelude.{
  ◌≡◌, refl, ◌∙◌, ap, ◌⊎◌, inl, inr, Bool, true, false, ◌&&◌, none, some, List, [], ◌∷◌, ◌++◌, All,
  if◌then◌else◌, arith, Bool-cases,
}
use pipeops_k8_agent.Prelude.Bytes.{Bytes, bytes_eq, codes}
use pipeops_k8_agent.Components.Orchestrator.{
  InstallStep, Event, installing, ingress_ready, waiting, PlanRun, after_install, run_step,
  execute_installation_plan,
}

-- The names of the steps that are installed, in the order of the events.
abbrev pub installed : List Event → List Bytes
installed [] = []
installed (installing name ∷ events) = name ∷ installed events
installed (ingress_ready ∷ events) = installed events
installed (waiting namespace release ∷ events) = installed events

abbrev pub names : List InstallStep → List Bytes
names [] = []
names (s ∷ steps) = s.name ∷ names steps

abbrev pub failing : List InstallStep → List Bytes
failing [] = []
failing (s ∷ steps) = if s.installs then failing steps else s.name ∷ failing steps

-- Every critical step can be installed.
abbrev pub IsSurvivable : InstallStep → Type 0
IsSurvivable s = (s.installs ≡ true) ⊎ (s.critical ≡ false)

-- The plan is carried out to its end: no error, each step once and in order, and the failed ones noted.
abbrev pub IsComplete : List InstallStep → PlanRun → Type 0
IsComplete steps r =
    All IsSurvivable steps
    × (r.error ≡ none)
    × (installed r.events ≡ names steps)
    × (r.failed_components ≡ failing steps)

-- The plan ends at a critical step that fails, after the steps before it and without those behind it.
abbrev pub IsAborted : List InstallStep → PlanRun → Type 0
IsAborted steps r =
    (done : List InstallStep) × (s : InstallStep) × (left : List InstallStep) × (steps
      ≡ done ++ s ∷ left)
    × All IsSurvivable done
    × ((s.installs ≡ false) × (s.critical ≡ true))
    × (r.error ≡ some s.name)
    × (installed r.events ≡ names (done ++ s ∷ []))

installed-after_install :
    (has_callback : Bool) (s : InstallStep) (events : List Event)
    → installed (after_install has_callback s ++ events) ≡ installed events
unfolding after_install
installed-after_install has_callback s events =
    elim (Bool-cases (bytes_eq s.name (codes "ingress-controller") && has_callback)) [
      | inl e ↦ rw e refl
      | inr e ↦ rw e refl
    ]

-- The run of a plan whose first step does not end it.
abbrev Continues : InstallStep → PlanRun → PlanRun → Type 0
Continues s later r =
    (r.error ≡ later.error)
    × (installed r.events ≡ s.name ∷ installed later.events)
    × (r.failed_components
        ≡ (if s.installs then later.failed_components else s.name ∷ later.failed_components))

run_step-Continues :
    (has_callback : Bool) (s : InstallStep) (later : PlanRun)
    → IsSurvivable s
    → Continues s later (run_step has_callback s later)
unfolding run_step after_install
run_step-Continues has_callback s later h = elim (Bool-cases s.installs) [
  | inl e ↦
      rw e (refl, ap (λ n. s.name ∷ n) (installed-after_install has_callback s later.events), refl)
  | inr e ↦
      let no_critical : s.critical ≡ false = ground (arith, h, e) in
      rw (e, no_critical) (refl, refl, refl)
]

IsComplete-step :
    (s : InstallStep) (steps : List InstallStep) (later r : PlanRun)
    → IsSurvivable s
    → Continues s later r
    → IsComplete steps later
    → IsComplete (s ∷ steps) r
IsComplete-step s steps later r h (e, n, f) (all, none_yet, in_order, noted) = (
  (h, all),
  e ∙ none_yet,
  n ∙ ap (λ names. s.name ∷ names) in_order,
  f ∙ ap (λ names. if s.installs then names else s.name ∷ names) noted,
)

IsAborted-step :
    (s : InstallStep) (steps : List InstallStep) (later r : PlanRun)
    → IsSurvivable s
    → Continues s later r
    → IsAborted steps later
    → IsAborted (s ∷ steps) r
IsAborted-step s steps later r h (e, n, f) (done, c, left, split, all, bad, error, in_order) = (
  s ∷ done,
  c,
  left,
  ap (λ rest. s ∷ rest) split,
  (h, all),
  bad,
  e ∙ error,
  n ∙ ap (λ names. s.name ∷ names) in_order,
)

run_step-IsAborted :
    (has_callback : Bool) (s : InstallStep) (steps : List InstallStep) (later : PlanRun)
    → s.installs ≡ false
    → s.critical ≡ true
    → IsAborted (s ∷ steps) (run_step has_callback s later)
unfolding run_step
run_step-IsAborted has_callback s steps later e f =
    ([], s, steps, refl, tt, (e, f), rw (e, f) refl, rw (e, f) refl)

first_cases : (s : InstallStep) → IsSurvivable s ⊎ ((s.installs ≡ false) × (s.critical ≡ true))
first_cases s = ground arith

-- A plan without a critical step that fails is carried out to its end: there is no error, every step
-- is installed once and in order, and the components that failed are noted. Otherwise it ends with
-- an error at the first such step: the steps before it and it are installed in order, those behind
-- it are not.
pub execute_installation_plan_lem :
    (has_callback : Bool) (steps : List InstallStep)
    → IsComplete steps (execute_installation_plan has_callback steps)
      ⊎ IsAborted steps (execute_installation_plan has_callback steps)
unfolding execute_installation_plan
execute_installation_plan_lem has_callback [] = inl (tt, refl, refl, refl)
execute_installation_plan_lem has_callback (s ∷ steps) =
    let later = execute_installation_plan has_callback steps in
    let r = run_step has_callback s later in
    let ih = execute_installation_plan_lem has_callback steps in
    elim (first_cases s) [
      | inl h ↦
          let next = run_step-Continues has_callback s later h in
          elim ih [
            | inl c ↦ inl (IsComplete-step s steps later r h next c)
            | inr a ↦ inr (IsAborted-step s steps later r h next a)
          ]
      | inr (e, f) ↦ inr (run_step-IsAborted has_callback s steps later e f)
    ]
