-- ===== src/Agent/Registration/Once.antt =====
-- The goroutines that register again run one at a time.
use pipeops_k8_agent.Prelude.{◌≡◌, refl, ap, List, [], ◌∷◌, arith, length, if◌then◌else◌}
use pipeops_k8_agent.Agent.Registration.{
  Registrar, RegisterEnv, Task, Event, registration_error, reconnects, task_runs, handle_event,
  handle_events, handle_registration_error, handle_control_plane_reconnect, run_task,
}

-- The flag is set exactly while one goroutine runs, and there are never two.
abbrev pub IsSingle : Registrar → Type 0
IsSingle a = length a.tasks ≡ (if a.reregistering then 1 else 0)

run_task-IsSingle :
    (env : RegisterEnv) (tasks : List Task) (a : Registrar)
    → tasks ≡ a.tasks
    → IsSingle a
    → IsSingle (run_task env tasks a)
unfolding run_task
run_task-IsSingle env [] a e h = h
run_task-IsSingle env (t ∷ rest) a e h =
    let long : length (t ∷ rest) ≡ length a.tasks = ap length e in ground (arith, h, long)

event-IsSingle : (a : Registrar) (e : Event) → IsSingle a → IsSingle (handle_event a e)
unfolding handle_event handle_registration_error handle_control_plane_reconnect
event-IsSingle a (registration_error cleared) h = ground (arith, h)
event-IsSingle a (reconnects done gateway_mode) h = ground (arith, h)
event-IsSingle a (task_runs env) h = run_task-IsSingle env a.tasks a refl h

-- From an agent that has one goroutine registering again if its flag is set and none otherwise,
-- such as a new one, and whatever registration errors, reconnects and ends of registrations there
-- are, at most one goroutine registers again at a time, and the flag is set exactly while it runs.
pub handle_events-IsSingle :
    (a : Registrar) (es : List Event) → IsSingle a → IsSingle (handle_events a es)
unfolding handle_events
handle_events-IsSingle a [] h = h
handle_events-IsSingle a (e ∷ es) h =
    handle_events-IsSingle (handle_event a e) es (event-IsSingle a e h)
