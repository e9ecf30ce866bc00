-- ===== src/Agent/Registration/Forgotten.antt =====
-- What a registration error leaves in gateway mode.
use pipeops_k8_agent.Prelude.{
  and_split, ◌≡◌, Bool, true, false, not, ◌&&◌, ◌||◌, List, [], ◌∷◌, arith, if◌then◌else◌,
}
use pipeops_k8_agent.Agent.Registration.{
  Registrar, Outcome, RegisterEnv, Task, Event, registration_error, reconnects, task_runs,
  handle_event, handle_events, handle_registration_error, handle_control_plane_reconnect, run_task,
  register, after_register, after_error, after_reconnect,
}

-- The goroutines that register do so in gateway mode.
unfoldable pub in_gateway : Event → Bool
in_gateway (registration_error cleared) = true
in_gateway (reconnects done gateway_mode) = true
in_gateway (task_runs env) = env.gateway_mode

unfoldable pub all_gateway : List Event → Bool
all_gateway [] = true
all_gateway (e ∷ es) = in_gateway e && all_gateway es

-- The agent has no cluster ID, and neither has its state.
abbrev pub IsForgotten : Registrar → Type 0
IsForgotten a = (a.cluster_id ≡ []) × (a.stored.cluster_id ≡ [])

after_register-IsForgotten :
    (t : Task) (rest : List Task) (o : Outcome)
    → IsForgotten o.0
    → IsForgotten (record (after_register t o) { reregistering = false; tasks = rest })
after_register-IsForgotten after_error rest (a, ok) h = h
after_register-IsForgotten after_reconnect rest (a, false) h = h
after_register-IsForgotten after_reconnect rest (a, true) (h, s) =
    (ground (arith, h), ground (arith, s))

gateway-IsForgotten :
    (has gateway : Bool) (a : Registrar) (d : Outcome)
    → gateway ≡ true
    → IsForgotten a
    → IsForgotten (if not has || gateway then (a, true) else d).0
gateway-IsForgotten false gateway a d e h = h
gateway-IsForgotten true true a d e h = h
gateway-IsForgotten true false a d e h = absurd (ground (arith, e))

register-IsForgotten :
    (env : RegisterEnv) (a : Registrar)
    → env.gateway_mode ≡ true
    → IsForgotten a
    → IsForgotten (register env a).0
unfolding register
register-IsForgotten env a e h = gateway-IsForgotten env.has_control_plane env.gateway_mode a _ e h

run_task-IsForgotten :
    (env : RegisterEnv) (tasks : List Task) (a : Registrar)
    → env.gateway_mode ≡ true
    → IsForgotten a
    → IsForgotten (run_task env tasks a)
unfolding run_task
run_task-IsForgotten env [] a e h = h
run_task-IsForgotten env (t ∷ rest) a e h =
    after_register-IsForgotten t rest (register env a) (register-IsForgotten env a e h)

event-IsForgotten :
    (a : Registrar) (e : Event)
    → in_gateway e ≡ true
    → IsForgotten a
    → IsForgotten (handle_event a e)
unfolding handle_event handle_registration_error handle_control_plane_reconnect in_gateway
event-IsForgotten a (registration_error cleared) g (h, s) = (ground (arith, h), ground (arith, s))
event-IsForgotten a (reconnects done gateway_mode) g (h, s) = (ground (arith, h), ground (arith, s))
event-IsForgotten a (task_runs env) g h = run_task-IsForgotten env a.tasks a g h

events-IsForgotten :
    (a : Registrar) (es : List Event)
    → all_gateway es ≡ true
    → IsForgotten a
    → IsForgotten (handle_events a es)
unfolding handle_events all_gateway
events-IsForgotten a [] g h = h
events-IsForgotten a (e ∷ es) g h =
    let (first, rest) = and_split (in_gateway e) (all_gateway es) g in
    events-IsForgotten (handle_event a e) es rest (event-IsForgotten a e first h)

-- In gateway mode an agent that is not registering again loses its cluster ID for good by a
-- registration error, where ClearClusterID succeeds: whatever registration errors, reconnects and
-- ends of registrations follow, as long as they register in gateway mode, it has no cluster ID,
-- and neither has the stored state.
pub registration_error-IsForgotten :
    (a : Registrar) (es : List Event)
    → a.reregistering ≡ false
    → all_gateway es ≡ true
    → IsForgotten (handle_events a (registration_error true ∷ es))
unfolding handle_events handle_event handle_registration_error
registration_error-IsForgotten a es idle g =
    events-IsForgotten (handle_event a (registration_error true)) es g
      (ground (arith, idle), ground (arith, idle))
