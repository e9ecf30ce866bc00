-- ===== src/Tests/Heartbeat.antt =====
-- Runs of the model of the heartbeat of internal/agent/agent.go, and its theorems at concrete inputs.
use pipeops_k8_agent.Prelude.{ℕ, ◌≤◌, ◌≡◌, refl, true, false, [], ◌∷◌, arith}
use pipeops_k8_agent.Prelude.Bytes.{codes}
use pipeops_k8_agent.Agent.Heartbeat.{
  connected, disconnected, HeartbeatAgent, HeartbeatConfig, gateway_mode, Attempt, skipped, beat,
  max_attempts, base_interval, send_heartbeat_with_retry, start_heartbeat, retry_loop,
  after_attempt, send_heartbeat, deliver, update_connection_state, handle_heartbeat,
  handle_heartbeat_failure, heartbeat_round,
}
use pipeops_k8_agent.Agent.Heartbeat.States.{streak, IsState, start_heartbeat-IsState}

abbrev default_config : HeartbeatConfig
default_config = record {
  max_attempts = 0;
  interval = 0;
  interval_connected = 0;
  interval_reconnecting = 0;
  interval_disconnected = 0;
}

-- A connected agent that tolerates one failure.
abbrev agent : HeartbeatAgent
agent = record {
  has_control_plane = true;
  cluster_id = codes "c";
  connection_state = connected;
  last_heartbeat = 0;
  consecutive_heartbeat_failures = 0;
  heartbeat_failure_threshold = 2;
  requests = [];
}

abbrev refused_attempt : Attempt
refused_attempt = record {
  reregistering = false;
  registration = gateway_mode;
  accepted = false;
  now = 5;
  cancelled = false;
}

-- No attempt is accepted.
abbrev silence : ℕ → Attempt
silence k = refused_attempt

default_attempts : 2 ≤ max_attempts default_config
unfolding max_attempts
default_attempts = omega arith

start_heartbeat-IsState_example :
    IsState 2
      (streak default_config agent (beat silence ∷ skipped ∷ beat silence ∷ []))
      (start_heartbeat default_config agent (beat silence ∷ skipped ∷ beat silence ∷ []))
start_heartbeat-IsState_example =
    start_heartbeat-IsState default_config agent (beat silence ∷ skipped ∷ beat silence ∷ [])
      default_attempts tt

two_failures :
    (start_heartbeat default_config agent
      (beat silence ∷ skipped ∷ beat silence ∷ [])).connection_state
    ≡ disconnected
unfolding start_heartbeat heartbeat_round handle_heartbeat handle_heartbeat_failure
    send_heartbeat_with_retry retry_loop after_attempt send_heartbeat deliver
    update_connection_state max_attempts base_interval
two_failures = refl
