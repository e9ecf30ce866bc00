-- ===== src/Agent/Heartbeat.antt =====
-- The heartbeat of internal/agent/agent.go and the connection state that it keeps. Durations are
-- numbers of nanoseconds as 64-bit words; what a registration and a request to the control plane
-- meet is an argument of each attempt. Registrations in other goroutines are left out.
pub mod Attempts
pub mod States
pub mod Waits
use pipeops_k8_agent.Prelude.{
  ℕ, zero, suc, ◌+◌, ◌-◌, ◌*◌, ◌%◌, ◌^◌, ◌==◌, ltb, leb, Bool, true, false, not, ◌&&◌, List, [],
  ◌∷◌, Option, none, some, if◌then◌else◌,
}
use pipeops_k8_agent.Prelude.Bytes.{is_empty, Bytes, codes}

pub data ConnectionState : Type 0 where
  disconnected connecting connected reconnecting : ConnectionState

-- The part of a HeartbeatRequest that depends on the state.
pub record HeartbeatRequest : Type 0 where
  pub cluster_id : Bytes
  pub status : Bytes
  pub tunnel_status : Bytes

-- The fields of Agent that the heartbeat uses; `requests` has the accepted ones, the latest first.
pub record HeartbeatAgent : Type 0 where
  pub has_control_plane : Bool
  pub cluster_id : Bytes
  pub connection_state : ConnectionState
  pub last_heartbeat : ℕ
  pub consecutive_heartbeat_failures : ℕ
  pub heartbeat_failure_threshold : ℕ
  pub requests : List HeartbeatRequest

-- MaxAttempts of the configuration, 0 for one that is not positive, Interval as the 64 bits of its
-- duration, which may be negative, and the intervals of the heartbeat in seconds.
pub record HeartbeatConfig : Type 0 where
  pub max_attempts : ℕ
  pub interval : ℕ
  pub interval_connected : ℕ
  pub interval_reconnecting : ℕ
  pub interval_disconnected : ℕ

-- What register meets: nothing to do in gateway mode, an error, or success, with the cluster ID that
-- it leaves.
pub data Registration : Type 0 where
  gateway_mode : Registration
  register_failed registered : Bytes → Registration

-- What one attempt meets: a re-registration in progress, a registration if one is needed, the answer
-- to the request, the time, and the end of the context in the wait after it.
pub record Attempt : Type 0 where
  pub reregistering : Bool
  pub registration : Registration
  pub accepted : Bool
  pub now : ℕ
  pub cancelled : Bool

pub data SendResult : Type 0 where
  delivered in_progress failed : SendResult

unfoldable pub update_connection_state : ConnectionState → HeartbeatAgent → HeartbeatAgent
update_connection_state s a = record a { connection_state = s }

unfoldable pub register : Registration → HeartbeatAgent → Bool × HeartbeatAgent
register gateway_mode a = (true, a)
register (register_failed id) a =
    (false, update_connection_state connecting (record a { cluster_id = id }))
register (registered id) a =
    (true, update_connection_state connected (record a { cluster_id = id }))

unfoldable pub agent_status : ConnectionState → Bytes
agent_status connected = codes "healthy"
agent_status connecting = codes "reconnecting"
agent_status reconnecting = codes "reconnecting"
agent_status disconnected = codes "disconnected"

unfoldable pub tunnel_status : ConnectionState → Bytes
tunnel_status connected = codes "connected"
tunnel_status _ = codes "disconnected"

unfoldable pub heartbeat_request : HeartbeatAgent → HeartbeatRequest
heartbeat_request a = record {
  cluster_id = a.cluster_id;
  status = agent_status a.connection_state;
  tunnel_status = tunnel_status a.connection_state;
}

unfoldable pub deliver : Attempt → HeartbeatAgent → SendResult × HeartbeatAgent
deliver t a =
    if t.accepted
    then (delivered, record a { requests = heartbeat_request a ∷ a.requests })
    else (failed, a)

unfoldable pub after_register : Attempt → Bool × HeartbeatAgent → SendResult × HeartbeatAgent
after_register t (ok, a) = if ok && not (is_empty a.cluster_id) then deliver t a else (failed, a)

unfoldable pub send_heartbeat : Attempt → HeartbeatAgent → SendResult × HeartbeatAgent
send_heartbeat t a =
    if not a.has_control_plane
    then (delivered, a)
    else if not (is_empty a.cluster_id)
    then deliver t a
    else if t.reregistering
    then (in_progress, a)
    else after_register t (register t.registration a)

unfoldable pub max_attempts : HeartbeatConfig → ℕ
max_attempts c = if c.max_attempts == 0 then 3 else c.max_attempts

unfoldable pub base_interval : HeartbeatConfig → ℕ
base_interval c = if c.interval == 0 then 5000000000 else c.interval

abbrev pub max_backoff : ℕ
max_backoff = 30000000000

-- The wait after an attempt, from 1: the product wraps, and a negative duration does not wait.
unfoldable pub backoff : ℕ → ℕ → ℕ
backoff base attempt =
    let d = base * 2 ^ (attempt - 1) % 2 ^ 64 in
    if leb (2 ^ 63) d then 0 else if ltb max_backoff d then max_backoff else d

-- What follows an attempt, with the rest of the loop from a state and the waits of the loop.
unfoldable pub after_attempt :
    ℕ
    → ℕ
    → Attempt
    → (HeartbeatAgent → Bool × List ℕ × HeartbeatAgent)
    → SendResult × HeartbeatAgent
    → Bool × List ℕ × HeartbeatAgent
after_attempt wait left t later (delivered, a) = (true, [], record a { last_heartbeat = t.now })
after_attempt wait left t later (in_progress, a) = (true, [], a)
after_attempt wait left t later (failed, a) =
    if left == 0
    then (false, [], a)
    else if t.cancelled
    then (false, [], update_connection_state reconnecting a)
    else let (ok, waits, a') = later (update_connection_state reconnecting a) in
      (ok, wait ∷ waits, a')

unfoldable pub retry_loop :
    ℕ → (ℕ → Attempt) → ℕ → ℕ → HeartbeatAgent → Bool × List ℕ × HeartbeatAgent
retry_loop base attempts attempt zero a = (false, [], a)
retry_loop base attempts attempt (suc left) a =
    after_attempt (backoff base attempt) left (attempts attempt)
      (retry_loop base attempts (attempt + 1) left) (send_heartbeat (attempts attempt) a)

unfoldable pub send_heartbeat_with_retry :
    HeartbeatConfig → (ℕ → Attempt) → HeartbeatAgent → Bool × List ℕ × HeartbeatAgent
send_heartbeat_with_retry c attempts a = retry_loop (base_interval c) attempts 1 (max_attempts c) a

unfoldable pub handle_heartbeat_success : HeartbeatAgent → HeartbeatAgent
handle_heartbeat_success a =
    update_connection_state connected (record a { consecutive_heartbeat_failures = 0 })

unfoldable pub handle_heartbeat_failure : HeartbeatAgent → HeartbeatAgent
handle_heartbeat_failure a =
    let failures = a.consecutive_heartbeat_failures + 1 in
    let a' = record a { consecutive_heartbeat_failures = failures } in
    if leb a.heartbeat_failure_threshold failures
    then update_connection_state disconnected a'
    else a'

unfoldable pub handle_heartbeat : Bool × List ℕ × HeartbeatAgent → HeartbeatAgent
handle_heartbeat (true, waits, a) = handle_heartbeat_success a
handle_heartbeat (false, waits, a) = handle_heartbeat_failure a

-- A round of startHeartbeat: a tick while the WebSocket reconnects, or a heartbeat.
pub data Round : Type 0 where
  skipped : Round
  beat : (ℕ → Attempt) → Round

unfoldable pub heartbeat_round : HeartbeatConfig → HeartbeatAgent → Round → HeartbeatAgent
heartbeat_round c a skipped = a
heartbeat_round c a (beat attempts) = handle_heartbeat (send_heartbeat_with_retry c attempts a)

-- The state after rounds, the latest of which stands first.
unfoldable pub start_heartbeat : HeartbeatConfig → HeartbeatAgent → List Round → HeartbeatAgent
start_heartbeat c a [] = a
start_heartbeat c a (r ∷ earlier) = heartbeat_round c (start_heartbeat c a earlier) r

abbrev or_default : ℕ → ℕ → ℕ
or_default seconds default = if seconds == 0 then default else seconds

unfoldable pub get_heartbeat_interval : HeartbeatConfig → ConnectionState → ℕ
get_heartbeat_interval c connected = or_default c.interval_connected 30 * 1000000000
get_heartbeat_interval c connecting = or_default c.interval_connected 30 * 1000000000
get_heartbeat_interval c reconnecting = or_default c.interval_reconnecting 60 * 1000000000
get_heartbeat_interval c disconnected = or_default c.interval_disconnected 15 * 1000000000
