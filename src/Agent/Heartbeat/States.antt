-- ===== src/Agent/Heartbeat/States.antt =====
-- The connection state after any rounds of the heartbeat.
use pipeops_k8_agent.Prelude.{
  ℕ, suc, ◌≤◌, ◌<◌, ◌≡◌, refl, ◌∙◌, ◌⊎◌, ◌↔◌, inl, inr, Bool, true, false, List, [], ◌∷◌,
  if◌then◌else◌, arith,
}
use pipeops_k8_agent.Agent.Heartbeat.{
  disconnected, connected, HeartbeatAgent, HeartbeatConfig, Attempt, update_connection_state,
  max_attempts, send_heartbeat_with_retry, handle_heartbeat_success, handle_heartbeat_failure,
  handle_heartbeat, Round, skipped, beat, heartbeat_round, start_heartbeat,
}
use pipeops_k8_agent.Agent.Heartbeat.Attempts.{IsUp, send_with_retry-failed, send_with_retry-Kept}

-- How many heartbeats failed since the last that counts as sent; skipped ticks do not count.
abbrev pub streak : HeartbeatConfig → HeartbeatAgent → List Round → ℕ
streak c a [] = a.consecutive_heartbeat_failures
streak c a (skipped ∷ earlier) = streak c a earlier
streak c a (beat attempts ∷ earlier) =
    if (send_heartbeat_with_retry c attempts (start_heartbeat c a earlier)).0
    then 0
    else suc (streak c a earlier)

-- Some round is a heartbeat.
abbrev pub HasBeat : List Round → Type 0
HasBeat [] = ⊥
HasBeat (skipped ∷ earlier) = HasBeat earlier
HasBeat (beat attempts ∷ earlier) = Unit

-- The state of an agent after a number of failures in a row.
pub record IsState (threshold failures : ℕ) (b : HeartbeatAgent) : Type 0 where
  pub counted : b.consecutive_heartbeat_failures ≡ failures
  pub down_iff : (b.connection_state ≡ disconnected) ↔ ((0 < failures) × (threshold ≤ failures))
  pub up : (0 < failures) ⊎ (b.connection_state ≡ connected)

handle_heartbeat-IsState :
    (threshold failures : ℕ) (ok : Bool) (waits : List ℕ) (b : HeartbeatAgent)
    → b.heartbeat_failure_threshold ≡ threshold
    → b.consecutive_heartbeat_failures ≡ failures
    → ((ok ≡ false) → IsUp b)
    → IsState threshold (if ok then 0 else suc failures) (handle_heartbeat (ok, waits, b))
unfolding handle_heartbeat handle_heartbeat_success handle_heartbeat_failure update_connection_state
    IsUp
handle_heartbeat-IsState threshold failures true waits b h k up = record {
  counted = refl;
  down_iff = ground arith;
  up = inr refl;
}
handle_heartbeat-IsState threshold failures false waits b h k up =
    let is_up = up refl in
    record {
      counted = ground (arith, k);
      down_iff = (λ e. ground (arith, h, k, e, is_up), λ e. ground (arith, h, k, e, is_up));
      up = inl (omega arith);
    }

handle_heartbeat-threshold :
    (ok : Bool) (waits : List ℕ) (b : HeartbeatAgent)
    → (handle_heartbeat (ok, waits, b)).heartbeat_failure_threshold ≡ b.heartbeat_failure_threshold
unfolding handle_heartbeat handle_heartbeat_success handle_heartbeat_failure update_connection_state
handle_heartbeat-threshold true waits b = refl
handle_heartbeat-threshold false waits b = ground arith

threshold-start_heartbeat :
    (c : HeartbeatConfig) (a : HeartbeatAgent) (rounds : List Round)
    → (start_heartbeat c a rounds).heartbeat_failure_threshold ≡ a.heartbeat_failure_threshold
unfolding start_heartbeat heartbeat_round
threshold-start_heartbeat c a [] = refl
threshold-start_heartbeat c a (skipped ∷ earlier) = threshold-start_heartbeat c a earlier
threshold-start_heartbeat c a (beat attempts ∷ earlier) =
    let b = start_heartbeat c a earlier in
    let (ok, waits, after) = send_heartbeat_with_retry c attempts b in
    handle_heartbeat-threshold ok waits after
    ∙ (send_with_retry-Kept c attempts b).1
    ∙ threshold-start_heartbeat c a earlier

beat-IsState :
    (c : HeartbeatConfig) (a : HeartbeatAgent) (attempts : ℕ → Attempt) (earlier : List Round)
    → 2 ≤ max_attempts c
    → (start_heartbeat c a earlier).consecutive_heartbeat_failures ≡ streak c a earlier
    → IsState a.heartbeat_failure_threshold
        (streak c a (beat attempts ∷ earlier))
        (start_heartbeat c a (beat attempts ∷ earlier))
unfolding start_heartbeat heartbeat_round
beat-IsState c a attempts earlier h counted =
    let b = start_heartbeat c a earlier in
    let (ok, waits, after) = send_heartbeat_with_retry c attempts b in
    let kept = send_with_retry-Kept c attempts b in
    handle_heartbeat-IsState a.heartbeat_failure_threshold (streak c a earlier) ok waits after
      (kept.1 ∙ threshold-start_heartbeat c a earlier) (kept.0 ∙ counted)
      (λ e. send_with_retry-failed c attempts b h e)

failures-start_heartbeat :
    (c : HeartbeatConfig) (a : HeartbeatAgent) (rounds : List Round)
    → 2 ≤ max_attempts c
    → (start_heartbeat c a rounds).consecutive_heartbeat_failures ≡ streak c a rounds
unfolding start_heartbeat heartbeat_round
failures-start_heartbeat c a [] h = refl
failures-start_heartbeat c a (skipped ∷ earlier) h = failures-start_heartbeat c a earlier h
failures-start_heartbeat c a (beat attempts ∷ earlier) h =
    (beat-IsState c a attempts earlier h (failures-start_heartbeat c a earlier h)).counted

-- Let a heartbeat have at least two attempts. After any rounds of which one is a heartbeat, the
-- agent counts the heartbeats that failed since the last one that counts as sent; it is disconnected
-- exactly when there are such failures and at least as many as the threshold, and it is connected
-- when there are none. A heartbeat counts as sent also when a re-registration is in progress.
pub start_heartbeat-IsState :
    (c : HeartbeatConfig) (a : HeartbeatAgent) (rounds : List Round)
    → 2 ≤ max_attempts c
    → HasBeat rounds
    → IsState a.heartbeat_failure_threshold (streak c a rounds) (start_heartbeat c a rounds)
unfolding start_heartbeat heartbeat_round
start_heartbeat-IsState c a [] h has = absurd has
start_heartbeat-IsState c a (skipped ∷ earlier) h has = start_heartbeat-IsState c a earlier h has
start_heartbeat-IsState c a (beat attempts ∷ earlier) h has =
    beat-IsState c a attempts earlier h (failures-start_heartbeat c a earlier h)
