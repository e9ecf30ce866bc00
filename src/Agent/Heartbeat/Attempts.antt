-- ===== src/Agent/Heartbeat/Attempts.antt =====
-- What the attempts of a heartbeat leave of the connection state and the counters.
use pipeops_k8_agent.Prelude.{
  ℕ, zero, suc, ◌+◌, ◌≤◌, ◌<◌, ◌≡◌, refl, ◌≢◌, inl, inr, Bool, true, false, ◌==◌, List,
  if◌then◌else◌, arith, Bool-cases,
}
use pipeops_k8_agent.Agent.Heartbeat.{
  disconnected, reconnecting, HeartbeatAgent, HeartbeatConfig, Attempt, SendResult, delivered,
  in_progress, failed, update_connection_state, register, deliver, after_register, send_heartbeat,
  max_attempts, base_interval, backoff, after_attempt, retry_loop, send_heartbeat_with_retry,
}

-- A heartbeat as a whole: whether it counts as sent, and the agent after its attempts.
abbrev pub outcome : Bool × List ℕ × HeartbeatAgent → Bool × HeartbeatAgent
outcome (ok, waits, a) = (ok, a)

if-P :
    (P : SendResult × HeartbeatAgent → Type 0) (b : Bool) (x y : SendResult × HeartbeatAgent)
    → P x
    → P y
    → P (if b then x else y)
if-P P true x y h k = h
if-P P false x y h k = k

unfoldable pub IsUp : HeartbeatAgent → Type 0
IsUp a = a.connection_state ≢ disconnected

abbrev pub Kept : HeartbeatAgent → HeartbeatAgent → Type 0
Kept a b =
    (b.consecutive_heartbeat_failures ≡ a.consecutive_heartbeat_failures)
    × (b.heartbeat_failure_threshold ≡ a.heartbeat_failure_threshold)

send_heartbeat-IsUp : (t : Attempt) (a : HeartbeatAgent) → IsUp a → IsUp (send_heartbeat t a).1
unfolding send_heartbeat after_register deliver register update_connection_state IsUp
send_heartbeat-IsUp t a h = ground (arith, h)

send_heartbeat-Kept :
    (t : Attempt) (a b : HeartbeatAgent) → Kept a b → Kept a (send_heartbeat t b).1
unfolding send_heartbeat after_register deliver register update_connection_state
send_heartbeat-Kept t a b h = ground (arith, h)

-- What holds of the agent, and holds after an attempt and before a wait, holds after the loop.
module _ (P : HeartbeatAgent → Type 0)
    (sends : (t : Attempt) (a : HeartbeatAgent) → P a → P (send_heartbeat t a).1)
    (waits_for : (a : HeartbeatAgent) → P a → P (update_connection_state reconnecting a))
    (notes : (a : HeartbeatAgent) (now : ℕ) → P a → P (record a { last_heartbeat = now })) where
  after_attempt-P :
      (wait left : ℕ) (t : Attempt) (later : HeartbeatAgent → Bool × List ℕ × HeartbeatAgent)
      (r : SendResult) (a : HeartbeatAgent)
      → ((b : HeartbeatAgent) → P b → P (outcome (later b)).1)
      → P a
      → P (outcome (after_attempt wait left t later (r, a))).1
  unfolding after_attempt
  after_attempt-P wait left t later delivered a l h = notes a t.now h
  after_attempt-P wait left t later in_progress a l h = h
  after_attempt-P wait left t later failed a l h = elim (Bool-cases (left == 0)) [
    | inl e ↦ rw e h
    | inr e ↦ elim (Bool-cases t.cancelled) [
      | inl c ↦ rw (e, c) (waits_for a h)
      | inr c ↦ rw (e, c) (l (update_connection_state reconnecting a) (waits_for a h))
    ]
  ]

  retry_loop-P :
      (base : ℕ) (attempts : ℕ → Attempt) (attempt left : ℕ) (a : HeartbeatAgent)
      → P a
      → P (outcome (retry_loop base attempts attempt left a)).1
  unfolding retry_loop
  retry_loop-P base attempts attempt zero a h = h
  retry_loop-P base attempts attempt (suc left) a h =
      let t = attempts attempt in
      let (r, b) = send_heartbeat t a in
      after_attempt-P (backoff base attempt) left t (retry_loop base attempts (attempt + 1) left) r
        b (retry_loop-P base attempts (attempt + 1) left) (sends t a h)

reconnecting-IsUp : (a : HeartbeatAgent) → IsUp (update_connection_state reconnecting a)
unfolding IsUp update_connection_state
reconnecting-IsUp a = ground arith

retry_loop-IsUp :
    (base : ℕ) (attempts : ℕ → Attempt) (attempt left : ℕ) (a : HeartbeatAgent)
    → IsUp a
    → IsUp (outcome (retry_loop base attempts attempt left a)).1
retry_loop-IsUp =
    retry_loop-P IsUp send_heartbeat-IsUp (λ a h. reconnecting-IsUp a)
      (λ a now h. unfold IsUp in (unfold IsUp in h))

retry_loop-Kept :
    (base : ℕ) (attempts : ℕ → Attempt) (attempt left : ℕ) (a b : HeartbeatAgent)
    → Kept a b
    → Kept a (outcome (retry_loop base attempts attempt left b)).1
retry_loop-Kept base attempts attempt left a b =
    retry_loop-P (Kept a) (λ t b h. send_heartbeat-Kept t a b h)
      (λ b h. unfold update_connection_state in h) (λ b now h. h) base attempts attempt left b

-- A loop of two attempts or more that fails has been reconnecting.
after_attempt-failed :
    (base : ℕ) (attempts : ℕ → Attempt) (wait attempt left : ℕ) (t : Attempt) (r : SendResult)
    (a : HeartbeatAgent)
    → 0 < left
    → (outcome (after_attempt wait left t (retry_loop base attempts attempt left) (r, a))).0 ≡ false
    → IsUp (outcome (after_attempt wait left t (retry_loop base attempts attempt left) (r, a))).1
unfolding after_attempt
after_attempt-failed base attempts wait attempt left t delivered a h e = absurd (ground (arith, e))
after_attempt-failed base attempts wait attempt left t in_progress a h e =
    absurd (ground (arith, e))
after_attempt-failed base attempts wait attempt left t failed a h e =
    let some_left : (left == 0) ≡ false = ground (arith, h) in
    elim (Bool-cases t.cancelled) [
      | inl c ↦ rw (some_left, c) (reconnecting-IsUp a)
      | inr c ↦
          rw (some_left, c)
            (retry_loop-IsUp base attempts attempt left (update_connection_state reconnecting a)
              (reconnecting-IsUp a))
    ]

loop_failed :
    (base : ℕ) (attempts : ℕ → Attempt) (n : ℕ) (a : HeartbeatAgent)
    → 2 ≤ n
    → (outcome (retry_loop base attempts 1 n a)).0 ≡ false
    → IsUp (outcome (retry_loop base attempts 1 n a)).1
unfolding retry_loop
loop_failed base attempts zero a k f = absurd (omega arith)
loop_failed base attempts (suc left) a k f =
    let (r, b) = send_heartbeat (attempts 1) a in
    after_attempt-failed base attempts (backoff base 1) (1 + 1) left (attempts 1) r b (omega arith)
      f

pub send_with_retry-failed :
    (c : HeartbeatConfig) (attempts : ℕ → Attempt) (a : HeartbeatAgent)
    → 2 ≤ max_attempts c
    → (outcome (send_heartbeat_with_retry c attempts a)).0 ≡ false
    → IsUp (outcome (send_heartbeat_with_retry c attempts a)).1
unfolding send_heartbeat_with_retry
send_with_retry-failed c attempts a h e =
    loop_failed (base_interval c) attempts (max_attempts c) a h e

pub send_with_retry-Kept :
    (c : HeartbeatConfig) (attempts : ℕ → Attempt) (a : HeartbeatAgent)
    → Kept a (outcome (send_heartbeat_with_retry c attempts a)).1
unfolding send_heartbeat_with_retry
send_with_retry-Kept c attempts a =
    retry_loop-Kept (base_interval c) attempts 1 (max_attempts c) a a (refl, refl)
