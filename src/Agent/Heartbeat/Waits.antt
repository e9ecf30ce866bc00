-- ===== src/Agent/Heartbeat/Waits.antt =====
-- How often and how long a heartbeat waits between its attempts.
use Prim.Native.Nat.{min}
use pipeops_k8_agent.Prelude.{
  ℕ, zero, suc, ◌+◌, ◌-◌, ◌*◌, ◌%◌, ◌^◌, ◌==◌, ◌≤◌, ◌<◌, ◌≡◌, ◌⊎◌, inl, inr, Bool, leb, ltb, List,
  [], ◌∷◌, length, if◌then◌else◌, arith, Bool-cases,
}
use pipeops_k8_agent.Agent.Heartbeat.{
  HeartbeatAgent, HeartbeatConfig, Attempt, SendResult, delivered, in_progress, failed,
  update_connection_state, reconnecting, send_heartbeat, max_attempts, base_interval, max_backoff,
  backoff, after_attempt, retry_loop, send_heartbeat_with_retry,
}

-- The wait after attempt k: the base doubled with each attempt, and at most thirty seconds; or, where
-- that leaves the 64-bit durations, some wait of at most thirty seconds.
abbrev pub IsBackoff : ℕ → ℕ → ℕ → Type 0
IsBackoff base k wait =
    (wait ≡ min (base * 2 ^ (k - 1)) max_backoff)
    ⊎ ((2 ^ 63 ≤ base * 2 ^ (k - 1)) × (wait ≤ max_backoff))

-- Waits after the attempts from k on.
abbrev pub AreBackoffs : ℕ → ℕ → List ℕ → Type 0
AreBackoffs base k [] = Unit
AreBackoffs base k (wait ∷ waits) = IsBackoff base k wait × AreBackoffs base (k + 1) waits

capped_word :
    (p : ℕ)
    → (let d = p % 2 ^ 64 in
        ((if leb (2 ^ 63) d then 0 else if ltb max_backoff d then max_backoff else d)
          ≡ min p max_backoff)
        ⊎ ((2 ^ 63 ≤ p)
            × ((if leb (2 ^ 63) d then 0 else if ltb max_backoff d then max_backoff else d)
                ≤ max_backoff)))
capped_word p = ground arith

backoff-IsBackoff : (base k : ℕ) → IsBackoff base k (backoff base k)
unfolding backoff
backoff-IsBackoff base k = capped_word (base * 2 ^ (k - 1))

module _ (base : ℕ) where
  after_attempt-AreWaits :
      (k left : ℕ) (t : Attempt) (later : HeartbeatAgent → Bool × List ℕ × HeartbeatAgent)
      (r : SendResult) (a : HeartbeatAgent)
      → ((b : HeartbeatAgent)
          → (length (later b).1 ≤ left - 1) × AreBackoffs base (k + 1) (later b).1)
      → (length (after_attempt (backoff base k) left t later (r, a)).1 ≤ left)
        × AreBackoffs base k (after_attempt (backoff base k) left t later (r, a)).1
  unfolding after_attempt
  after_attempt-AreWaits k left t later delivered a h = (omega arith, tt)
  after_attempt-AreWaits k left t later in_progress a h = (omega arith, tt)
  after_attempt-AreWaits k left t later failed a h = elim (Bool-cases (left == 0)) [
    | inl e ↦ rw e (omega arith, tt)
    | inr e ↦ elim (Bool-cases t.cancelled) [
      | inl c ↦ rw (e, c) (omega arith, tt)
      | inr c ↦
          let (l, all) = h (update_connection_state reconnecting a) in
          let some_left : 0 < left = ground (arith, e) in
          rw (e, c) (omega (arith, l, some_left), (backoff-IsBackoff base k, all))
    ]
  ]

  retry_loop-AreWaits :
      (attempts : ℕ → Attempt) (k left : ℕ) (a : HeartbeatAgent)
      → (length (retry_loop base attempts k left a).1 ≤ left - 1)
        × AreBackoffs base k (retry_loop base attempts k left a).1
  unfolding retry_loop
  retry_loop-AreWaits attempts k zero a = (omega arith, tt)
  retry_loop-AreWaits attempts k (suc left) a =
      let (r, b) = send_heartbeat (attempts k) a in
      let (l, all) =
        after_attempt-AreWaits k left (attempts k) (retry_loop base attempts (k + 1) left) r b
          (retry_loop-AreWaits attempts (k + 1) left) in
      (omega (arith, l), all)

-- A heartbeat waits fewer times than it has attempts. The wait after attempt k is the base interval
-- times 2 ^ (k - 1), and at most thirty seconds; where this product needs more than the 63 bits of
-- a duration, it is only known to be at most thirty seconds.
send_with_retry-waits :
    (c : HeartbeatConfig) (attempts : ℕ → Attempt) (a : HeartbeatAgent)
    → (length (send_heartbeat_with_retry c attempts a).1 < max_attempts c)
      × AreBackoffs (base_interval c) 1 (send_heartbeat_with_retry c attempts a).1
unfolding send_heartbeat_with_retry
send_with_retry-waits c attempts a =
    let (l, all) = retry_loop-AreWaits (base_interval c) attempts 1 (max_attempts c) a in
    let some_attempts : 0 < max_attempts c = unfold max_attempts in ground arith in
    (omega (arith, l, some_attempts), all)
