-- ===== src/Ingress/Retry.antt =====
-- The retries of registerRouteWithRetry, unregisterRouteWithRetry, syncExistingIngresses and
-- syncBatchWithRetry, of internal/ingress/watcher.go. They differ in the largest delay. The answers
-- of the control plane and the random jitters are given for each attempt, counted from 0.
pub mod Outcome
use pipeops_k8_agent.Prelude.{
  ℕ, zero, suc, ◌+◌, ◌-◌, ◌*◌, ◌/◌, ◌^◌, ◌==◌, ltb, List, [], ◌∷◌, if◌then◌else◌,
}

-- What an attempt meets: success, an error, an error of a client that is not retried, or an error
-- after which the context is cancelled during the wait.
pub data Answer : Type 0 where
  accepted refused refused_for_good refused_cancelled : Answer

pub data RetryEnd : Type 0 where
  succeeded cancelled rejected exhausted : RetryEnd

pub record RetryRun : Type 0 where
  pub ended : RetryEnd
  pub calls : ℕ
  pub waits : List ℕ

abbrev pub max_retries : ℕ
max_retries = 3

abbrev pub base_delay : ℕ
base_delay = 1000000000

-- maxDelay of the two route functions, and of the two that sync.
abbrev pub max_route_delay : ℕ
max_route_delay = 5000000000

abbrev pub max_sync_delay : ℕ
max_sync_delay = 10000000000

unfoldable pub capped_delay : ℕ → ℕ → ℕ
capped_delay max_delay attempt =
    if ltb max_delay (2 ^ attempt * base_delay) then max_delay else 2 ^ attempt * base_delay

-- delay - delay/4 + jitter
unfoldable pub retry_delay : ℕ → ℕ → ℕ → ℕ
retry_delay max_delay attempt jitter =
    capped_delay max_delay attempt - capped_delay max_delay attempt / 4 + jitter

abbrev pub one_call : RetryEnd → RetryRun
one_call ended = record { ended = ended; calls = 1; waits = [] }

-- An attempt with `left` more to come, and the run of those.
unfoldable pub after_answer : ℕ → ℕ → RetryRun → Answer → RetryRun
after_answer delay left later accepted = one_call succeeded
after_answer delay left later refused_for_good = one_call rejected
after_answer delay left later refused_cancelled =
    if left == 0 then one_call exhausted else one_call cancelled
after_answer delay left later refused =
    if left == 0
    then one_call exhausted
    else record { ended = later.ended; calls = suc later.calls; waits = delay ∷ later.waits }

unfoldable pub retry_from : ℕ → (ℕ → Answer) → (ℕ → ℕ) → ℕ → ℕ → RetryRun
retry_from max_delay answers jitter attempt zero = record {
  ended = exhausted;
  calls = 0;
  waits = [];
}
retry_from max_delay answers jitter attempt (suc left) =
    after_answer (retry_delay max_delay attempt (jitter attempt)) left
      (retry_from max_delay answers jitter (attempt + 1) left) (answers attempt)

unfoldable pub with_retry : ℕ → (ℕ → Answer) → (ℕ → ℕ) → RetryRun
with_retry max_delay answers jitter = retry_from max_delay answers jitter 0 max_retries
