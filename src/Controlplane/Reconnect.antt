-- ===== src/Controlplane/Reconnect.antt =====
-- The reconnect loop of internal/controlplane/websocket_client.go. Durations are nanoseconds; the
-- random jitter, the signals that end a wait and the outcome of each attempt are the environment's. The integers do not
-- overflow: a delay is at most the larger of its start and the maximum.
pub mod Backoff
use pipeops_k8_agent.Prelude.{
  ℕ, ◌+◌, ◌*◌, Bool, true, false, ltb, ◌==◌, List, [], ◌∷◌, Option, none, some, if◌then◌else◌,
}

-- What one round of the loop meets: the context ends during the wait, or the attempt to connect
-- succeeds, fails with status 401 or 403, or fails otherwise.
pub data Outcome : Type 0 where
  cancelled connected unauthorized failed : Outcome

-- Why the loop ended; `pending` is a loop that is still going on.
pub data LoopEnd : Type 0 where
  ended_cancelled ended_connected ended_unauthorized pending : LoopEnd

-- The flag `reconnecting` and the times of the connection that the client keeps.
pub record ReconnectState : Type 0 where
  pub reconnecting : Bool
  pub connected : Bool
  pub last_connected_at : Option ℕ

unfoldable pub initial_delay : ℕ → ℕ
initial_delay configured = if configured == 0 then 500000000 else configured

unfoldable pub maximum_delay : ℕ → ℕ
maximum_delay configured = if configured == 0 then 60000000000 else configured

-- delay *= 2; if delay > maxDelay { delay = maxDelay }
unfoldable pub next_delay : ℕ → ℕ → ℕ
next_delay max_delay delay = if ltb max_delay (delay * 2) then max_delay else delay * 2

-- A round: its jitter, when its wait is cut short if it is, by the signal of TriggerReconnectNow
-- or by the end of the context, and its outcome. A signal that is pending cuts it at once.
pub record Round : Type 0 where
  pub jitter : ℕ
  pub woken : Option ℕ
  pub outcome : Outcome

-- The select of a round over the timer, the signal and the context.
abbrev pub waited : ℕ → Option ℕ → ℕ
waited wait none = wait
waited wait (some t) = if ltb t wait then t else wait

abbrev pub round_wait : ℕ → Round → ℕ
round_wait delay r = waited (delay + r.jitter) r.woken

-- What follows a round, with the waits of the rounds after it.
abbrev pub after_round : ℕ → List ℕ × LoopEnd → Outcome → List ℕ × LoopEnd
after_round wait later cancelled = (wait ∷ [], ended_cancelled)
after_round wait later connected = (wait ∷ [], ended_connected)
after_round wait later unauthorized = (wait ∷ [], ended_unauthorized)
after_round wait (waits, how) failed = (wait ∷ waits, how)

-- The waits of the loop, and how it ended.
unfoldable pub reconnect_loop : ℕ → ℕ → List Round → List ℕ × LoopEnd
reconnect_loop max_delay delay [] = ([], pending)
reconnect_loop max_delay delay (r ∷ rounds) =
    after_round (round_wait delay r) (reconnect_loop max_delay (next_delay max_delay delay) rounds)
      r.outcome

-- reconnect: the second component says whether this call started the loop.
unfoldable pub reconnect : ReconnectState → ReconnectState × Bool
reconnect s = if s.reconnecting then (s, false) else (record s { reconnecting = true }, true)

-- The deferred reset at the end of the loop.
unfoldable pub loop_ended : ReconnectState → ReconnectState
loop_ended s = record s { reconnecting = false }

unfoldable pub set_connected : ReconnectState → Bool → ℕ → ReconnectState
set_connected s false now = record s { connected = false }
set_connected s true now = record s {
  connected = true;
  last_connected_at = if s.connected then s.last_connected_at else some now;
}
