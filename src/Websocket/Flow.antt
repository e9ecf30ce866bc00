-- ===== src/Websocket/Flow.antt =====
-- internal/websocket/flow.go. Times and durations are numbers of nanoseconds, read from a clock
-- that does not go back; the zero time is `none`. `over length capacity` stands for the floating
-- point test length / capacity >= threshold.
pub mod Detection
pub mod Sustained
use pipeops_k8_agent.Prelude.{
  ℕ, ◌+◌, ◌-◌, Bool, true, false, leb, Option, none, some, if◌then◌else◌,
}

pub record FlowController : Type 0 where
  pub channel_capacity : ℕ
  pub window : ℕ
  pub channel_length : ℕ
  pub last_backpressure : Option ℕ
  pub backpressure_events : ℕ
  pub sustained_backpressure : Bool

unfoldable pub new_flow_controller : ℕ → ℕ → FlowController
new_flow_controller channel_capacity window = record {
  channel_capacity = channel_capacity;
  window = window;
  channel_length = 0;
  last_backpressure = none;
  backpressure_events = 0;
  sustained_backpressure = false;
}

unfoldable pub update_channel_length : FlowController → ℕ → FlowController
update_channel_length f length = record f { channel_length = length }

-- The branch over the threshold, by the time at which it was first exceeded.
unfoldable pub check_over : FlowController → ℕ → Option ℕ → FlowController × Bool
check_over f now none =
    (record f { last_backpressure = some now; sustained_backpressure = false }, false)
check_over f now (some since) =
    if leb f.window (now - since)
    then (
      record f { sustained_backpressure = true; backpressure_events = f.backpressure_events + 1 },
      true,
    )
    else (f, false)

unfoldable pub check_backpressure : (ℕ → ℕ → Bool) → FlowController → ℕ → FlowController × Bool
unfolding check_over
check_backpressure over f now =
    if over f.channel_length f.channel_capacity
    then check_over f now f.last_backpressure
    else (record f { last_backpressure = none; sustained_backpressure = false }, false)

unfoldable pub is_backpressured : FlowController → Bool
is_backpressured f = f.sustained_backpressure

unfoldable pub get_backpressure_events : FlowController → ℕ
get_backpressure_events f = f.backpressure_events

unfoldable pub reset : FlowController → FlowController
reset f = record f { channel_length = 0; last_backpressure = none; sustained_backpressure = false }

unfoldable pub should_drop : FlowController → Bool
should_drop f = leb f.channel_capacity f.channel_length
