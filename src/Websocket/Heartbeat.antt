-- ===== src/Websocket/Heartbeat.antt =====
-- internal/websocket/heartbeat.go. Times and durations are numbers of nanoseconds, read from a
-- clock that does not go back. Pings leave the manager as it is; of the connection only the close
-- that a check asks for is kept.
pub mod Silence
use pipeops_k8_agent.Prelude.{ℕ, ◌+◌, ◌-◌, Bool, true, false, ltb, leb, if◌then◌else◌}

pub record HeartbeatManager : Type 0 where
  pub pong_timeout : ℕ
  pub last_pong_time : ℕ
  pub missed_pongs : ℕ
  pub max_missed_pongs : ℕ

unfoldable pub new_heartbeat_manager : ℕ → ℕ → HeartbeatManager
new_heartbeat_manager pong_timeout now = record {
  pong_timeout = pong_timeout;
  last_pong_time = now;
  missed_pongs = 0;
  max_missed_pongs = 3;
}

-- The handler that the heartbeat loop sets on the connection.
unfoldable pub on_pong : HeartbeatManager → ℕ → HeartbeatManager
on_pong h now = record h { last_pong_time = now; missed_pongs = 0 }

-- The manager after the check, and whether it closed the connection.
unfoldable pub check_pong_timeout : HeartbeatManager → ℕ → HeartbeatManager × Bool
check_pong_timeout h now =
    if ltb h.pong_timeout (now - h.last_pong_time)
    then (
      record h { missed_pongs = h.missed_pongs + 1 },
      leb h.max_missed_pongs (h.missed_pongs + 1),
    )
    else (h, false)
