-- ===== src/Tests/Websocket.antt =====
-- Runs of the model of internal/websocket, and its theorems at concrete inputs.
use pipeops_k8_agent.Prelude.{
  ◌-◌, ℕ, ◌+◌, ◌*◌, ◌/◌, ◌≤◌, ◌<◌, ◌≡◌, refl, ◌⊎◌, inl, ◌↔◌, Bool, true, false, leb, none, List, [],
  ◌∷◌, ◌++◌, length, take, arith,
}
use pipeops_k8_agent.Prelude.Bytes.{Bytes}
use pipeops_k8_agent.Websocket.Frame.{
  Frame, ok, err, layout, encode, encode_into, decode_frame_with_max_size, read_frame_with_max_size,
  open_frame, check_header, header_frame, take_payload, insufficient_header, incomplete,
  unsupported_version, frame_header_size,
}
use pipeops_k8_agent.Websocket.Frame.Codec.{IsWellFormed, Admits, decode-encode}
use pipeops_k8_agent.Websocket.Frame.Sound.{read_sound, decode_truncated, encode_into_capacity}
use pipeops_k8_agent.Websocket.Flow.{
  FlowController, new_flow_controller, update_channel_length, check_backpressure,
}
use pipeops_k8_agent.Websocket.Flow.Detection.{Observation, observe, run, OverFor, observe_iff}
use pipeops_k8_agent.Websocket.Heartbeat.{HeartbeatManager, check_pong_timeout}
use pipeops_k8_agent.Websocket.Heartbeat.Silence.{silent, silent-closes_iff}

abbrev hello : Frame
hello = record {
  version = 1;
  kind = 1;
  flags = 5;
  reserved = 0;
  length = 3;
  payload = 104 ∷ 105 ∷ 33 ∷ [];
}

hello-IsWellFormed : IsWellFormed hello
hello-IsWellFormed = omega arith

abbrev hello_bytes : Bytes
hello_bytes = 1 ∷ 1 ∷ 5 ∷ 0 ∷ 0 ∷ 0 ∷ 0 ∷ 3 ∷ 104 ∷ 105 ∷ 33 ∷ []

hello-layout : layout hello ≡ hello_bytes
unfolding layout
hello-layout = refl

decode-encode_example :
    (bytes : Bytes) × (encode hello ≡ ok bytes)
    × (decode_frame_with_max_size (bytes ++ 7 ∷ []) 10 ≡ ok hello)
    × (read_frame_with_max_size (bytes ++ 7 ∷ []) 10 ≡ ok (hello, 7 ∷ []))
decode-encode_example = decode-encode hello 10 (7 ∷ []) hello-IsWellFormed (omega arith)

hello_read : read_frame_with_max_size (hello_bytes ++ 7 ∷ []) 10 ≡ ok (hello, 7 ∷ [])
unfolding read_frame_with_max_size open_frame check_header header_frame take_payload
hello_read = refl

read_sound_example :
    IsWellFormed hello
    × Admits 10 hello
    × (encode hello ≡ ok (layout hello))
    × (layout hello ++ 7 ∷ [] ≡ hello_bytes ++ 7 ∷ [])
read_sound_example = read_sound (hello_bytes ++ 7 ∷ []) 10 hello (7 ∷ []) (omega arith) hello_read

decode_truncated_example :
    ((9 < 8) × (decode_frame_with_max_size (take 9 (layout hello)) 0 ≡ err insufficient_header))
    ⊎ ((8 ≤ 9) × (decode_frame_with_max_size (take 9 (layout hello)) 0 ≡ err incomplete))
unfolding layout
decode_truncated_example = decode_truncated hello 0 9 hello-IsWellFormed (inl refl) (omega arith)

encode_into_capacity_example :
    ((frame_header_size + length hello.payload ≤ 10) × (encode_into 10 hello ≡ encode hello))
    ⊎ ((10 < frame_header_size + length hello.payload)
        × (bytes : Bytes) × (encode_into 10 hello ≡ ok bytes)
        × (decode_frame_with_max_size bytes 0 ≡ err unsupported_version))
encode_into_capacity_example = encode_into_capacity hello 10 0 hello-IsWellFormed

-- 80 per cent of the capacity.
abbrev four_fifths : ℕ → ℕ → Bool
four_fifths l capacity = leb (4 * capacity) (5 * l)

abbrev idle_controller : FlowController
idle_controller = record {
  channel_capacity = 100;
  window = 20;
  channel_length = 0;
  last_backpressure = none;
  backpressure_events = 0;
  sustained_backpressure = false;
}

new_is_idle : new_flow_controller 100 20 ≡ idle_controller
unfolding new_flow_controller
new_is_idle = refl

abbrev filling : List Observation
filling = (90, 30) ∷ (85, 10) ∷ (20, 5) ∷ []

filling_reported : (observe four_fifths (run four_fifths idle_controller filling) (95, 31)).1 ≡ true
unfolding run check_backpressure update_channel_length
filling_reported = refl

observe_iff_example :
    ((observe four_fifths (run four_fifths idle_controller filling) (95, 31)).1 ≡ true)
    ↔ ((four_fifths 95 100 ≡ true) × OverFor four_fifths 100 20 31 filling)
observe_iff_example = observe_iff four_fifths idle_controller filling 95 31 refl (omega arith)

-- The defaults, in seconds: a ping every 30, a timeout of 90.
abbrev quiet : HeartbeatManager
quiet = record { pong_timeout = 90; last_pong_time = 1000; missed_pongs = 0; max_missed_pongs = 3 }

quiet_closed : (check_pong_timeout (silent quiet 5 30 5) 1155).1 ≡ true
unfolding silent check_pong_timeout
quiet_closed = refl

quiet_open : (check_pong_timeout (silent quiet 5 30 4) 1125).1 ≡ false
unfolding silent check_pong_timeout
quiet_open = refl

silent-closes_iff_example :
    ((check_pong_timeout (silent quiet 5 30 5) (1000 + (5 + 5 * 30))).1 ≡ true)
    ↔ ((90 + (30 - 5)) / 30 + 3 ≤ 6)
silent-closes_iff_example =
    silent-closes_iff quiet 5 30 5 (omega arith) (omega arith) (omega arith) refl
