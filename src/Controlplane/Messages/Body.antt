-- ===== src/Controlplane/Messages/Body.antt =====
-- The body of a request that is streamed, as its own messages make it up.
use pipeops_k8_agent.Prelude.{
  ℕ, take, Bool, true, false, Option, none, some, List, [], ◌∷◌, ◌++◌, ite,
}
use pipeops_k8_agent.Prelude.Bytes.{Bytes, Bytes-discrete}
use pipeops_k8_agent.Controlplane.Messages.{
  WebSocketMessage, MessageType, message_type, proxy_request, proxy_request_chunk,
  proxy_request_stream_end, proxy_cancel,
}
use pipeops_k8_agent.Controlplane.Messages.Request.{ProxyRequest, parse_proxy_request}
use pipeops_k8_agent.Controlplane.Messages.Handle.{
  Environment, Pipe, PipeEnd, eof, cancelled, message_chunk,
}

-- A body that is read, one that is over, and one whose pipe another request has taken the place of.
pub data BodyState : Type 0 where
  reading : Bytes → BodyState
  over : Bytes → PipeEnd → BodyState
  lost : Bytes → BodyState

abbrev pub with_chunk : Bytes → Option Bytes → Bytes
with_chunk b none = b
with_chunk b (some chunk) = b ++ chunk

-- A chunk, or as much of it as the reader takes.
abbrev pub with_part : Bytes → Option ℕ → Option Bytes → Bytes
with_part b takes none = b
with_part b none (some chunk) = b ++ chunk
with_part b (some n) (some chunk) = b ++ take n chunk

abbrev pub replaced : Bool → Bytes → BodyState
replaced true b = lost b
replaced false b = reading b

abbrev pub restarted : Bytes → Option ProxyRequest → BodyState
restarted b none = reading b
restarted b (some req) = replaced req.streams_body b

-- A message about the request changes its body while that is read.
abbrev pub body_case : Environment → WebSocketMessage → Bytes → MessageType → BodyState
body_case env msg b proxy_request =
    restarted b (parse_proxy_request env.unbase64 env.yamux_active env.next_frame msg)
body_case env msg b proxy_request_chunk =
    reading (with_part b env.reader_takes (message_chunk env.unbase64 msg))
body_case env msg b proxy_request_stream_end = over b eof
body_case env msg b proxy_cancel = over b cancelled
body_case env msg b _ = reading b

abbrev pub body_message :
    Bytes → Environment → WebSocketMessage → MessageType → BodyState → BodyState
body_message id env msg t (reading b) =
    ite (Bytes-discrete msg.request_id id) (body_case env msg b t) (reading b)
body_message id env msg t (over b e) = over b e
body_message id env msg t (lost b) = lost b

abbrev pub body_after : Bytes → List (Environment × WebSocketMessage) → BodyState → BodyState
body_after id [] st = st
body_after id ((env, msg) ∷ ms) st =
    body_after id ms (body_message id env msg (message_type msg.kind) st)

abbrev pub pipe_for : BodyState → Pipe
pipe_for (reading b) = record { content = b; ended = none }
pipe_for (over b e) = record { content = b; ended = some e }
pipe_for (lost b) = record { content = b; ended = none }

abbrev pub is_reading : BodyState → Bool
is_reading (reading b) = true
is_reading _ = false
