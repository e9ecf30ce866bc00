-- ===== src/Controlplane/Messages/Handle.antt =====
-- The state of handleMessage and its cases for proxied requests. A pipe of io.Pipe has a number;
-- its `content` is what its reader has taken: a write waits until the reader has taken all of it, or
-- fails once the reader is closed, with what was taken before. What the client does beside its tables is a list of actions, the newest first.
use pipeops_k8_agent.Prelude.{
  ℕ, ◌+◌, Bool, true, false, Option, none, some, List, [], ◌∷◌, ◌++◌, take, if◌then◌else◌,
  ℕ_discrete,
}
use pipeops_k8_agent.Prelude.Bytes.{Bytes, Bytes-discrete, bytes_eq, codes}
use pipeops_k8_agent.Prelude.Map
use pipeops_k8_agent.Prelude.Map.{Map}
use pipeops_k8_agent.Controlplane.Messages.{WebSocketMessage, text_at}
use pipeops_k8_agent.Controlplane.Messages.Request.{NextFrame, ProxyRequest, parse_proxy_request}
use pipeops_k8_agent.Controlplane.Messages.Relay.{TcpTunnelStart, UdpTunnelData}

pub data PipeEnd : Type 0 where
  eof cancelled : PipeEnd

pub record Pipe : Type 0 where
  pub content : Bytes
  pub ended : Option PipeEnd

-- What the client has besides its tables: the registered handlers, the decoder of Go's library,
-- the state of yamux, the next frame of the connection and the streams of the proxy manager; and how
-- many bytes of a chunk the reader of its pipe takes where it closes before it has taken all, `none`
-- for a reader that takes all.
pub record Environment : Type 0 where
  pub reader_takes : Option ℕ
  pub unbase64 : Bytes → Option Bytes
  pub yamux_active : Bool
  pub next_frame : NextFrame
  pub proxy_manager : Bool
  pub has_stream : Bytes → Bool
  pub on_streaming_request : Bool
  pub on_request : Bool
  pub on_websocket_data : Bool
  pub on_websocket_close : Bool
  pub on_tcp_start : Bool
  pub on_tcp_data : Bool
  pub on_tcp_close : Bool
  pub on_udp_data : Bool
  pub on_registration_error : Bool

pub data Action : Type 0 where
  answers_register : WebSocketMessage → Action
  negotiates_yamux : WebSocketMessage → Action
  sends_pong : Bytes → Action
  serves_streaming serves : ProxyRequest → Action
  cancels : ℕ → Action
  delivers : ℕ → Bytes → Action
  starts_stream : WebSocketMessage → Action
  passes_to_stream : WebSocketMessage → Action
  passes_to_service : Bytes → Bytes → Action
  closes_stream : WebSocketMessage → Action
  closes_service : Bytes → Action
  starts_tcp : TcpTunnelStart → Action
  passes_tcp : Bytes → Bytes → Action
  closes_tcp : Bytes → Bytes → Action
  passes_udp : UdpTunnelData → Action
  reregisters : Bytes → Action
  sends_fallback : Bytes → Action

pub record Client : Type 0 where
  pub request_handlers : Map Bytes ℕ
  pub active_proxy_requests : Map Bytes ℕ
  pub active_proxy_writers : Map Bytes ℕ
  pub active_request_body_pipes : Map Bytes ℕ
  pub pipes : Map ℕ Pipe
  pub next_pipe : ℕ
  pub unknown_message_types : Map Bytes ℕ
  pub actions : List Action

unfoldable pub new_client : Client
new_client = record {
  request_handlers = [];
  active_proxy_requests = [];
  active_proxy_writers = [];
  active_request_body_pipes = [];
  pipes = [];
  next_pipe = 0;
  unknown_message_types = [];
  actions = [];
}

abbrev pub acts : Client → Action → Client
acts c action = record c { actions = action ∷ c.actions }

abbrev pub acts_if : Bool → Client → Action → Client
acts_if b c action = if b then acts c action else c

abbrev pub pipe_of : Client → Bytes → Option ℕ
pipe_of c id = Map.lookup Bytes-discrete id c.active_request_body_pipes

-- PipeWriter.Write and Close, CloseWithError; the first end stays.
abbrev is_ended : Option PipeEnd → Bool
is_ended none = false
is_ended (some e) = true

abbrev pub pipe_write : Bytes → Pipe → Pipe
pipe_write chunk p = if is_ended p.ended then p else record p { content = p.content ++ chunk }

abbrev first_end : PipeEnd → Option PipeEnd → Option PipeEnd
first_end e none = some e
first_end e (some old) = some old

abbrev pub pipe_close : PipeEnd → Pipe → Pipe
pipe_close e p = record p { ended = first_end e p.ended }

abbrev on_pipe_found : (Pipe → Pipe) → ℕ → Map ℕ Pipe → Option Pipe → Map ℕ Pipe
on_pipe_found f n pipes none = pipes
on_pipe_found f n pipes (some p) = Map.insert ℕ_discrete n (f p) pipes

unfoldable pub on_pipe : (Pipe → Pipe) → ℕ → Client → Client
on_pipe f n c = record c { pipes = on_pipe_found f n c.pipes (Map.lookup ℕ_discrete n c.pipes) }

-- parseProxyRequest's pipe for a body that is streamed.
unfoldable pub open_pipe : Bytes → Client → Client
open_pipe id c = record c {
  active_request_body_pipes = Map.insert Bytes-discrete id c.next_pipe c.active_request_body_pipes;
  pipes = Map.insert ℕ_discrete c.next_pipe (record { content = []; ended = none }) c.pipes;
  next_pipe = c.next_pipe + 1;
}

unfoldable pub drop_pipe : Bytes → Client → Client
drop_pipe id c = record c {
  active_request_body_pipes = Map.delete Bytes-discrete id c.active_request_body_pipes;
}

abbrev pub chunk_of : (Bytes → Option Bytes) → Option Bytes → Option Bytes → Option Bytes
chunk_of unbase64 (some s) chunk = unbase64 s
chunk_of unbase64 none none = none
chunk_of unbase64 none (some s) = unbase64 s

-- The decoded chunk of a proxy_request_chunk message.
unfoldable pub message_chunk : (Bytes → Option Bytes) → WebSocketMessage → Option Bytes
message_chunk unbase64 msg =
    chunk_of unbase64 (text_at msg (codes "data")) (text_at msg (codes "chunk"))

-- The part of a chunk that the reader takes. The error of a write that fails is only logged.
abbrev pub taken : Option ℕ → Option Bytes → Option Bytes
taken none chunk = chunk
taken (some n) none = none
taken (some n) (some chunk) = some (take n chunk)

abbrev pub write_chunk : Client → Option ℕ → Option Bytes → Client
write_chunk c none chunk = c
write_chunk c (some n) none = c
write_chunk c (some n) (some chunk) = on_pipe (pipe_write chunk) n c

unfoldable pub handle_chunk : Environment → Client → WebSocketMessage → Client
handle_chunk env c msg =
    if bytes_eq msg.request_id []
    then c
    else write_chunk c (pipe_of c msg.request_id)
        (taken env.reader_takes (message_chunk env.unbase64 msg))

abbrev pub end_pipe : PipeEnd → Bytes → Client → Option ℕ → Client
end_pipe e id c none = c
end_pipe e id c (some n) = drop_pipe id (on_pipe (pipe_close e) n c)

unfoldable pub handle_stream_end : Client → WebSocketMessage → Client
handle_stream_end c msg =
    if bytes_eq msg.request_id []
    then c
    else end_pipe eof msg.request_id c (pipe_of c msg.request_id)

abbrev pub cancel_request : Bytes → Client → Option ℕ → Client
cancel_request id c none = c
cancel_request id c (some n) = record c {
  active_proxy_requests = Map.delete Bytes-discrete id c.active_proxy_requests;
  actions = cancels n ∷ c.actions;
}

unfoldable pub handle_cancel : Client → WebSocketMessage → Client
handle_cancel c msg =
    let id = msg.request_id in
    let c' = cancel_request id c (Map.lookup Bytes-discrete id c.active_proxy_requests) in
    if bytes_eq id [] then c else end_pipe cancelled id c' (pipe_of c' id)

abbrev pub serve : Environment → Client → ProxyRequest → Client
serve env c req =
    if env.on_streaming_request
    then acts c (serves_streaming req)
    else acts_if env.on_request c (serves req)

abbrev pub with_pipe : Bool → Bytes → Client → Client
with_pipe true id c = open_pipe id c
with_pipe false id c = c

abbrev pub start_request : Environment → Client → Option ProxyRequest → Client
start_request env c none = c
start_request env c (some req) = serve env (with_pipe req.streams_body req.request_id c) req

unfoldable pub handle_request : Environment → Client → WebSocketMessage → Client
handle_request env c msg =
    start_request env c (parse_proxy_request env.unbase64 env.yamux_active env.next_frame msg)
