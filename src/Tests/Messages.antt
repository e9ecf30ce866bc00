-- ===== src/Tests/Messages.antt =====
-- Runs of the model of handleMessage, and its theorems at concrete inputs.
use pipeops_k8_agent.Prelude.{none, ◌≡◌, refl, true, false, some, List, [], ◌∷◌, ℕ_discrete}
use pipeops_k8_agent.Prelude.Bytes.{Bytes, Bytes-discrete, codes}
use pipeops_k8_agent.Prelude.Text.{to_lower, trim_space, trim_left, trim_right}
use pipeops_k8_agent.Prelude.Map
use pipeops_k8_agent.Controlplane.Messages.{Json, text, boolean, WebSocketMessage, message_type}
use pipeops_k8_agent.Controlplane.Messages.Request.{
  ProxyRequest, no_connection, parse_proxy_request, parse_body, payload_body,
}
use pipeops_k8_agent.Controlplane.Messages.Relay.{normalise, is_valid_web_socket_message_type}
use pipeops_k8_agent.Controlplane.Messages.Handle.{Environment, new_client, eof, message_chunk}
use pipeops_k8_agent.Controlplane.Messages.Switch.{handle_message, handle_messages}
use pipeops_k8_agent.Controlplane.Messages.Fallback.{
  unknown_messages, at_most_one, handle_messages-fallbacks,
}
use pipeops_k8_agent.Controlplane.Messages.Quiet.{fallbacks}
use pipeops_k8_agent.Controlplane.Messages.Body.{reading, pipe_for, body_after}
use pipeops_k8_agent.Controlplane.Messages.BodyStream.{handle_messages-body}

-- A text frame that starts with a line feed is passed on as a pong.
line_feed : normalise (some 1) (10 ∷ codes "x") ≡ 10 ∷ codes "x"
unfolding normalise is_valid_web_socket_message_type
line_feed = refl

abbrev environment : Environment
environment = record {
  reader_takes = none;
  unbase64 = λ s. some s;
  yamux_active = false;
  next_frame = no_connection;
  proxy_manager = true;
  has_stream = λ id. false;
  on_streaming_request = true;
  on_request = false;
  on_websocket_data = true;
  on_websocket_close = true;
  on_tcp_start = true;
  on_tcp_data = true;
  on_tcp_close = true;
  on_udp_data = true;
  on_registration_error = true;
}

abbrev message : Bytes → Bytes → List (Bytes × Json) → Environment × WebSocketMessage
message kind id payload =
    (environment, record { kind = kind; request_id = id; payload = some payload })

abbrev odd : List (Environment × WebSocketMessage)
odd = message (codes "x") [] [] ∷ message (codes "ping") [] [] ∷ message (codes "x") [] [] ∷ []

handle_messages-fallbacks_example :
    fallbacks (codes "x") (handle_messages new_client odd).actions
    ≡ at_most_one (unknown_messages (codes "x") odd)
handle_messages-fallbacks_example = handle_messages-fallbacks (codes "x") odd

abbrev start : WebSocketMessage
start = (message (codes "proxy_request") (codes "r") ((codes "use_streaming", boolean true) ∷ [])).1

abbrev chunks : List (Environment × WebSocketMessage)
chunks =
    message (codes "proxy_request_chunk") (codes "r") ((codes "data", text (codes "ab")) ∷ [])
    ∷ message (codes "proxy_request_chunk") (codes "s") ((codes "data", text (codes "no")) ∷ [])
    ∷ message (codes "proxy_request_chunk") (codes "r") ((codes "chunk", text (codes "c")) ∷ [])
    ∷ message (codes "proxy_request_stream_end") (codes "r") []
    ∷ []

abbrev request : ProxyRequest
request = record {
  request_id = codes "r";
  cluster_id = [];
  cluster_uuid = [];
  agent_id = [];
  method = [];
  path = [];
  query = [];
  body = [];
  body_encoding = [];
  scheme = [];
  is_websocket = false;
  use_zero_copy = false;
  supports_streaming = false;
  supports_response_streaming = false;
  streams_body = true;
  namespace = [];
  service_name = [];
  service_port = 0;
}

handle_messages-body_example :
    Map.lookup ℕ_discrete
      (handle_messages new_client odd).next_pipe
      (handle_messages
        (handle_message environment (handle_messages new_client odd) start)
        chunks).pipes
    ≡ some (pipe_for (body_after (codes "r") chunks (reading [])))
unfolding parse_proxy_request parse_body payload_body message_type Map.lookup Bytes-discrete
    ℕ_discrete to_lower trim_space trim_left trim_right
handle_messages-body_example =
    handle_messages-body odd chunks environment start request refl refl refl

streamed_body :
    pipe_for (body_after (codes "r") chunks (reading []))
    ≡ record { content = codes "abc"; ended = some eof }
unfolding message_type Map.lookup Bytes-discrete ℕ_discrete message_chunk
streamed_body = refl
