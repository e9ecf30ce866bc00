-- ===== src/Controlplane/Messages/Switch.antt =====
-- handleMessage: its other cases, and the switch over the type of the message.
use pipeops_k8_agent.Prelude.{
  ℕ, ◌+◌, not, ◌&&◌, ◌||◌, ◌==◌, Option, none, some, List, [], ◌∷◌, if◌then◌else◌,
}
use pipeops_k8_agent.Prelude.Bytes.{Bytes, Bytes-discrete, bytes_eq, codes}
use pipeops_k8_agent.Prelude.Text.{to_lower, has_infix}
use pipeops_k8_agent.Prelude.Map
use pipeops_k8_agent.Prelude.Map.{Map}
use pipeops_k8_agent.Controlplane.Messages.{
  WebSocketMessage, MessageType, message_type, register_success, register_in_progress,
  heartbeat_ack, gateway_hello, pong, ping, proxy_request, proxy_request_chunk,
  proxy_request_stream_end, proxy_cancel, proxy_stream_data, websocket_start, websocket_data,
  websocket_close, tcp_tunnel_start, tcp_tunnel_data, tcp_tunnel_close, udp_tunnel_data,
  error_message, unknown_type, text_at, as_number, payload_value, get_string, or_zero,
}
use pipeops_k8_agent.Controlplane.Messages.Relay.{
  normalise, target_request_id, parse_tcp_start, parse_udp_data,
}
use pipeops_k8_agent.Controlplane.Messages.Handle.{
  Environment, Client, acts, acts_if, answers_register, negotiates_yamux, sends_pong, delivers,
  starts_stream, passes_to_stream, passes_to_service, closes_stream, closes_service, starts_tcp,
  passes_tcp, closes_tcp, passes_udp, reregisters, sends_fallback, handle_request, handle_chunk,
  handle_stream_end, handle_cancel,
}

abbrev pub act_found : {A : Type 0} → Client → (A → Client) → Option A → Client
act_found c f none = c
act_found c f (some a) = f a

abbrev pub decoded : (Bytes → Option Bytes) → Option Bytes → Option Bytes
decoded unbase64 none = none
decoded unbase64 (some s) = unbase64 s

-- The answer to a pending registration. Its channel holds one message; a second one is dropped.
unfoldable pub handle_register : Client → WebSocketMessage → Client
handle_register c msg =
    if bytes_eq msg.request_id []
    then c
    else act_found c
        (λ n.
          if n == 0
          then record (acts c (answers_register msg)) {
            request_handlers = Map.insert Bytes-discrete msg.request_id 1 c.request_handlers;
          }
          else c)
        (Map.lookup Bytes-discrete msg.request_id c.request_handlers)

unfoldable pub handle_stream_data : Environment → Client → WebSocketMessage → Client
handle_stream_data env c msg =
    if bytes_eq msg.request_id []
    then c
    else act_found c
        (λ writer.
          act_found c (λ frame. acts c (delivers writer frame))
            (decoded env.unbase64 (text_at msg (codes "data"))))
        (Map.lookup Bytes-discrete msg.request_id c.active_proxy_writers)

-- The message_type of a payload that has one.
abbrev pub type_field : WebSocketMessage → Option ℕ
type_field msg = as_number (payload_value msg.payload (codes "message_type"))

abbrev pub pass_frame : Client → WebSocketMessage → Bytes → Client
pass_frame c msg frame =
    let id = target_request_id msg in
    if bytes_eq id [] then c else acts c (passes_to_service id (normalise (type_field msg) frame))

unfoldable pub handle_websocket_data : Environment → Client → WebSocketMessage → Client
handle_websocket_data env c msg =
    let stream_id = get_string msg (codes "stream_id") in
    let frame = decoded env.unbase64 (text_at msg (codes "data")) in
    if env.proxy_manager && not (bytes_eq stream_id []) && env.has_stream stream_id
    then acts c (passes_to_stream msg)
    else if env.on_websocket_data
    then act_found c (pass_frame c msg) frame
    else c

unfoldable pub handle_websocket_close : Environment → Client → WebSocketMessage → Client
handle_websocket_close env c msg =
    let c' = acts_if env.proxy_manager c (closes_stream msg) in
    let id = target_request_id msg in
    acts_if (env.on_websocket_close && not (bytes_eq id [])) c' (closes_service id)

unfoldable pub handle_tcp_data : Environment → Client → WebSocketMessage → Client
handle_tcp_data env c msg =
    act_found c (λ frame. acts_if env.on_tcp_data c (passes_tcp msg.request_id frame))
      (decoded env.unbase64 (text_at msg (codes "data")))

unfoldable pub handle_udp_data : Environment → Client → WebSocketMessage → Client
handle_udp_data env c msg =
    act_found c (λ req. acts_if env.on_udp_data c (passes_udp req))
      (parse_udp_data env.unbase64 msg)

unfoldable pub handle_error : Environment → Client → WebSocketMessage → Client
handle_error env c msg =
    let error = get_string msg (codes "error") in
    acts_if
      ((has_infix (to_lower error) (codes "not registered")
          || has_infix (to_lower error) (codes "cluster not found"))
        && env.on_registration_error)
      c (reregisters error)

-- How often a type was seen.
abbrev pub seen : Client → Bytes → ℕ
seen c kind = or_zero (Map.lookup Bytes-discrete kind c.unknown_message_types)

unfoldable pub handle_unknown_message_type : Client → WebSocketMessage → Client
handle_unknown_message_type c msg =
    let count = seen c msg.kind + 1 in
    let c' = record c {
      unknown_message_types = Map.insert Bytes-discrete msg.kind count c.unknown_message_types;
    } in
    acts_if (count == 1) c' (sends_fallback msg.kind)

unfoldable pub handle_case : Environment → Client → WebSocketMessage → MessageType → Client
handle_case env c msg register_success = handle_register c msg
handle_case env c msg register_in_progress = c
handle_case env c msg heartbeat_ack = c
handle_case env c msg gateway_hello = acts c (negotiates_yamux msg)
handle_case env c msg pong = c
handle_case env c msg ping = acts c (sends_pong msg.request_id)
handle_case env c msg proxy_request = handle_request env c msg
handle_case env c msg proxy_request_chunk = handle_chunk env c msg
handle_case env c msg proxy_request_stream_end = handle_stream_end c msg
handle_case env c msg proxy_cancel = handle_cancel c msg
handle_case env c msg proxy_stream_data = handle_stream_data env c msg
handle_case env c msg websocket_start = acts_if env.proxy_manager c (starts_stream msg)
handle_case env c msg websocket_data = handle_websocket_data env c msg
handle_case env c msg websocket_close = handle_websocket_close env c msg
handle_case env c msg tcp_tunnel_start =
    acts_if env.on_tcp_start c (starts_tcp (parse_tcp_start msg))
handle_case env c msg tcp_tunnel_data = handle_tcp_data env c msg
handle_case env c msg tcp_tunnel_close =
    acts_if env.on_tcp_close c (closes_tcp msg.request_id (get_string msg (codes "reason")))
handle_case env c msg udp_tunnel_data = handle_udp_data env c msg
handle_case env c msg error_message = handle_error env c msg
handle_case env c msg unknown_type = handle_unknown_message_type c msg

unfoldable pub handle_message : Environment → Client → WebSocketMessage → Client
handle_message env c msg = handle_case env c msg (message_type msg.kind)

-- readMessages: the messages one after the other, each with what is registered at its time.
unfoldable pub handle_messages : Client → List (Environment × WebSocketMessage) → Client
handle_messages c [] = c
handle_messages c ((env, msg) ∷ rest) = handle_messages (handle_message env c msg) rest
