-- ===== src/Controlplane/Messages/SamePipes.antt =====
-- The cases of handleMessage that leave the pipes alone.
use pipeops_k8_agent.Prelude.{◌≡◌, refl, Bool, true, false, arith}
use pipeops_k8_agent.Controlplane.Messages.{
  WebSocketMessage, MessageType, proxy_request, proxy_request_chunk, proxy_request_stream_end,
  proxy_cancel, register_success, register_in_progress, heartbeat_ack, gateway_hello, pong, ping,
  proxy_stream_data, websocket_start, websocket_data, websocket_close, tcp_tunnel_start,
  tcp_tunnel_data, tcp_tunnel_close, udp_tunnel_data, error_message, unknown_type,
}
use pipeops_k8_agent.Controlplane.Messages.Handle.{Environment, Client, acts_if, Action}
use pipeops_k8_agent.Controlplane.Messages.Switch.{
  handle_case, handle_register, handle_stream_data, handle_websocket_data, handle_websocket_close,
  handle_tcp_data, handle_udp_data, handle_error, handle_unknown_message_type,
}
use pipeops_k8_agent.Controlplane.Messages.Tracks.{IsSamePipes}

abbrev pub is_body : MessageType → Bool
is_body proxy_request = true
is_body proxy_request_chunk = true
is_body proxy_request_stream_end = true
is_body proxy_cancel = true
is_body _ = false

pub acts_if-IsSamePipes :
    (b : Bool) (c : Client) (action : Action) → IsSamePipes c (acts_if b c action)
acts_if-IsSamePipes true c action = (refl, refl, refl)
acts_if-IsSamePipes false c action = (refl, refl, refl)

close-IsSamePipes :
    (env : Environment) (c : Client) (msg : WebSocketMessage)
    → IsSamePipes c (handle_websocket_close env c msg)
unfolding handle_websocket_close
close-IsSamePipes env c msg = (ground arith, ground arith, ground arith)

pub case-IsSamePipes :
    (env : Environment) (c : Client) (msg : WebSocketMessage) (t : MessageType)
    → is_body t ≡ false
    → IsSamePipes c (handle_case env c msg t)
unfolding handle_case handle_register handle_stream_data handle_websocket_data handle_tcp_data
    handle_udp_data handle_error handle_unknown_message_type
case-IsSamePipes env c msg register_success h = (ground arith, ground arith, ground arith)
case-IsSamePipes env c msg register_in_progress h = (refl, refl, refl)
case-IsSamePipes env c msg heartbeat_ack h = (refl, refl, refl)
case-IsSamePipes env c msg gateway_hello h = (refl, refl, refl)
case-IsSamePipes env c msg pong h = (refl, refl, refl)
case-IsSamePipes env c msg ping h = (refl, refl, refl)
case-IsSamePipes env c msg proxy_request h = absurd (ground (arith, h))
case-IsSamePipes env c msg proxy_request_chunk h = absurd (ground (arith, h))
case-IsSamePipes env c msg proxy_request_stream_end h = absurd (ground (arith, h))
case-IsSamePipes env c msg proxy_cancel h = absurd (ground (arith, h))
case-IsSamePipes env c msg proxy_stream_data h = (ground arith, ground arith, ground arith)
case-IsSamePipes env c msg websocket_start h = acts_if-IsSamePipes _ c _
case-IsSamePipes env c msg websocket_data h = (ground arith, ground arith, ground arith)
case-IsSamePipes env c msg websocket_close h = close-IsSamePipes env c msg
case-IsSamePipes env c msg tcp_tunnel_start h = acts_if-IsSamePipes _ c _
case-IsSamePipes env c msg tcp_tunnel_data h = (ground arith, ground arith, ground arith)
case-IsSamePipes env c msg tcp_tunnel_close h = acts_if-IsSamePipes _ c _
case-IsSamePipes env c msg udp_tunnel_data h = (ground arith, ground arith, ground arith)
case-IsSamePipes env c msg error_message h = acts_if-IsSamePipes _ c _
case-IsSamePipes env c msg unknown_type h = (ground arith, ground arith, ground arith)
