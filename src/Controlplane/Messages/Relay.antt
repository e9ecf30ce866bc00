-- ===== src/Controlplane/Messages/Relay.antt =====
-- What handleMessage passes on of WebSocket and of tunnel messages.
use pipeops_k8_agent.Prelude.{ℕ, Bool, ◌||◌, ◌==◌, Option, none, some, [], ◌∷◌, if◌then◌else◌, ◌%◌}
use pipeops_k8_agent.Prelude.Bytes.{Bytes, codes}
use pipeops_k8_agent.Controlplane.Messages.{
  WebSocketMessage, text_at, get_string, get_number, text_or,
}

-- Text, binary, close, ping and pong.
unfoldable pub is_valid_web_socket_message_type : ℕ → Bool
is_valid_web_socket_message_type t = t == 1 || t == 2 || t == 8 || t == 9 || t == 10

abbrev with_type : Option ℕ → Bytes → Bytes
with_type none frame = frame
with_type (some t) frame = if is_valid_web_socket_message_type t then t % 256 ∷ frame else frame

-- The data with its type in front; where its first byte is a type it is taken to stand there.
unfoldable pub normalise : Option ℕ → Bytes → Bytes
normalise t [] = with_type t []
normalise t (x ∷ s) = if is_valid_web_socket_message_type x then x ∷ s else with_type t (x ∷ s)

-- The frame that SendWebSocketData sends.
unfoldable pub typed_frame : ℕ → Bytes → Bytes
typed_frame t frame = t % 256 ∷ frame

-- The stream of a proxy_websocket_data message, "" if it names none.
unfoldable pub target_request_id : WebSocketMessage → Bytes
target_request_id msg =
    text_or (text_at msg (codes "request_id"))
      (text_or (text_at msg (codes "stream_id")) msg.request_id)

pub record TcpTunnelStart : Type 0 where
  pub request_id : Bytes
  pub tunnel_id : Bytes
  pub gateway_name : Bytes
  pub gateway_namespace : Bytes
  pub gateway_port : ℕ
  pub service_name : Bytes
  pub service_namespace : Bytes
  pub service_port : ℕ
  pub client_addr : Bytes

unfoldable pub parse_tcp_start : WebSocketMessage → TcpTunnelStart
parse_tcp_start msg = record {
  request_id = msg.request_id;
  tunnel_id = get_string msg (codes "tunnel_id");
  gateway_name = get_string msg (codes "gateway_name");
  gateway_namespace = get_string msg (codes "gateway_namespace");
  gateway_port = get_number msg (codes "gateway_port");
  service_name = get_string msg (codes "service_name");
  service_namespace = get_string msg (codes "service_namespace");
  service_port = get_number msg (codes "service_port");
  client_addr = get_string msg (codes "client_addr");
}

pub record UdpTunnelData : Type 0 where
  pub tunnel_id : Bytes
  pub payload : Bytes
  pub client_addr : Bytes
  pub client_port : ℕ
  pub gateway_name : Bytes
  pub gateway_namespace : Bytes
  pub gateway_port : ℕ
  pub service_name : Bytes
  pub service_namespace : Bytes
  pub service_port : ℕ

abbrev udp_with : WebSocketMessage → Bytes → UdpTunnelData
udp_with msg datagram = record {
  tunnel_id = get_string msg (codes "tunnel_id");
  payload = datagram;
  client_addr = get_string msg (codes "client_addr");
  client_port = get_number msg (codes "client_port");
  gateway_name = get_string msg (codes "gateway_name");
  gateway_namespace = get_string msg (codes "gateway_namespace");
  gateway_port = get_number msg (codes "gateway_port");
  service_name = get_string msg (codes "service_name");
  service_namespace = get_string msg (codes "service_namespace");
  service_port = get_number msg (codes "service_port");
}

abbrev udp_of : WebSocketMessage → Option Bytes → Option UdpTunnelData
udp_of msg none = none
udp_of msg (some datagram) = some (udp_with msg datagram)

abbrev decoded_or_empty : (Bytes → Option Bytes) → Option Bytes → Option Bytes
decoded_or_empty unbase64 none = some []
decoded_or_empty unbase64 (some s) = unbase64 s

-- `none` where the data does not decode.
unfoldable pub parse_udp_data : (Bytes → Option Bytes) → WebSocketMessage → Option UdpTunnelData
parse_udp_data unbase64 msg = udp_of msg (decoded_or_empty unbase64 (text_at msg (codes "data")))
