-- ===== src/Controlplane/Messages.antt =====
-- The messages of the control plane and the state that handleMessage works on, of
-- internal/controlplane/websocket_client.go. A payload is a JSON object; its numbers are natural
-- and fit Go's int32, and an object or an array in it is its JSON text.
pub mod Request
pub mod Relay
pub mod Handle
pub mod Switch
pub mod Quiet
pub mod Fallback
pub mod Body
pub mod Pipes
pub mod Tracks
pub mod SamePipes
pub mod OtherSteps
pub mod BodySteps
pub mod BodyStream
use pipeops_k8_agent.Prelude.{
  ℕ, Bool, true, false, Option, none, some, List, [], ◌∷◌, if◌then◌else◌,
}
use pipeops_k8_agent.Prelude.Bytes.{Bytes, Bytes-discrete, codes}
use pipeops_k8_agent.Prelude.Map
use pipeops_k8_agent.Prelude.Map.{Map}

pub data Json : Type 0 where
  text : Bytes → Json
  number : ℕ → Json
  boolean : Bool → Json
  null : Json
  compound : Bytes → Json

-- The payload is `none` where it is nil.
pub record WebSocketMessage : Type 0 where
  pub kind : Bytes
  pub request_id : Bytes
  pub payload : Option (Map Bytes Json)

abbrev pub payload_value : Option (Map Bytes Json) → Bytes → Option Json
payload_value none key = none
payload_value (some payload) key = Map.lookup Bytes-discrete key payload

abbrev pub as_text : Option Json → Option Bytes
as_text (some (text s)) = some s
as_text _ = none

abbrev pub as_number : Option Json → Option ℕ
as_number (some (number n)) = some n
as_number _ = none

abbrev pub is_true : Option Json → Bool
is_true (some (boolean b)) = b
is_true _ = false

abbrev pub or_empty : Option Bytes → Bytes
or_empty none = []
or_empty (some s) = s

abbrev pub or_zero : Option ℕ → ℕ
or_zero none = 0
or_zero (some n) = n

abbrev pub text_at : WebSocketMessage → Bytes → Option Bytes
text_at msg key = as_text (payload_value msg.payload key)

-- getString: "" where there is no text.
abbrev pub get_string : WebSocketMessage → Bytes → Bytes
get_string msg key = or_empty (text_at msg key)

abbrev pub get_number : WebSocketMessage → Bytes → ℕ
get_number msg key = or_zero (as_number (payload_value msg.payload key))

abbrev pub get_flag : WebSocketMessage → Bytes → Bool
get_flag msg key = is_true (payload_value msg.payload key)

-- The text if it is not empty, else the other one.
abbrev pub text_or : Option Bytes → Bytes → Bytes
text_or none other = other
text_or (some []) other = other
text_or (some (x ∷ s)) other = x ∷ s

-- The cases of the switch over the type of a message.
pub data MessageType : Type 0 where
  register_success register_in_progress heartbeat_ack gateway_hello pong ping : MessageType
  proxy_request proxy_request_chunk proxy_request_stream_end proxy_cancel : MessageType
  proxy_stream_data websocket_start websocket_data websocket_close : MessageType
  tcp_tunnel_start tcp_tunnel_data tcp_tunnel_close udp_tunnel_data error_message : MessageType
  unknown_type : MessageType

abbrev pub message_types : Map Bytes MessageType
message_types =
    (codes "register_success", register_success)
    ∷ (codes "register_in_progress", register_in_progress)
    ∷ (codes "heartbeat_ack", heartbeat_ack)
    ∷ (codes "gateway_hello", gateway_hello)
    ∷ (codes "pong", pong)
    ∷ (codes "ping", ping)
    ∷ (codes "proxy_request", proxy_request)
    ∷ (codes "proxy_request_chunk", proxy_request_chunk)
    ∷ (codes "proxy_request_stream_end", proxy_request_stream_end)
    ∷ (codes "proxy_cancel", proxy_cancel)
    ∷ (codes "proxy_stream_data", proxy_stream_data)
    ∷ (codes "proxy_websocket_start", websocket_start)
    ∷ (codes "ws_start", websocket_start)
    ∷ (codes "proxy_websocket_data", websocket_data)
    ∷ (codes "ws_data", websocket_data)
    ∷ (codes "proxy_websocket_close", websocket_close)
    ∷ (codes "ws_close", websocket_close)
    ∷ (codes "tcp_tunnel_start", tcp_tunnel_start)
    ∷ (codes "tcp_tunnel_data", tcp_tunnel_data)
    ∷ (codes "tcp_tunnel_close", tcp_tunnel_close)
    ∷ (codes "udp_tunnel_data", udp_tunnel_data)
    ∷ (codes "error", error_message)
    ∷ []

abbrev or_unknown : Option MessageType → MessageType
or_unknown none = unknown_type
or_unknown (some t) = t

unfoldable pub message_type : Bytes → MessageType
message_type kind = or_unknown (Map.lookup Bytes-discrete kind message_types)
