-- ===== src/Controlplane/Messages/Request.antt =====
-- parseProxyRequest: the body, the flags and the route of a proxied request. Its headers, its head
-- data, its deadline and its limits are left out.
use pipeops_k8_agent.Prelude.{ℕ, Bool, not, ◌||◌, Option, none, some, [], ◌∷◌, if◌then◌else◌}
use pipeops_k8_agent.Prelude.Bytes.{Bytes, bytes_eq, codes}
use pipeops_k8_agent.Prelude.Text.{to_lower, trim_space}
use pipeops_k8_agent.Controlplane.BinaryFrame.{request_body}
use pipeops_k8_agent.Controlplane.Messages.{
  Json, text, compound, WebSocketMessage, payload_value, get_string, get_number, get_flag,
}

-- What the read of the next frame meets.
pub data NextFrame : Type 0 where
  no_connection read_failed other_frame : NextFrame
  binary_frame : Bytes → NextFrame

pub record ProxyRequest : Type 0 where
  pub request_id : Bytes
  pub cluster_id : Bytes
  pub cluster_uuid : Bytes
  pub agent_id : Bytes
  pub method : Bytes
  pub path : Bytes
  pub query : Bytes
  pub body : Bytes
  pub body_encoding : Bytes
  pub scheme : Bytes
  pub is_websocket : Bool
  pub use_zero_copy : Bool
  pub supports_streaming : Bool
  pub supports_response_streaming : Bool
  pub streams_body : Bool
  pub namespace : Bytes
  pub service_name : Bytes
  pub service_port : ℕ

-- A body with its encoding; `none` is an error.
abbrev pub Body : Type 0
Body = Option (Bytes × Bytes)

abbrev with_encoding : Bytes → Option Bytes → Body
with_encoding encoding none = none
with_encoding encoding (some body) = some (encoding, body)

abbrev framed_body : Bytes → Bytes → NextFrame → Body
framed_body id encoding no_connection = some (encoding, [])
framed_body id encoding read_failed = none
framed_body id encoding other_frame = none
framed_body id encoding (binary_frame frame) =
    with_encoding (codes "binary") (request_body id frame)

abbrev request_with : WebSocketMessage → Bytes × Bytes → ProxyRequest
request_with msg (encoding, body) = record {
  request_id = msg.request_id;
  cluster_id = get_string msg (codes "cluster_id");
  cluster_uuid = get_string msg (codes "cluster_uuid");
  agent_id = get_string msg (codes "agent_id");
  method = get_string msg (codes "method");
  path = get_string msg (codes "path");
  query = get_string msg (codes "query");
  body = body;
  body_encoding = encoding;
  scheme = get_string msg (codes "scheme");
  is_websocket =
      get_flag msg (codes "is_websocket")
      || get_flag msg (codes "isWebSocket")
      || not (bytes_eq (trim_space (get_string msg (codes "protocol"))) []);
  use_zero_copy = get_flag msg (codes "use_zero_copy") || get_flag msg (codes "useZeroCopy");
  supports_streaming = get_flag msg (codes "supports_streaming");
  supports_response_streaming = get_flag msg (codes "supports_response_streaming");
  streams_body = get_flag msg (codes "use_streaming") || get_flag msg (codes "streaming");
  namespace = get_string msg (codes "namespace");
  service_name = get_string msg (codes "service_name");
  service_port = get_number msg (codes "service_port");
}

abbrev pub request_of : WebSocketMessage → Body → Option ProxyRequest
request_of msg none = none
request_of msg (some body) = some (request_with msg body)

abbrev pub if_payload : {A : Type 0} {B : Type 0} → Option A → Option B → Option B
if_payload none parsed = none
if_payload (some a) parsed = parsed

module _ (unbase64 : Bytes → Option Bytes) where
  unfoldable pub payload_body : Bytes → Option Json → Body
  payload_body encoding (some (text [])) = some (encoding, [])
  payload_body encoding (some (text (x ∷ s))) =
      if bytes_eq encoding (codes "base64")
      then with_encoding encoding (unbase64 (x ∷ s))
      else some (encoding, x ∷ s)
  payload_body encoding (some (compound json)) =
      some (if bytes_eq encoding [] then codes "json" else encoding, json)
  payload_body encoding _ = some (encoding, [])

  unfoldable pub parse_body : Bool → NextFrame → WebSocketMessage → Body
  parse_body yamux_active next msg =
      let encoding = to_lower (get_string msg (codes "body_encoding")) in
      if get_flag msg (codes "body_binary")
      then if yamux_active then none else framed_body msg.request_id encoding next
      else payload_body encoding (payload_value msg.payload (codes "body"))

  -- `none` is an error.
  unfoldable pub parse_proxy_request : Bool → NextFrame → WebSocketMessage → Option ProxyRequest
  parse_proxy_request yamux_active next msg =
      if bytes_eq msg.request_id []
      then none
      else if_payload msg.payload (request_of msg (parse_body yamux_active next msg))
