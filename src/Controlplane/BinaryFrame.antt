-- ===== src/Controlplane/BinaryFrame.antt =====
-- The binary frames of internal/controlplane/websocket_client.go that carry the body of a proxied
-- request or response. The JSON of the headers is an argument: what json.Marshal gives.
pub mod RoundTrip
use pipeops_k8_agent.Prelude.{
  ℕ, ◌+◌, Bool, true, false, ltb, Option, none, some, List, [], ◌∷◌, ◌++◌, length, take, drop,
  if◌then◌else◌,
}
use pipeops_k8_agent.Prelude.Bytes.{Bytes, bytes_eq, put_u16, put_u32, get_u16}
use pipeops_k8_agent.Controlplane.Response.{ProxyResponse}

pub data FrameError : Type 0 where
  yamux_is_active context_done marshal_failed size_overflow : FrameError

pub data FrameResult : Type 0 where
  built : Bytes → FrameResult
  refused : FrameError → FrameResult

abbrev pub max_int : ℕ
max_int = 9223372036854775807

abbrev pub header_overhead : ℕ
header_overhead = 10

-- The id, the status and the headers with their lengths, then the body as it is.
unfoldable pub frame_layout : ProxyResponse → Bytes → Bytes → Bytes
frame_layout r headers_json body =
    put_u16 (length r.request_id)
      (r.request_id ++ put_u32 r.status (put_u32 (length headers_json) (headers_json ++ body)))

unfoldable pub sized_frame : ProxyResponse → Bytes → Bytes → FrameResult
sized_frame r headers_json body =
    if ltb max_int (header_overhead + length r.request_id + length headers_json + length body)
    then refused size_overflow
    else built (frame_layout r headers_json body)

unfoldable pub marshalled_frame : ProxyResponse → Option Bytes → Bytes → FrameResult
marshalled_frame r none body = refused marshal_failed
marshalled_frame r (some headers_json) body = sized_frame r headers_json body

-- The frame that SendProxyResponseBinary sends.
unfoldable pub response_frame : Bool → Bool → ProxyResponse → Option Bytes → Bytes → FrameResult
response_frame yamux_active done r headers_json body =
    if yamux_active
    then refused yamux_is_active
    else if done
    then refused context_done
    else marshalled_frame r headers_json body

-- parseProxyRequest once it has read the length of the ID.
unfoldable pub body_after_id : Bytes → ℕ → Bytes → Option Bytes
body_after_id id n rest =
    if ltb (length rest) n
    then none
    else if bytes_eq (take n rest) id
    then some (drop n rest)
    else none

-- parseProxyRequest on the binary frame of the request `id`; `none` is an error.
unfoldable pub request_body : Bytes → Bytes → Option Bytes
request_body id [] = none
request_body id (x ∷ []) = none
request_body id (high ∷ low ∷ rest) = body_after_id id (get_u16 high low) rest
