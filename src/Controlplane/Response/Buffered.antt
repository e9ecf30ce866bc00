-- ===== src/Controlplane/Response/Buffered.antt =====
-- proxyResponseWriter: the response is collected and sent when the writer is closed. Writes to
-- the bytes.Buffer do not fail. `yamux_active` is what CloseWithError finds of the sender.
use pipeops_k8_agent.Prelude.{
  ℕ, Bool, true, false, not, ◌&&◌, ◌==◌, ltb, leb, Option, none, some, List, [], ◌∷◌, ◌++◌, length,
  if◌then◌else◌, drop,
}
use pipeops_k8_agent.Prelude.Bytes.{Bytes, Bytes-discrete, codes}
use pipeops_k8_agent.Prelude.Map
use pipeops_k8_agent.Controlplane.Response.{
  Header, clone_header_map, sanitize_headers_for_status, should_compress, Encoders, SenderCall,
  send_proxy_response, send_proxy_response_binary, send_proxy_error, Sender,
}
use pipeops_k8_agent.Controlplane.Response.Writer.{
  Delivery, delivered, dropped, panicked, WriterOps, closed_pipe, stream_capacity,
}

pub record BufferedWriter : Type 0 where
  pub request_id : Bytes
  pub status : ℕ
  pub headers : Option Header
  pub buffer : Bytes
  pub closed : Bool
  pub stream : List Bytes
  pub sent : List SenderCall

unfoldable pub new_buffered_writer : Bytes → BufferedWriter
new_buffered_writer request_id = record {
  request_id = request_id;
  status = 0;
  headers = some [];
  buffer = [];
  closed = false;
  stream = [];
  sent = [];
}

abbrev pub newer_headers : Option Header → Option Header → Option Header
newer_headers none old = old
newer_headers (some h) old = clone_header_map (some h)

unfoldable pub write_header : BufferedWriter → ℕ → Option Header → BufferedWriter × Option Bytes
write_header w status headers = if w.closed then (w, some closed_pipe) else (
  record w {
    status = if ltb 0 status then status else w.status;
    headers = newer_headers headers w.headers;
  },
  none,
)

unfoldable pub write_chunk : BufferedWriter → Bytes → BufferedWriter × Option Bytes
write_chunk w [] = (w, none)
write_chunk w (x ∷ chunk) =
    if w.closed then (w, some closed_pipe) else (record w { buffer = w.buffer ++ x ∷ chunk }, none)

unfoldable pub deliver_stream_data : BufferedWriter → Bytes → BufferedWriter × Delivery
unfolding stream_capacity
deliver_stream_data w frame =
    if w.closed
    then (w, panicked)
    else if ltb (length w.stream) stream_capacity
    then (record w { stream = w.stream ++ frame ∷ [] }, delivered)
    else (w, dropped)

abbrev pub status_or_ok : ℕ → ℕ
status_or_ok status = if status == 0 then 200 else status

abbrev first_value : Option (List Bytes) → Bytes
first_value none = []
first_value (some []) = []
first_value (some (v ∷ vs)) = v

unfoldable pub content_type_of : Option Header → Bytes
content_type_of none = []
content_type_of (some h) = first_value (Map.lookup Bytes-discrete (codes "Content-Type") h)

abbrev smaller : Bytes → Option Bytes → Bytes × Bytes
smaller body none = (codes "binary", body)
smaller body (some z) =
    if ltb (length z) (length body) then (codes "binary+gzip", z) else (codes "binary", body)

-- The encoding and the body of the binary frame.
unfoldable pub binary_payload : Encoders → Bytes → Bytes → Bytes × Bytes
binary_payload encoders content_type body =
    if should_compress content_type (length body)
    then smaller body (encoders.gzip body)
    else (codes "binary", body)

abbrev packed : Encoders → Bytes → Option Bytes → Bytes × Bytes
packed encoders body none = (codes "base64", encoders.base64 body)
packed encoders body (some z) = (codes "gzip", encoders.base64 z)

-- The encoding and the body of the JSON response.
unfoldable pub json_payload : Encoders → Bytes → Bytes → Bytes × Bytes
json_payload encoders content_type [] = ([], [])
json_payload encoders content_type (x ∷ body) =
    if should_compress content_type (length (x ∷ body))
    then packed encoders (x ∷ body) (encoders.gzip (x ∷ body))
    else (codes "base64", encoders.base64 (x ∷ body))

module _ (encoders : Encoders) (yamux_active : Bool) (sender : Sender) where
  abbrev pub send : BufferedWriter → SenderCall → BufferedWriter × Option Bytes
  send w call = let sent = w.sent ++ call ∷ [] in (record w { sent = sent }, sender sent)

  unfoldable pub binary_call : BufferedWriter → SenderCall
  binary_call w =
      let (encoding, body) =
        binary_payload encoders (content_type_of (clone_header_map w.headers)) w.buffer in
      send_proxy_response_binary
        (record {
          request_id = w.request_id;
          status = status_or_ok w.status;
          headers =
              sanitize_headers_for_status (clone_header_map w.headers) (status_or_ok w.status);
          body = [];
          encoding = encoding;
        })
        body

  unfoldable pub json_call : BufferedWriter → SenderCall
  json_call w =
      let (encoding, body) =
        json_payload encoders (content_type_of (clone_header_map w.headers)) w.buffer in
      send_proxy_response (record {
        request_id = w.request_id;
        status = status_or_ok w.status;
        headers = sanitize_headers_for_status (clone_header_map w.headers) (status_or_ok w.status);
        body = body;
        encoding = encoding;
      })

  -- Without an error of the binary frame it is done, else it falls back to JSON.
  unfoldable pub after_binary : BufferedWriter × Option Bytes → BufferedWriter × Option Bytes
  after_binary (w, none) = (w, none)
  after_binary (w, some e) = send w (json_call w)

  unfoldable pub respond : BufferedWriter → BufferedWriter × Option Bytes
  respond w =
      let binary = after_binary (send w (binary_call w)) in
      if leb 10240 (length w.buffer) && not yamux_active then binary else send w (json_call w)

  unfoldable pub close_open : BufferedWriter → Option Bytes → BufferedWriter × Option Bytes
  close_open w none = respond w
  close_open w (some e) = ((send w (send_proxy_error w.request_id e)).0, some e)

  unfoldable pub close_with_error : BufferedWriter → Option Bytes → BufferedWriter × Option Bytes
  close_with_error w e = if w.closed then (w, none) else close_open (record w { closed = true }) e

  unfoldable pub buffered_ops : WriterOps BufferedWriter
  buffered_ops = record {
    write_header = write_header;
    write_chunk = write_chunk;
    close_with_error = close_with_error;
    deliver_stream_data = deliver_stream_data;
    receive = λ w. record w { stream = drop 1 w.stream };
    closed = λ w. w.closed;
    sent = λ w. w.sent;
  }
