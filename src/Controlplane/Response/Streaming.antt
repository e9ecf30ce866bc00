-- ===== src/Controlplane/Response/Streaming.antt =====
-- streamingProxyResponseWriter: headers and chunks go to the sender at once.
use pipeops_k8_agent.Prelude.{
  ℕ, Bool, true, false, ltb, Option, none, some, List, [], ◌∷◌, ◌++◌, length, if◌then◌else◌, drop,
}
use pipeops_k8_agent.Prelude.Bytes.{Bytes}
use pipeops_k8_agent.Controlplane.Response.{
  Header, clone_header_map, sanitize_headers_for_status, SenderCall, send_proxy_response_header,
  send_proxy_response_chunk, send_proxy_response_end, send_proxy_response_abort, Sender,
}
use pipeops_k8_agent.Controlplane.Response.Buffered.{status_or_ok}
use pipeops_k8_agent.Controlplane.Response.Writer.{
  Delivery, delivered, dropped, panicked, WriterOps, closed_pipe, stream_capacity,
}

pub record StreamingWriter : Type 0 where
  pub request_id : Bytes
  pub header_sent : Bool
  pub closed : Bool
  pub stream : List Bytes
  pub sent : List SenderCall

unfoldable pub new_streaming_writer : Bytes → StreamingWriter
new_streaming_writer request_id = record {
  request_id = request_id;
  header_sent = false;
  closed = false;
  stream = [];
  sent = [];
}

abbrev pub header_call : Bytes → ℕ → Option Header → SenderCall
header_call request_id status headers =
    let code = status_or_ok status in
    send_proxy_response_header request_id code
      (sanitize_headers_for_status (clone_header_map headers) code)

unfoldable pub deliver_stream_data : StreamingWriter → Bytes → StreamingWriter × Delivery
unfolding stream_capacity
deliver_stream_data w frame =
    if w.closed
    then (w, panicked)
    else if ltb (length w.stream) stream_capacity
    then (record w { stream = w.stream ++ frame ∷ [] }, delivered)
    else (w, dropped)

abbrev header_done : StreamingWriter × Option Bytes → StreamingWriter × Option Bytes
header_done (w, none) = (record w { header_sent = true }, none)
header_done (w, some e) = (w, some e)

module _ (sender : Sender) where
  abbrev send : StreamingWriter → SenderCall → StreamingWriter × Option Bytes
  send w call = let sent = w.sent ++ call ∷ [] in (record w { sent = sent }, sender sent)

  unfoldable pub write_header : StreamingWriter → ℕ → Option Header → StreamingWriter × Option Bytes
  write_header w status headers =
      if w.closed
      then (w, some closed_pipe)
      else header_done (send w (header_call w.request_id status headers))

  unfoldable pub write_chunk : StreamingWriter → Bytes → StreamingWriter × Option Bytes
  write_chunk w [] = (w, none)
  write_chunk w (x ∷ chunk) =
      if w.closed
      then (w, some closed_pipe)
      else send w (send_proxy_response_chunk w.request_id (x ∷ chunk))

  unfoldable pub close_open : StreamingWriter → Option Bytes → StreamingWriter × Option Bytes
  close_open w none = send w (send_proxy_response_end w.request_id)
  close_open w (some e) = ((send w (send_proxy_response_abort w.request_id e)).0, some e)

  unfoldable pub close_with_error : StreamingWriter → Option Bytes → StreamingWriter × Option Bytes
  close_with_error w e = if w.closed then (w, none) else close_open (record w { closed = true }) e

  unfoldable pub streaming_ops : WriterOps StreamingWriter
  streaming_ops = record {
    write_header = write_header;
    write_chunk = write_chunk;
    close_with_error = close_with_error;
    deliver_stream_data = deliver_stream_data;
    receive = λ w. record w { stream = drop 1 w.stream };
    closed = λ w. w.closed;
    sent = λ w. w.sent;
  }
