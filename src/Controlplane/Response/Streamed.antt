-- ===== src/Controlplane/Response/Streamed.antt =====
-- What the gateway gets of a response that is streamed.
use pipeops_k8_agent.Prelude.{Bool, false, none, some, List, [], ◌∷◌}
use pipeops_k8_agent.Prelude.Bytes.{Bytes}
use pipeops_k8_agent.Controlplane.Response.{
  SenderCall, send_proxy_response_chunk, send_proxy_response_end, send_proxy_response_abort, Sender,
}
use pipeops_k8_agent.Controlplane.Response.Writer.{
  Call, writes_header, writes_chunk, closes, delivers, receives,
}
use pipeops_k8_agent.Controlplane.Response.Streaming
use pipeops_k8_agent.Controlplane.Response.Streaming.{StreamingWriter, streaming_ops, header_call}
use pipeops_k8_agent.Controlplane.Response.Dispatch.{dispatch}

-- The headers and the chunks up to the first close, without the empty chunks, and one end.
abbrev pub streamed : Bytes → List Call → List SenderCall
streamed id [] = send_proxy_response_end id ∷ []
streamed id (writes_header status headers ∷ cs) = header_call id status headers ∷ streamed id cs
streamed id (writes_chunk [] ∷ cs) = streamed id cs
streamed id (writes_chunk (x ∷ chunk) ∷ cs) =
    send_proxy_response_chunk id (x ∷ chunk) ∷ streamed id cs
streamed id (closes none ∷ cs) = send_proxy_response_end id ∷ []
streamed id (closes (some e) ∷ cs) = send_proxy_response_abort id e ∷ []
streamed id (delivers frame ∷ cs) = streamed id cs
streamed id (receives ∷ cs) = streamed id cs

abbrev open_writer : Bytes → Bool → List Bytes → List SenderCall → StreamingWriter
open_writer id header_sent stream sent = record {
  request_id = id;
  header_sent = header_sent;
  closed = false;
  stream = stream;
  sent = sent;
}

module _ (sender : Sender) where
  abbrev sent_from : StreamingWriter → List Call → List SenderCall
  sent_from w calls = (dispatch (streaming_ops sender) w calls).sent
