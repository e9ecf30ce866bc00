-- ===== src/Controlplane/Response/Answer.antt =====
-- What the gateway gets of a response that is buffered.
use pipeops_k8_agent.Prelude.{ℕ, Bool, false, Option, List}
use pipeops_k8_agent.Prelude.Bytes.{Bytes}
use pipeops_k8_agent.Controlplane.Response.{Header, Encoders, SenderCall, Sender}
use pipeops_k8_agent.Controlplane.Response.Writer.{Call}
use pipeops_k8_agent.Controlplane.Response.Buffered
use pipeops_k8_agent.Controlplane.Response.Buffered.{
  BufferedWriter, buffered_ops, status_or_ok, binary_payload, json_payload,
}
use pipeops_k8_agent.Controlplane.Response.Dispatch.{dispatch}
use pipeops_k8_agent.Controlplane.Response.Received.{Decoders}

-- A writer that is not closed.
abbrev open_writer :
    Bytes → ℕ → Option Header → Bytes → List Bytes → List SenderCall → BufferedWriter
open_writer id status headers buffer stream sent = record {
  request_id = id;
  status = status;
  headers = headers;
  buffer = buffer;
  closed = false;
  stream = stream;
  sent = sent;
}

module _ {encoders : Encoders} (d : Decoders encoders) where
  module _ (yamux_active : Bool) (sender : Sender) where
    abbrev sent_from : BufferedWriter → List Call → List SenderCall
    sent_from w calls = (dispatch (buffered_ops encoders yamux_active sender) w calls).sent
