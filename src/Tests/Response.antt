-- ===== src/Tests/Response.antt =====
-- Runs of the model of the proxied responses, and its theorems at concrete inputs.
use pipeops_k8_agent.Prelude.{
  ◌≡◌, refl, false, Option, none, some, List, [], ◌∷◌, arith, ℕ_discrete,
}
use pipeops_k8_agent.Prelude.Bytes.{Bytes, Bytes-discrete, codes}
use pipeops_k8_agent.Prelude.Text.{to_lower}
use pipeops_k8_agent.Controlplane.Response.{
  Header, Encoders, ProxyResponse, Sender, sanitize_headers_for_status, sanitize_entries,
  is_dropped,
}
use pipeops_k8_agent.Controlplane.Response.Writer.{
  Call, writes_header, writes_chunk, closes, delivers,
}
use pipeops_k8_agent.Controlplane.Response.Buffered.{
  BufferedWriter, new_buffered_writer, buffered_ops,
}
use pipeops_k8_agent.Controlplane.Response.Dispatch.{dispatch}
use pipeops_k8_agent.Controlplane.Response.Received.{Decoders}
use pipeops_k8_agent.Controlplane.BinaryFrame.{response_frame, built}
use pipeops_k8_agent.Controlplane.BinaryFrame.RoundTrip.{read_response_frame, response_frame-read}

-- Encoders that mark what they encode.
abbrev encoders : Encoders
encoders = record { base64 = λ b. 1 ∷ b; gzip = λ b. some (2 ∷ b) }

abbrev rest_of : Bytes → Option Bytes
rest_of [] = none
rest_of (x ∷ b) = some b

marked : (b z : Bytes) → some (2 ∷ b) ≡ some z → rest_of z ≡ some b
marked b z e = ground (arith, e)

abbrev decoders : Decoders encoders
decoders = record {
  unbase64 = rest_of;
  gunzip = rest_of;
  unbase64-base64 = λ b. refl;
  gunzip-gzip = marked;
}

-- A sender that fails at its first call.
abbrev sender : Sender
sender [] = none
sender (c ∷ []) = some (codes "closed")
sender _ = none

abbrev id : Bytes
id = codes "r"

abbrev headers : Header
headers = (codes "Content-Type", codes "text/plain" ∷ []) ∷ (codes "Te", codes "x" ∷ []) ∷ []

abbrev calls : List Call
calls =
    writes_header 201 (some headers)
    ∷ writes_chunk (codes "ab")
    ∷ delivers (codes "x")
    ∷ writes_chunk (codes "c")
    ∷ closes none
    ∷ writes_chunk (codes "late")
    ∷ []

abbrev ended : BufferedWriter
ended = dispatch (buffered_ops encoders false sender) (new_buffered_writer id) calls

-- The header Trailer of HTTP goes through; the list has "trailers".
trailer_forwarded :
    sanitize_headers_for_status (some ((codes "Trailer", codes "x" ∷ []) ∷ [])) 200
    ≡ some ((codes "Trailer", codes "x" ∷ []) ∷ [])
unfolding sanitize_headers_for_status sanitize_entries is_dropped to_lower Bytes-discrete ℕ_discrete
trailer_forwarded = refl

abbrev response : ProxyResponse
response = record {
  request_id = id;
  status = 200;
  headers = none;
  body = [];
  encoding = codes "binary";
}

response_frame-read_example :
    (frame : Bytes) × (response_frame false false response (some (codes "{}")) (codes "body")
      ≡ built frame)
    × (response_frame false false
          (record response { encoding = codes "binary+gzip" })
          (some (codes "{}"))
          (codes "body")
        ≡ built frame)
    × (read_response_frame frame
        ≡ some (record {
          request_id = id;
          status = 200;
          headers_json = codes "{}";
          body = codes "body";
        }))
response_frame-read_example =
    response_frame-read response (codes "{}") (codes "body") (codes "binary+gzip") (omega arith)
      (omega arith) (omega arith) (omega arith)
