-- ===== src/Controlplane/Response/Received.antt =====
-- What a handler writes, and what the gateway reads of a call of the sender.
use pipeops_k8_agent.Prelude.{
  ℕ, ◌≡◌, ◌≢◌, ◌⊎◌, inl, inr, refl, Bool, Option, none, some, List, [], ◌∷◌, ◌++◌, Option-cases,
  Bool-cases, ap, ltb, length, if◌then◌else◌, ℕ_discrete,
}
use pipeops_k8_agent.Prelude.Bytes.{Bytes, codes, bytes_eq, Bytes-discrete}
use pipeops_k8_agent.Controlplane.Response.{
  Header, clone_header_map, sanitize_headers_for_status, should_compress, Encoders, SenderCall,
  send_proxy_response, send_proxy_response_binary, send_proxy_error, send_proxy_response_header,
  send_proxy_response_chunk, send_proxy_response_end, send_proxy_response_abort, Sender,
}
use pipeops_k8_agent.Controlplane.Response.Writer.{
  Call, writes_header, writes_chunk, closes, delivers, receives,
}
use pipeops_k8_agent.Controlplane.Response.Buffered.{
  BufferedWriter, status_or_ok, newer_headers, binary_call, json_call, binary_payload, json_payload,
}

-- What a handler writes.
pub record Written : Type 0 where
  pub status : ℕ
  pub headers : Option Header
  pub body : Bytes

-- The status, the headers and the body as they stand at the first close, and its error.
abbrev pub handled : Written → List Call → Written × Option Bytes
handled r [] = (r, none)
handled r (writes_header status headers ∷ cs) =
    handled
      (record r {
        status = if ltb 0 status then status else r.status;
        headers = newer_headers headers r.headers;
      })
      cs
handled r (writes_chunk chunk ∷ cs) = handled (record r { body = r.body ++ chunk }) cs
handled r (closes e ∷ cs) = (r, e)
handled r (delivers frame ∷ cs) = handled r cs
handled r (receives ∷ cs) = handled r cs

abbrev pub unwritten : Written
unwritten = record { status = 0; headers = some []; body = [] }

-- The response with status 200 by default and without the headers of the connection.
abbrev pub forwarded : Written → Written
forwarded r = record {
  status = status_or_ok r.status;
  headers = sanitize_headers_for_status (clone_header_map r.headers) (status_or_ok r.status);
  body = r.body;
}

-- The decoders of the gateway, and that they undo the encoders.
pub record Decoders (encoders : Encoders) : Type 0 where
  pub unbase64 : Bytes → Option Bytes
  pub gunzip : Bytes → Option Bytes
  pub unbase64-base64 : (b : Bytes) → unbase64 (encoders.base64 b) ≡ some b
  pub gunzip-gzip : (b z : Bytes) → encoders.gzip b ≡ some z → gunzip z ≡ some b

module _ {encoders : Encoders} (d : Decoders encoders) where
  abbrev pub then_gunzip : Option Bytes → Option Bytes
  then_gunzip none = none
  then_gunzip (some z) = d.gunzip z

  -- The body by its encoding.
  unfoldable pub decode_body : Bytes → Bytes → Option Bytes
  decode_body encoding body =
      let unpacked = then_gunzip (d.unbase64 body) in
      if bytes_eq encoding (codes "base64")
      then d.unbase64 body
      else if bytes_eq encoding (codes "gzip")
      then unpacked
      else if bytes_eq encoding (codes "binary+gzip")
      then d.gunzip body
      else some body

  abbrev pub with_body : ℕ → Option Header → Option Bytes → Option Written
  with_body status headers none = none
  with_body status headers (some body) =
      some (record { status = status; headers = headers; body = body })

  -- The response that a call of the sender carries, if it carries a whole one.
  abbrev pub received : SenderCall → Option Written
  received (send_proxy_response r) = with_body r.status r.headers (decode_body r.encoding r.body)
  received (send_proxy_response_binary r body) =
      with_body r.status r.headers (decode_body r.encoding body)
  received (send_proxy_error id e) = none
  received (send_proxy_response_header id status headers) = none
  received (send_proxy_response_chunk id chunk) = none
  received (send_proxy_response_end id) = none
  received (send_proxy_response_abort id e) = none

  -- The answer to a request: one error, one response, or the same response once more where the
  -- sender failed for the first.
  abbrev pub IsAnswer : Sender → Bytes → Written × Option Bytes → List SenderCall → Type 0
  IsAnswer sender id (r, some e) sent = sent ≡ send_proxy_error id e ∷ []
  IsAnswer sender id (r, none) sent =
      ((c : SenderCall) × (sent ≡ c ∷ []) × (received c ≡ some (forwarded r)))
      ⊎ ((c : SenderCall) × (c' : SenderCall) × (sent ≡ c ∷ c' ∷ [])
          × (received c ≡ some (forwarded r))
          × (received c' ≡ some (forwarded r))
          × (sender (c ∷ []) ≢ none))

  json_payload-decode :
      (content_type body : Bytes)
      → decode_body
          (json_payload encoders content_type body).0
          (json_payload encoders content_type body).1
        ≡ some body
  unfolding json_payload decode_body Bytes-discrete ℕ_discrete
  json_payload-decode content_type [] = refl
  json_payload-decode content_type (x ∷ body) =
      let b = x ∷ body in
      elim (Bool-cases (should_compress content_type (length b))) [
        | inr e ↦ rw e (d.unbase64-base64 b)
        | inl e ↦ elim (Option-cases (encoders.gzip b)) [
          | inl n ↦ rw (e, n) (d.unbase64-base64 b)
          | inr (z, n) ↦ rw (e, n, d.unbase64-base64 z) (d.gunzip-gzip b z n)
        ]
      ]

  binary_payload-decode :
      (content_type body : Bytes)
      → decode_body
          (binary_payload encoders content_type body).0
          (binary_payload encoders content_type body).1
        ≡ some body
  unfolding binary_payload decode_body Bytes-discrete ℕ_discrete
  binary_payload-decode content_type b =
      elim (Bool-cases (should_compress content_type (length b))) [
        | inr e ↦ rw e refl
        | inl e ↦ elim (Option-cases (encoders.gzip b)) [
          | inl n ↦ rw (e, n) refl
          | inr (z, n) ↦ elim (Bool-cases (ltb (length z) (length b))) [
            | inl s ↦ rw (e, n, s) (d.gunzip-gzip b z n)
            | inr s ↦ rw (e, n, s) refl
          ]
        ]
      ]

  abbrev pub written : BufferedWriter → Written
  written w = record { status = w.status; headers = w.headers; body = w.buffer }

  pub json_call-received :
      (w : BufferedWriter) (yamux_active : Bool) (sender : Sender)
      → received (json_call encoders yamux_active sender w) ≡ some (forwarded (written w))
  unfolding json_call
  json_call-received w yamux_active sender = ap (with_body _ _) (json_payload-decode _ w.buffer)

  pub binary_call-received :
      (w : BufferedWriter) (yamux_active : Bool) (sender : Sender)
      → received (binary_call encoders yamux_active sender w) ≡ some (forwarded (written w))
  unfolding binary_call
  binary_call-received w yamux_active sender = ap (with_body _ _) (binary_payload-decode _ w.buffer)
