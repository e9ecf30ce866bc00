-- ===== src/Controlplane/BinaryFrame/RoundTrip.antt =====
-- What a reader of the binary frames gets back.
use pipeops_k8_agent.Prelude.{
  All, ℕ, ◌≡◌, ◌≤◌, ◌<◌, refl, false, ltb, Option, none, some, [], ◌∷◌, ◌++◌, length, take, drop,
  arith, take_append, drop_append, if◌then◌else◌, length-append, ◌↔◌, take-append-drop, Bool-cases,
  inl, inr, ◌∙◌, ap, length-take_le, sym,
}
use pipeops_k8_agent.Prelude.Bytes.{
  Bytes, bytes_eq, put_u16, get_u16, get_u32, get_u16-put, get_u32-put, u16_mod, u32_mod,
  bytes_eq_iff, IsByte,
}
use pipeops_k8_agent.Controlplane.Response.{ProxyResponse}
use pipeops_k8_agent.Controlplane.BinaryFrame.{
  response_frame, marshalled_frame, sized_frame, frame_layout, built, request_body, body_after_id,
}

-- What a frame holds.
pub record ResponseFrame : Type 0 where
  pub request_id : Bytes
  pub status : ℕ
  pub headers_json : Bytes
  pub body : Bytes

-- The reader of the layout that the comment of SendProxyResponseBinary gives.
abbrev read_headers : Bytes → ℕ → Bytes → Option ResponseFrame
read_headers id status (a ∷ b ∷ c ∷ d ∷ rest) =
    let n = get_u32 a b c d in
    some
      (record { request_id = id; status = status; headers_json = take n rest; body = drop n rest })
read_headers id status _ = none

abbrev read_status : Bytes → Bytes → Option ResponseFrame
read_status id (a ∷ b ∷ c ∷ d ∷ rest) = read_headers id (get_u32 a b c d) rest
read_status id _ = none

abbrev pub read_response_frame : Bytes → Option ResponseFrame
read_response_frame (high ∷ low ∷ rest) =
    let n = get_u16 high low in read_status (take n rest) (drop n rest)
read_response_frame _ = none

layout-read :
    (r : ProxyResponse) (headers body : Bytes)
    → length r.request_id < u16_mod
    → r.status < u32_mod
    → length headers < u32_mod
    → read_response_frame (frame_layout r headers body)
      ≡ some (record {
        request_id = r.request_id;
        status = r.status;
        headers_json = headers;
        body = body;
      })
unfolding frame_layout
layout-read r headers body hi hs hh =
    rw
      (
        get_u16-put (length r.request_id) hi,
        take_append r.request_id,
        drop_append r.request_id,
        get_u32-put r.status hs,
        get_u32-put (length headers) hh,
        take_append headers,
        drop_append headers,
      )
      refl

-- A frame that SendProxyResponseBinary builds is read back to the ID, the status, the headers and
-- the body, if the lengths and the status fit their fields; and it is the same for every Encoding,
-- so the reader cannot learn from it whether the body is compressed.
pub response_frame-read :
    (r : ProxyResponse) (headers body encoding : Bytes)
    → length r.request_id < u16_mod
    → r.status < u32_mod
    → length headers < u32_mod
    → length body < u32_mod
    → (frame : Bytes) × (response_frame false false r (some headers) body ≡ built frame)
      × (response_frame false false (record r { encoding = encoding }) (some headers) body
          ≡ built frame)
      × (read_response_frame frame
          ≡ some (record {
            request_id = r.request_id;
            status = r.status;
            headers_json = headers;
            body = body;
          }))
unfolding response_frame marshalled_frame sized_frame frame_layout
response_frame-read r headers body encoding hi hs hh hb =
    (frame_layout r headers body, ground arith, ground arith, layout-read r headers body hi hs hh)

put_u16-get :
    (a b : ℕ) (rest : Bytes) → IsByte a → IsByte b → put_u16 (get_u16 a b) rest ≡ a ∷ b ∷ rest
put_u16-get a b rest ha hb = ground arith

request_body-layout :
    (id frame body : Bytes)
    → All IsByte frame
    → request_body id frame ≡ some body
    → frame ≡ put_u16 (length id) (id ++ body)
unfolding request_body body_after_id
request_body-layout id [] body bytes e = cc
request_body-layout id (x ∷ []) body bytes e = cc
request_body-layout id (high ∷ low ∷ rest) body (hh, hl_rest) e =
    let n = get_u16 high low in
    elim (Bool-cases (bytes_eq (take n rest) id)) [
      | inr f ↦ absurd (ground (arith, e, f))
      | inl f ↦
          let fits : n ≤ length rest = ground (arith, e) in
          let same : take n rest ≡ id = (bytes_eq_iff (take n rest) id).0 f in
          let left : drop n rest ≡ body = ground (arith, e, f) in
          let long : length id ≡ n = ap length (sym same) ∙ length-take_le n rest fits in
          rw (long, ← same, ← left, take-append-drop n rest, put_u16-get high low rest hh hl_rest.0)
            refl
    ]

layout-body_after_id : (id body : Bytes) → body_after_id id (length id) (id ++ body) ≡ some body
unfolding body_after_id
layout-body_after_id id body =
    let fits : ltb (length (id ++ body)) (length id) ≡ false =
      ground (arith, length-append id body) in
    let same = (bytes_eq_iff (take (length id) (id ++ body)) id).1 (take_append id body) in
    rw (fits, if◌then◌else◌, same, if◌then◌else◌, drop_append id body) refl

layout-request_body :
    (id body : Bytes)
    → length id < u16_mod
    → request_body id (put_u16 (length id) (id ++ body)) ≡ some body
unfolding request_body
layout-request_body id body h = rw (get_u16-put (length id) h) (layout-body_after_id id body)

-- The body of a binary request is taken from its frame exactly when that is the length of the
-- request's ID in two bytes, the ID and the body.
request_body_iff :
    (id frame body : Bytes)
    → length id < u16_mod
    → All IsByte frame
    → (request_body id frame ≡ some body) ↔ (frame ≡ put_u16 (length id) (id ++ body))
request_body_iff id frame body h bytes = (
  request_body-layout id frame body bytes,
  λ e. ap (request_body id) e ∙ layout-request_body id body h,
)
