-- ===== src/Controlplane/Messages/OtherSteps.antt =====
-- A message about another request, or after the end of a body, leaves the pipe of the body alone.
use pipeops_k8_agent.Prelude.{
  ℕ, ◌≡◌, ◌≢◌, ◌⊎◌, inl, inr, refl, sym, ap, ◌∙◌, subst, Bool, true, false, Option, none, some, [],
  arith, if◌then◌else◌, if_neg, Option-cases, Bool-cases,
}
use pipeops_k8_agent.Prelude.Bytes.{Bytes, Bytes-discrete, bytes_eq, bytes_eq_iff}
use pipeops_k8_agent.Prelude.Map
use pipeops_k8_agent.Prelude.Map.{
  Map, lookup-insert_self, lookup-insert_ne, lookup-delete_self, lookup-delete_ne,
}
use pipeops_k8_agent.Controlplane.Messages.{
  Json, WebSocketMessage, MessageType, proxy_request, proxy_request_chunk, proxy_request_stream_end,
  proxy_cancel,
}
use pipeops_k8_agent.Controlplane.Messages.Request.{
  ProxyRequest, parse_proxy_request, NextFrame, Body,
}
use pipeops_k8_agent.Controlplane.Messages.Handle.{
  Environment, Client, PipeEnd, eof, cancelled, on_pipe, pipe_of, pipe_write, pipe_close,
  write_chunk, end_pipe, start_request, serve, with_pipe, handle_request, handle_chunk,
  handle_stream_end, handle_cancel, cancel_request,
}
use pipeops_k8_agent.Controlplane.Messages.Switch.{handle_case}
use pipeops_k8_agent.Controlplane.Messages.Body.{
  BodyState, reading, over, lost, is_reading, body_message,
}
use pipeops_k8_agent.Controlplane.Messages.Tracks.{
  Tracks, other-Tracks, drop-Tracks, open-Tracks, IsSamePipes, same-Tracks,
}
use pipeops_k8_agent.Controlplane.Messages.SamePipes.{case-IsSamePipes}
use pipeops_k8_agent.Controlplane.Messages.Request.{request_of, if_payload, parse_body}

abbrev id_of : Option ProxyRequest → Bytes
id_of none = []
id_of (some req) = req.request_id

request_of-id :
    (msg : WebSocketMessage) (payload : Option (Map Bytes Json)) (body : Body) (req : ProxyRequest)
    → if_payload payload (request_of msg body) ≡ some req
    → req.request_id ≡ msg.request_id
request_of-id msg none body req e = cc
request_of-id msg (some payload) none req e = cc
request_of-id msg (some payload) (some body) req e = sym (ap id_of e)

pub parsed-request_id :
    (unbase64 : Bytes → Option Bytes) (yamux_active : Bool) (next : NextFrame)
    (msg : WebSocketMessage) (req : ProxyRequest)
    → parse_proxy_request unbase64 yamux_active next msg ≡ some req
    → (req.request_id ≡ msg.request_id) × (msg.request_id ≢ [])
unfolding parse_proxy_request
parsed-request_id unbase64 yamux_active next msg req e =
    elim (Bool-cases (bytes_eq msg.request_id [])) [
      | inl f ↦ absurd (ground (arith, e, f))
      | inr f ↦
          let parsed : if_payload msg.payload
                (request_of msg (parse_body unbase64 yamux_active next msg))
              ≡ some req =
            rw (f, if◌then◌else◌) at e in
          (
            request_of-id msg msg.payload _ req parsed,
            λ h. absurd (ground (arith, f, (bytes_eq_iff msg.request_id []).1 h)),
          )
    ]

module _ (id : Bytes) (p : ℕ) where
  -- A message that does not change the body.
  abbrev IsOther : WebSocketMessage → BodyState → Type 0
  IsOther msg st = (msg.request_id ≢ id) ⊎ (is_reading st ≡ false)

  other-body_message :
      (env : Environment) (msg : WebSocketMessage) (t : MessageType) (st : BodyState)
      → IsOther msg st
      → body_message id env msg t st ≡ st
  other-body_message env msg t (reading b) (inl n) = rw (if_neg _ n) refl
  other-body_message env msg t (reading b) (inr f) = absurd (ground (arith, f))
  other-body_message env msg t (over b e) h = refl
  other-body_message env msg t (lost b) h = refl

  other-pipe :
      (msg : WebSocketMessage) (st : BodyState) (c : Client) (n : ℕ)
      → IsOther msg st
      → Tracks id p st c
      → pipe_of c msg.request_id ≡ some n
      → n ≢ p
  other-pipe msg st c n h t e same =
      let (i, r) = t.own msg.request_id (e ∙ ap some same) in
      elim h [ inl n ↦ n i | inr f ↦ ground (arith, r, f) ]

  other-write :
      (msg : WebSocketMessage) (st : BodyState) (c : Client) (chunk : Option Bytes)
      → IsOther msg st
      → Tracks id p st c
      → Tracks id p st (write_chunk c (pipe_of c msg.request_id) chunk)
  other-write msg st c chunk h t = elim (Option-cases (pipe_of c msg.request_id)) [
    | inl e ↦ rw e t
    | inr (n, e) ↦ rw e (elim (Option-cases chunk) [
      | inl f ↦ rw f t
      | inr (s, f) ↦ rw f (other-Tracks id p (pipe_write s) n st c (other-pipe msg st c n h t e) t)
    ])
  ]

  other-end :
      (e : PipeEnd) (msg : WebSocketMessage) (st : BodyState) (c : Client)
      → IsOther msg st
      → Tracks id p st c
      → Tracks id p st (end_pipe e msg.request_id c (pipe_of c msg.request_id))
  other-end e msg st c h t = elim (Option-cases (pipe_of c msg.request_id)) [
    | inl o ↦ rw o t
    | inr (n, o) ↦ rw o (
        drop-Tracks id p msg.request_id st (on_pipe (pipe_close e) n c) h
          (other-Tracks id p (pipe_close e) n st c (other-pipe msg st c n h t o) t))
  ]

  pub serve-IsSamePipes :
      (env : Environment) (c : Client) (req : ProxyRequest) → IsSamePipes c (serve env c req)
  serve-IsSamePipes env c req = (ground arith, ground arith, ground arith)

  other-with_pipe :
      (b : Bool) (j : Bytes) (st : BodyState) (c : Client)
      → (j ≢ id) ⊎ (is_reading st ≡ false)
      → Tracks id p st c
      → Tracks id p st (with_pipe b j c)
  other-with_pipe true j st c h t = open-Tracks id p j st c h t
  other-with_pipe false j st c h t = t

  other-start :
      (env : Environment) (msg : WebSocketMessage) (st : BodyState) (c : Client)
      (req : ProxyRequest)
      → req.request_id ≡ msg.request_id
      → IsOther msg st
      → Tracks id p st c
      → Tracks id p st (start_request env c (some req))
  other-start env msg st c req same h t =
      let c' = with_pipe req.streams_body req.request_id c in
      let h' = subst (λ j. (j ≢ id) ⊎ (is_reading st ≡ false)) (sym same) h in
      same-Tracks id p st c' (serve env c' req) (serve-IsSamePipes env c' req)
        (other-with_pipe req.streams_body req.request_id st c h' t)

  pub cancel-IsSamePipes :
      (j : Bytes) (c : Client) (o : Option ℕ) → IsSamePipes c (cancel_request j c o)
  cancel-IsSamePipes j c none = (refl, refl, refl)
  cancel-IsSamePipes j c (some n) = (refl, refl, refl)

  -- A case of the switch on a message about another request, or after the body's end.
  pub other-case :
      (env : Environment) (c : Client) (msg : WebSocketMessage) (t : MessageType) (st : BodyState)
      → IsOther msg st
      → Tracks id p st c
      → Tracks id p st (handle_case env c msg t)
  unfolding handle_case handle_request handle_chunk handle_stream_end handle_cancel
  other-case env c msg proxy_request st h t =
      elim (Option-cases (parse_proxy_request env.unbase64 env.yamux_active env.next_frame msg)) [
        | inl e ↦ rw e t
        | inr (req, e) ↦ rw e (
            other-start env msg st c req
              (parsed-request_id env.unbase64 env.yamux_active env.next_frame msg req e).0 h t)
      ]
  other-case env c msg proxy_request_chunk st h t = elim (Bool-cases (bytes_eq msg.request_id [])) [
    | inl e ↦ rw (e, if◌then◌else◌) t
    | inr e ↦ rw (e, if◌then◌else◌) (other-write msg st c _ h t)
  ]
  other-case env c msg proxy_request_stream_end st h t =
      elim (Bool-cases (bytes_eq msg.request_id [])) [
        | inl e ↦ rw (e, if◌then◌else◌) t
        | inr e ↦ rw (e, if◌then◌else◌) (other-end eof msg st c h t)
      ]
  other-case env c msg proxy_cancel st h t =
      let j = msg.request_id in
      let o = Map.lookup Bytes-discrete j c.active_proxy_requests in
      elim (Bool-cases (bytes_eq j [])) [
        | inl e ↦ rw (e, if◌then◌else◌) t
        | inr e ↦
            rw (e, if◌then◌else◌)
              (other-end cancelled msg st (cancel_request j c o) h
                (same-Tracks id p st c (cancel_request j c o) (cancel-IsSamePipes j c o) t))
      ]
  other-case env c msg t st h k = same-Tracks id p st c _ (case-IsSamePipes env c msg t refl) k
