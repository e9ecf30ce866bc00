-- ===== src/Controlplane/Messages/BodySteps.antt =====
-- What each case of handleMessage does to the pipe that holds the body of its own request.
use pipeops_k8_agent.Prelude.{
  ℕ, ◌≡◌, ◌≢◌, inl, inr, refl, sym, ◌∙◌, subst, Bool, true, false, Option, none, some, [], ◌++◌,
  if◌then◌else◌, Option-cases, Bool-cases,
}
use pipeops_k8_agent.Prelude.Bytes.{Bytes, Bytes-discrete, bytes_eq, bytes_eq_iff}
use pipeops_k8_agent.Prelude.Map
use pipeops_k8_agent.Prelude.Map.{
  Map, lookup-insert_self, lookup-insert_ne, lookup-delete_self, lookup-delete_ne,
}
use pipeops_k8_agent.Controlplane.Messages.{
  WebSocketMessage, MessageType, proxy_request, proxy_request_chunk, proxy_request_stream_end,
  proxy_cancel,
}
use pipeops_k8_agent.Controlplane.Messages.Request.{ProxyRequest, parse_proxy_request}
use pipeops_k8_agent.Controlplane.Messages.Handle.{
  Environment, Client, PipeEnd, eof, cancelled, pipe_of, pipe_write, message_chunk, taken,
  write_chunk, end_pipe, start_request, serve, with_pipe, handle_request, handle_chunk,
  handle_stream_end, handle_cancel, cancel_request,
}
use pipeops_k8_agent.Controlplane.Messages.Switch.{handle_case}
use pipeops_k8_agent.Controlplane.Messages.Body.{
  reading, over, with_chunk, with_part, restarted, replaced, body_case,
}
use pipeops_k8_agent.Controlplane.Messages.Tracks.{
  Tracks, own-Tracks, end-Tracks, lost-Tracks, same-Tracks,
}
use pipeops_k8_agent.Controlplane.Messages.SamePipes.{case-IsSamePipes}
use pipeops_k8_agent.Controlplane.Messages.OtherSteps.{
  parsed-request_id, serve-IsSamePipes, cancel-IsSamePipes,
}

taken-part :
    (b : Bytes) (takes : Option ℕ) (chunk : Option Bytes)
    → with_chunk b (taken takes chunk) ≡ with_part b takes chunk
taken-part b none none = refl
taken-part b none (some s) = refl
taken-part b (some n) none = refl
taken-part b (some n) (some s) = refl

module _ (id : Bytes) (p : ℕ) where
  own-with_pipe :
      (b : Bool) (s : Bytes) (c : Client)
      → Tracks id p (reading s) c
      → Tracks id p (replaced b s) (with_pipe b id c)
  own-with_pipe true s c t = lost-Tracks id p s c t
  own-with_pipe false s c t = t

  own-start :
      (env : Environment) (b : Bytes) (c : Client) (req : ProxyRequest)
      → req.request_id ≡ id
      → Tracks id p (reading b) c
      → Tracks id p (restarted b (some req)) (start_request env c (some req))
  own-start env b c req same t =
      let c' = with_pipe req.streams_body req.request_id c in
      same-Tracks id p (replaced req.streams_body b) c' (serve env c' req)
        (serve-IsSamePipes id p env c' req)
        (subst (λ j. Tracks id p (replaced req.streams_body b) (with_pipe req.streams_body j c))
          (sym same) (own-with_pipe req.streams_body b c t))

  own-write :
      (b : Bytes) (c : Client) (chunk : Option Bytes)
      → Tracks id p (reading b) c
      → Tracks id p (reading (with_chunk b chunk)) (write_chunk c (pipe_of c id) chunk)
  own-write b c none t = rw (t.entry refl) t
  own-write b c (some s) t =
      rw (t.entry refl)
        (own-Tracks id p (pipe_write s) (reading b) (reading (b ++ s)) c refl refl t)

  own-taken :
      (b : Bytes) (c : Client) (takes : Option ℕ) (chunk : Option Bytes)
      → Tracks id p (reading b) c
      → Tracks id p
          (reading (with_part b takes chunk))
          (write_chunk c (pipe_of c id) (taken takes chunk))
  own-taken b c takes chunk t =
      subst (λ s. Tracks id p (reading s) (write_chunk c (pipe_of c id) (taken takes chunk)))
        (taken-part b takes chunk) (own-write b c (taken takes chunk) t)

  own-end :
      (e : PipeEnd) (b : Bytes) (c : Client)
      → Tracks id p (reading b) c
      → Tracks id p (over b e) (end_pipe e id c (pipe_of c id))
  own-end e b c t = rw (t.entry refl) (end-Tracks id p b e c t)

  not_empty :
      (msg : WebSocketMessage) → id ≢ [] → msg.request_id ≡ id → bytes_eq msg.request_id [] ≡ false
  not_empty msg nonempty i = elim (Bool-cases (bytes_eq msg.request_id [])) [
    | inl e ↦ absurd (nonempty (sym i ∙ (bytes_eq_iff msg.request_id []).0 e))
    | inr e ↦ e
  ]

  -- A case of the switch on a message about the request while its body is read.
  pub own-case :
      (env : Environment) (c : Client) (msg : WebSocketMessage) (t : MessageType) (b : Bytes)
      → id ≢ []
      → msg.request_id ≡ id
      → Tracks id p (reading b) c
      → Tracks id p (body_case env msg b t) (handle_case env c msg t)
  unfolding handle_case handle_request handle_chunk handle_stream_end handle_cancel message_chunk
  own-case env c msg proxy_request b nonempty i t =
      elim (Option-cases (parse_proxy_request env.unbase64 env.yamux_active env.next_frame msg)) [
        | inl e ↦ rw e t
        | inr (req, e) ↦ rw e (
            own-start env b c req
              ((parsed-request_id env.unbase64 env.yamux_active env.next_frame msg req e).0 ∙ i) t)
      ]
  own-case env c msg proxy_request_chunk b nonempty i t =
      rw (not_empty msg nonempty i, if◌then◌else◌, i)
        (own-taken b c env.reader_takes (message_chunk env.unbase64 msg) t)
  own-case env c msg proxy_request_stream_end b nonempty i t =
      rw (not_empty msg nonempty i, if◌then◌else◌, i) (own-end eof b c t)
  own-case env c msg proxy_cancel b nonempty i t =
      let o = Map.lookup Bytes-discrete id c.active_proxy_requests in
      rw (not_empty msg nonempty i, if◌then◌else◌, i)
        (own-end cancelled b (cancel_request id c o) (
          same-Tracks id p (reading b) c (cancel_request id c o) (cancel-IsSamePipes id p id c o)
            t))
  own-case env c msg t b nonempty i k =
      same-Tracks id p (reading b) c _ (case-IsSamePipes env c msg t refl) k
