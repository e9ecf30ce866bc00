-- ===== src/Controlplane/Messages/BodyStream.antt =====
-- The body of a request that is streamed, from its own messages only.
use pipeops_k8_agent.Prelude.{
  ℕ, ◌≡◌, ◌≢◌, inl, inr, refl, sym, subst, Bool, true, false, Option, none, some, List, [], ◌∷◌,
  arith, if◌then◌else◌, if_pos, if_neg, ℕ_discrete,
}
use pipeops_k8_agent.Prelude.Bytes.{Bytes, Bytes-discrete, bytes_eq}
use pipeops_k8_agent.Prelude.Map
use pipeops_k8_agent.Prelude.Map.{
  Map, lookup-insert_self, lookup-insert_ne, lookup-delete_self, lookup-delete_ne,
}
use pipeops_k8_agent.Controlplane.Messages.{
  WebSocketMessage, MessageType, message_type, proxy_request, proxy_request_chunk,
  proxy_request_stream_end, proxy_cancel,
}
use pipeops_k8_agent.Controlplane.Messages.Request.{ProxyRequest, parse_proxy_request}
use pipeops_k8_agent.Controlplane.Messages.Handle.{
  Environment, Client, PipeEnd, eof, cancelled, new_client, open_pipe, on_pipe, pipe_close,
  write_chunk, end_pipe, start_request, serve, with_pipe, handle_request, handle_chunk,
  handle_stream_end, handle_cancel, cancel_request,
}
use pipeops_k8_agent.Controlplane.Messages.Switch.{handle_case, handle_message, handle_messages}
use pipeops_k8_agent.Controlplane.Messages.Body.{
  BodyState, reading, over, lost, pipe_for, body_message, body_after,
}
use pipeops_k8_agent.Controlplane.Messages.Tracks.{Tracks, new-Tracks, same-Tracks, same-IsBelow}
use pipeops_k8_agent.Controlplane.Messages.SamePipes.{case-IsSamePipes}
use pipeops_k8_agent.Controlplane.Messages.Pipes.{IsBelow, open-IsBelow, drop-IsBelow}
use pipeops_k8_agent.Controlplane.Messages.OtherSteps.{
  parsed-request_id, other-case, serve-IsSamePipes,
}
use pipeops_k8_agent.Controlplane.Messages.BodySteps.{own-case}

module _ (id : Bytes) (p : ℕ) where
  message-Tracks :
      (env : Environment) (c : Client) (msg : WebSocketMessage) (t : MessageType) (st : BodyState)
      → id ≢ []
      → Tracks id p st c
      → Tracks id p (body_message id env msg t st) (handle_case env c msg t)
  message-Tracks env c msg t (reading b) nonempty k = elim (Bytes-discrete msg.request_id id) [
    | yes i ↦ rw (if_pos _ i) (own-case id p env c msg t b nonempty i k)
    | no n ↦ rw (if_neg _ n) (other-case id p env c msg t (reading b) (inl n) k)
  ]
  message-Tracks env c msg t (over b e) nonempty k =
      other-case id p env c msg t (over b e) (inr refl) k
  message-Tracks env c msg t (lost b) nonempty k = other-case id p env c msg t (lost b) (inr refl) k

  messages-Tracks :
      (c : Client) (ms : List (Environment × WebSocketMessage)) (st : BodyState)
      → id ≢ []
      → Tracks id p st c
      → Tracks id p (body_after id ms st) (handle_messages c ms)
  unfolding handle_messages handle_message
  messages-Tracks c [] st nonempty k = k
  messages-Tracks c ((env, msg) ∷ ms) st nonempty k =
      messages-Tracks (handle_message env c msg) ms
        (body_message id env msg (message_type msg.kind) st) nonempty
        (message-Tracks env c msg (message_type msg.kind) st nonempty k)

write-IsBelow :
    (c : Client) (o : Option ℕ) (chunk : Option Bytes) → IsBelow c → IsBelow (write_chunk c o chunk)
unfolding on_pipe
write-IsBelow c none chunk h = h
write-IsBelow c (some n) none h = h
write-IsBelow c (some n) (some s) h = h

end-IsBelow :
    (e : PipeEnd) (id : Bytes) (c : Client) (o : Option ℕ) → IsBelow c → IsBelow (end_pipe e id c o)
end-IsBelow e id c none h = h
end-IsBelow e id c (some n) h = drop-IsBelow id (on_pipe (pipe_close e) n c) (unfold on_pipe in h)

with_pipe-IsBelow : (b : Bool) (id : Bytes) (c : Client) → IsBelow c → IsBelow (with_pipe b id c)
with_pipe-IsBelow true id c h = open-IsBelow id c h
with_pipe-IsBelow false id c h = h

start-IsBelow :
    (env : Environment) (c : Client) (o : Option ProxyRequest)
    → IsBelow c
    → IsBelow (start_request env c o)
start-IsBelow env c none h = h
start-IsBelow env c (some req) h =
    let c' = with_pipe req.streams_body req.request_id c in
    same-IsBelow c' (serve env c' req) (ground arith, ground arith, ground arith)
      (with_pipe-IsBelow req.streams_body req.request_id c h)

if-IsBelow : (b : Bool) (c d : Client) → IsBelow c → IsBelow d → IsBelow (if b then c else d)
if-IsBelow true c d h k = h
if-IsBelow false c d h k = k

case-IsBelow :
    (env : Environment) (c : Client) (msg : WebSocketMessage) (t : MessageType)
    → IsBelow c
    → IsBelow (handle_case env c msg t)
unfolding handle_case handle_request handle_chunk handle_stream_end handle_cancel
case-IsBelow env c msg proxy_request h = start-IsBelow env c _ h
case-IsBelow env c msg proxy_request_chunk h =
    if-IsBelow (bytes_eq msg.request_id []) c _ h (write-IsBelow c _ _ h)
case-IsBelow env c msg proxy_request_stream_end h =
    if-IsBelow (bytes_eq msg.request_id []) c _ h (end-IsBelow eof msg.request_id c _ h)
case-IsBelow env c msg proxy_cancel h =
    let j = msg.request_id in
    let c' = cancel_request j c (Map.lookup Bytes-discrete j c.active_proxy_requests) in
    if-IsBelow (bytes_eq j []) c _ h (
      end-IsBelow cancelled j c' _ (same-IsBelow c c' (ground arith, ground arith, ground arith) h))
case-IsBelow env c msg t h =
    same-IsBelow c (handle_case env c msg t) (case-IsSamePipes env c msg t refl) h

messages-IsBelow :
    (c : Client) (ms : List (Environment × WebSocketMessage))
    → IsBelow c
    → IsBelow (handle_messages c ms)
unfolding handle_messages handle_message
messages-IsBelow c [] h = h
messages-IsBelow c ((env, msg) ∷ ms) h =
    messages-IsBelow (handle_message env c msg) ms
      (case-IsBelow env c msg (message_type msg.kind) h)

new-IsBelow : IsBelow new_client
unfolding new_client Map.lookup
new-IsBelow j n e = absurd (ground (arith, e))

started-Tracks :
    (env : Environment) (c : Client) (msg : WebSocketMessage) (req : ProxyRequest)
    → message_type msg.kind ≡ proxy_request
    → parse_proxy_request env.unbase64 env.yamux_active env.next_frame msg ≡ some req
    → req.streams_body ≡ true
    → IsBelow c
    → Tracks msg.request_id c.next_pipe (reading []) (handle_message env c msg)
unfolding handle_message handle_case handle_request
started-Tracks env c msg req k e s h =
    let id = msg.request_id in
    let p = c.next_pipe in
    let (same, _) = parsed-request_id env.unbase64 env.yamux_active env.next_frame msg req e in
    let opened : Tracks id p (reading []) (with_pipe req.streams_body req.request_id c) =
      subst (λ b. Tracks id p (reading []) (with_pipe b req.request_id c)) (sym s)
        (subst (λ j. Tracks id p (reading []) (open_pipe j c)) (sym same) (new-Tracks id c h)) in
    let served : Tracks id p (reading []) (start_request env c (some req)) =
      same-Tracks id p (reading []) (with_pipe req.streams_body req.request_id c)
        (serve env (with_pipe req.streams_body req.request_id c) req)
        (serve-IsSamePipes id p env (with_pipe req.streams_body req.request_id c) req) opened in
    subst (λ t. Tracks id p (reading []) (handle_case env c msg t)) (sym k)
      (subst (λ o. Tracks id p (reading []) (start_request env c o)) (sym e) served)

-- The reader of the pipe that a proxy_request with a streamed body opens has taken, after any
-- messages before and after it, what it takes of the decoded chunks of its own ID up to their end,
-- in their order, and nothing of another request: all of a chunk, or less where it closes during
-- the write. The pipe has no end while the body is read, EOF after a proxy_request_stream_end and
-- an error after a proxy_cancel. After another streamed request with the same ID it gets neither
-- chunks nor an end.
pub handle_messages-body :
    (before after : List (Environment × WebSocketMessage)) (env : Environment)
    (msg : WebSocketMessage) (req : ProxyRequest)
    → message_type msg.kind ≡ proxy_request
    → parse_proxy_request env.unbase64 env.yamux_active env.next_frame msg ≡ some req
    → req.streams_body ≡ true
    → Map.lookup ℕ_discrete
        (handle_messages new_client before).next_pipe
        (handle_messages (handle_message env (handle_messages new_client before) msg) after).pipes
      ≡ some (pipe_for (body_after msg.request_id after (reading [])))
handle_messages-body before after env msg req k e s =
    let c = handle_messages new_client before in
    let id = msg.request_id in
    let (_, nonempty) = parsed-request_id env.unbase64 env.yamux_active env.next_frame msg req e in
    (messages-Tracks id c.next_pipe (handle_message env c msg) after (reading []) nonempty
      (started-Tracks env c msg req k e s (messages-IsBelow new_client before new-IsBelow))).held
