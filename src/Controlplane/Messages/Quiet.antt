-- ===== src/Controlplane/Messages/Quiet.antt =====
-- The cases of handleMessage that leave the unknown types and their fallbacks alone.
use pipeops_k8_agent.Prelude.{
  ℕ, ◌+◌, ◌≡◌, refl, ◌∙◌, Bool, true, false, Option, none, some, List, [], ◌∷◌, arith,
  if◌then◌else◌, ite,
}
use pipeops_k8_agent.Prelude.Bytes.{Bytes, Bytes-discrete, bytes_eq, codes}
use pipeops_k8_agent.Prelude.Map
use pipeops_k8_agent.Prelude.Map.{lookup-insert_self, lookup-insert_ne}
use pipeops_k8_agent.Controlplane.Messages.{
  WebSocketMessage, MessageType, register_success, register_in_progress, heartbeat_ack,
  gateway_hello, pong, ping, proxy_request, proxy_request_chunk, proxy_request_stream_end,
  proxy_cancel, proxy_stream_data, websocket_start, websocket_data, websocket_close,
  tcp_tunnel_start, tcp_tunnel_data, tcp_tunnel_close, udp_tunnel_data, error_message, unknown_type,
  text_at,
}
use pipeops_k8_agent.Controlplane.Messages.Request.{ProxyRequest}
use pipeops_k8_agent.Controlplane.Messages.Relay.{parse_udp_data}
use pipeops_k8_agent.Controlplane.Messages.Handle.{
  Environment, Client, Action, acts_if, sends_fallback, handle_request, handle_chunk,
  handle_stream_end, handle_cancel, open_pipe, drop_pipe, on_pipe, start_request, end_pipe, PipeEnd,
  cancel_request, write_chunk, eof, cancelled, passes_tcp, passes_udp,
}
use pipeops_k8_agent.Controlplane.Messages.Switch.{
  handle_register, handle_stream_data, handle_websocket_data, handle_websocket_close,
  handle_tcp_data, handle_udp_data, handle_error, seen, handle_case, act_found, decoded,
}

-- One for a fallback about this type.
abbrev pub is_fallback : Bytes → Action → ℕ
is_fallback k (sends_fallback kind) = ite (Bytes-discrete kind k) 1 0
is_fallback k _ = 0

abbrev pub fallbacks : Bytes → List Action → ℕ
fallbacks k [] = 0
fallbacks k (action ∷ actions) = is_fallback k action + fallbacks k actions

abbrev pub is_unknown : MessageType → ℕ
is_unknown unknown_type = 1
is_unknown _ = 0

module _ (k : Bytes) where
  -- Neither the counter of the type nor its fallbacks have changed.
  unfoldable pub Quiet : Client → Client → Type 0
  Quiet c c' = (seen c' k ≡ seen c k) × (fallbacks k c'.actions ≡ fallbacks k c.actions)

  Quiet-trans : (a b c : Client) → Quiet a b → Quiet b c → Quiet a c
  unfolding Quiet
  Quiet-trans a b c (s, f) (s', f') = (s' ∙ s, f' ∙ f)

  acts_if-Quiet :
      (b : Bool) (c : Client) (action : Action)
      → is_fallback k action ≡ 0
      → Quiet c (acts_if b c action)
  unfolding Quiet
  acts_if-Quiet true c action h = (refl, omega (arith, h))
  acts_if-Quiet false c action h = (refl, refl)

  act_found-Quiet :
      {A : Type 0} (c : Client) (f : A → Client) (o : Option A)
      → ((a : A) → Quiet c (f a))
      → Quiet c (act_found c f o)
  unfolding Quiet
  act_found-Quiet c f none h = (refl, refl)
  act_found-Quiet c f (some a) h = h a

  if-Quiet : (b : Bool) (a c d : Client) → Quiet a c → Quiet a d → Quiet a (if b then c else d)
  if-Quiet true a c d h h' = h
  if-Quiet false a c d h h' = h'

  same-Quiet : (c : Client) → Quiet c c
  unfolding Quiet
  same-Quiet c = (refl, refl)

  start_request-Quiet :
      (env : Environment) (c : Client) (o : Option ProxyRequest) → Quiet c (start_request env c o)
  unfolding Quiet open_pipe
  start_request-Quiet env c none = (refl, refl)
  start_request-Quiet env c (some req) = (ground arith, ground arith)

  end_pipe-Quiet :
      (e : PipeEnd) (id : Bytes) (c : Client) (o : Option ℕ) → Quiet c (end_pipe e id c o)
  unfolding Quiet drop_pipe on_pipe
  end_pipe-Quiet e id c none = (refl, refl)
  end_pipe-Quiet e id c (some n) = (refl, refl)

  write_chunk-Quiet :
      (c : Client) (o : Option ℕ) (chunk : Option Bytes) → Quiet c (write_chunk c o chunk)
  unfolding Quiet on_pipe
  write_chunk-Quiet c none chunk = (refl, refl)
  write_chunk-Quiet c (some n) none = (refl, refl)
  write_chunk-Quiet c (some n) (some chunk) = (refl, refl)

  cancel_request-Quiet : (id : Bytes) (c : Client) (o : Option ℕ) → Quiet c (cancel_request id c o)
  unfolding Quiet
  cancel_request-Quiet id c none = (refl, refl)
  cancel_request-Quiet id c (some n) = (refl, omega arith)

  handle_request-Quiet :
      (env : Environment) (c : Client) (msg : WebSocketMessage) → Quiet c (handle_request env c msg)
  unfolding handle_request
  handle_request-Quiet env c msg = start_request-Quiet env c _

  handle_chunk-Quiet :
      (env : Environment) (c : Client) (msg : WebSocketMessage) → Quiet c (handle_chunk env c msg)
  unfolding handle_chunk
  handle_chunk-Quiet env c msg =
      if-Quiet (bytes_eq msg.request_id []) c _ _ (same-Quiet c) (write_chunk-Quiet c _ _)

  handle_stream_end-Quiet :
      (c : Client) (msg : WebSocketMessage) → Quiet c (handle_stream_end c msg)
  unfolding handle_stream_end
  handle_stream_end-Quiet c msg =
      if-Quiet (bytes_eq msg.request_id []) c _ _ (same-Quiet c)
        (end_pipe-Quiet eof msg.request_id c _)

  handle_cancel-Quiet : (c : Client) (msg : WebSocketMessage) → Quiet c (handle_cancel c msg)
  unfolding handle_cancel
  handle_cancel-Quiet c msg =
      let id = msg.request_id in
      let o = Map.lookup Bytes-discrete id c.active_proxy_requests in
      if-Quiet (bytes_eq id []) c _ _ (same-Quiet c) (
        Quiet-trans c (cancel_request id c o) _ (cancel_request-Quiet id c o)
          (end_pipe-Quiet cancelled id (cancel_request id c o) _))

  handle_register-Quiet : (c : Client) (msg : WebSocketMessage) → Quiet c (handle_register c msg)
  unfolding handle_register Quiet
  handle_register-Quiet c msg = (ground arith, ground arith)

  handle_stream_data-Quiet :
      (env : Environment) (c : Client) (msg : WebSocketMessage)
      → Quiet c (handle_stream_data env c msg)
  unfolding handle_stream_data Quiet
  handle_stream_data-Quiet env c msg = (ground arith, ground arith)

  handle_websocket_data-Quiet :
      (env : Environment) (c : Client) (msg : WebSocketMessage)
      → Quiet c (handle_websocket_data env c msg)
  unfolding handle_websocket_data Quiet
  handle_websocket_data-Quiet env c msg = (ground arith, ground arith)

  handle_websocket_close-Quiet :
      (env : Environment) (c : Client) (msg : WebSocketMessage)
      → Quiet c (handle_websocket_close env c msg)
  unfolding handle_websocket_close
  handle_websocket_close-Quiet env c msg =
      Quiet-trans c _ _ (acts_if-Quiet env.proxy_manager c _ refl) (acts_if-Quiet _ _ _ refl)

  -- Every case but that of the unknown types.
  pub case-Quiet :
      (env : Environment) (c : Client) (msg : WebSocketMessage) (t : MessageType)
      → is_unknown t ≡ 0
      → Quiet c (handle_case env c msg t)
  unfolding handle_case handle_tcp_data handle_udp_data handle_error
  case-Quiet env c msg register_success h = handle_register-Quiet c msg
  case-Quiet env c msg register_in_progress h = same-Quiet c
  case-Quiet env c msg heartbeat_ack h = same-Quiet c
  case-Quiet env c msg gateway_hello h = acts_if-Quiet true c _ refl
  case-Quiet env c msg pong h = same-Quiet c
  case-Quiet env c msg ping h = acts_if-Quiet true c _ refl
  case-Quiet env c msg proxy_request h = handle_request-Quiet env c msg
  case-Quiet env c msg proxy_request_chunk h = handle_chunk-Quiet env c msg
  case-Quiet env c msg proxy_request_stream_end h = handle_stream_end-Quiet c msg
  case-Quiet env c msg proxy_cancel h = handle_cancel-Quiet c msg
  case-Quiet env c msg proxy_stream_data h = handle_stream_data-Quiet env c msg
  case-Quiet env c msg websocket_start h = acts_if-Quiet _ c _ refl
  case-Quiet env c msg websocket_data h = handle_websocket_data-Quiet env c msg
  case-Quiet env c msg websocket_close h = handle_websocket_close-Quiet env c msg
  case-Quiet env c msg tcp_tunnel_start h = acts_if-Quiet _ c _ refl
  case-Quiet env c msg tcp_tunnel_data h =
      act_found-Quiet c (λ f. acts_if env.on_tcp_data c (passes_tcp msg.request_id f))
        (decoded env.unbase64 (text_at msg (codes "data"))) (λ f. acts_if-Quiet _ c _ refl)
  case-Quiet env c msg tcp_tunnel_close h = acts_if-Quiet _ c _ refl
  case-Quiet env c msg udp_tunnel_data h =
      act_found-Quiet c (λ req. acts_if env.on_udp_data c (passes_udp req))
        (parse_udp_data env.unbase64 msg) (λ req. acts_if-Quiet _ c _ refl)
  case-Quiet env c msg error_message h = acts_if-Quiet _ c _ refl
  case-Quiet env c msg unknown_type h = absurd (omega (arith, h))
