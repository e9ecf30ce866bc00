-- ===== src/Controlplane/Streams/Events.antt =====
-- connectToKubernetes, and the events that a manager meets.
use pipeops_k8_agent.Prelude.{
  ℕ, Bool, true, false, ◌||◌, Option, none, some, List, [], ◌∷◌, if◌then◌else◌,
}
use pipeops_k8_agent.Prelude.Bytes.{Bytes}
use pipeops_k8_agent.Controlplane.Messages.{WebSocketMessage}
use pipeops_k8_agent.Controlplane.Streams.{
  Stream, Manager, error_message, object, set_object, send, handle_proxy_start, handle_proxy_data,
  handle_proxy_close, close_stream, close_all,
}

-- The dial has succeeded.
unfoldable pub dialled_stream : Bool → Stream → Stream
dialled_stream is_channel s = record s { connected = true; is_k8s_channel_protocol = is_channel }

-- The deferred calls: the connection is closed, if there is one, then the stream of this ID.
unfoldable pub ended_stream : Stream → Stream
ended_stream s = record s { running = false; conn_closed = s.conn_closed || s.connected }

abbrev pub finish : ℕ → Stream → Manager → Manager
finish n s m = close_stream s.stream_id (set_object n (ended_stream s) m)

abbrev pub on_running : Manager → (Stream → Manager) → Option Stream → Manager
on_running m f none = m
on_running m f (some s) = if s.running then f s else m

-- The messages of the control plane, the end of its connection, and the goroutine of stream n: its
-- dial, and its end once both relays have ended.
pub data Event : Type 0 where
  proxy_start : WebSocketMessage → Event
  proxy_data : (Bytes → Option Bytes) → Bool → WebSocketMessage → Event
  proxy_close : WebSocketMessage → Event
  disconnects : Event
  dialled : ℕ → Bool → Event
  dial_failed : ℕ → Bytes → Event
  relays_ended : ℕ → Event

unfoldable pub handle_event : Manager → Event → Manager
handle_event m (proxy_start msg) = handle_proxy_start m msg
handle_event m (proxy_data unbase64 takes_done msg) = handle_proxy_data unbase64 takes_done m msg
handle_event m (proxy_close msg) = handle_proxy_close m msg
handle_event m disconnects = close_all m
handle_event m (dialled n is_channel) =
    on_running m (λ s. set_object n (dialled_stream is_channel s) m) (object m n)
handle_event m (dial_failed n e) =
    on_running m (λ s. finish n s (send (error_message s.stream_id e) m)) (object m n)
handle_event m (relays_ended n) = on_running m (λ s. finish n s m) (object m n)

unfoldable pub handle_events : Manager → List Event → Manager
handle_events m [] = m
handle_events m (e ∷ es) = handle_events (handle_event m e) es
