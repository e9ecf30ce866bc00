-- ===== src/Controlplane/Streams.antt =====
-- The streams of kubectl exec, attach and port-forward: WebSocketProxyManager of
-- internal/controlplane/websocket_proxy.go. The goroutine of connectToKubernetes is the stream's
-- `running`; its dial, the end of its relays and the messages of the control plane are events, in
-- the order in which they happen. The URL and the headers of the dial are left out.
pub mod Relay
pub mod Events
pub mod Table
pub mod Safety
pub mod Lost
pub mod Leaks
use pipeops_k8_agent.Prelude.{
  ℕ, ◌+◌, Bool, true, false, not, ◌&&◌, ◌||◌, ltb, Option, none, some, List, [], ◌∷◌, ◌++◌, length,
  if◌then◌else◌, ℕ_discrete,
}
use pipeops_k8_agent.Prelude.Bytes.{Bytes, Bytes-discrete, codes}
use pipeops_k8_agent.Prelude.Map
use pipeops_k8_agent.Prelude.Map.{Map}
use pipeops_k8_agent.Controlplane.Messages.{WebSocketMessage, text_at, get_string}
use pipeops_k8_agent.Controlplane.RequestPath.{is_valid_k8s_api_path}

pub record Stream : Type 0 where
  pub stream_id : Bytes
  pub frames : List Bytes
  pub cancelled : Bool
  pub close_ch_closed : Bool
  pub running : Bool
  pub connected : Bool
  pub conn_closed : Bool
  pub is_k8s_channel_protocol : Bool

-- The messages to the control plane.
pub data Sent : Type 0 where
  error_message : Bytes → Bytes → Sent
  close_message : Bytes → Sent

-- `streams` is the map of the manager, `objects` the streams that it and the goroutines point to.
-- `panicked` is true once a channel is closed that is closed already.
pub record Manager : Type 0 where
  pub streams : Map Bytes ℕ
  pub objects : Map ℕ Stream
  pub next_object : ℕ
  pub sent : List Sent
  pub panicked : Bool

unfoldable pub new_manager : Manager
new_manager = record { streams = []; objects = []; next_object = 0; sent = []; panicked = false }

abbrev pub stream_of : Manager → Bytes → Option ℕ
stream_of m id = Map.lookup Bytes-discrete id m.streams

abbrev pub object : Manager → ℕ → Option Stream
object m n = Map.lookup ℕ_discrete n m.objects

abbrev pub set_object : ℕ → Stream → Manager → Manager
set_object n s m = record m { objects = Map.insert ℕ_discrete n s m.objects }

abbrev pub send : Sent → Manager → Manager
send message m = record m { sent = message ∷ m.sent }

-- The text of stream_id, `none` where it is missing or "".
abbrev nonempty : Option Bytes → Option Bytes
nonempty none = none
nonempty (some []) = none
nonempty (some (x ∷ s)) = some (x ∷ s)

abbrev pub id_field : WebSocketMessage → Option Bytes
id_field msg = nonempty (text_at msg (codes "stream_id"))

unfoldable pub new_stream : Bytes → Stream
new_stream id = record {
  stream_id = id;
  frames = [];
  cancelled = false;
  close_ch_closed = false;
  running = true;
  connected = false;
  conn_closed = false;
  is_k8s_channel_protocol = false;
}

unfoldable pub add_stream : Bytes → Manager → Manager
add_stream id m = record m {
  streams = Map.insert Bytes-discrete id m.next_object m.streams;
  objects = Map.insert ℕ_discrete m.next_object (new_stream id) m.objects;
  next_object = m.next_object + 1;
}

abbrev pub start_stream : WebSocketMessage → Manager → Option Bytes → Manager
start_stream msg m none = send (error_message msg.request_id (codes "missing stream_id")) m
start_stream msg m (some id) =
    if is_valid_k8s_api_path (get_string msg (codes "path"))
    then add_stream id m
    else send (error_message msg.request_id (codes "invalid path: must be a Kubernetes API path")) m

unfoldable pub handle_proxy_start : Manager → WebSocketMessage → Manager
handle_proxy_start m msg = start_stream msg m (id_field msg)

-- dataCh holds 100 frames. On a cancelled stream select may take the case of ctx.Done.
unfoldable pub enqueue : Bool → Bytes → Stream → Stream
enqueue takes_done frame s =
    if (s.cancelled && takes_done) || not (ltb (length s.frames) 100)
    then s
    else record s { frames = s.frames ++ frame ∷ [] }

abbrev on_object_found : (Stream → Stream) → ℕ → Manager → Option Stream → Manager
on_object_found f n m none = m
on_object_found f n m (some s) = set_object n (f s) m

unfoldable pub on_object : (Stream → Stream) → ℕ → Manager → Manager
on_object f n m = on_object_found f n m (object m n)

abbrev pub deliver_frame : Bool → Manager → Option ℕ → Option Bytes → Manager
deliver_frame takes_done m none frame = m
deliver_frame takes_done m (some n) none = m
deliver_frame takes_done m (some n) (some frame) = on_object (enqueue takes_done frame) n m

abbrev pub decoded : (Bytes → Option Bytes) → Option Bytes → Option Bytes
decoded unbase64 none = none
decoded unbase64 (some s) = unbase64 s

abbrev pub stream_named : Manager → Option Bytes → Option ℕ
stream_named m none = none
stream_named m (some id) = stream_of m id

unfoldable pub handle_proxy_data :
    (Bytes → Option Bytes) → Bool → Manager → WebSocketMessage → Manager
handle_proxy_data unbase64 takes_done m msg =
    deliver_frame takes_done m (stream_named m (id_field msg))
      (decoded unbase64 (text_at msg (codes "data")))

-- The stream after cancel, close(closeCh) and the close of its connection, if it has one.
unfoldable pub closed_stream : Stream → Stream
closed_stream s = record s {
  cancelled = true;
  close_ch_closed = true;
  conn_closed = s.conn_closed || s.connected;
}

abbrev pub is_closed : Option Stream → Bool
is_closed none = false
is_closed (some s) = s.close_ch_closed

abbrev pub close_found : Bytes → Manager → Option ℕ → Manager
close_found id m none = m
close_found id m (some n) =
    let m' = on_object closed_stream n m in
    record m' {
      streams = Map.delete Bytes-discrete id m.streams;
      sent = close_message id ∷ m.sent;
      panicked = m.panicked || is_closed (object m n);
    }

unfoldable pub close_stream : Bytes → Manager → Manager
close_stream id m = close_found id m (stream_of m id)

abbrev pub close_named : Manager → Option Bytes → Manager
close_named m none = m
close_named m (some id) = close_stream id m

unfoldable pub handle_proxy_close : Manager → WebSocketMessage → Manager
handle_proxy_close m msg = close_named m (id_field msg)

unfoldable pub close_each : Map Bytes ℕ → Manager → Manager
close_each [] m = m
close_each ((id, n) ∷ rest) m = close_each rest (close_stream id m)

unfoldable pub close_all : Manager → Manager
close_all m = close_each m.streams m
