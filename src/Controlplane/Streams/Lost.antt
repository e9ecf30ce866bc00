-- ===== src/Controlplane/Streams/Lost.antt =====
-- Streams that the table has lost: nothing that the control plane sends reaches them.
use pipeops_k8_agent.Prelude.{
  ℕ, ◌<◌, ◌≡◌, ◌≢◌, sym, ap, ◌∙◌, Bool, true, false, Option, none, some, List, [], ◌∷◌, arith,
  Bool-cases, inl, inr, All, if◌then◌else◌,
}
use pipeops_k8_agent.Prelude.Bytes.{Bytes, Bytes-discrete, codes}
use pipeops_k8_agent.Prelude.Map
use pipeops_k8_agent.Prelude.Map.{Map}
use pipeops_k8_agent.Controlplane.Messages.{WebSocketMessage, get_string}
use pipeops_k8_agent.Controlplane.RequestPath.{is_valid_k8s_api_path}
use pipeops_k8_agent.Controlplane.Streams.{
  Stream, Manager, Sent, stream_of, object, set_object, send, add_stream, on_object, close_stream,
  close_named, close_each, close_all, handle_proxy_start, start_stream, id_field, handle_proxy_data,
  handle_proxy_close, deliver_frame, enqueue, stream_named,
}
use pipeops_k8_agent.Controlplane.Streams.Events.{
  Event, proxy_start, proxy_data, proxy_close, disconnects, dialled, dial_failed, relays_ended,
  handle_event, handle_events, finish, on_running, ended_stream, dialled_stream,
}
use pipeops_k8_agent.Controlplane.Streams.Table.{
  set-object_ne, add-stream_of_self, add-stream_of_ne, add-object_ne, on_object_ne,
  on_object_streams, on_object_next, close-stream_of_self, close-stream_of_ne, close-object_ne,
  close-next,
}

-- An event that is not one of the goroutine of stream n.
abbrev pub IsForeign : ℕ → Event → Type 0
IsForeign n (dialled k is_channel) = k ≢ n
IsForeign n (dial_failed k e) = k ≢ n
IsForeign n (relays_ended k) = k ≢ n
IsForeign n _ = Unit

-- Stream n is s, and no ID of the table leads to it.
pub record IsLost (n : ℕ) (s : Stream) (m : Manager) : Type 0 where
  pub held : object m n ≡ some s
  pub gone : (j : Bytes) → stream_of m j ≢ some n
  pub old : n < m.next_object

module _ (n : ℕ) (s : Stream) where
  send-IsLost : (x : Sent) (m : Manager) → IsLost n s m → IsLost n s (send x m)
  send-IsLost x m l = record { held = l.held; gone = l.gone; old = l.old }

  add-IsLost : (id : Bytes) (m : Manager) → IsLost n s m → IsLost n s (add_stream id m)
  add-IsLost id m l = record {
    held = add-object_ne m id n l.old ∙ l.held;
    gone = λ j e. elim (Bytes-discrete j id) [
      | yes i ↦
          let self : some m.next_object ≡ some n =
            sym (add-stream_of_self m id) ∙ ap (stream_of (add_stream id m)) (sym i) ∙ e in
          let same : m.next_object ≡ n = ground (arith, self) in omega (arith, same, l.old)
      | no i ↦ l.gone j (sym (add-stream_of_ne m id j i) ∙ e)
    ];
    old = unfold add_stream in omega (arith, l.old);
  }

  set-IsLost :
      (k : ℕ) (t : Stream) (m : Manager) → k ≢ n → IsLost n s m → IsLost n s (set_object k t m)
  set-IsLost k t m h l = record {
    held = set-object_ne m k n t (λ e. h (sym e)) ∙ l.held;
    gone = l.gone;
    old = l.old;
  }

  on_object-IsLost :
      (f : Stream → Stream) (k : ℕ) (m : Manager)
      → k ≢ n
      → IsLost n s m
      → IsLost n s (on_object f k m)
  on_object-IsLost f k m h l = record {
    held = on_object_ne m f k n (λ e. h (sym e)) ∙ l.held;
    gone = λ j e. l.gone j (sym (ap (Map.lookup Bytes-discrete j) (on_object_streams m f k)) ∙ e);
    old = rw (on_object_next m f k) l.old;
  }

  close-IsLost : (id : Bytes) (m : Manager) → IsLost n s m → IsLost n s (close_stream id m)
  close-IsLost id m l = record {
    held = close-object_ne m id n (l.gone id) ∙ l.held;
    gone = λ j e. elim (Bytes-discrete j id) [
      | yes i ↦
          let self : none ≡ some n =
            sym (close-stream_of_self m id) ∙ ap (stream_of (close_stream id m)) (sym i) ∙ e in
          ground (arith, self)
      | no i ↦ l.gone j (sym (close-stream_of_ne m id j i) ∙ e)
    ];
    old = rw (close-next m id) l.old;
  }

  close_each-IsLost :
      (table : Map Bytes ℕ) (m : Manager) → IsLost n s m → IsLost n s (close_each table m)
  unfolding close_each
  close_each-IsLost [] m l = l
  close_each-IsLost ((id, k) ∷ rest) m l =
      close_each-IsLost rest (close_stream id m) (close-IsLost id m l)

  start-IsLost :
      (msg : WebSocketMessage) (m : Manager) (o : Option Bytes)
      → IsLost n s m
      → IsLost n s (start_stream msg m o)
  start-IsLost msg m none l = send-IsLost _ m l
  start-IsLost msg m (some id) l =
      elim (Bool-cases (is_valid_k8s_api_path (get_string msg (codes "path")))) [
        | inl e ↦ rw (e, if◌then◌else◌) (add-IsLost id m l)
        | inr e ↦ rw (e, if◌then◌else◌) (send-IsLost _ m l)
      ]

  deliver-IsLost :
      (takes_done : Bool) (m : Manager) (o : Option ℕ) (frame : Option Bytes)
      → o ≢ some n
      → IsLost n s m
      → IsLost n s (deliver_frame takes_done m o frame)
  deliver-IsLost takes_done m none frame h l = l
  deliver-IsLost takes_done m (some k) none h l = l
  deliver-IsLost takes_done m (some k) (some frame) h l =
      on_object-IsLost (enqueue takes_done frame) k m (λ e. h (ap some e)) l

  named-gone : (m : Manager) (o : Option Bytes) → IsLost n s m → stream_named m o ≢ some n
  named-gone m none l = λ e. cc
  named-gone m (some id) l = l.gone id

  close_named-IsLost :
      (m : Manager) (o : Option Bytes) → IsLost n s m → IsLost n s (close_named m o)
  close_named-IsLost m none l = l
  close_named-IsLost m (some id) l = close-IsLost id m l

  if-IsLost :
      (b : Bool) (c d : Manager) → IsLost n s c → IsLost n s d → IsLost n s (if b then c else d)
  if-IsLost true c d h k = h
  if-IsLost false c d h k = k

  running-IsLost :
      (m : Manager) (f : Stream → Manager) (o : Option Stream)
      → ((t : Stream) → IsLost n s (f t))
      → IsLost n s m
      → IsLost n s (on_running m f o)
  running-IsLost m f none h l = l
  running-IsLost m f (some t) h l = if-IsLost t.running (f t) m (h t) l

  finish-IsLost :
      (k : ℕ) (t : Stream) (m : Manager) → k ≢ n → IsLost n s m → IsLost n s (finish k t m)
  finish-IsLost k t m h l =
      close-IsLost t.stream_id (set_object k (ended_stream t) m)
        (set-IsLost k (ended_stream t) m h l)

  event-IsLost :
      (m : Manager) (e : Event) → IsForeign n e → IsLost n s m → IsLost n s (handle_event m e)
  unfolding handle_event handle_proxy_start handle_proxy_data handle_proxy_close close_all
  event-IsLost m (proxy_start msg) h l = start-IsLost msg m (id_field msg) l
  event-IsLost m (proxy_data unbase64 takes_done msg) h l =
      deliver-IsLost takes_done m (stream_named m (id_field msg)) _ (named-gone m (id_field msg) l)
        l
  event-IsLost m (proxy_close msg) h l = close_named-IsLost m (id_field msg) l
  event-IsLost m disconnects h l = close_each-IsLost m.streams m l
  event-IsLost m (dialled k is_channel) h l =
      running-IsLost m (λ t. set_object k (dialled_stream is_channel t) m) (object m k)
        (λ t. set-IsLost k (dialled_stream is_channel t) m h l) l
  event-IsLost m (dial_failed k err) h l =
      running-IsLost m _ (object m k) (λ t. finish-IsLost k t (send _ m) h (send-IsLost _ m l)) l
  event-IsLost m (relays_ended k) h l =
      running-IsLost m (λ t. finish k t m) (object m k) (λ t. finish-IsLost k t m h l) l

  pub events-IsLost :
      (m : Manager) (es : List Event)
      → All (IsForeign n) es
      → IsLost n s m
      → IsLost n s (handle_events m es)
  unfolding handle_events
  events-IsLost m [] h l = l
  events-IsLost m (e ∷ es) h l = events-IsLost (handle_event m e) es h.1 (event-IsLost m e h.0 l)
