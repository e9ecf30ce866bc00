-- ===== src/Controlplane/Streams/Leaks.antt =====
-- Two ways in which a stream is lost to the control plane.
use pipeops_k8_agent.Prelude.{
  ℕ, ◌≡◌, ◌≢◌, refl, sym, ap, ◌∙◌, Bool, true, false, none, some, List, [], ◌∷◌, ◌++◌, arith, All,
  if◌then◌else◌,
}
use pipeops_k8_agent.Prelude.Bytes.{Bytes, Bytes-discrete, codes}
use pipeops_k8_agent.Controlplane.Messages.{WebSocketMessage, get_string}
use pipeops_k8_agent.Controlplane.RequestPath.{is_valid_k8s_api_path}
use pipeops_k8_agent.Controlplane.Streams.{
  Stream, Manager, new_manager, stream_of, object, set_object, new_stream, add_stream,
  closed_stream, close_stream, close_named, handle_proxy_start, id_field, handle_proxy_close,
}
use pipeops_k8_agent.Controlplane.Streams.Events.{
  Event, proxy_start, proxy_close, dialled, relays_ended, handle_event, handle_events, finish,
  on_running, ended_stream, dialled_stream,
}
use pipeops_k8_agent.Controlplane.Streams.Table.{
  set-object_self, set-object_ne, add-stream_of_self, add-stream_of_ne, add-object_self,
  add-object_ne, close-stream_of_self, close-object_self, close-next,
}
use pipeops_k8_agent.Controlplane.Streams.Safety.{
  IsSound, own_id, close-before, handle_events-IsSound,
}
use pipeops_k8_agent.Controlplane.Streams.Lost.{IsForeign, IsLost, events-IsLost}

-- The stream that an ID led to, once the ID leads to a new one.
restarted-IsLost :
    (m : Manager) (id : Bytes) (n : ℕ) (s : Stream)
    → IsSound m
    → stream_of m id ≡ some n
    → object m n ≡ some s
    → IsLost n s (add_stream id m)
restarted-IsLost m id n s v e o = record {
  held = add-object_ne m id n (v.old id n e) ∙ o;
  gone = λ j f. elim (Bytes-discrete j id) [
    | yes i ↦
        let self : some m.next_object ≡ some n =
          sym (add-stream_of_self m id) ∙ ap (stream_of (add_stream id m)) (sym i) ∙ f in
        let same : m.next_object ≡ n = ground (arith, self) in omega (arith, same, v.old id n e)
    | no i ↦ i (own_id m j id n v (sym (add-stream_of_ne m id j i) ∙ f) e)
  ];
  old = unfold add_stream in omega (arith, v.old id n e);
}

started :
    (m : Manager) (msg : WebSocketMessage) (id : Bytes)
    → id_field msg ≡ some id
    → is_valid_k8s_api_path (get_string msg (codes "path")) ≡ true
    → handle_event m (proxy_start msg) ≡ add_stream id m
unfolding handle_event handle_proxy_start
started m msg id e valid = rw (e, valid) refl

on_running-running :
    (m : Manager) (f : Stream → Manager) (n : ℕ) (s : Stream)
    → object m n ≡ some s
    → s.running ≡ true
    → on_running m f (object m n) ≡ f s
on_running-running m f n s o r = ap (on_running m f) o ∙ ap (λ b. if b then f s else m) r

ended-event :
    (m : Manager) (n : ℕ) (s : Stream)
    → object m n ≡ some s
    → s.running ≡ true
    → handle_event m (relays_ended n) ≡ finish n s m
unfolding handle_event
ended-event m n s o r = on_running-running m (λ t. finish n t m) n s o r

dialled-event :
    (m : Manager) (n : ℕ) (s : Stream) (is_channel : Bool)
    → object m n ≡ some s
    → s.running ≡ true
    → handle_event m (dialled n is_channel) ≡ set_object n (dialled_stream is_channel s) m
unfolding handle_event
dialled-event m n s is_channel o r =
    on_running-running m (λ t. set_object n (dialled_stream is_channel t) m) n s o r

-- The end of the old stream's goroutine closes the new stream.
ended-closes_new :
    (m : Manager) (id : Bytes) (n : ℕ) (s : Stream)
    → IsSound m
    → stream_of m id ≡ some n
    → object m n ≡ some s
    → s.running ≡ true
    → (stream_of (handle_event (add_stream id m) (relays_ended n)) id ≡ none)
      × (object (handle_event (add_stream id m) (relays_ended n)) m.next_object
          ≡ some (closed_stream (new_stream id)))
ended-closes_new m id n s v e o r =
    let m' = add_stream id m in
    let (t, o', _, own) = v.live id n e in
    let same : t ≡ s = ground (arith, sym o' ∙ o) in
    let named : s.stream_id ≡ id = ap (λ u. u.stream_id) (sym same) ∙ own in
    let m'' = set_object n (ended_stream s) m' in
    let step : handle_event m' (relays_ended n) ≡ close_stream id m'' =
      ended-event m' n s (add-object_ne m id n (v.old id n e) ∙ o) r
      ∙ ap (λ j. close_stream j m'') named in
    let fresh : m.next_object ≢ n = λ h. omega (arith, h, v.old id n e) in
    let new : object m'' m.next_object ≡ some (new_stream id) =
      set-object_ne m' n m.next_object (ended_stream s) fresh ∙ add-object_self m id in
    rw step (
      close-stream_of_self m'' id,
      close-object_self m'' id m.next_object (new_stream id) (add-stream_of_self m id) new,
    )

handle_events-append :
    (m : Manager) (es later : List Event)
    → handle_events m (es ++ later) ≡ handle_events (handle_events m es) later
unfolding handle_events
handle_events-append m [] later = refl
handle_events-append m (e ∷ es) later = handle_events-append (handle_event m e) es later

handle_events-then :
    (m : Manager) (es later : List Event) (e : Event)
    → handle_events m (es ++ e ∷ later) ≡ handle_events (handle_event (handle_events m es) e) later
unfolding handle_events
handle_events-then m es later e = handle_events-append m es (e ∷ later)

handle_events-two :
    (m : Manager) (es later : List Event) (e e' : Event)
    → handle_events m (es ++ e ∷ e' ∷ later)
      ≡ handle_events (handle_event (handle_event (handle_events m es) e) e') later
unfolding handle_events
handle_events-two m es later e e' = handle_events-append m es (e ∷ e' ∷ later)

handle_events-last :
    (m : Manager) (es : List Event) (e e' : Event)
    → handle_events m (es ++ e ∷ e' ∷ []) ≡ handle_event (handle_event (handle_events m es) e) e'
unfolding handle_events
handle_events-last m es e e' = handle_events-append m es (e ∷ e' ∷ [])

-- Where, after any events, a stream is running under an ID and another valid start has that ID:
-- whatever follows but the goroutine of the first stream, that stream stays as it was, neither
-- cancelled nor closed; and if its goroutine ends next, that closes the new stream.
pub restart-lost :
    (es later : List Event) (msg : WebSocketMessage) (id : Bytes) (n : ℕ) (s : Stream)
    → stream_of (handle_events new_manager es) id ≡ some n
    → object (handle_events new_manager es) n ≡ some s
    → s.running ≡ true
    → id_field msg ≡ some id
    → is_valid_k8s_api_path (get_string msg (codes "path")) ≡ true
    → All (IsForeign n) later
    → (object (handle_events new_manager (es ++ proxy_start msg ∷ later)) n ≡ some s)
      × (stream_of (handle_events new_manager (es ++ proxy_start msg ∷ relays_ended n ∷ [])) id
          ≡ none)
      × (object
            (handle_events new_manager (es ++ proxy_start msg ∷ relays_ended n ∷ []))
            (handle_events new_manager es).next_object
          ≡ some (closed_stream (new_stream id)))
restart-lost es later msg id n s e o r i valid foreign =
    let m = handle_events new_manager es in
    let v = handle_events-IsSound es in
    let start = started m msg id i valid in
    let (gone, closed) = ended-closes_new m id n s v e o r in
    let stays =
      handle_events-then new_manager es later (proxy_start msg)
      ∙ ap (λ m'. handle_events m' later) start in
    let ends =
      handle_events-last new_manager es (proxy_start msg) (relays_ended n)
      ∙ ap (λ m'. handle_event m' (relays_ended n)) start in
    (
      ap (λ m'. object m' n) stays
          ∙ (events-IsLost n s (add_stream id m) later foreign
              (restarted-IsLost m id n s v e o)).held,
      ap (λ m'. stream_of m' id) ends ∙ gone,
      ap (λ m'. object m' m.next_object) ends ∙ closed,
    )

close-event :
    (m : Manager) (msg : WebSocketMessage) (id : Bytes)
    → id_field msg ≡ some id
    → handle_event m (proxy_close msg) ≡ close_stream id m
unfolding handle_event handle_proxy_close
close-event m msg id e = ap (close_named m) e

dialled-IsLost :
    (m : Manager) (id : Bytes) (n : ℕ) (s t : Stream)
    → IsSound m
    → stream_of m id ≡ some n
    → IsLost n t (set_object n t (close_stream id m))
dialled-IsLost m id n s t v e = record {
  held = set-object_self (close_stream id m) n t;
  gone = λ j f. let (other, before) = close-before id j n m f in other (own_id m j id n v before e);
  old = rw (close-next m id) (v.old id n e);
}

-- Where, after any events, a stream whose goroutine is still dialling is closed by the control
-- plane: once the dial succeeds the connection to Kubernetes is open, and whatever follows but the
-- goroutine of the stream, it stays open.
pub dialling-lost :
    (es later : List Event) (msg : WebSocketMessage) (id : Bytes) (n : ℕ) (s : Stream)
    (is_channel : Bool)
    → stream_of (handle_events new_manager es) id ≡ some n
    → object (handle_events new_manager es) n ≡ some s
    → s.running ≡ true
    → s.connected ≡ false
    → s.conn_closed ≡ false
    → id_field msg ≡ some id
    → All (IsForeign n) later
    → (t : Stream) × (object
          (handle_events new_manager (es ++ proxy_close msg ∷ dialled n is_channel ∷ later))
          n
        ≡ some t)
      × (t.connected ≡ true)
      × (t.conn_closed ≡ false)
dialling-lost es later msg id n s is_channel e o r c k i foreign =
    let m = handle_events new_manager es in
    let v = handle_events-IsSound es in
    let m' = close_stream id m in
    let s' = closed_stream s in
    let t = dialled_stream is_channel s' in
    let closed = close-object_self m id n s e o in
    let path =
      handle_events-two new_manager es later (proxy_close msg) (dialled n is_channel)
      ∙ ap (λ c. handle_events (handle_event c (dialled n is_channel)) later)
          (close-event m msg id i)
      ∙ ap (λ c. handle_events c later)
          (dialled-event m' n s' is_channel closed (unfold closed_stream in r)) in
    (
      t,
      ap (λ c. object c n) path
          ∙ (events-IsLost n t (set_object n t m') later foreign
              (dialled-IsLost m id n s t v e)).held,
      unfold dialled_stream in refl,
      unfold dialled_stream in unfold closed_stream in ground (arith, c, k),
    )
