-- ===== src/Controlplane/Streams/Safety.antt =====
-- closeCh is closed once for each stream, whatever the order of the events.
use pipeops_k8_agent.Prelude.{
  ℕ, ◌<◌, ◌≡◌, ◌≢◌, refl, sym, ap, ◌∙◌, Bool, true, false, Option, none, some, List, [], ◌∷◌, arith,
  ℕ_discrete, Option-cases, inl, inr, if◌then◌else◌,
}
use pipeops_k8_agent.Prelude.Bytes.{Bytes, Bytes-discrete, codes}
use pipeops_k8_agent.Prelude.Map
use pipeops_k8_agent.Prelude.Map.{Map}
use pipeops_k8_agent.Controlplane.Messages.{WebSocketMessage, get_string}
use pipeops_k8_agent.Controlplane.RequestPath.{is_valid_k8s_api_path}
use pipeops_k8_agent.Controlplane.Streams.{
  Stream, Manager, Sent, new_manager, stream_of, object, set_object, send, new_stream, add_stream,
  on_object, close_stream, close_found, is_closed, close_named, close_each, close_all,
  handle_proxy_start, start_stream, id_field, handle_proxy_data, handle_proxy_close, deliver_frame,
  enqueue, stream_named,
}
use pipeops_k8_agent.Controlplane.Streams.Events.{
  Event, proxy_start, proxy_data, proxy_close, disconnects, dialled, dial_failed, relays_ended,
  handle_event, handle_events, finish, on_running, ended_stream, dialled_stream,
}
use pipeops_k8_agent.Controlplane.Streams.Table.{
  set-object_self, set-object_ne, add-stream_of_self, add-stream_of_ne, add-object_self,
  add-object_ne, close-stream_of_self, close-stream_of_ne, close-object_ne, close-next,
}

-- An open stream under its own ID.
abbrev pub IsOpen : Manager → Bytes → ℕ → Type 0
IsOpen m id n =
    (s : Stream) × (object m n ≡ some s) × (s.close_ch_closed ≡ false) × (s.stream_id ≡ id)

-- Nothing has panicked, and the table leads to open streams under their own IDs.
pub record IsSound (m : Manager) : Type 0 where
  pub calm : m.panicked ≡ false
  pub live : (id : Bytes) (n : ℕ) → stream_of m id ≡ some n → IsOpen m id n
  pub old : (id : Bytes) (n : ℕ) → stream_of m id ≡ some n → n < m.next_object

-- Only one ID leads to a stream.
pub own_id :
    (m : Manager) (i j : Bytes) (n : ℕ)
    → IsSound m
    → stream_of m i ≡ some n
    → stream_of m j ≡ some n
    → i ≡ j
own_id m i j n v e e' =
    let (s, o, _, p) = v.live i n e in
    let (t, o', _, q) = v.live j n e' in
    let same : s ≡ t = ground (arith, sym o ∙ o') in sym p ∙ ap (λ u. u.stream_id) same ∙ q

send-IsSound : (x : Sent) (m : Manager) → IsSound m → IsSound (send x m)
send-IsSound x m v = record { calm = v.calm; live = v.live; old = v.old }

add-IsSound : (id : Bytes) (m : Manager) → IsSound m → IsSound (add_stream id m)
add-IsSound id m v =
    let self : (j : Bytes) (n : ℕ)
        → j ≡ id
        → stream_of (add_stream id m) j ≡ some n
        → m.next_object ≡ n =
      λ j n i e.
        let h : some m.next_object ≡ some n =
          sym (add-stream_of_self m id) ∙ ap (stream_of (add_stream id m)) (sym i) ∙ e in
        ground (arith, h) in
    record {
      calm = unfold add_stream in v.calm;
      live = λ j n e. elim (Bytes-discrete j id) [
        | yes i ↦ (
          new_stream id,
          ap (object (add_stream id m)) (sym (self j n i e)) ∙ add-object_self m id,
          unfold new_stream in refl,
          unfold new_stream in sym i,
        )
        | no i ↦
            let e' = sym (add-stream_of_ne m id j i) ∙ e in
            let (s, o, unclosed, p) = v.live j n e' in
            (s, add-object_ne m id n (v.old j n e') ∙ o, unclosed, p)
      ];
      old = λ j n e. elim (Bytes-discrete j id) [
        | yes i ↦ unfold add_stream in omega (arith, self j n i e)
        | no i ↦
            let before = v.old j n (sym (add-stream_of_ne m id j i) ∙ e) in
            unfold add_stream in omega (arith, before)
      ];
    }

-- A change of a stream that closes no channel and keeps the ID.
set-IsSound :
    (n : ℕ) (s t : Stream) (m : Manager)
    → object m n ≡ some s
    → t.close_ch_closed ≡ s.close_ch_closed
    → t.stream_id ≡ s.stream_id
    → IsSound m
    → IsSound (set_object n t m)
set-IsSound n s t m o c i v = record {
  calm = v.calm;
  live = λ j k e.
      let (u, p, unclosed, q) = v.live j k e in
      elim (ℕ_discrete k n) [
        | yes h ↦
            let same : u ≡ s = ground (arith, sym p ∙ ap (object m) h ∙ o) in
            (
              t,
              ap (object (set_object n t m)) h ∙ set-object_self m n t,
              c ∙ ap (λ x. x.close_ch_closed) (sym same) ∙ unclosed,
              i ∙ ap (λ x. x.stream_id) (sym same) ∙ q,
            )
        | no h ↦ (u, set-object_ne m n k t h ∙ p, unclosed, q)
      ];
  old = v.old;
}

pub close-before :
    (id j : Bytes) (k : ℕ) (m : Manager)
    → stream_of (close_stream id m) j ≡ some k
    → (j ≢ id) × (stream_of m j ≡ some k)
close-before id j k m e = elim (Bytes-discrete j id) [
  | yes i ↦
      let self : none ≡ some k =
        sym (close-stream_of_self m id) ∙ ap (stream_of (close_stream id m)) (sym i) ∙ e in
      absurd (ground (arith, self))
  | no i ↦ (i, sym (close-stream_of_ne m id j i) ∙ e)
]

close-calm : (id : Bytes) (m : Manager) → IsSound m → (close_stream id m).panicked ≡ false
unfolding close_stream
close-calm id m v = elim (Option-cases (stream_of m id)) [
  | inl e ↦ rw (e, close_found) v.calm
  | inr (n, e) ↦
      let (s, o, unclosed, p) = v.live id n e in
      let found : is_closed (object m n) ≡ false = ap is_closed o ∙ unclosed in
      rw (e, close_found, v.calm, found) refl
]

close-IsSound : (id : Bytes) (m : Manager) → IsSound m → IsSound (close_stream id m)
close-IsSound id m v = record {
  calm = close-calm id m v;
  live = λ j k f.
      let (ne, e) = close-before id j k m f in
      let (s, o, unclosed, p) = v.live j k e in
      (s, close-object_ne m id k (λ h. ne (own_id m j id k v e h)) ∙ o, unclosed, p);
  old = λ j k f. rw (close-next m id) (v.old j k (close-before id j k m f).1);
}

close_each-IsSound : (table : Map Bytes ℕ) (m : Manager) → IsSound m → IsSound (close_each table m)
unfolding close_each
close_each-IsSound [] m v = v
close_each-IsSound ((id, k) ∷ rest) m v =
    close_each-IsSound rest (close_stream id m) (close-IsSound id m v)

if-IsSound : (b : Bool) (c d : Manager) → IsSound c → IsSound d → IsSound (if b then c else d)
if-IsSound true c d h k = h
if-IsSound false c d h k = k

start-IsSound :
    (msg : WebSocketMessage) (m : Manager) (o : Option Bytes)
    → IsSound m
    → IsSound (start_stream msg m o)
start-IsSound msg m none v = send-IsSound _ m v
start-IsSound msg m (some id) v =
    if-IsSound (is_valid_k8s_api_path (get_string msg (codes "path"))) (add_stream id m) _
      (add-IsSound id m v) (send-IsSound _ m v)

deliver-IsSound :
    (takes_done : Bool) (m : Manager) (o : Option ℕ) (frame : Option Bytes)
    → IsSound m
    → IsSound (deliver_frame takes_done m o frame)
unfolding on_object enqueue
deliver-IsSound takes_done m none frame v = v
deliver-IsSound takes_done m (some n) none v = v
deliver-IsSound takes_done m (some n) (some frame) v = elim (Option-cases (object m n)) [
  | inl e ↦ rw e v
  | inr (s, e) ↦
      rw e (set-IsSound n s (enqueue takes_done frame s) m e (ground arith) (ground arith) v)
]

close_named-IsSound : (m : Manager) (o : Option Bytes) → IsSound m → IsSound (close_named m o)
close_named-IsSound m none v = v
close_named-IsSound m (some id) v = close-IsSound id m v

running-IsSound :
    (m : Manager) (f : Stream → Manager) (n : ℕ)
    → ((s : Stream) → object m n ≡ some s → IsSound (f s))
    → IsSound m
    → IsSound (on_running m f (object m n))
running-IsSound m f n h v = elim (Option-cases (object m n)) [
  | inl e ↦ rw e v
  | inr (s, e) ↦ rw e (if-IsSound s.running (f s) m (h s e) v)
]

finish-IsSound :
    (n : ℕ) (s : Stream) (m : Manager) → object m n ≡ some s → IsSound m → IsSound (finish n s m)
finish-IsSound n s m o v =
    close-IsSound s.stream_id (set_object n (ended_stream s) m)
      (unfold ended_stream in set-IsSound n s (ended_stream s) m o refl refl v)

event-IsSound : (m : Manager) (e : Event) → IsSound m → IsSound (handle_event m e)
unfolding handle_event handle_proxy_start handle_proxy_data handle_proxy_close close_all
    dialled_stream
event-IsSound m (proxy_start msg) v = start-IsSound msg m (id_field msg) v
event-IsSound m (proxy_data unbase64 takes_done msg) v =
    deliver-IsSound takes_done m (stream_named m (id_field msg)) _ v
event-IsSound m (proxy_close msg) v = close_named-IsSound m (id_field msg) v
event-IsSound m disconnects v = close_each-IsSound m.streams m v
event-IsSound m (dialled n is_channel) v =
    running-IsSound m (λ s. set_object n (dialled_stream is_channel s) m) n
      (λ s o. set-IsSound n s (dialled_stream is_channel s) m o refl refl v) v
event-IsSound m (dial_failed n err) v =
    running-IsSound m _ n (λ s o. finish-IsSound n s (send _ m) o (send-IsSound _ m v)) v
event-IsSound m (relays_ended n) v =
    running-IsSound m (λ s. finish n s m) n (λ s o. finish-IsSound n s m o v) v

new-IsSound : IsSound new_manager
unfolding new_manager Map.lookup
new-IsSound = record {
  calm = refl;
  live = λ id n e. absurd (ground (arith, e));
  old = λ id n e. absurd (ground (arith, e));
}

events-IsSound : (m : Manager) (es : List Event) → IsSound m → IsSound (handle_events m es)
unfolding handle_events
events-IsSound m [] v = v
events-IsSound m (e ∷ es) v = events-IsSound (handle_event m e) es (event-IsSound m e v)

-- After any events on a new manager no channel has been closed twice, and the table leads from an
-- ID only to a stream of that ID whose channel is open.
pub handle_events-IsSound : (es : List Event) → IsSound (handle_events new_manager es)
handle_events-IsSound es = events-IsSound new_manager es new-IsSound
