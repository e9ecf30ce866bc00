-- ===== src/Controlplane/Streams/Table.antt =====
-- The table of the streams and the streams themselves after each operation.
use pipeops_k8_agent.Prelude.{
  ℕ, ◌<◌, ◌≡◌, ◌≢◌, refl, sym, ap, ◌∙◌, none, some, arith, ℕ_discrete, Option-cases, inl, inr,
}
use pipeops_k8_agent.Prelude.Bytes.{Bytes, Bytes-discrete}
use pipeops_k8_agent.Prelude.Map.{
  lookup-insert_self, lookup-insert_ne, lookup-delete_self, lookup-delete_ne,
}
use pipeops_k8_agent.Controlplane.Streams.{
  Stream, Manager, stream_of, object, set_object, new_stream, add_stream, on_object, closed_stream,
  close_found, close_stream,
}

module _ (m : Manager) where
  pub set-object_self : (n : ℕ) (s : Stream) → object (set_object n s m) n ≡ some s
  set-object_self n s = lookup-insert_self ℕ_discrete n s m.objects

  pub set-object_ne : (n k : ℕ) (s : Stream) → k ≢ n → object (set_object n s m) k ≡ object m k
  set-object_ne n k s h = lookup-insert_ne ℕ_discrete n k s m.objects h

  pub add-stream_of_self : (id : Bytes) → stream_of (add_stream id m) id ≡ some m.next_object
  unfolding add_stream
  add-stream_of_self id = lookup-insert_self Bytes-discrete id m.next_object m.streams

  pub add-stream_of_ne : (id j : Bytes) → j ≢ id → stream_of (add_stream id m) j ≡ stream_of m j
  unfolding add_stream
  add-stream_of_ne id j h = lookup-insert_ne Bytes-discrete id j m.next_object m.streams h

  pub add-object_self : (id : Bytes) → object (add_stream id m) m.next_object ≡ some (new_stream id)
  unfolding add_stream
  add-object_self id = lookup-insert_self ℕ_discrete m.next_object (new_stream id) m.objects

  pub add-object_ne :
      (id : Bytes) (k : ℕ) → k < m.next_object → object (add_stream id m) k ≡ object m k
  unfolding add_stream
  add-object_ne id k h =
      lookup-insert_ne ℕ_discrete m.next_object k (new_stream id) m.objects
        (λ e. omega (arith, e, h))

  pub on_object_ne :
      (f : Stream → Stream) (n k : ℕ) → k ≢ n → object (on_object f n m) k ≡ object m k
  unfolding on_object
  on_object_ne f n k h = elim (Option-cases (object m n)) [
    | inl e ↦ rw e refl
    | inr (s, e) ↦ rw e (set-object_ne n k (f s) h)
  ]

  pub on_object_self :
      (f : Stream → Stream) (n : ℕ) (s : Stream)
      → object m n ≡ some s
      → object (on_object f n m) n ≡ some (f s)
  unfolding on_object
  on_object_self f n s e = rw e (set-object_self n (f s))

  pub on_object_streams : (f : Stream → Stream) (n : ℕ) → (on_object f n m).streams ≡ m.streams
  unfolding on_object
  on_object_streams f n = ground arith

  pub on_object_next : (f : Stream → Stream) (n : ℕ) → (on_object f n m).next_object ≡ m.next_object
  unfolding on_object
  on_object_next f n = ground arith

  pub on_object_panicked : (f : Stream → Stream) (n : ℕ) → (on_object f n m).panicked ≡ m.panicked
  unfolding on_object
  on_object_panicked f n = ground arith

  pub close-stream_of_self : (id : Bytes) → stream_of (close_stream id m) id ≡ none
  unfolding close_stream
  close-stream_of_self id = elim (Option-cases (stream_of m id)) [
    | inl e ↦ rw (e, close_found) e
    | inr (n, e) ↦ rw (e, close_found) (lookup-delete_self Bytes-discrete id m.streams)
  ]

  pub close-stream_of_ne : (id j : Bytes) → j ≢ id → stream_of (close_stream id m) j ≡ stream_of m j
  unfolding close_stream
  close-stream_of_ne id j h = elim (Option-cases (stream_of m id)) [
    | inl e ↦ rw (e, close_found) refl
    | inr (n, e) ↦ rw (e, close_found) (lookup-delete_ne Bytes-discrete id j m.streams h)
  ]

  pub close-object_ne :
      (id : Bytes) (k : ℕ) → stream_of m id ≢ some k → object (close_stream id m) k ≡ object m k
  unfolding close_stream
  close-object_ne id k h = elim (Option-cases (stream_of m id)) [
    | inl e ↦ rw (e, close_found) refl
    | inr (n, e) ↦
        rw (e, close_found) (on_object_ne closed_stream n k (λ i. h (e ∙ ap some (sym i))))
  ]

  pub close-object_self :
      (id : Bytes) (n : ℕ) (s : Stream)
      → stream_of m id ≡ some n
      → object m n ≡ some s
      → object (close_stream id m) n ≡ some (closed_stream s)
  unfolding close_stream
  close-object_self id n s e o = rw (e, close_found) (on_object_self closed_stream n s o)

  pub close-next : (id : Bytes) → (close_stream id m).next_object ≡ m.next_object
  unfolding close_stream
  close-next id = elim (Option-cases (stream_of m id)) [
    | inl e ↦ rw (e, close_found) refl
    | inr (n, e) ↦ rw (e, close_found) (on_object_next closed_stream n)
  ]
