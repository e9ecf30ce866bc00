-- ===== src/Controlplane/Response/Dispatch.antt =====
-- dispatchStreamingProxyRequest, for any writer that keeps the laws, and the two that do. `calls`
-- are the calls of the writer up to the return of the handler, in the order in which they happen.
use pipeops_k8_agent.Prelude.{
  ◌≡◌, refl, Bool, true, false, Option, none, some, List, [], ◌∷◌, if◌then◌else◌, arith, ap, ◌∙◌,
}
use pipeops_k8_agent.Prelude.Bytes.{Bytes}
use pipeops_k8_agent.Controlplane.Response.{Encoders, SenderCall, Sender}
use pipeops_k8_agent.Controlplane.Response.Writer.{
  panicked, WriterOps, Call, writes_header, writes_chunk, closes, delivers, receives, step, run,
  IsQuiet, IsWriter,
}
use pipeops_k8_agent.Controlplane.Response.Buffered
use pipeops_k8_agent.Controlplane.Response.Buffered.{
  BufferedWriter, new_buffered_writer, buffered_ops,
}
use pipeops_k8_agent.Controlplane.Response.Streaming
use pipeops_k8_agent.Controlplane.Response.Streaming.{
  StreamingWriter, new_streaming_writer, streaming_ops,
}

module _ {W : Type 0} (ops : WriterOps W) where
  unfoldable pub ensure_closed : W → W
  ensure_closed w = if ops.closed w then w else (ops.close_with_error w none).0

  unfoldable pub dispatch : W → List Call → W
  dispatch w calls = ensure_closed (run ops w calls)

module _ (encoders : Encoders) (yamux_active : Bool) (sender : Sender) where
  -- The calls of the sender that a request leads to, from its writer's start to its deferred end.
  unfoldable pub dispatch_streaming_proxy_request : Bytes → Bool → List Call → List SenderCall
  dispatch_streaming_proxy_request request_id true calls =
      (dispatch (streaming_ops sender) (new_streaming_writer request_id) calls).sent
  dispatch_streaming_proxy_request request_id false calls =
      (dispatch (buffered_ops encoders yamux_active sender) (new_buffered_writer request_id)
        calls).sent

module _ {W : Type 0} (ops : WriterOps W) (laws : IsWriter ops) where
  step-IsQuiet : (w : W) (c : Call) → ops.closed w ≡ true → IsQuiet ops w (step ops w c)
  unfolding step
  step-IsQuiet w (writes_header status headers) h = laws.header_quiet w status headers h
  step-IsQuiet w (writes_chunk chunk) h = laws.chunk_quiet w chunk h
  step-IsQuiet w (closes e) h = laws.close_quiet w e h
  step-IsQuiet w (delivers frame) h = laws.deliver_quiet w frame h
  step-IsQuiet w receives h = laws.receive_quiet w h

  pub run-IsQuiet : (w : W) (cs : List Call) → ops.closed w ≡ true → IsQuiet ops w (run ops w cs)
  unfolding run
  run-IsQuiet w [] h = (h, refl)
  run-IsQuiet w (c ∷ cs) h =
      let (h', same) = step-IsQuiet w c h in
      let (h'', same') = run-IsQuiet (step ops w c) cs h' in (h'', same' ∙ same)

  pub ensure_closed-closed : (w : W) → ops.closed (ensure_closed ops w) ≡ true
  unfolding ensure_closed
  ensure_closed-closed w = ground (arith, laws.closes_it w none)

  -- Whatever the handler did with a writer, once the request is dispatched no later call of the
  -- writer sends anything, and DeliverStreamData panics on it after any such calls.
  run-dispatch :
      (w : W) (calls later : List Call) (frame : Bytes)
      → (ops.sent (run ops (dispatch ops w calls) later) ≡ ops.sent (dispatch ops w calls))
        × ((ops.deliver_stream_data (run ops (dispatch ops w calls) later) frame).1 ≡ panicked)
  unfolding dispatch
  run-dispatch w calls later frame =
      let done = dispatch ops w calls in
      let (h, same) = run-IsQuiet done later (ensure_closed-closed (run ops w calls)) in
      (same, laws.deliver_panics (run ops done later) frame h)

  -- The first call that closes decides what is sent.
  pub dispatch-closes :
      (w : W) (e : Option Bytes) (cs : List Call)
      → ops.sent (dispatch ops w (closes e ∷ cs)) ≡ ops.sent (ops.close_with_error w e).0
  unfolding dispatch run step ensure_closed
  dispatch-closes w e cs =
      let (h, same) = run-IsQuiet (ops.close_with_error w e).0 cs (laws.closes_it w e) in
      rw (h, if◌then◌else◌) same

module _ (encoders : Encoders) (yamux_active : Bool) (sender : Sender) where
  buffered-closes :
      (w : BufferedWriter) (e : Option Bytes)
      → (Buffered.close_with_error encoders yamux_active sender w e).0.closed ≡ true
  unfolding Buffered.close_with_error Buffered.close_open Buffered.respond Buffered.after_binary
  buffered-closes w none = ground arith
  buffered-closes w (some e) = ground arith

  buffered_chunk-quiet :
      (w : BufferedWriter) (chunk : Bytes) → w.closed ≡ true → (Buffered.write_chunk w chunk).0 ≡ w
  unfolding Buffered.write_chunk
  buffered_chunk-quiet w [] h = refl
  buffered_chunk-quiet w (x ∷ chunk) h = ground (arith, h)

  pub buffered-IsWriter : IsWriter (buffered_ops encoders yamux_active sender)
  unfolding buffered_ops Buffered.write_header Buffered.write_chunk Buffered.deliver_stream_data
      Buffered.close_with_error
  buffered-IsWriter = record {
    closes_it = buffered-closes;
    header_quiet = λ w status headers h. ground (arith, h);
    chunk_quiet = λ w chunk h. (
      ap (λ v. v.closed) (buffered_chunk-quiet w chunk h) ∙ h,
      ap (λ v. v.sent) (buffered_chunk-quiet w chunk h),
    );
    close_quiet = λ w e h. ground (arith, h);
    deliver_quiet = λ w frame h. ground (arith, h);
    receive_quiet = λ w h. (h, refl);
    deliver_panics = λ w frame h. ground (arith, h);
  }

module _ (sender : Sender) where
  streaming-closes :
      (w : StreamingWriter) (e : Option Bytes)
      → (Streaming.close_with_error sender w e).0.closed ≡ true
  unfolding Streaming.close_with_error Streaming.close_open
  streaming-closes w none = ground arith
  streaming-closes w (some e) = ground arith

  streaming_chunk-quiet :
      (w : StreamingWriter) (chunk : Bytes)
      → w.closed ≡ true
      → (Streaming.write_chunk sender w chunk).0 ≡ w
  unfolding Streaming.write_chunk
  streaming_chunk-quiet w [] h = refl
  streaming_chunk-quiet w (x ∷ chunk) h = ground (arith, h)

  pub streaming-IsWriter : IsWriter (streaming_ops sender)
  unfolding streaming_ops Streaming.write_header Streaming.write_chunk Streaming.deliver_stream_data
      Streaming.close_with_error
  streaming-IsWriter = record {
    closes_it = streaming-closes;
    header_quiet = λ w status headers h. ground (arith, h);
    chunk_quiet = λ w chunk h. (
      ap (λ v. v.closed) (streaming_chunk-quiet w chunk h) ∙ h,
      ap (λ v. v.sent) (streaming_chunk-quiet w chunk h),
    );
    close_quiet = λ w e h. ground (arith, h);
    deliver_quiet = λ w frame h. ground (arith, h);
    receive_quiet = λ w h. (h, refl);
    deliver_panics = λ w frame h. ground (arith, h);
  }
