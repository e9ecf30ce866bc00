-- ===== src/Controlplane/Response/Writer.antt =====
-- The interface ProxyResponseWriter of internal/controlplane/types.go: the operations of a writer,
-- and the laws that a writer keeps once it is closed. `sent` holds the calls of the sender.
use pipeops_k8_agent.Prelude.{ℕ, ◌≡◌, Bool, true, Option, List, [], ◌∷◌}
use pipeops_k8_agent.Prelude.Bytes.{Bytes, codes}
use pipeops_k8_agent.Controlplane.Response.{Header, SenderCall}

-- What DeliverStreamData does: it returns true or false, or a send on the closed channel panics.
pub data Delivery : Type 0 where
  delivered dropped panicked : Delivery

pub record WriterOps (W : Type 0) : Type 0 where
  pub write_header : W → ℕ → Option Header → W × Option Bytes
  pub write_chunk : W → Bytes → W × Option Bytes
  pub close_with_error : W → Option Bytes → W × Option Bytes
  pub deliver_stream_data : W → Bytes → W × Delivery
  pub receive : W → W
  pub closed : W → Bool
  pub sent : W → List SenderCall

-- io.ErrClosedPipe
abbrev pub closed_pipe : Bytes
closed_pipe = codes "io: read/write on closed pipe"

-- The stream channel: a buffer of 100 frames.
unfoldable pub stream_capacity : ℕ
stream_capacity = 100

-- A call of a writer: by the handler, by its goroutines or by a proxy_stream_data message.
pub data Call : Type 0 where
  writes_header : ℕ → Option Header → Call
  writes_chunk : Bytes → Call
  closes : Option Bytes → Call
  delivers : Bytes → Call
  receives : Call

module _ {W : Type 0} (ops : WriterOps W) where
  unfoldable pub step : W → Call → W
  step w (writes_header status headers) = (ops.write_header w status headers).0
  step w (writes_chunk chunk) = (ops.write_chunk w chunk).0
  step w (closes e) = (ops.close_with_error w e).0
  step w (delivers frame) = (ops.deliver_stream_data w frame).0
  step w receives = ops.receive w

  unfoldable pub run : W → List Call → W
  run w [] = w
  run w (c ∷ cs) = run (step w c) cs

  -- A closed writer stays closed and sends nothing more.
  abbrev pub IsQuiet : W → W → Type 0
  IsQuiet w w' = (ops.closed w' ≡ true) × (ops.sent w' ≡ ops.sent w)

  pub record IsWriter : Type 0 where
    pub closes_it : (w : W) (e : Option Bytes) → ops.closed (ops.close_with_error w e).0 ≡ true
    pub header_quiet :
        (w : W) (status : ℕ) (headers : Option Header)
        → ops.closed w ≡ true
        → IsQuiet w (ops.write_header w status headers).0
    pub chunk_quiet :
        (w : W) (chunk : Bytes) → ops.closed w ≡ true → IsQuiet w (ops.write_chunk w chunk).0
    pub close_quiet :
        (w : W) (e : Option Bytes) → ops.closed w ≡ true → IsQuiet w (ops.close_with_error w e).0
    pub deliver_quiet :
        (w : W) (frame : Bytes)
        → ops.closed w ≡ true
        → IsQuiet w (ops.deliver_stream_data w frame).0
    pub receive_quiet : (w : W) → ops.closed w ≡ true → IsQuiet w (ops.receive w)
    pub deliver_panics :
        (w : W) (frame : Bytes)
        → ops.closed w ≡ true
        → (ops.deliver_stream_data w frame).1 ≡ panicked
