-- ===== src/Websocket/Frame/Codec.antt =====
-- The codec of internal/websocket/frame.go: encoding and decoding undo one another, and what a
-- decoder accepts is what an encoder wrote.
use pipeops_k8_agent.Prelude.{
  ℕ, ◌≤◌, ◌<◌, ◌≡◌, refl, ◌⊎◌, ◌++◌, length, take, drop, arith, take_append, drop_append,
  length-append,
}
use pipeops_k8_agent.Prelude.Bytes.{Bytes, u32_mod, get_u32-put}
use pipeops_k8_agent.Websocket.Frame.{
  Frame, ok, FrameError, incomplete, read_payload, layout, encode, check_header, header_frame,
  take_payload, open_frame, decode_frame_with_max_size, read_frame_with_max_size,
}

-- A frame of this protocol's version whose fields fit their widths.
pub record IsWellFormed (f : Frame) : Type 0 where
  pub version_current : f.version ≡ 1
  pub length_fits : f.length < u32_mod
  pub length_exact : length f.payload ≡ f.length

-- The maximum of the decoders; 0 is none.
abbrev pub Admits : ℕ → Frame → Type 0
Admits max_size f = (max_size ≡ 0) ⊎ (f.length ≤ max_size)

take_eq : (n : ℕ) (xs rest : Bytes) → length xs ≡ n → take n (xs ++ rest) ≡ xs
take_eq n xs rest h = rw (← h) (take_append xs rest)

drop_eq : (n : ℕ) (xs rest : Bytes) → length xs ≡ n → drop n (xs ++ rest) ≡ rest
drop_eq n xs rest h = rw (← h) (drop_append xs rest)

take_payload_append :
    (e : FrameError) (f : Frame) (rest : Bytes)
    → length f.payload ≡ f.length
    → take_payload e (f.payload ++ rest) (header_frame f.version f.kind f.flags f.reserved f.length)
      ≡ ok (f, rest)
unfolding take_payload header_frame
take_payload_append e f rest h = ground (
  arith,
  take_eq f.length f.payload rest h,
  drop_eq f.length f.payload rest h,
  length-append f.payload rest,
)

check_header-Admits :
    (f : Frame) (max_size : ℕ) → f.version ≡ 1 → Admits max_size f → check_header f max_size ≡ ok f
unfolding check_header
check_header-Admits f max_size v a = ground arith

pub encode-layout : (f : Frame) → IsWellFormed f → encode f ≡ ok (layout f)
unfolding encode
encode-layout f w = ground (arith, w.length_exact, w.length_fits)

open_frame-header :
    (e : FrameError) (f : Frame) (max_size : ℕ) (rest : Bytes)
    → IsWellFormed f
    → Admits max_size f
    → open_frame e max_size
        (header_frame f.version f.kind f.flags f.reserved f.length)
        (f.payload ++ rest)
      ≡ ok (f, rest)
unfolding open_frame
open_frame-header e f max_size rest w a =
    rw
      (check_header-Admits (header_frame f.version f.kind f.flags f.reserved f.length) max_size
        (unfold header_frame in w.version_current) (unfold header_frame in a))
      (take_payload_append e f rest w.length_exact)

-- A reader that starts with an encoded frame gives that frame, and keeps what follows it.
pub read-layout :
    (f : Frame) (max_size : ℕ) (rest : Bytes)
    → IsWellFormed f
    → Admits max_size f
    → read_frame_with_max_size (layout f ++ rest) max_size ≡ ok (f, rest)
unfolding read_frame_with_max_size layout
read-layout f max_size rest w a =
    rw (get_u32-put f.length w.length_fits) (open_frame-header read_payload f max_size rest w a)

pub decode-layout :
    (f : Frame) (max_size : ℕ) (rest : Bytes)
    → IsWellFormed f
    → Admits max_size f
    → decode_frame_with_max_size (layout f ++ rest) max_size ≡ ok f
unfolding decode_frame_with_max_size layout
decode-layout f max_size rest w a =
    rw (get_u32-put f.length w.length_fits, open_frame-header incomplete f max_size rest w a) refl

-- Encode succeeds on a well-formed frame. When its length is within the maximum, or there is none,
-- both decoders give the frame back from its bytes, whatever follows them, and the reader leaves
-- exactly what follows.
pub decode-encode :
    (f : Frame) (max_size : ℕ) (rest : Bytes)
    → IsWellFormed f
    → Admits max_size f
    → (bytes : Bytes) × (encode f ≡ ok bytes)
      × (decode_frame_with_max_size (bytes ++ rest) max_size ≡ ok f)
      × (read_frame_with_max_size (bytes ++ rest) max_size ≡ ok (f, rest))
decode-encode f max_size rest w a = (
  layout f,
  encode-layout f w,
  decode-layout f max_size rest w a,
  read-layout f max_size rest w a,
)

-- What a decoder that accepts found: the version, the maximum and as many bytes as announced.
pub open_frame-ok :
    (e : FrameError) (max_size : ℕ) (h : Frame) (rest left : Bytes) (f : Frame)
    → open_frame e max_size h rest ≡ ok (f, left)
    → (h.version ≡ 1)
      × Admits max_size h
      × (h.length ≤ length rest)
      × (f ≡ record h { payload = take h.length rest })
      × (left ≡ drop h.length rest)
unfolding open_frame check_header take_payload
open_frame-ok e max_size h rest left f eq = ground arith
