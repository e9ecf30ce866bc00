-- ===== src/Websocket/Frame/Sound.antt =====
-- What the decoders of internal/websocket/frame.go accept and refuse.
use pipeops_k8_agent.Prelude.{
  ℕ, suc, ◌+◌, ◌≤◌, ◌<◌, ◌≡◌, refl, ap, ◌∙◌, ◌⊎◌, inl, inr, ◌∷◌, ◌++◌, length, take, drop, All,
  arith, length-take, length-take_le, dec_lt, take-append-drop, replicate,
}
use pipeops_k8_agent.Prelude.Bytes.{Bytes, IsByte, u32_mod, get_u32, get_u32-put, put_u32-get}
use pipeops_k8_agent.Websocket.Frame.{
  Frame, ok, err, FrameError, incomplete, insufficient_header, read_payload, unsupported_version,
  layout, encode, encode_into, check_header, header_frame, take_payload, open_frame,
  decode_frame_with_max_size, read_frame_with_max_size, frame_header_size,
}
use pipeops_k8_agent.Websocket.Frame.Codec.{IsWellFormed, Admits, open_frame-ok, encode-layout}

get_u32_bound :
    (a b c d : ℕ) (rest : Bytes) → All IsByte (a ∷ b ∷ c ∷ d ∷ rest) → get_u32 a b c d < u32_mod
get_u32_bound a b c d rest h = omega arith

abbrev Accepted : ℕ → Frame → Bytes → Bytes → Type 0
Accepted max_size f left bytes = IsWellFormed f × Admits max_size f × (layout f ++ left ≡ bytes)

open_frame_sound :
    (e : FrameError) (max_size v t fl r a b c d : ℕ) (rest left : Bytes) (f : Frame)
    → All IsByte (a ∷ b ∷ c ∷ d ∷ rest)
    → open_frame e max_size (header_frame v t fl r (get_u32 a b c d)) rest ≡ ok (f, left)
    → Accepted max_size f left (v ∷ t ∷ fl ∷ r ∷ a ∷ b ∷ c ∷ d ∷ rest)
unfolding layout header_frame
open_frame_sound e max_size v t fl r a b c d rest left f h eq =
    let n = get_u32 a b c d in
    let facts = open_frame-ok e max_size (header_frame v t fl r n) rest left f eq in
    rw (facts.3, facts.4)
      (
        record {
          version_current = facts.0;
          length_fits = get_u32_bound a b c d rest h;
          length_exact = length-take_le n rest facts.2;
        },
        facts.1,
        ap (λ (q : Bytes). v ∷ t ∷ fl ∷ r ∷ q)
            (put_u32-get a b c d (take n rest ++ drop n rest) h.0 h.1.0 h.1.1.0 h.1.1.1.0
              ∙ ap (λ (q : Bytes). a ∷ b ∷ c ∷ d ∷ q) (take-append-drop n rest)),
      )

-- On input bytes, a frame that the reader accepts is well formed and within the maximum, and its
-- encoding followed by what the reader has left is the input.
pub read_sound :
    (bytes : Bytes) (max_size : ℕ) (f : Frame) (left : Bytes)
    → All IsByte bytes
    → read_frame_with_max_size bytes max_size ≡ ok (f, left)
    → IsWellFormed f × Admits max_size f × (encode f ≡ ok (layout f)) × (layout f ++ left ≡ bytes)
unfolding read_frame_with_max_size
read_sound (v ∷ t ∷ fl ∷ r ∷ a ∷ b ∷ c ∷ d ∷ rest) max_size f left h eq =
    let (w, within, same) =
      open_frame_sound read_payload max_size v t fl r a b c d rest left f h.1.1.1.1 eq in
    (w, within, encode-layout f w, same)
read_sound _ max_size f left h eq = cc

open_frame-short :
    (max_size : ℕ) (h : Frame) (rest : Bytes)
    → h.version ≡ 1
    → Admits max_size h
    → length rest < h.length
    → open_frame incomplete max_size h rest ≡ err incomplete
unfolding open_frame check_header take_payload
open_frame-short max_size h rest v a short = ground arith

-- For a well-formed frame within the maximum, DecodeFrameWithMaxSize refuses every strict prefix
-- of the encoding: as an insufficient header below eight bytes, and as an incomplete frame from
-- there on.
pub decode_truncated :
    (f : Frame) (max_size k : ℕ)
    → IsWellFormed f
    → Admits max_size f
    → k < length (layout f)
    → ((k < 8)
        × (decode_frame_with_max_size (take k (layout f)) max_size ≡ err insufficient_header))
      ⊎ ((8 ≤ k) × (decode_frame_with_max_size (take k (layout f)) max_size ≡ err incomplete))
unfolding decode_frame_with_max_size layout header_frame
decode_truncated f max_size (suc (suc (suc (suc (suc (suc (suc (suc j)))))))) w a h = inr (
  omega arith,
  rw (get_u32-put f.length w.length_fits) (
      rw
        (open_frame-short max_size (header_frame f.version f.kind f.flags f.reserved f.length)
          (take j f.payload) w.version_current a (omega (arith, length-take j f.payload)))
        refl),
)
decode_truncated f max_size _ w a h = inl (omega arith, refl)

eight_more : (n : ℕ) → 8 + n ≡ suc (suc (suc (suc (suc (suc (suc (suc n)))))))
eight_more n = omega arith

zeros_refused :
    (n max_size : ℕ)
    → decode_frame_with_max_size (replicate (8 + n) 0) max_size ≡ err unsupported_version
unfolding decode_frame_with_max_size open_frame check_header header_frame
zeros_refused n max_size = rw (eight_more n) refl

-- On a well-formed frame EncodeWithPool agrees with Encode where the buffer that it got is large
-- enough. Where the buffer is too small it returns bytes without an error that
-- DecodeFrameWithMaxSize refuses, whatever the maximum, for their version.
pub encode_into_capacity :
    (f : Frame) (capacity max_size : ℕ)
    → IsWellFormed f
    → ((frame_header_size + length f.payload ≤ capacity) × (encode_into capacity f ≡ encode f))
      ⊎ ((capacity < frame_header_size + length f.payload)
          × (bytes : Bytes) × (encode_into capacity f ≡ ok bytes)
          × (decode_frame_with_max_size bytes max_size ≡ err unsupported_version))
unfolding encode_into encode
encode_into_capacity f capacity max_size w =
    elim (dec_lt capacity (frame_header_size + length f.payload)) [
      | yes small ↦ inr (
        small,
        replicate (frame_header_size + length f.payload) 0,
        ground (arith, w.length_exact, w.length_fits),
        zeros_refused (length f.payload) max_size,
      )
      | no fits ↦ inl (omega arith, ground arith)
    ]
