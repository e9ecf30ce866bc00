-- ===== src/Websocket/Frame.antt =====
-- internal/websocket/frame.go and the size classes of pool.go. Frames are records of numbers below
-- their widths; a reader is the bytes that it still has to give.
pub mod Codec
pub mod Sound
pub mod Flags
use pipeops_k8_agent.Prelude.{
  ℕ, ◌+◌, ◌%◌, Bool, ◌&&◌, ◌||◌, not, ◌==◌, ltb, leb, [], ◌∷◌, length, take, drop, replicate,
  if◌then◌else◌,
}
use pipeops_k8_agent.Prelude.Bytes.{Bytes, u32_mod, put_u32, get_u32}
use Prim.Native.Nat.{bit_and, bit_or, bit_xor}

abbrev pub frame_header_size : ℕ
frame_header_size = 8

abbrev pub current_protocol_version : ℕ
current_protocol_version = 1

abbrev pub frame_type_data : ℕ
frame_type_data = 0x01

abbrev pub frame_type_ping : ℕ
frame_type_ping = 0x02

abbrev pub frame_type_pong : ℕ
frame_type_pong = 0x03

abbrev pub frame_type_close : ℕ
frame_type_close = 0x04

abbrev pub frame_type_error : ℕ
frame_type_error = 0x05

abbrev pub frame_type_control : ℕ
frame_type_control = 0x06

pub record Frame : Type 0 where
  pub version : ℕ
  pub kind : ℕ
  pub flags : ℕ
  pub reserved : ℕ
  pub length : ℕ
  pub payload : Bytes

-- The errors of the codec, by the message that the source gives.
pub data FrameError : Type 0 where
  length_mismatch insufficient_header unsupported_version exceeds_maximum incomplete : FrameError
  read_header read_payload : FrameError

pub data Result {ℓ} (A : Type ℓ) : Type ℓ where
  ok : A → Result A
  err : FrameError → Result A

-- uint32(len(payload))
abbrev pub payload_length : Bytes → ℕ
payload_length payload = length payload % u32_mod

unfoldable pub new_control_frame : ℕ → Bytes → Frame
new_control_frame frame_type payload = record {
  version = current_protocol_version;
  kind = frame_type;
  flags = 0;
  reserved = 0;
  length = payload_length payload;
  payload = payload;
}

unfoldable pub new_data_frame : Bytes → Frame
unfolding new_control_frame
new_data_frame payload = record {
  version = current_protocol_version;
  kind = frame_type_data;
  flags = 0;
  reserved = 0;
  length = payload_length payload;
  payload = payload;
}

unfoldable pub new_error_frame : Bytes → Frame
new_error_frame reason = record {
  version = current_protocol_version;
  kind = frame_type_error;
  flags = 0;
  reserved = 0;
  length = payload_length reason;
  payload = reason;
}

-- The bytes that Encode lays out once its check has passed.
unfoldable pub layout : Frame → Bytes
layout f = f.version ∷ f.kind ∷ f.flags ∷ f.reserved ∷ put_u32 f.length f.payload

unfoldable pub encode : Frame → Result Bytes
unfolding layout
encode f = if f.length == payload_length f.payload then ok (layout f) else err length_mismatch

-- The class of GetBuffer's switch: the capacity with which a new buffer of that pool is made.
unfoldable pub get_buffer : ℕ → ℕ
get_buffer size = if leb size 4096 then 4096 else if leb size 65536 then 65536 else 1048576

-- `capacity` is that of the buffer that GetBuffer gave. A buffer that is too small is put back,
-- and the new one, of zeros, is returned as it is.
unfoldable pub encode_into : ℕ → Frame → Result Bytes
unfolding layout
encode_into capacity f =
    if f.length == payload_length f.payload
    then if ltb capacity (frame_header_size + length f.payload)
      then ok (replicate (frame_header_size + length f.payload) 0)
      else ok (layout f)
    else err length_mismatch

-- EncodeWithPool, where the pools hold buffers of their own class.
unfoldable pub encode_with_pool : Frame → Result Bytes
unfolding encode_into get_buffer
encode_with_pool f = encode_into (get_buffer (frame_header_size + length f.payload)) f

-- The checks on version and maximum, common to the two decoders.
unfoldable pub check_header : Frame → ℕ → Result Frame
check_header f max_size =
    if not (f.version == current_protocol_version)
    then err unsupported_version
    else if ltb 0 max_size && ltb max_size f.length
    then err exceeds_maximum
    else ok f

unfoldable pub header_frame : ℕ → ℕ → ℕ → ℕ → ℕ → Frame
header_frame v t fl r n = record {
  version = v;
  kind = t;
  flags = fl;
  reserved = r;
  length = n;
  payload = [];
}

-- The payload, once the header is accepted.
unfoldable pub take_payload : FrameError → Bytes → Frame → Result (Frame × Bytes)
take_payload e rest f =
    if ltb (length rest) f.length
    then err e
    else ok (record f { payload = take f.length rest }, drop f.length rest)

abbrev pub bind {ℓ κ} : {A : Type ℓ} {B : Type κ} → Result A → (A → Result B) → Result B
bind (ok a) f = f a
bind (err e) f = err e

-- What follows the eight bytes of the header: its checks, then the payload.
unfoldable pub open_frame : FrameError → ℕ → Frame → Bytes → Result (Frame × Bytes)
open_frame e max_size f rest = bind (check_header f max_size) (take_payload e rest)

unfoldable pub decode_frame_with_max_size : Bytes → ℕ → Result Frame
decode_frame_with_max_size (v ∷ t ∷ fl ∷ r ∷ a ∷ b ∷ c ∷ d ∷ rest) max_size =
    bind (open_frame incomplete max_size (header_frame v t fl r (get_u32 a b c d)) rest) λ p. ok p.0
decode_frame_with_max_size _ max_size = err insufficient_header

unfoldable pub decode_frame : Bytes → Result Frame
unfolding decode_frame_with_max_size
decode_frame bytes = decode_frame_with_max_size bytes 0

-- ReadFrameWithMaxSize returns what the reader has left beside the frame.
unfoldable pub read_frame_with_max_size : Bytes → ℕ → Result (Frame × Bytes)
read_frame_with_max_size (v ∷ t ∷ fl ∷ r ∷ a ∷ b ∷ c ∷ d ∷ rest) max_size =
    open_frame read_payload max_size (header_frame v t fl r (get_u32 a b c d)) rest
read_frame_with_max_size _ max_size = err read_header

unfoldable pub read_frame : Bytes → Result (Frame × Bytes)
unfolding read_frame_with_max_size
read_frame reader = read_frame_with_max_size reader 0

unfoldable pub is_control : Frame → Bool
is_control f =
    f.kind == frame_type_ping
    || f.kind == frame_type_pong
    || f.kind == frame_type_close
    || f.kind == frame_type_error
    || f.kind == frame_type_control

unfoldable pub is_data : Frame → Bool
is_data f = f.kind == frame_type_data

unfoldable pub has_flag : Frame → ℕ → Bool
has_flag f flag = not (bit_and f.flags flag == 0)

unfoldable pub set_flag : Frame → ℕ → Frame
set_flag f flag = record f { flags = bit_or f.flags flag }

-- `x &^ y` clears in x the bits of y: x ^ (x & y).
unfoldable pub clear_flag : Frame → ℕ → Frame
clear_flag f flag = record f { flags = bit_xor f.flags (bit_and f.flags flag) }
