-- ===== src/Controlplane/Response.antt =====
-- The headers, the compression and the messages of a proxied response, of
-- internal/controlplane/websocket_client.go and compression.go. The keys of headers are ASCII, a
-- nil map is `none`, an error is its text. The encoders of Go's library are parameters.
pub mod Writer
pub mod Buffered
pub mod Streaming
pub mod Dispatch
pub mod Received
pub mod Answer
pub mod Streamed
use pipeops_k8_agent.Prelude.{
  ℕ, Bool, true, false, not, ◌&&◌, ◌||◌, ◌==◌, ltb, Option, none, some, List, [], ◌∷◌,
  if◌then◌else◌,
}
use pipeops_k8_agent.Prelude.Bytes.{Bytes, bytes_eq, codes}
use pipeops_k8_agent.Prelude.Text.{has_infix, to_lower}
use pipeops_k8_agent.Prelude.Map.{Map}

abbrev pub Header : Type 0
Header = Map Bytes (List Bytes)

-- A key without values is left out.
unfoldable pub clone_entries : Header → Header
clone_entries [] = []
clone_entries ((k, []) ∷ h) = clone_entries h
clone_entries ((k, v ∷ vs) ∷ h) = (k, v ∷ vs) ∷ clone_entries h

unfoldable pub clone_header_map : Option Header → Option Header
clone_header_map none = none
clone_header_map (some h) = some (clone_entries h)

abbrev pub is_any : Bytes → List Bytes → Bool
is_any s [] = false
is_any s (t ∷ ts) = bytes_eq s t || is_any s ts

abbrev pub upgrade_headers : List Bytes
upgrade_headers = codes "connection" ∷ codes "upgrade" ∷ []

abbrev pub hop_by_hop_headers : List Bytes
hop_by_hop_headers =
    codes "transfer-encoding"
    ∷ codes "keep-alive"
    ∷ codes "proxy-authenticate"
    ∷ codes "proxy-authorization"
    ∷ codes "te"
    ∷ codes "trailers"
    ∷ []

-- The switch over the key in lower case: true is `continue`.
unfoldable pub is_dropped : Bool → Bytes → Bool
is_dropped is_upgrade lower =
    if is_any lower upgrade_headers then not is_upgrade else is_any lower hop_by_hop_headers

unfoldable pub sanitize_entries : Bool → Header → Header
sanitize_entries is_upgrade [] = []
sanitize_entries is_upgrade ((k, vs) ∷ h) =
    let rest = sanitize_entries is_upgrade h in
    if is_dropped is_upgrade (to_lower k) then rest else (k, vs) ∷ rest

unfoldable pub sanitize_headers_for_status : Option Header → ℕ → Option Header
sanitize_headers_for_status none status = none
sanitize_headers_for_status (some []) status = none
sanitize_headers_for_status (some (kv ∷ h)) status =
    some (sanitize_entries (status == 101) (kv ∷ h))

abbrev pub contains_any : Bytes → List Bytes → Bool
contains_any s [] = false
contains_any s (t ∷ ts) = has_infix s t || contains_any s ts

unfoldable pub should_compress : Bytes → ℕ → Bool
should_compress content_type body_size =
    if ltb body_size 1024
    then false
    else if contains_any content_type (
        codes "gzip"
        ∷ codes "compress"
        ∷ codes "zip"
        ∷ codes "image/"
        ∷ codes "video/"
        ∷ codes "audio/"
        ∷ [])
    then false
    else contains_any content_type (
        codes "text/"
        ∷ codes "json"
        ∷ codes "javascript"
        ∷ codes "xml"
        ∷ codes "html"
        ∷ codes "yaml"
        ∷ [])

-- base64.StdEncoding.EncodeToString, and the gzip writer of compressData, `none` on an error.
pub record Encoders : Type 0 where
  pub base64 : Bytes → Bytes
  pub gzip : Bytes → Option Bytes

pub record ProxyResponse : Type 0 where
  pub request_id : Bytes
  pub status : ℕ
  pub headers : Option Header
  pub body : Bytes
  pub encoding : Bytes

-- The calls of a proxyResponseSender.
pub data SenderCall : Type 0 where
  send_proxy_response : ProxyResponse → SenderCall
  send_proxy_response_binary : ProxyResponse → Bytes → SenderCall
  send_proxy_error : Bytes → Bytes → SenderCall
  send_proxy_response_header : Bytes → ℕ → Option Header → SenderCall
  send_proxy_response_chunk : Bytes → Bytes → SenderCall
  send_proxy_response_end : Bytes → SenderCall
  send_proxy_response_abort : Bytes → Bytes → SenderCall

-- What the sender returns for the last of the calls that it has had; `none` is nil.
abbrev pub Sender : Type 0
Sender = List SenderCall → Option Bytes
