-- ===== src/Controlplane/Streams/Relay.antt =====
-- The frames that a stream relays: relayClientToK8s and relayK8sToClient.
use pipeops_k8_agent.Prelude.{
  ℕ, ◌≡◌, ◌↔◌, ◌%◌, ◌≤◌, Bool, true, ◌&&◌, ◌==◌, leb, Option, none, some, [], ◌∷◌, if◌then◌else◌,
  arith,
}
use pipeops_k8_agent.Prelude.Bytes.{Bytes, IsByte}

-- websocket.TextMessage and BinaryMessage.
abbrev pub text_message : ℕ
text_message = 1

abbrev pub binary_message : ℕ
binary_message = 2

-- What is written to Kubernetes for the data of a message: a type and a frame.
unfoldable pub relay_to_k8s : Bool → Bytes → Option (ℕ × Bytes)
relay_to_k8s is_channel [] = none
relay_to_k8s is_channel (t ∷ frame) =
    if is_channel && t == text_message then some (binary_message, 0 ∷ frame) else some (t, frame)

-- The channels stdin, stdout, stderr and error are taken off.
unfoldable pub from_channel : Bytes → ℕ × Bytes
from_channel [] = (binary_message, [])
from_channel (channel ∷ frame) =
    if leb channel 3 then (text_message, frame) else (binary_message, channel ∷ frame)

abbrev typed : ℕ × Bytes → Bytes
typed (t, frame) = t % 256 ∷ frame

-- The data of the message to the control plane for what is read from Kubernetes.
unfoldable pub relay_to_client : Bool → ℕ → Bytes → Bytes
relay_to_client is_channel t frame =
    typed (if is_channel && t == binary_message then from_channel frame else (t, frame))

-- What the client gets back where Kubernetes echoes what it gets.
abbrev pub echoed : Bool → Option (ℕ × Bytes) → Option Bytes
echoed is_channel none = none
echoed is_channel (some (t, frame)) = some (relay_to_client is_channel t frame)

-- A binary frame that starts with one of the channels 0 to 3, on a stream with channels.
abbrev pub IsOnChannel : Bool → Bytes → Type 0
IsOnChannel is_channel [] = ⊥
IsOnChannel is_channel (t ∷ []) = ⊥
IsOnChannel is_channel (t ∷ c ∷ frame) = (is_channel ≡ true) × (t ≡ binary_message) × (c ≤ 3)

-- The data of a message that is relayed to Kubernetes and echoed there comes back as it was exactly
-- when it is no binary frame that starts with a channel: text is put on stdin and taken off it.
pub relay-echoed :
    (is_channel : Bool) (t : ℕ) (frame : Bytes)
    → IsByte t
    → (echoed is_channel (relay_to_k8s is_channel (t ∷ frame)) ≡ some (t ∷ frame))
      ↔ (¬ (IsOnChannel is_channel (t ∷ frame)))
unfolding relay_to_k8s relay_to_client from_channel
relay-echoed is_channel t [] h = ((λ e o. o), λ o. ground (arith, h))
relay-echoed is_channel t (c ∷ frame) h =
    ((λ e o. ground (arith, h, e, o)), λ o. ground (arith, h, o))
