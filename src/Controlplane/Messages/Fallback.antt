-- ===== src/Controlplane/Messages/Fallback.antt =====
-- The protocol_fallback messages that messages of unknown types lead to.
use pipeops_k8_agent.Prelude.{
  ℕ, ◌+◌, ◌≡◌, ◌≢◌, refl, sym, ap, ◌∙◌, ◌⊎◌, inl, inr, some, List, [], ◌∷◌, arith, ◌==◌,
  if◌then◌else◌, ite, subst,
}
use pipeops_k8_agent.Prelude.Bytes.{Bytes, Bytes-discrete}
use pipeops_k8_agent.Prelude.Map
use pipeops_k8_agent.Prelude.Map.{lookup-insert_self, lookup-insert_ne}
use pipeops_k8_agent.Controlplane.Messages.{
  WebSocketMessage, MessageType, message_type, unknown_type,
}
use pipeops_k8_agent.Controlplane.Messages.Handle.{Environment, Client, new_client}
use pipeops_k8_agent.Controlplane.Messages.Switch.{
  seen, handle_unknown_message_type, handle_case, handle_message, handle_messages,
}
use pipeops_k8_agent.Controlplane.Messages.Quiet.{fallbacks, is_unknown, Quiet, case-Quiet}

-- One for a message of this type, if the switch has no case for it.
abbrev pub is_unknown_message : Bytes → WebSocketMessage → ℕ
is_unknown_message k msg = ite (Bytes-discrete msg.kind k) (is_unknown (message_type msg.kind)) 0

abbrev pub unknown_messages : Bytes → List (Environment × WebSocketMessage) → ℕ
unknown_messages k [] = 0
unknown_messages k ((env, msg) ∷ rest) = is_unknown_message k msg + unknown_messages k rest

abbrev pub at_most_one : ℕ → ℕ
at_most_one n = if n == 0 then 0 else 1

module _ (k : Bytes) where
  -- A type is counted, and its first message has led to a fallback.
  IsCounted : Client → ℕ → Type 0
  IsCounted c n = (seen c k ≡ n) × (fallbacks k c.actions ≡ at_most_one n)

  unknown_self :
      (c : Client) (msg : WebSocketMessage) (n : ℕ)
      → msg.kind ≡ k
      → IsCounted c n
      → IsCounted (handle_unknown_message_type c msg) (n + 1)
  unfolding IsCounted handle_unknown_message_type
  unknown_self c msg n e (s, f) =
      let s' : seen c msg.kind ≡ n = ap (seen c) e ∙ s in
      let v = seen c msg.kind + 1 in
      let l : Map.lookup Bytes-discrete k
            (Map.insert Bytes-discrete msg.kind v c.unknown_message_types)
          ≡ some v =
        ap
          (λ j.
            Map.lookup Bytes-discrete j
              (Map.insert Bytes-discrete msg.kind v c.unknown_message_types))
          (sym e)
        ∙ lookup-insert_self Bytes-discrete msg.kind v c.unknown_message_types in
      (ground (arith, s', l), ground (arith, s', f, e))

  unknown_ne :
      (c : Client) (msg : WebSocketMessage) (n : ℕ)
      → msg.kind ≢ k
      → IsCounted c n
      → IsCounted (handle_unknown_message_type c msg) n
  unfolding IsCounted handle_unknown_message_type
  unknown_ne c msg n e (s, f) =
      let l =
        lookup-insert_ne Bytes-discrete msg.kind k (seen c msg.kind + 1) c.unknown_message_types
          (λ h. e (sym h)) in
      (ground (arith, s, l), ground (arith, f, e))

  unknown-cases : (t : MessageType) → (is_unknown t ≡ 0) ⊎ (t ≡ unknown_type)
  unknown-cases unknown_type = inr refl
  unknown-cases _ = inl refl

  Quiet-IsCounted : (c c' : Client) (n : ℕ) → IsCounted c n → Quiet k c c' → IsCounted c' n
  unfolding IsCounted Quiet
  Quiet-IsCounted c c' n (s, f) (s', f') = (s' ∙ s, f' ∙ f)

  case-IsCounted :
      (env : Environment) (c : Client) (msg : WebSocketMessage) (t : MessageType) (n : ℕ)
      → IsCounted c n
      → IsCounted (handle_case env c msg t) (ite (Bytes-discrete msg.kind k) (is_unknown t) 0 + n)
  unfolding handle_case
  case-IsCounted env c msg t n h = elim (unknown-cases t) [
    | inl e ↦
        let same : ite (Bytes-discrete msg.kind k) (is_unknown t) 0 + n ≡ n = ground (arith, e) in
        rw same (Quiet-IsCounted c (handle_case env c msg t) n h (case-Quiet k env c msg t e))
    | inr e ↦ rw e (elim (Bytes-discrete msg.kind k) [
      | yes p ↦
          subst (IsCounted (handle_unknown_message_type c msg)) (ground (arith, p))
            (unknown_self c msg n p h)
      | no p ↦
          subst (IsCounted (handle_unknown_message_type c msg)) (ground (arith, p))
            (unknown_ne c msg n p h)
    ])
  ]

  message-IsCounted :
      (env : Environment) (c : Client) (msg : WebSocketMessage) (n : ℕ)
      → IsCounted c n
      → IsCounted (handle_message env c msg) (is_unknown_message k msg + n)
  unfolding handle_message
  message-IsCounted env c msg n h = case-IsCounted env c msg (message_type msg.kind) n h

  messages-IsCounted :
      (c : Client) (ms : List (Environment × WebSocketMessage)) (n : ℕ)
      → IsCounted c n
      → IsCounted (handle_messages c ms) (unknown_messages k ms + n)
  unfolding handle_messages
  messages-IsCounted c [] n h = subst (IsCounted c) (omega arith) h
  messages-IsCounted c ((env, msg) ∷ ms) n h = subst (IsCounted _) (omega arith) (
      messages-IsCounted (handle_message env c msg) ms (is_unknown_message k msg + n)
        (message-IsCounted env c msg n h))

-- After any messages to a new client, one protocol_fallback message was sent for each type that
-- the switch has no case for and that was received once or more, and none for any other type.
pub handle_messages-fallbacks :
    (k : Bytes) (ms : List (Environment × WebSocketMessage))
    → fallbacks k (handle_messages new_client ms).actions ≡ at_most_one (unknown_messages k ms)
handle_messages-fallbacks k ms =
    unfold IsCounted in
    (messages-IsCounted k new_client ms 0
      (unfold new_client in unfold Map.lookup in (refl, refl))).1
    ∙ ap at_most_one (omega arith)
