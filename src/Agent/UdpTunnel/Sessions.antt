-- ===== src/Agent/UdpTunnel/Sessions.antt =====
-- The client sessions of a UDP tunnel: each stands under its own address.
use pipeops_k8_agent.Prelude.{
  ◌⊎◌, ◌∙◌, ap, ltb, if_pos, if_neg, inl, inr, Option-cases, Bool-cases, ℕ, ◌-◌, ◌≤◌, ◌≡◌, refl,
  sym, Option, some, List, [], ◌∷◌, ◌++◌, arith,
}
use pipeops_k8_agent.Prelude.Bytes.{Bytes}
use pipeops_k8_agent.Prelude.Map
use pipeops_k8_agent.Prelude.Map.{Map}
use pipeops_k8_agent.Agent.UdpSessions.{
  UdpTunnel, UdpSession, SessionKey, SessionKey-discrete, update_session, live_sessions,
}
use pipeops_k8_agent.Agent.UdpTunnel.{Message, responses}

abbrev pub Keyed : Map SessionKey UdpSession → Type 0
Keyed [] = Unit
Keyed ((k, s) ∷ m) = ((s.client_addr, s.client_port) ≡ k) × Keyed m

abbrev pub AllKeyed : Map Bytes UdpTunnel → Type 0
AllKeyed [] = Unit
AllKeyed ((id, t) ∷ m) = Keyed t.sessions × AllKeyed m

abbrev pub session : UdpTunnel → SessionKey → Option UdpSession
session t k = Map.lookup SessionKey-discrete k t.sessions

abbrev pub InSent : Message → List Message → Type 0
InSent x [] = ⊥
InSent x (y ∷ ys) = (x ≡ y) ⊎ InSent x ys

pub insert-Keyed :
    (k : SessionKey) (s : UdpSession) (m : Map SessionKey UdpSession)
    → (s.client_addr, s.client_port) ≡ k
    → Keyed m
    → Keyed (Map.insert SessionKey-discrete k s m)
unfolding Map.insert
insert-Keyed k s [] e h = (e, tt)
insert-Keyed k s ((j, u) ∷ m) e h = elim (SessionKey-discrete j k) [
  | yes p ↦ rw (if_pos _ p) (e ∙ sym p, h.1)
  | no p ↦ rw (if_neg _ p) (h.0, insert-Keyed k s m e h.1)
]

pub lookup-Keyed :
    (k : SessionKey) (s : UdpSession) (m : Map SessionKey UdpSession)
    → Map.lookup SessionKey-discrete k m ≡ some s
    → Keyed m
    → (s.client_addr, s.client_port) ≡ k
unfolding Map.lookup
lookup-Keyed k s [] e h = cc
lookup-Keyed k s ((j, u) ∷ m) e h = elim (SessionKey-discrete j k) [
  | yes p ↦ let same : u ≡ s = ground (arith, e, p) in rw (← same) (h.0 ∙ p)
  | no p ↦ lookup-Keyed k s m (ground (arith, e, p)) h.1
]

pub update_session-Keyed :
    (t : UdpTunnel) (addr : Bytes) (port now : ℕ)
    → Keyed t.sessions
    → Keyed (update_session t addr port now).sessions
unfolding update_session
update_session-Keyed t addr port now h = elim (Option-cases (session t (addr, port))) [
  | inl e ↦ rw e (insert-Keyed (addr, port) _ t.sessions refl h)
  | inr (s, e) ↦
      rw e (insert-Keyed (addr, port) _ t.sessions (lookup-Keyed (addr, port) s t.sessions e h) h)
]

pub update_session-session :
    (t : UdpTunnel) (addr : Bytes) (port now : ℕ)
    → (s : UdpSession) × (session (update_session t addr port now) (addr, port) ≡ some s)
      × (s.last_activity ≡ now)
unfolding update_session
update_session-session t addr port now = elim (Option-cases (session t (addr, port))) [
  | inl e ↦ rw e (_, Map.lookup-insert_self SessionKey-discrete (addr, port) _ t.sessions, refl)
  | inr (s, e) ↦
      rw e (_, Map.lookup-insert_self SessionKey-discrete (addr, port) _ t.sessions, refl)
]

pub live-Keyed :
    (timeout now : ℕ) (m : Map SessionKey UdpSession)
    → Keyed m
    → Keyed (live_sessions timeout now m)
unfolding live_sessions
live-Keyed timeout now [] h = tt
live-Keyed timeout now ((k, s) ∷ m) h = elim (Bool-cases (ltb timeout (now - s.last_activity))) [
  | inl e ↦ rw e (live-Keyed timeout now m h.1)
  | inr e ↦ rw e (h.0, live-Keyed timeout now m h.1)
]

pub lookup-live :
    (timeout now : ℕ) (k : SessionKey) (s : UdpSession) (m : Map SessionKey UdpSession)
    → Map.lookup SessionKey-discrete k m ≡ some s
    → now - s.last_activity ≤ timeout
    → Map.lookup SessionKey-discrete k (live_sessions timeout now m) ≡ some s
unfolding Map.lookup live_sessions
lookup-live timeout now k s [] e h = cc
lookup-live timeout now k s ((j, u) ∷ m) e h = ground (arith, lookup-live timeout now k s m)

pub responses-InSent :
    (id : Bytes) (k : SessionKey) (s : UdpSession) (m : Map SessionKey UdpSession)
    (sent : List Message)
    → Map.lookup SessionKey-discrete k m ≡ some s
    → Keyed m
    → InSent (id, k.0, k.1) (responses id m ++ sent)
unfolding Map.lookup responses
responses-InSent id k s [] sent e h = cc
responses-InSent id k s ((j, u) ∷ m) sent e h = elim (SessionKey-discrete j k) [
  | yes p ↦ inl (ap (λ (q : SessionKey). (id, q.0, q.1)) (sym p ∙ sym h.0))
  | no p ↦ inr (responses-InSent id k s m sent (ground arith) h.1)
]
