-- ===== src/Websocket/Flow/Sustained.antt =====
-- The flag that IsBackpressured reads, against the reports of CheckBackpressure.
use pipeops_k8_agent.Prelude.{
  ℕ, ◌+◌, ◌≤◌, ◌≡◌, Bool, true, false, [], ◌∷◌, List, some, none, arith, Bool-cases, Option-cases,
  inl, inr,
}
use pipeops_k8_agent.Websocket.Flow.{
  FlowController, update_channel_length, check_backpressure, is_backpressured,
}
use pipeops_k8_agent.Websocket.Flow.Detection.{Observation, observe, run, IsOrdered}

module _ (over : ℕ → ℕ → Bool) where
  -- While the flag is set, the stretch over the threshold has lasted for the window.
  abbrev IsLasting : ℕ → FlowController → Type 0
  IsLasting now f =
      f.sustained_backpressure ≡ true
      → (s : ℕ) × (f.last_backpressure ≡ some s) × (f.window + s ≤ now)

  IsLasting-le : (t now : ℕ) (f : FlowController) → t ≤ now → IsLasting t f → IsLasting now f
  IsLasting-le t now f le k e = let (s, a, b) = k e in (s, a, omega arith)

  -- No time lies ahead of the clock.
  abbrev IsPast : ℕ → FlowController → Type 0
  IsPast now f = (s : ℕ) → f.last_backpressure ≡ some s → s ≤ now

  observe-IsPast :
      (f : FlowController) (l now : ℕ) → IsPast now f → IsPast now (observe over f (l, now)).0
  unfolding check_backpressure update_channel_length
  observe-IsPast f l now p s e = ground (arith, p s)

  observe-IsLasting :
      (f : FlowController) (l now : ℕ)
      → IsPast now f
      → IsLasting now f
      → IsLasting now (observe over f (l, now)).0
  unfolding check_backpressure update_channel_length
  observe-IsLasting f l now p k e = elim (Option-cases f.last_backpressure) [
    | inl n ↦ absurd (ground arith)
    | inr (s, e') ↦ elim (Bool-cases f.sustained_backpressure) [
      | inl on ↦ let (r, a, b) = k on in (s, ground arith, ground arith)
      | inr off ↦ (s, ground (arith, p s e'), ground (arith, p s e'))
    ]
  ]

  observe-flag :
      (f : FlowController) (l now : ℕ)
      → IsLasting now f
      → is_backpressured (observe over f (l, now)).0 ≡ (observe over f (l, now)).1
  unfolding check_backpressure update_channel_length is_backpressured
  observe-flag f l now k = elim (Bool-cases f.sustained_backpressure) [
    | inl on ↦ let (s, a, b) = k on in ground arith
    | inr off ↦ ground arith
  ]

  run-IsPast :
      (f : FlowController) (h : List Observation) (now : ℕ)
      → f.last_backpressure ≡ none
      → IsOrdered now h
      → IsPast now (run over f h)
  unfolding run
  run-IsPast f [] now e o s e' = ground arith
  run-IsPast f ((l, t) ∷ h) now e o s e' =
      omega (arith, observe-IsPast (run over f h) l t (run-IsPast f h t e o.1) s e')

  run-IsLasting :
      (f : FlowController) (h : List Observation) (now : ℕ)
      → f.last_backpressure ≡ none
      → f.sustained_backpressure ≡ false
      → IsOrdered now h
      → IsLasting now (run over f h)
  unfolding run
  run-IsLasting f [] now e off o = λ on. ground arith
  run-IsLasting f ((l, t) ∷ h) now e off o = IsLasting-le t now (run over f ((l, t) ∷ h)) o.0 (
      observe-IsLasting (run over f h) l t (run-IsPast f h t e o.1) (run-IsLasting f h t e off o.1))

  -- From a state with no stretch open and no backpressure, and with times in order, after any
  -- history IsBackpressured answers what the last check reported.
  is_backpressured-observe :
      (f : FlowController) (h : List Observation) (l now : ℕ)
      → f.last_backpressure ≡ none
      → f.sustained_backpressure ≡ false
      → IsOrdered now h
      → is_backpressured (run over f ((l, now) ∷ h)) ≡ (observe over (run over f h) (l, now)).1
  unfolding run
  is_backpressured-observe f h l now e off o =
      observe-flag (run over f h) l now (run-IsLasting f h now e off o)
