-- ===== src/Websocket/Flow/Detection.antt =====
-- CheckBackpressure over a history of observations, the newest first.
use pipeops_k8_agent.Prelude.{
  ℕ, ◌+◌, ◌≤◌, ◌≡◌, refl, ◌↔◌, ◌⊎◌, inl, inr, Bool, true, false, List, [], ◌∷◌, Option, none, some,
  if◌then◌else◌, arith, Option-cases, sym, ◌∙◌,
}
use mathlib.Core.Bool.{false≢true}
use pipeops_k8_agent.Websocket.Flow.{FlowController, update_channel_length, check_backpressure}

-- A channel length and the time at which it is set and checked.
abbrev pub Observation : Type 0
Observation = ℕ × ℕ

-- Times do not go back along the history, and `now` is not before them.
abbrev pub IsOrdered : ℕ → List Observation → Type 0
IsOrdered now [] = Unit {0}
IsOrdered now ((l, t) ∷ h) = (t ≤ now) × IsOrdered t h

module _ (over : ℕ → ℕ → Bool) where
  abbrev pub observe : FlowController → Observation → FlowController × Bool
  observe f (l, now) = check_backpressure over (update_channel_length f l) now

  unfoldable pub run : FlowController → List Observation → FlowController
  run f [] = f
  run f (o ∷ h) = (observe (run f h) o).0

  -- How often the check reported backpressure.
  unfoldable pub reports : FlowController → List Observation → ℕ
  reports f [] = 0
  reports f (o ∷ h) = (if (observe (run f h) o).1 then 1 else 0) + reports f h

  -- Some observation lies at least `window` before `now`, and from it on all are over the threshold.
  abbrev pub OverFor : ℕ → ℕ → ℕ → List Observation → Type 0
  OverFor capacity window now [] = ⊥
  OverFor capacity window now ((l, t) ∷ h) =
      (over l capacity ≡ true) × ((window + t ≤ now) ⊎ OverFor capacity window now h)

  -- The oldest time of the newest stretch over the threshold.
  abbrev first_of_stretch : ℕ → Option ℕ → Option ℕ
  first_of_stretch t none = some t
  first_of_stretch t (some s) = some s

  abbrev since : ℕ → List Observation → Option ℕ
  since capacity [] = none
  since capacity ((l, t) ∷ h) =
      if over l capacity then first_of_stretch t (since capacity h) else none

  run-since :
      (f : FlowController) (h : List Observation)
      → f.last_backpressure ≡ none
      → ((run f h).channel_capacity ≡ f.channel_capacity)
        × ((run f h).window ≡ f.window)
        × ((run f h).last_backpressure ≡ since f.channel_capacity h)
  unfolding run check_backpressure update_channel_length
  run-since f [] e = (refl, refl, e)
  run-since f ((l, t) ∷ h) e = ground (arith, run-since f h e)

  since-le :
      (capacity now s : ℕ) (h : List Observation)
      → IsOrdered now h
      → since capacity h ≡ some s
      → s ≤ now
  since-le capacity now s [] o e = ground arith
  since-le capacity now s ((l, t) ∷ h) o e = ground (arith, since-le capacity t s h o.1)

  IsOrdered-le : (t now : ℕ) (h : List Observation) → t ≤ now → IsOrdered t h → IsOrdered now h
  IsOrdered-le t now [] le o = tt
  IsOrdered-le t now ((l, u) ∷ h) le o = (omega arith, o.1)

  OverFor-none :
      (capacity window now : ℕ) (h : List Observation)
      → since capacity h ≡ none
      → OverFor capacity window now h
      → ⊥
  OverFor-none capacity window now [] e x = x
  OverFor-none capacity window now ((l, t) ∷ h) e x = ground (arith, x.0)

  since-over :
      (capacity l t s : ℕ) (h : List Observation)
      → since capacity ((l, t) ∷ h) ≡ some s
      → (over l capacity ≡ true)
        × ((since capacity h ≡ some s) ⊎ ((since capacity h ≡ none) × (t ≡ s)))
  since-over capacity l t s h e = ground arith

  OverFor-since :
      (capacity window now s : ℕ) (h : List Observation)
      → IsOrdered now h
      → since capacity h ≡ some s
      → OverFor capacity window now h ↔ (window + s ≤ now)
  OverFor-since capacity window now s [] o e = ground arith
  OverFor-since capacity window now s ((l, t) ∷ h) o e =
      let (above, older) = since-over capacity l t s h e in
      elim older [
        | inl e' ↦
            let ih = OverFor-since capacity window now s h (IsOrdered-le t now h o.0 o.1) e' in
            let s≤t = since-le capacity t s h o.1 e' in
            (λ x. elim (x.1) [ inl w ↦ omega arith | inr x' ↦ ih.0 x' ], λ w. (above, inr (ih.1 w)))
        | inr (e', same) ↦ (
          λ x. elim (x.1) [
            | inl w ↦ omega arith
            | inr x' ↦ absurd (OverFor-none capacity window now h e' x')
          ],
          λ w. (above, inl (omega arith)),
        )
      ]

  observe-first :
      (g : FlowController) (l now : ℕ) → g.last_backpressure ≡ none → (observe g (l, now)).1 ≡ false
  unfolding check_backpressure update_channel_length
  observe-first g l now e = ground arith

  observe-since :
      (g : FlowController) (l now s : ℕ)
      → g.last_backpressure ≡ some s
      → s ≤ now
      → ((observe g (l, now)).1 ≡ true)
        ↔ ((over l g.channel_capacity ≡ true) × (g.window + s ≤ now))
  unfolding check_backpressure update_channel_length
  observe-since g l now s e le = ground arith

  -- From a state with no stretch open, such as a new or a reset controller, and with times in
  -- order, an observation reports backpressure exactly when it is over the threshold and some
  -- earlier observation lies at least a window before it, since when every observation was over
  -- the threshold.
  pub observe_iff :
      (f : FlowController) (h : List Observation) (l now : ℕ)
      → f.last_backpressure ≡ none
      → IsOrdered now h
      → ((observe (run f h) (l, now)).1 ≡ true)
        ↔ ((over l f.channel_capacity ≡ true) × OverFor f.channel_capacity f.window now h)
  observe_iff f h l now e o =
      let (cap, win, last) = run-since f h e in
      elim (Option-cases (since f.channel_capacity h)) [
        | inl n ↦ (
          λ x. absurd (false≢true (sym (observe-first (run f h) l now (last ∙ n)) ∙ x)),
          λ x. absurd (OverFor-none f.channel_capacity f.window now h n x.1),
        )
        | inr (s, e') ↦
            let le = since-le f.channel_capacity now s h o e' in
            let here = observe-since (run f h) l now s (last ∙ e') le in
            let there = OverFor-since f.channel_capacity f.window now s h o e' in
            (
              λ x. let (a, b) = here.0 x in (rw (← cap) a, there.1 (rw (← win) b)),
              λ x. here.1 (rw cap (x.0), rw win (there.0 (x.1))),
            )
      ]

  -- The event counter counts the reports.
  events-reports :
      (f : FlowController) (h : List Observation)
      → (run f h).backpressure_events ≡ reports f h + f.backpressure_events
  unfolding run reports check_backpressure update_channel_length
  events-reports f [] = omega arith
  events-reports f ((l, t) ∷ h) = ground (arith, events-reports f h)
