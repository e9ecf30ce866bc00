-- ===== src/Controlplane/Reconnect/Backoff.antt =====
-- How long the reconnect loop waits, and when it ends.
use Prim.Native.Nat.{min}
use native.Mathlib.Nat.{pow-suc}
use pipeops_k8_agent.Prelude.{
  Option, none, some, ℕ, suc, ◌+◌, ◌*◌, ◌^◌, ◌≤◌, ◌≡◌, refl, ◌≢◌, List, [], ◌∷◌, ◌++◌, All, arith,
  sym, ap, ◌∙◌,
}
use pipeops_k8_agent.Controlplane.Reconnect.{
  Outcome, cancelled, connected, unauthorized, failed, LoopEnd, ended_cancelled, ended_connected,
  ended_unauthorized, pending, next_delay, reconnect_loop, Round, waited, round_wait, after_round,
}

abbrev pub how_ended : Outcome → LoopEnd
how_ended cancelled = ended_cancelled
how_ended connected = ended_connected
how_ended unauthorized = ended_unauthorized
how_ended failed = pending

abbrev pub HasFailed : Round → Type 0
HasFailed r = r.outcome ≡ failed

-- A wait, or the time after which it was cut short, if that is less.
abbrev pub shortened : ℕ → Option ℕ → ℕ
shortened wait none = wait
shortened wait (some t) = min t wait

waited-shortened : (wait : ℕ) (o : Option ℕ) → waited wait o ≡ shortened wait o
waited-shortened wait none = refl
waited-shortened wait (some t) = ground arith

-- The waits of rounds `n`, `n + 1` and so on: the first delay doubled once for each failure, or the
-- maximum if that is less, and the round's jitter; or the time after which it was cut short.
abbrev pub backoff_waits : ℕ → ℕ → ℕ → List Round → List ℕ
backoff_waits max_delay delay n [] = []
backoff_waits max_delay delay n (r ∷ rs) =
    shortened (min (delay * 2 ^ n) max_delay + r.jitter) r.woken
    ∷ backoff_waits max_delay delay (suc n) rs

next_delay-min : (max_delay a : ℕ) → next_delay max_delay (min a max_delay) ≡ min (a * 2) max_delay
unfolding next_delay
next_delay-min max_delay a = ground arith

power_step : (delay n : ℕ) → delay * 2 ^ n * 2 ≡ delay * 2 ^ suc n
power_step delay n = grind (arith, pow-suc 2 n)

after_round-end :
    (wait : ℕ) (later : List ℕ × LoopEnd) (o : Outcome)
    → o ≢ failed
    → after_round wait later o ≡ (wait ∷ [], how_ended o)
after_round-end wait later cancelled h = refl
after_round-end wait later connected h = refl
after_round-end wait later unauthorized h = refl
after_round-end wait later failed h = absurd (h refl)

loop_from :
    (max_delay delay n : ℕ) (rs : List Round) (r : Round) (rest : List Round)
    → All HasFailed rs
    → r.outcome ≢ failed
    → reconnect_loop max_delay (min (delay * 2 ^ n) max_delay) (rs ++ r ∷ rest)
      ≡ (backoff_waits max_delay delay n (rs ++ r ∷ []), how_ended r.outcome)
unfolding reconnect_loop
loop_from max_delay delay n [] r rest f h =
    after_round-end _ _ r.outcome h
    ∙ ap (λ t. (t ∷ [], how_ended r.outcome))
        (waited-shortened (min (delay * 2 ^ n) max_delay + r.jitter) r.woken)
loop_from max_delay delay n (i ∷ rs) r rest f h =
    rw
      (
        f.0,
        waited-shortened (min (delay * 2 ^ n) max_delay + i.jitter) i.woken,
        next_delay-min max_delay (delay * 2 ^ n),
        power_step delay n,
        loop_from max_delay delay (suc n) rs r rest f.1 h,
      )
      refl

-- From a first delay within the maximum, the loop goes on through any number of failed rounds and
-- ends at the first round with another outcome, for its reason. The delays double from the first
-- one up to the maximum; the wait of a round is its delay with its jitter, or it is cut short by
-- a signal or by the end of the context, which does not change the delays of later rounds.
pub reconnect_loop_lem :
    (max_delay delay : ℕ) (rs : List Round) (r : Round) (rest : List Round)
    → delay ≤ max_delay
    → All HasFailed rs
    → r.outcome ≢ failed
    → reconnect_loop max_delay delay (rs ++ r ∷ rest)
      ≡ (backoff_waits max_delay delay 0 (rs ++ r ∷ []), how_ended r.outcome)
reconnect_loop_lem max_delay delay rs r rest le f h =
    let start : min (delay * 2 ^ 0) max_delay ≡ delay = omega arith in
    ap (λ d. reconnect_loop max_delay d (rs ++ r ∷ rest)) (sym start)
    ∙ loop_from max_delay delay 0 rs r rest f h

-- A wait of at most five quarters of the maximum.
abbrev pub IsWait : ℕ → ℕ → Type 0
IsWait max_delay wait = 4 * wait ≤ 5 * max_delay

-- The jitter of each round is at most a quarter of that round's delay.
abbrev pub HasJitters : ℕ → ℕ → List Round → Type 0
HasJitters max_delay delay [] = Unit {0}
HasJitters max_delay delay (r ∷ rounds) =
    (4 * r.jitter ≤ delay) × HasJitters max_delay (next_delay max_delay delay) rounds

next_delay-le : (max_delay delay : ℕ) → next_delay max_delay delay ≤ max_delay
unfolding next_delay
next_delay-le max_delay delay = ground arith

waited-le : (wait : ℕ) (o : Option ℕ) → waited wait o ≤ wait
waited-le wait none = omega arith
waited-le wait (some t) = ground arith

after_round-All :
    (P : ℕ → Type 0) (wait : ℕ) (later : List ℕ × LoopEnd) (o : Outcome)
    → P wait
    → All P later.0
    → All P (after_round wait later o).0
after_round-All P wait later cancelled h k = (h, tt)
after_round-All P wait later connected h k = (h, tt)
after_round-All P wait later unauthorized h k = (h, tt)
after_round-All P wait later failed h k = (h, k)

-- When the first delay is within the maximum and each jitter within a quarter of its round's
-- delay, no wait is longer than five quarters of the maximum.
reconnect_loop_bounded :
    (max_delay delay : ℕ) (rounds : List Round)
    → delay ≤ max_delay
    → HasJitters max_delay delay rounds
    → All (IsWait max_delay) (reconnect_loop max_delay delay rounds).0
unfolding reconnect_loop
reconnect_loop_bounded max_delay delay [] le h = tt
reconnect_loop_bounded max_delay delay (r ∷ rounds) le h =
    let next = next_delay max_delay delay in
    after_round-All (IsWait max_delay) (round_wait delay r) (reconnect_loop max_delay next rounds)
      r.outcome (omega (arith, waited-le (delay + r.jitter) r.woken, h.0, le))
      (reconnect_loop_bounded max_delay next rounds (next_delay-le max_delay delay) h.1)
