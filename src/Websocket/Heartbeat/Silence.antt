-- ===== src/Websocket/Heartbeat/Silence.antt =====
-- A connection that stays silent, under the ticks of the heartbeat loop.
use pipeops_k8_agent.Prelude.{
  ℕ, zero, suc, ◌+◌, ◌-◌, ◌*◌, ◌/◌, ◌≤◌, ◌<◌, ◌≡◌, refl, ◌↔◌, true, arith, ltb, leb, ◌&&◌,
  if◌then◌else◌,
}
use native.Mathlib.Nat.{div-lt_iff_lt-mul}
use pipeops_k8_agent.Websocket.Heartbeat.{HeartbeatManager, check_pong_timeout}

-- The manager after `n` ticks since the last pong, the first of them `first` after it and the
-- others `interval` apart.
unfoldable pub silent : HeartbeatManager → ℕ → ℕ → ℕ → HeartbeatManager
silent h first interval zero = h
silent h first interval (suc n) =
    (check_pong_timeout (silent h first interval n) (h.last_pong_time + (first + n * interval))).0

silent-fixed :
    (h : HeartbeatManager) (first interval n : ℕ)
    → ((silent h first interval n).last_pong_time ≡ h.last_pong_time)
      × ((silent h first interval n).pong_timeout ≡ h.pong_timeout)
      × ((silent h first interval n).max_missed_pongs ≡ h.max_missed_pongs)
unfolding silent check_pong_timeout
silent-fixed h first interval zero = (refl, refl, refl)
silent-fixed h first interval (suc n) = ground (arith, silent-fixed h first interval n)

-- One tick at the time `since` after the last pong.
check-late :
    (g : HeartbeatManager) (p since : ℕ)
    → g.last_pong_time ≡ p
    → ((check_pong_timeout g (p + since)).0.missed_pongs
        ≡ (if ltb g.pong_timeout since then g.missed_pongs + 1 else g.missed_pongs))
      × ((check_pong_timeout g (p + since)).1
          ≡ (ltb g.pong_timeout since && leb g.max_missed_pongs (g.missed_pongs + 1)))
unfolding check_pong_timeout
check-late g p since e = (ground arith, ground arith)

-- How many ticks come within the timeout.
abbrev pub within : HeartbeatManager → ℕ → ℕ → ℕ
within h first interval = (h.pong_timeout + (interval - first)) / interval

-- Tick n is late exactly when it comes after those within the timeout.
within-lt :
    (h : HeartbeatManager) (first interval n : ℕ)
    → 0 < interval
    → first ≤ interval
    → (within h first interval < suc n) ↔ (h.pong_timeout < first + n * interval)
within-lt h first interval n pos le =
    let late =
      div-lt_iff_lt-mul {k = interval} {x = h.pong_timeout + (interval - first)} {y = suc n} pos in
    let split : suc n * interval ≡ interval + n * interval = grind arith in
    (λ a. omega (arith, late.0 a, split, le), λ b. late.1 (omega (arith, b, split, le)))

-- After n silent ticks those that came later than the timeout have been counted.
pub missed-silent :
    (h : HeartbeatManager) (first interval n : ℕ)
    → 0 < interval
    → first ≤ interval
    → h.missed_pongs ≡ 0
    → (silent h first interval n).missed_pongs ≡ n - within h first interval
unfolding silent
missed-silent h first interval zero pos le none_missed = omega arith
missed-silent h first interval (suc n) pos le none_missed =
    let (p, t, m) = silent-fixed h first interval n in
    ground (
      arith,
      (check-late (silent h first interval n) h.last_pong_time (first + n * interval) p).0,
      missed-silent h first interval n pos le none_missed,
      within-lt h first interval n pos le,
      t,
    )

-- On a connection that stays silent after a pong, with checks at a positive interval, the first of
-- them no later than one interval after the pong, and with a positive limit: check number n + 1
-- asks for the close exactly when the checks within the timeout and the limit together are at
-- most n + 1. The checks within the timeout are the whole intervals in the timeout and in what
-- the first check came earlier than one interval.
pub silent-closes_iff :
    (h : HeartbeatManager) (first interval n : ℕ)
    → 0 < interval
    → first ≤ interval
    → 0 < h.max_missed_pongs
    → h.missed_pongs ≡ 0
    → ((check_pong_timeout
          (silent h first interval n)
          (h.last_pong_time + (first + n * interval))).1
        ≡ true)
      ↔ ((h.pong_timeout + (interval - first)) / interval + h.max_missed_pongs ≤ suc n)
silent-closes_iff h first interval n pos le some_allowed none_missed =
    let (p, t, m) = silent-fixed h first interval n in
    let late = within-lt h first interval n pos le in
    let here =
      (check-late (silent h first interval n) h.last_pong_time (first + n * interval) p).1 in
    let count = missed-silent h first interval n pos le none_missed in
    (λ a. ground (arith, here, count, late, t, m), λ b. ground (arith, here, count, late, t, m))
