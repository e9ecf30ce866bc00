-- ===== src/Ingress/Retry/Outcome.antt =====
-- When the retries succeed, and how often and how long they wait.
use pipeops_k8_agent.Prelude.{
  ℕ, zero, suc, ◌+◌, ◌*◌, ◌/◌, ◌≤◌, ◌<◌, ◌≡◌, refl, ◌≢◌, ◌⊎◌, ◌↔◌, inl, inr, All, length, arith,
  ◌==◌, Bool-cases,
}
use pipeops_k8_agent.Ingress.Retry.{
  Answer, accepted, refused, refused_for_good, refused_cancelled, succeeded, RetryRun, max_retries,
  capped_delay, retry_delay, after_answer, retry_from, with_retry,
}

-- Some attempt before the limit is accepted, and all before it are refused and then retried.
abbrev pub AcceptedWithin : (ℕ → Answer) → ℕ → ℕ → Type 0
AcceptedWithin answers attempt zero = ⊥
AcceptedWithin answers attempt (suc left) =
    (answers attempt ≡ accepted)
    ⊎ ((answers attempt ≡ refused) × AcceptedWithin answers (attempt + 1) left)

after_answer_iff :
    (delay left : ℕ) (later : RetryRun) (a : Answer)
    → ((left ≡ 0) → later.ended ≢ succeeded)
    → ((after_answer delay left later a).ended ≡ succeeded)
      ↔ ((a ≡ accepted) ⊎ ((a ≡ refused) × (later.ended ≡ succeeded)))
unfolding after_answer
after_answer_iff delay left later accepted h = (λ e. inl refl, λ e. refl)
after_answer_iff delay left later refused h = ground (arith, h)
after_answer_iff delay left later refused_for_good h = ground arith
after_answer_iff delay left later refused_cancelled h = ground arith

none_left :
    (max_delay : ℕ) (answers : ℕ → Answer) (jitter : ℕ → ℕ) (attempt left : ℕ)
    → left ≡ 0
    → (retry_from max_delay answers jitter attempt left).ended ≢ succeeded
unfolding retry_from
none_left max_delay answers jitter attempt zero e = ground arith
none_left max_delay answers jitter attempt (suc left) e = absurd (omega arith)

retry_from_iff :
    (max_delay : ℕ) (answers : ℕ → Answer) (jitter : ℕ → ℕ) (attempt left : ℕ)
    → ((retry_from max_delay answers jitter attempt left).ended ≡ succeeded)
      ↔ AcceptedWithin answers attempt left
unfolding retry_from
retry_from_iff max_delay answers jitter attempt zero =
    (λ e. absurd (ground (arith, e)), λ x. absurd x)
retry_from_iff max_delay answers jitter attempt (suc left) =
    let later = retry_from max_delay answers jitter (attempt + 1) left in
    let step =
      after_answer_iff (retry_delay max_delay attempt (jitter attempt)) left later (answers attempt)
        (none_left max_delay answers jitter (attempt + 1) left) in
    let ih = retry_from_iff max_delay answers jitter (attempt + 1) left in
    (
      λ e. elim (step.0 e) [ inl a ↦ inl a | inr (r, l) ↦ inr (r, ih.0 l) ],
      λ x. step.1 (elim x [ inl a ↦ inl a | inr (r, l) ↦ inr (r, ih.1 l) ]),
    )

-- A request to the control plane with its retries succeeds exactly when one of the first three
-- attempts is accepted and those before it are refused with an error that is retried.
pub with_retry_iff :
    (max_delay : ℕ) (answers : ℕ → Answer) (jitter : ℕ → ℕ)
    → ((with_retry max_delay answers jitter).ended ≡ succeeded) ↔ (
        (answers 0 ≡ accepted)
        ⊎ ((answers 0 ≡ refused) × (answers 1 ≡ accepted))
        ⊎ ((answers 0 ≡ refused) × (answers 1 ≡ refused) × (answers 2 ≡ accepted)))
unfolding with_retry
with_retry_iff max_delay answers jitter =
    let (there, back) = retry_from_iff max_delay answers jitter 0 max_retries in
    (
      λ e. elim (there e) [
        | inl a ↦ inl a
        | inr (r, inl b) ↦ inr (inl (r, b))
        | inr (r, inr (s, inl c)) ↦ inr (inr (r, s, c))
        | inr (r, inr (s, inr (t, u))) ↦ absurd u
      ],
      λ x. back (elim x [
        | inl a ↦ inl a
        | inr (inl (r, b)) ↦ inr (r, inl b)
        | inr (inr (r, s, c)) ↦ inr (r, inr (s, inl c))
      ]),
    )

-- A wait between three quarters and five quarters of a delay that is at most the maximum.
abbrev pub IsWait : ℕ → ℕ → Type 0
IsWait max_delay wait = (d : ℕ) × (d ≤ max_delay) × (3 * d ≤ 4 * wait) × (4 * wait < 5 * d)

-- rand.Int63n of half the delay, which is at least half a second.
abbrev pub HasJitter : ℕ → (ℕ → ℕ) → Type 0
HasJitter max_delay jitter = (k : ℕ) → jitter k < capped_delay max_delay k / 2

IsWait-retry_delay :
    (max_delay attempt jitter : ℕ)
    → jitter < capped_delay max_delay attempt / 2
    → IsWait max_delay (retry_delay max_delay attempt jitter)
unfolding retry_delay
IsWait-retry_delay max_delay attempt jitter h = (
  capped_delay max_delay attempt,
  unfold capped_delay in ground arith,
  omega (arith, h),
  omega (arith, h),
)

after_answer_bounds :
    (max_delay delay left : ℕ) (later : RetryRun) (a : Answer)
    → IsWait max_delay delay
    → later.calls ≤ left
    → ((0 < left) → length later.waits < later.calls)
    → All (IsWait max_delay) later.waits
    → ((after_answer delay left later a).calls ≤ suc left)
      × (length (after_answer delay left later a).waits < (after_answer delay left later a).calls)
      × All (IsWait max_delay) (after_answer delay left later a).waits
unfolding after_answer
after_answer_bounds max_delay delay left later accepted w c l h = (omega arith, omega arith, tt)
after_answer_bounds max_delay delay left later refused_for_good w c l h =
    (omega arith, omega arith, tt)
after_answer_bounds max_delay delay left later refused_cancelled w c l h =
    elim (Bool-cases (left == 0)) [
      | inl e ↦ rw e (omega arith, omega arith, tt)
      | inr e ↦ rw e (omega arith, omega arith, tt)
    ]
after_answer_bounds max_delay delay left later refused w c l h = elim (Bool-cases (left == 0)) [
  | inl e ↦ rw e (omega arith, omega arith, tt)
  | inr e ↦
      let some_left : 0 < left = ground (arith, e) in
      let fewer = l some_left in rw e (omega arith, omega arith, (w, h))
]

retry_from_bounds :
    (max_delay : ℕ) (answers : ℕ → Answer) (jitter : ℕ → ℕ) (attempt left : ℕ)
    → HasJitter max_delay jitter
    → ((retry_from max_delay answers jitter attempt left).calls ≤ left)
      × ((0 < left)
          → length (retry_from max_delay answers jitter attempt left).waits
            < (retry_from max_delay answers jitter attempt left).calls)
      × All (IsWait max_delay) (retry_from max_delay answers jitter attempt left).waits
unfolding retry_from
retry_from_bounds max_delay answers jitter attempt zero j =
    (omega arith, (λ h. absurd (omega (arith, h))), tt)
retry_from_bounds max_delay answers jitter attempt (suc left) j =
    let later = retry_from max_delay answers jitter (attempt + 1) left in
    let (c, l, h) = retry_from_bounds max_delay answers jitter (attempt + 1) left j in
    let (calls, waits, all) =
      after_answer_bounds max_delay (retry_delay max_delay attempt (jitter attempt)) left later
        (answers attempt) (IsWait-retry_delay max_delay attempt (jitter attempt) (j attempt)) c l
        h in
    (calls, (λ _. waits), all)

-- Whatever the control plane answers, a request is sent at most three times, with fewer waits than
-- calls, and each wait is within a quarter of a delay that is at most the maximum.
pub with_retry_bounds :
    (max_delay : ℕ) (answers : ℕ → Answer) (jitter : ℕ → ℕ)
    → HasJitter max_delay jitter
    → ((with_retry max_delay answers jitter).calls ≤ 3)
      × (length (with_retry max_delay answers jitter).waits
          < (with_retry max_delay answers jitter).calls)
      × All (IsWait max_delay) (with_retry max_delay answers jitter).waits
unfolding with_retry
with_retry_bounds max_delay answers jitter j =
    let (c, w, all) = retry_from_bounds max_delay answers jitter 0 max_retries j in
    (c, w (omega arith), all)
