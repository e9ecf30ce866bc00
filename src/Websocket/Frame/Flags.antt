-- ===== src/Websocket/Frame/Flags.antt =====
-- The flag byte of internal/websocket/frame.go.
use pipeops_k8_agent.Prelude.{
  and_split, ℕ, zero, suc, ◌<◌, ◌≡◌, refl, Bool, true, false, ◌&&◌, ◌||◌, not, if◌then◌else◌, ◌==◌,
  ◌^◌, [], arith,
}
use pipeops_k8_agent.Prelude.Bytes.{IsByte}
use pipeops_k8_agent.Websocket.Frame.{Frame, has_flag, set_flag, clear_flag}

-- The test passes on every number below the given one.
passes : (ℕ → Bool) → ℕ → Bool
passes test zero = true
passes test (suc top) = let lower = passes test top in if test top then lower else false

passes-at : (test : ℕ → Bool) (top i : ℕ) → i < top → passes test top ≡ true → test i ≡ true
unfolding passes
passes-at test zero i below e = absurd (omega arith)
passes-at test (suc top) i below e = ground (arith, passes-at test top i)

bool_eq : Bool → Bool → Bool
bool_eq true b = b
bool_eq false b = not b

bool_eq_sound : (a b : Bool) → bool_eq a b ≡ true → a ≡ b
unfolding bool_eq
bool_eq_sound true b h = ground arith
bool_eq_sound false b h = ground arith

abbrev bare : ℕ → Frame
bare x = record { version = 1; kind = 1; flags = x; reserved = 0; length = 0; payload = [] }

flag_laws : ℕ → ℕ → ℕ → Bool
unfolding bool_eq has_flag set_flag clear_flag
flag_laws x i j =
    bool_eq (has_flag (set_flag (bare x) (2 ^ i)) (2 ^ j)) (j == i || has_flag (bare x) (2 ^ j))
    && bool_eq (has_flag (clear_flag (bare x) (2 ^ i)) (2 ^ j))
        (not (j == i) && has_flag (bare x) (2 ^ j))

flag_table : passes (λ x. passes (λ i. passes (flag_laws x i) 8) 8) 256 ≡ true
unfolding passes flag_laws
flag_table = refl

flag_laws_hold : (x i j : ℕ) → IsByte x → i < 8 → j < 8 → flag_laws x i j ≡ true
flag_laws_hold x i j hx hi hj = passes-at (flag_laws x i) 8 j hj (
    passes-at (λ k. passes (flag_laws x k) 8) 8 i hi
      (passes-at (λ y. passes (λ k. passes (flag_laws y k) 8) 8) 256 x hx flag_table))

-- Of the eight single-bit flags of a byte, SetFlag adds the one that it is given, ClearFlag takes
-- it away, and every other flag reads as before.
flags-set-clear :
    (f : Frame) (i j : ℕ)
    → IsByte f.flags
    → i < 8
    → j < 8
    → (has_flag (set_flag f (2 ^ i)) (2 ^ j) ≡ (j == i || has_flag f (2 ^ j)))
      × (has_flag (clear_flag f (2 ^ i)) (2 ^ j) ≡ (not (j == i) && has_flag f (2 ^ j)))
unfolding has_flag set_flag clear_flag flag_laws
flags-set-clear f i j hx hi hj =
    let (s, c) = and_split _ _ (flag_laws_hold f.flags i j hx hi hj) in
    (bool_eq_sound _ _ s, bool_eq_sound _ _ c)
