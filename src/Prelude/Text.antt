-- ===== src/Prelude/Text.antt =====
-- The functions of Go's package strings that the program calls, on the bytes of a string.
use Prim.Native.Nat.{ℕ, zero, suc, ◌+◌, ◌/◌, ◌%◌}
use native.Mathlib.Omega.{arith}
use mathlib.Core.Path.{◌≡◌, refl, ap, ◌∙◌}
use mathlib.Core.Logic.{◌↔◌, inl, inr}
use mathlib.Core.Bool.{Bool, true, false, ◌&&◌, ◌||◌}
use mathlib.Core.Option.{Option, none, some}
use mathlib.Core.List.{[], ◌∷◌, ◌++◌}
use pipeops_k8_agent.Prelude.Bytes.{Bytes}
use pipeops_k8_agent.Prelude.Tests.{◌==◌, leb, ltb, Bool-cases, if◌then◌else◌}

-- strings.HasPrefix
unfoldable pub has_prefix : Bytes → Bytes → Bool
has_prefix s [] = true
has_prefix [] (p ∷ ps) = false
has_prefix (x ∷ s) (p ∷ ps) = x == p && has_prefix s ps

-- strings.Contains
unfoldable pub has_infix : Bytes → Bytes → Bool
unfolding has_prefix
has_infix [] t = has_prefix [] t
has_infix (x ∷ s) t = has_prefix (x ∷ s) t || has_infix s t

abbrev cons_before : ℕ → Option Bytes → Option Bytes
cons_before x none = none
cons_before x (some s) = some (x ∷ s)

-- What stands before the first `c`, if there is one.
unfoldable pub before : ℕ → Bytes → Option Bytes
before c [] = none
before c (x ∷ s) = let rest = cons_before x (before c s) in if x == c then some [] else rest

-- strings.CutPrefix; `none` is false.
unfoldable pub cut_prefix : Bytes → Bytes → Option Bytes
cut_prefix s [] = some s
cut_prefix [] (p ∷ ps) = none
cut_prefix (x ∷ s) (p ∷ ps) = let rest = cut_prefix s ps in if x == p then rest else none

pub cut_prefix-append : (s p rest : Bytes) → cut_prefix s p ≡ some rest → s ≡ p ++ rest
unfolding cut_prefix
cut_prefix-append s [] rest e = ground (arith, e)
cut_prefix-append [] (p ∷ ps) rest e = absurd (ground (arith, e))
cut_prefix-append (x ∷ s) (p ∷ ps) rest e =
    let same : x ≡ p = ground (arith, e) in
    let tail : cut_prefix s ps ≡ some rest = ground (arith, e) in
    ap (λ y. y ∷ s) same ∙ ap (λ r. p ∷ r) (cut_prefix-append s ps rest tail)

abbrev is_space : ℕ → Bool
is_space x = (leb 9 x && leb x 13) || x == 32

abbrev space_or : ℕ → Bytes → Bytes
space_or x [] = if is_space x then [] else x ∷ []
space_or x (y ∷ s) = x ∷ y ∷ s

unfoldable pub trim_left : Bytes → Bytes
trim_left [] = []
trim_left (x ∷ s) = let rest = trim_left s in if is_space x then rest else x ∷ s

unfoldable pub trim_right : Bytes → Bytes
trim_right [] = []
trim_right (x ∷ s) = space_or x (trim_right s)

-- strings.TrimSpace on ASCII white space.
unfoldable pub trim_space : Bytes → Bytes
trim_space s = trim_right (trim_left s)

-- fmt's %d.
unfoldable pub decimal_loop : ℕ → ℕ → Bytes → Bytes
decimal_loop zero n acc = acc
decimal_loop (suc fuel) n acc =
    let rest = decimal_loop fuel (n / 10) ((48 + n % 10) ∷ acc) in
    if ltb n 10 then (48 + n) ∷ acc else rest

unfoldable pub decimal : ℕ → Bytes
unfolding decimal_loop
decimal n = decimal_loop (suc n) n []

pub has_prefix-append : (s p : Bytes) → has_prefix s p ≡ true → (rest : Bytes) × (s ≡ p ++ rest)
unfolding has_prefix
has_prefix-append s [] e = (s, refl)
has_prefix-append [] (p ∷ ps) e = absurd (ground (arith, e))
has_prefix-append (x ∷ s) (p ∷ ps) e =
    let same : x ≡ p = ground (arith, e) in
    let (rest, tail) = has_prefix-append s ps (ground (arith, e)) in
    (rest, ap (λ y. y ∷ s) same ∙ ap (λ r. p ∷ r) tail)

pub append-has_prefix : (p rest : Bytes) → has_prefix (p ++ rest) p ≡ true
unfolding has_prefix
append-has_prefix [] rest = refl
append-has_prefix (p ∷ ps) rest = let ih = append-has_prefix ps rest in ground (arith, ih)

-- A text that stands somewhere in another.
abbrev pub IsIn : Bytes → Bytes → Type 0
IsIn t s = (a : Bytes) × (b : Bytes) × (s ≡ a ++ t ++ b)

pub has_infix-IsIn : (s t : Bytes) → has_infix s t ≡ true → IsIn t s
unfolding has_infix
has_infix-IsIn [] t e = let (rest, same) = has_prefix-append [] t e in ([], rest, same)
has_infix-IsIn (x ∷ s) t e = elim (Bool-cases (has_prefix (x ∷ s) t)) [
  | inl h ↦ let (rest, same) = has_prefix-append (x ∷ s) t h in ([], rest, same)
  | inr h ↦
      let (a, b, same) = has_infix-IsIn s t (ground (arith, e, h)) in
      (x ∷ a, b, ap (λ r. x ∷ r) same)
]

append-has_infix : (a t b : Bytes) → has_infix (a ++ t ++ b) t ≡ true
unfolding has_infix
append-has_infix [] [] [] = unfold has_prefix in refl
append-has_infix [] [] (y ∷ b) = unfold has_prefix in refl
append-has_infix [] (x ∷ t) b = let h = append-has_prefix (x ∷ t) b in ground (arith, h)
append-has_infix (x ∷ a) t b = let ih = append-has_infix a t b in ground (arith, ih)

pub has_infix_iff : (s t : Bytes) → (has_infix s t ≡ true) ↔ IsIn t s
has_infix_iff s t =
    (has_infix-IsIn s t, λ (a, b, same). ap (λ r. has_infix r t) same ∙ append-has_infix a t b)

-- strings.ToLower on ASCII text.
abbrev lower_byte : ℕ → ℕ
lower_byte x = if leb b'A' x && leb x b'Z' then x + 32 else x

unfoldable pub to_lower : Bytes → Bytes
to_lower [] = []
to_lower (x ∷ s) = lower_byte x ∷ to_lower s
