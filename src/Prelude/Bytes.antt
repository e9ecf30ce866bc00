-- ===== src/Prelude/Bytes.antt =====
-- Bytes and Go strings as lists of numbers; encoding/binary's big-endian 16 and 32-bit integers.
use Prim.Native.Nat.{ℕ, ◌+◌, ◌*◌, ◌/◌, ◌%◌, ◌<◌}
use Prim.Native.Char.{code}
use Prim.Native.String.{String}
use mathlib.Core.Path.{◌≡◌, refl}
use mathlib.Core.List.{List, [], ◌∷◌}
use mathlib.Core.Bool.{Bool, true, false}
use mathlib.Core.Logic.{ite, ◌↔◌, if_pos, if_neg}
use native.Mathlib.Omega.{arith}
use native.Mathlib.Decide.{ℕ_discrete}

abbrev pub Bytes : Type 0
Bytes = List ℕ

abbrev pub IsByte : ℕ → Type 0
IsByte b = b < 256

-- s == ""
abbrev pub is_empty : Bytes → Bool
is_empty [] = true
is_empty (x ∷ s) = false

-- The code points of a literal: its bytes where the text is ASCII.
abbrev pub codes : String → Bytes
codes String.[] = []
codes (String.◌∷◌ c s) = code c ∷ codes s

unfoldable pub Bytes-discrete : Discrete Bytes
Bytes-discrete = hlevel ℕ_discrete

abbrev pub bytes_eq : Bytes → Bytes → Bool
bytes_eq a b = ite (Bytes-discrete a b) true false

pub bytes_eq_iff : (a b : Bytes) → (bytes_eq a b ≡ true) ↔ (a ≡ b)
bytes_eq_iff a b = elim (Bytes-discrete a b) [
  | yes p ↦ rw (if_pos _ p) ((λ _. p), λ _. refl)
  | no p ↦ rw (if_neg _ p) ((λ e. cc), λ e. absurd (p e))
]

abbrev pub u16_mod : ℕ
u16_mod = 65536

abbrev pub u32_mod : ℕ
u32_mod = 4294967296

-- binary.BigEndian.PutUint16, PutUint32, Uint16 and Uint32.
abbrev pub put_u16 : ℕ → Bytes → Bytes
put_u16 n rest = n / 256 % 256 ∷ n % 256 ∷ rest

abbrev pub put_u32 : ℕ → Bytes → Bytes
put_u32 n rest = n / 16777216 % 256 ∷ n / 65536 % 256 ∷ n / 256 % 256 ∷ n % 256 ∷ rest

abbrev pub get_u16 : ℕ → ℕ → ℕ
get_u16 a b = a * 256 + b

abbrev pub get_u32 : ℕ → ℕ → ℕ → ℕ → ℕ
get_u32 a b c d = a * 16777216 + b * 65536 + c * 256 + d

pub get_u16-put : (n : ℕ) → n < u16_mod → get_u16 (n / 256 % 256) (n % 256) ≡ n
get_u16-put n h = omega arith

pub get_u32-put :
    (n : ℕ)
    → n < u32_mod
    → get_u32 (n / 16777216 % 256) (n / 65536 % 256) (n / 256 % 256) (n % 256) ≡ n
get_u32-put n h = omega arith

pub put_u32-get :
    (a b c d : ℕ) (rest : Bytes)
    → IsByte a
    → IsByte b
    → IsByte c
    → IsByte d
    → put_u32 (get_u32 a b c d) rest ≡ a ∷ b ∷ c ∷ d ∷ rest
put_u32-get a b c d rest ha hb hc hd = ground arith
