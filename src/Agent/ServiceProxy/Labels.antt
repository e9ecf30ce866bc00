-- ===== src/Agent/ServiceProxy/Labels.antt =====
-- The names of services and namespaces that pass their check.
use pipeops_k8_agent.Prelude.{
  ℕ, ◌+◌, ◌-◌, ◌≤◌, ◌≡◌, refl, ◌≢◌, ◌⊎◌, ◌↔◌, Bool, true, false, not, ◌&&◌, ◌==◌, [], ◌∷◌, length,
  All, arith,
}
use pipeops_k8_agent.Prelude.Bytes.{Bytes}
use pipeops_k8_agent.Agent.ServiceProxy.{
  is_label_char, valid_from, validate_service_name, validate_namespace,
}

abbrev pub IsLabelChar : ℕ → Type 0
IsLabelChar r = ((97 ≤ r) × (r ≤ 122)) ⊎ ((48 ≤ r) × (r ≤ 57)) ⊎ (r ≡ 45)

abbrev pub StartsWithHyphen : Bytes → Type 0
StartsWithHyphen [] = ⊥
StartsWithHyphen (r ∷ rs) = r ≡ 45

abbrev pub EndsWithHyphen : Bytes → Type 0
EndsWithHyphen [] = ⊥
EndsWithHyphen (r ∷ []) = r ≡ 45
EndsWithHyphen (r ∷ s ∷ rs) = EndsWithHyphen (s ∷ rs)

-- Letters in lower case, digits and hyphens, at most 253, with a hyphen at neither end.
abbrev pub IsLabel : Bytes → Type 0
IsLabel name =
    (name ≢ [])
    × (length name ≤ 253)
    × All IsLabelChar name
    × ¬ StartsWithHyphen name
    × ¬ EndsWithHyphen name

is_label_char-IsLabelChar : (r : ℕ) → (is_label_char r ≡ true) ↔ IsLabelChar r
is_label_char-IsLabelChar r = (λ e. ground (arith, e), λ h. ground (arith, h))

valid_one :
    (i n r : ℕ) (later : Bool)
    → (is_label_char r && not (i == 0 && r == b'-') && not (i == n - 1 && r == b'-') && later)
      ≡ true
    → IsLabelChar r × ¬ ((i ≡ 0) × (r ≡ 45)) × ¬ ((i ≡ n - 1) × (r ≡ 45)) × (later ≡ true)
valid_one i n r later e = ground (arith, e)

valid_from_sound :
    (n i : ℕ) (rs : Bytes)
    → i + length rs ≡ n
    → valid_from n i rs ≡ true
    → All IsLabelChar rs × ¬ EndsWithHyphen rs
unfolding valid_from
valid_from_sound n i [] k e = (tt, λ h. h)
valid_from_sound n i (r ∷ []) k e =
    let (c, f, l, v) = valid_one i n r true e in ((c, tt), λ h. l (omega (arith, k), h))
valid_from_sound n i (r ∷ s ∷ rs) k e =
    let (c, f, l, v) = valid_one i n r (valid_from n (i + 1) (s ∷ rs)) e in
    let (all, ends) = valid_from_sound n (i + 1) (s ∷ rs) (omega (arith, k)) v in ((c, all), ends)

valid_from_complete :
    (n i : ℕ) (rs : Bytes)
    → i + length rs ≡ n
    → ¬ ((i ≡ 0) × StartsWithHyphen rs)
    → All IsLabelChar rs
    → ¬ EndsWithHyphen rs
    → valid_from n i rs ≡ true
unfolding valid_from
valid_from_complete n i [] k f all ends = refl
valid_from_complete n i (r ∷ []) k f all ends =
    let c = (is_label_char-IsLabelChar r).1 all.0 in ground (arith, c, f, ends)
valid_from_complete n i (r ∷ s ∷ rs) k f all ends =
    let c = (is_label_char-IsLabelChar r).1 all.0 in
    let later =
      valid_from_complete n (i + 1) (s ∷ rs) (omega (arith, k)) (λ z. absurd (omega (arith, z.0)))
        all.1 ends in
    let not_last : (i == n - 1) ≡ false = ground (arith, k) in ground (arith, c, f, not_last, later)

valid_from_start :
    (n r : ℕ) (rs : Bytes) → valid_from n 0 (r ∷ rs) ≡ true → ¬ StartsWithHyphen (r ∷ rs)
unfolding valid_from
valid_from_start n r rs e =
    let (c, f, l, v) = valid_one 0 n r (valid_from n 1 rs) e in λ h. f (refl, h)

pub validate_service_name_iff : (name : Bytes) → (validate_service_name name ≡ true) ↔ IsLabel name
unfolding validate_service_name
validate_service_name_iff [] = (λ e. absurd (ground (arith, e)), λ h. absurd (h.0 refl))
validate_service_name_iff (r ∷ rs) = (
  λ e.
      let v : valid_from (length (r ∷ rs)) 0 (r ∷ rs) ≡ true = ground (arith, e) in
      let (all, ends) = valid_from_sound (length (r ∷ rs)) 0 (r ∷ rs) (omega arith) v in
      (ground arith, ground (arith, e), all, valid_from_start (length (r ∷ rs)) r rs v, ends),
  λ (full, short, all, starts, ends).
      let v =
        valid_from_complete (length (r ∷ rs)) 0 (r ∷ rs) (omega arith) (λ z. starts z.1) all ends in
      ground (arith, short, v),
)

-- The two checks of a name are the same code.
pub validate_namespace_iff : (name : Bytes) → (validate_namespace name ≡ true) ↔ IsLabel name
unfolding validate_namespace validate_service_name
validate_namespace_iff [] = validate_service_name_iff []
validate_namespace_iff (r ∷ rs) = validate_service_name_iff (r ∷ rs)
