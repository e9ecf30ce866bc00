-- ===== src/Controlplane/RequestPath/Sanitized.antt =====
-- What sanitizeURLPath leaves in a path.
use pipeops_k8_agent.Prelude.{
  ℕ, zero, suc, ◌≤◌, ◌<◌, ◌≡◌, refl, ◌≢◌, ◌⊎◌, inl, inr, true, false, ◌&&◌, ◌==◌, [], ◌∷◌, ◌++◌,
  length, All, arith, Bool-cases, ℕ_discrete, sym, ap, ◌∙◌,
}
use pipeops_k8_agent.Prelude.Bytes.{Bytes}
use pipeops_k8_agent.Controlplane.RequestPath.{
  dot, slash, remove_byte, replace_pair, contains_pair, collapse, ensure_slash, sanitize_url_path,
}

remove_byte-All : (P : ℕ → Type 0) (c : ℕ) (s : Bytes) → All P s → All P (remove_byte c s)
unfolding remove_byte
remove_byte-All P c [] h = tt
remove_byte-All P c (x ∷ s) h = elim (Bool-cases (x == c)) [
  | inl e ↦ rw e (remove_byte-All P c s h.1)
  | inr e ↦ rw e (h.0, remove_byte-All P c s h.1)
]

remove_byte-none : (c : ℕ) (s : Bytes) → All (λ x. x ≢ c) (remove_byte c s)
unfolding remove_byte
remove_byte-none c [] = tt
remove_byte-none c (x ∷ s) = elim (Bool-cases (x == c)) [
  | inl e ↦ rw e (remove_byte-none c s)
  | inr e ↦ rw e (ground arith, remove_byte-none c s)
]

-- Replacing keeps what holds of every byte, if it holds of the new ones.
replace_pair-All :
    (P : ℕ → Type 0) (c : ℕ) (new s : Bytes)
    → ((rest : Bytes) → All P rest → All P (new ++ rest))
    → All P s
    → All P (replace_pair c new s)
unfolding replace_pair
replace_pair-All P c new [] k h = tt
replace_pair-All P c new (x ∷ []) k h = h
replace_pair-All P c new (x ∷ y ∷ s) k h = elim (Bool-cases (x == c && y == c)) [
  | inl e ↦ rw e (k _ (replace_pair-All P c new s k h.1.1))
  | inr e ↦ rw e (h.0, replace_pair-All P c new (y ∷ s) k h.1)
]

-- A first byte that is not `c` stays first.
replace_pair-head :
    (c y : ℕ) (new s : Bytes) → y ≢ c → (t : Bytes) × (replace_pair c new (y ∷ s) ≡ y ∷ t)
unfolding replace_pair
replace_pair-head c y new [] h = ([], refl)
replace_pair-head c y new (z ∷ s) h = (replace_pair c new (z ∷ s), ground arith)

contains_pair-skip : (c x : ℕ) (t : Bytes) → x ≢ c → contains_pair c (x ∷ t) ≡ contains_pair c t
unfolding contains_pair
contains_pair-skip c x [] h = refl
contains_pair-skip c x (y ∷ t) h = ground arith

contains_pair-cons :
    (c x y : ℕ) (t : Bytes) → y ≢ c → contains_pair c (x ∷ y ∷ t) ≡ contains_pair c (y ∷ t)
unfolding contains_pair
contains_pair-cons c x y t h = ground arith

contains_pair-tail :
    (c x : ℕ) (t : Bytes) → contains_pair c (x ∷ t) ≡ false → contains_pair c t ≡ false
unfolding contains_pair
contains_pair-tail c x [] h = refl
contains_pair-tail c x (y ∷ t) h = ground arith

-- Removing the pairs of a byte leaves none.
replace_pair-none : (c : ℕ) (s : Bytes) → contains_pair c (replace_pair c [] s) ≡ false
unfolding replace_pair
replace_pair-none c [] = unfold contains_pair in refl
replace_pair-none c (x ∷ []) = unfold contains_pair in refl
replace_pair-none c (x ∷ y ∷ s) = elim (Bool-cases (x == c && y == c)) [
  | inl e ↦ rw e (replace_pair-none c s)
  | inr e ↦ rw e (elim (ℕ_discrete x c) [
    | no p ↦ contains_pair-skip c x _ p ∙ replace_pair-none c (y ∷ s)
    | yes p ↦
        let q : y ≢ c = ground arith in
        let (t, head) = replace_pair-head c y [] s q in
        rw head (
          contains_pair-cons c x y t q
          ∙ (ap (contains_pair c) (sym head) ∙ replace_pair-none c (y ∷ s)))
  ])
]

unfoldable pub halve : Bytes → Bytes
halve = replace_pair slash (slash ∷ [])

-- Halving the slashes keeps the first byte.
halve-head : (y : ℕ) (s : Bytes) → (t : Bytes) × (halve (y ∷ s) ≡ y ∷ t)
unfolding halve replace_pair
halve-head y [] = ([], refl)
halve-head y (z ∷ s) = elim (Bool-cases (y == slash && z == slash)) [
  | inl e ↦ (halve s, ground (arith, e))
  | inr e ↦ (halve (z ∷ s), ground (arith, e))
]

halve-contains_pair :
    (d : ℕ) (s : Bytes) → slash ≢ d → contains_pair d s ≡ false → contains_pair d (halve s) ≡ false
unfolding halve replace_pair
halve-contains_pair d [] h n = n
halve-contains_pair d (x ∷ []) h n = n
halve-contains_pair d (x ∷ y ∷ s) h n = elim (Bool-cases (x == slash && y == slash)) [
  | inl e ↦ rw e (
      contains_pair-skip d slash _ h
      ∙ halve-contains_pair d s h (contains_pair-tail d y s (contains_pair-tail d x (y ∷ s) n)))
  | inr e ↦ rw e (
      let ih = halve-contains_pair d (y ∷ s) h (contains_pair-tail d x (y ∷ s) n) in
      elim (ℕ_discrete x d) [
        | no p ↦ contains_pair-skip d x _ p ∙ ih
        | yes p ↦
            let q : y ≢ d = unfold contains_pair in ground arith in
            let (t, head) = halve-head y s in
            rw head (contains_pair-cons d x y t q ∙ (ap (contains_pair d) (sym head) ∙ ih))
      ])
]

length-halve-le : (s : Bytes) → length (halve s) ≤ length s
unfolding halve replace_pair
length-halve-le [] = omega arith
length-halve-le (x ∷ []) = omega arith
length-halve-le (x ∷ y ∷ s) = ground (arith, length-halve-le s, length-halve-le (y ∷ s))

length-halve-lt : (s : Bytes) → contains_pair slash s ≡ true → length (halve s) < length s
unfolding halve replace_pair contains_pair
length-halve-lt [] h = ground arith
length-halve-lt (x ∷ []) h = ground arith
length-halve-lt (x ∷ y ∷ s) h = ground (arith, length-halve-le s, length-halve-lt (y ∷ s))

-- The loop ends by its test.
collapse-none :
    (fuel : ℕ) (s : Bytes) → length s ≤ fuel → contains_pair slash (collapse fuel s) ≡ false
unfolding collapse halve
collapse-none zero [] h = unfold contains_pair in refl
collapse-none zero (x ∷ s) h = absurd (omega arith)
collapse-none (suc fuel) s h = elim (Bool-cases (contains_pair slash s)) [
  | inl more ↦ rw more (collapse-none fuel (halve s) (omega (arith, length-halve-lt s more)))
  | inr done ↦ rw done done
]

-- What halving keeps, the loop keeps.
pub collapse-keeps {ℓ} :
    (Q : Bytes → Type ℓ) (fuel : ℕ) (s : Bytes)
    → ((t : Bytes) → Q t → Q (halve t))
    → Q s
    → Q (collapse fuel s)
unfolding collapse halve
collapse-keeps Q zero s k h = h
collapse-keeps Q (suc fuel) s k h = elim (Bool-cases (contains_pair slash s)) [
  | inl more ↦ rw more (collapse-keeps Q fuel _ k (k s h))
  | inr done ↦ rw done h
]

-- No byte of a line break or a string's end.
abbrev pub IsPlain : ℕ → Type 0
IsPlain x = (x ≢ 13) × (x ≢ 10) × (x ≢ 0)

abbrev pub IsSafe : Bytes → Type 0
IsSafe s =
    All IsPlain s
    × (contains_pair dot s ≡ false)
    × (contains_pair slash s ≡ false)
    × ((s ≡ []) ⊎ ((t : Bytes) × (s ≡ slash ∷ t)))

All-IsPlain :
    (s : Bytes) → All (λ x. x ≢ 13) s → All (λ x. x ≢ 10) s → All (λ x. x ≢ 0) s → All IsPlain s
All-IsPlain [] a b c = tt
All-IsPlain (x ∷ s) a b c = ((a.0, b.0, c.0), All-IsPlain s a.1 b.1 c.1)

halve-All-IsPlain : (s : Bytes) → All IsPlain s → All IsPlain (halve s)
unfolding halve
halve-All-IsPlain s h =
    replace_pair-All IsPlain slash (slash ∷ []) s
      (λ rest k. ((omega arith, omega arith, omega arith), k)) h

ensure_slash-IsSafe :
    (s : Bytes)
    → All IsPlain s
    → contains_pair dot s ≡ false
    → contains_pair slash s ≡ false
    → IsSafe (ensure_slash s)
unfolding ensure_slash
ensure_slash-IsSafe [] p d n = (p, d, n, inl refl)
ensure_slash-IsSafe (x ∷ s) p d n = elim (Bool-cases (x == slash)) [
  | inl e ↦ rw e (p, d, n, inr (s, ground arith))
  | inr e ↦
      let q : x ≢ slash = ground arith in
      rw e (
        ((omega arith, omega arith, omega arith), p),
        contains_pair-skip dot slash (x ∷ s) (omega arith) ∙ d,
        contains_pair-cons slash slash x s q ∙ n,
        inr (x ∷ s, refl),
      )
]

-- A sanitised path has no line break and no zero byte, no two dots and no two slashes in a row,
-- and is empty or starts with a slash.
pub sanitize_url_path-IsSafe : (path : Bytes) → IsSafe (sanitize_url_path path)
unfolding sanitize_url_path
sanitize_url_path-IsSafe path =
    let a = remove_byte 13 path in
    let b = remove_byte 10 a in
    let c = remove_byte 0 b in
    let clean = replace_pair dot [] c in
    let plain =
      replace_pair-All IsPlain dot [] c (λ rest k. k)
        (All-IsPlain c
          (remove_byte-All (λ x. x ≢ 13) 0 b
            (remove_byte-All (λ x. x ≢ 13) 10 a (remove_byte-none 13 path)))
          (remove_byte-All (λ x. x ≢ 10) 0 b (remove_byte-none 10 a)) (remove_byte-none 0 b)) in
    ensure_slash-IsSafe (collapse (length clean) clean)
      (collapse-keeps (All IsPlain) (length clean) clean halve-All-IsPlain plain)
      (collapse-keeps (λ t. contains_pair dot t ≡ false) (length clean) clean
        (λ t h. halve-contains_pair dot t (omega arith) h) (replace_pair-none dot c))
      (collapse-none (length clean) clean (omega arith))
