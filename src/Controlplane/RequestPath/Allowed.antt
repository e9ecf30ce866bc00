-- ===== src/Controlplane/RequestPath/Allowed.antt =====
-- A path that isValidK8sAPIPath accepts keeps an allowed prefix when sanitizeURLPath rewrites it.
use pipeops_k8_agent.Prelude.{
  ℕ, zero, suc, ◌≤◌, ◌≡◌, refl, ◌∙◌, ap, inl, inr, Bool, true, false, not, ◌&&◌, ◌||◌, ◌==◌, List,
  [], ◌∷◌, length, All, arith, Bool-cases,
}
use pipeops_k8_agent.Prelude.Bytes.{Bytes}
use pipeops_k8_agent.Prelude.Text.{has_prefix}
use pipeops_k8_agent.Controlplane.RequestPath.{
  dot, slash, remove_byte, replace_pair, contains, contains_pair, has_any_prefix, collapse,
  ensure_slash, sanitize_url_path, allowed_prefixes, is_valid_k8s_api_path,
}
use pipeops_k8_agent.Controlplane.RequestPath.Sanitized.{halve, collapse-keeps}

remove_byte_same : (c : ℕ) (s : Bytes) → contains c s ≡ false → remove_byte c s ≡ s
unfolding remove_byte contains
remove_byte_same c [] h = refl
remove_byte_same c (x ∷ s) h = ground (arith, remove_byte_same c s)

halve_same : (s : Bytes) → contains_pair slash s ≡ false → halve s ≡ s
unfolding halve replace_pair contains_pair
halve_same [] h = refl
halve_same (x ∷ []) h = refl
halve_same (x ∷ y ∷ s) h = ground (arith, halve_same (y ∷ s))

has_prefix-halve :
    (s p : Bytes)
    → contains_pair slash p ≡ false
    → has_prefix s p ≡ true
    → has_prefix (halve s) p ≡ true
unfolding halve replace_pair has_prefix
has_prefix-halve s [] n h = refl
has_prefix-halve [] (a ∷ p) n h = absurd (ground (arith, h))
has_prefix-halve (x ∷ []) (a ∷ p) n h = h
has_prefix-halve (x ∷ y ∷ s) (a ∷ []) n h = elim (Bool-cases (x == slash && y == slash)) [
  | inl e ↦ rw e (ground (arith, e, h))
  | inr e ↦ rw e (ground (arith, h))
]
has_prefix-halve (x ∷ y ∷ s) (a ∷ b ∷ p) n h = elim (Bool-cases (x == slash && y == slash)) [
  | inl e ↦ absurd (unfold contains_pair in ground (arith, e, h, n))
  | inr e ↦
      let n' : contains_pair slash (b ∷ p) ≡ false = unfold contains_pair in ground (arith, n) in
      let h' : has_prefix (y ∷ s) (b ∷ p) ≡ true = ground (arith, h) in
      let rest = has_prefix-halve (y ∷ s) (b ∷ p) n' h' in rw e (ground (arith, h, rest))
]

any_prefix-halve :
    (s : Bytes) (ps : List Bytes)
    → All (λ p. contains_pair slash p ≡ false) ps
    → has_any_prefix s ps ≡ true
    → has_any_prefix (halve s) ps ≡ true
unfolding has_any_prefix
any_prefix-halve s [] n h = h
any_prefix-halve s (p ∷ ps) n h =
    ground (arith, has_prefix-halve s p n.0, any_prefix-halve s ps n.1)

allowed_single : All (λ p. contains_pair slash p ≡ false) allowed_prefixes
unfolding contains_pair
allowed_single = (refl, (refl, (refl, (refl, (refl, (refl, (refl, (refl, (refl, tt)))))))))

abbrev IsAllowed : Bytes → Type 0
IsAllowed s = (has_prefix s (slash ∷ []) ≡ true) × (has_any_prefix s allowed_prefixes ≡ true)

halve-IsAllowed : (s : Bytes) → IsAllowed s → IsAllowed (halve s)
halve-IsAllowed s h = (
  has_prefix-halve s (slash ∷ []) (unfold contains_pair in refl) h.0,
  any_prefix-halve s allowed_prefixes allowed_single h.1,
)

collapse-IsAllowed :
    (fuel : ℕ) (s : Bytes) → length s ≤ fuel → IsAllowed (halve s) → IsAllowed (collapse fuel s)
unfolding collapse
collapse-IsAllowed zero [] le h = unfold halve replace_pair in h
collapse-IsAllowed zero (x ∷ s) le h = absurd (omega arith)
collapse-IsAllowed (suc fuel) s le h = elim (Bool-cases (contains_pair slash s)) [
  | inl more ↦ unfold halve in rw more (collapse-keeps IsAllowed fuel (halve s) halve-IsAllowed h)
  | inr done ↦ rw done (rw (← (halve_same s done)) h)
]

ensure_slash-IsAllowed : (s : Bytes) → IsAllowed s → ensure_slash s ≡ s
unfolding ensure_slash has_prefix
ensure_slash-IsAllowed [] h = refl
ensure_slash-IsAllowed (x ∷ s) h = ground (arith, h.0)

split_and : (a b : Bool) → (a && b) ≡ true → (a ≡ true) × (b ≡ true)
split_and a b h = ground arith

neither : (a b : Bool) → not (a || b) ≡ true → (a ≡ false) × (b ≡ false)
neither a b h = ground arith

-- What isValidK8sAPIPath has tested on a path that it accepts.
accepted :
    (path : Bytes)
    → is_valid_k8s_api_path path ≡ true
    → (contains 13 path ≡ false)
      × (contains 10 path ≡ false)
      × IsAllowed (halve (replace_pair dot [] path))
unfolding is_valid_k8s_api_path halve
accepted [] e = cc
accepted (x ∷ s) e =
    let path = x ∷ s in
    let clean = halve (replace_pair dot [] path) in
    let no_breaks = not (contains 13 path || contains 10 path) in
    let no_escapes = not (contains b'%' path || contains b'\\' path) in
    let starts = has_prefix clean (slash ∷ []) in
    let (r, prefix) =
      split_and (starts && no_escapes && no_breaks) (has_any_prefix clean allowed_prefixes) e in
    let (r', breaks) = split_and (starts && no_escapes) no_breaks r in
    let (first, encoded) = split_and starts no_escapes r' in
    let (cr, lf) = neither (contains 13 path) (contains 10 path) breaks in (cr, lf, (first, prefix))

-- A path that isValidK8sAPIPath accepts, and that has no zero byte, still starts with one of the
-- allowed prefixes after sanitizeURLPath.
pub sanitize-allowed :
    (path : Bytes)
    → contains 0 path ≡ false
    → is_valid_k8s_api_path path ≡ true
    → has_any_prefix (sanitize_url_path path) allowed_prefixes ≡ true
unfolding sanitize_url_path
sanitize-allowed path no_zero e =
    let (cr, lf, ok) = accepted path e in
    let plain : remove_byte 0 (remove_byte 10 (remove_byte 13 path)) ≡ path =
      ap (λ q. remove_byte 0 (remove_byte 10 q)) (remove_byte_same 13 path cr)
      ∙ (ap (remove_byte 0) (remove_byte_same 10 path lf) ∙ remove_byte_same 0 path no_zero) in
    let clean = replace_pair dot [] path in
    let done = collapse-IsAllowed (length clean) clean (omega arith) ok in
    rw plain (rw (ensure_slash-IsAllowed _ done) done.1)
