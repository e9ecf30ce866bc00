-- ===== src/Prelude/Map/Entries.antt =====
-- A predicate on every entry of a map.
use mathlib.Core.Path.{◌≡◌}
use mathlib.Core.Logic.{if_pos, if_neg}
use mathlib.Core.List.{[], ◌∷◌}
use mathlib.Core.Option.{some}
use native.Mathlib.Omega.{arith}
use pipeops_k8_agent.Prelude.Map
use pipeops_k8_agent.Prelude.Map.{Map}

abbrev pub Entries {ℓ κ} : {K V : Type ℓ} → (K → V → Type κ) → Map K V → Type κ
Entries P [] = Unit {κ}
Entries P ((k, v) ∷ m) = P k v × Entries P m

module _ {ℓ κ} {K V : Type ℓ} (dec : Discrete K) (P : K → V → Type κ) where
  pub insert-Entries :
      (k : K) (v : V) (m : Map K V) → P k v → Entries P m → Entries P (Map.insert dec k v m)
  unfolding Map.insert
  insert-Entries k v [] p h = (p, tt)
  insert-Entries k v ((j, w) ∷ m) p h = elim (dec j k) [
    | yes e ↦ rw (if_pos _ e) (rw e p, h.1)
    | no e ↦ rw (if_neg _ e) (h.0, insert-Entries k v m p h.1)
  ]

  pub delete-Entries : (k : K) (m : Map K V) → Entries P m → Entries P (Map.delete dec k m)
  unfolding Map.delete
  delete-Entries k [] h = tt
  delete-Entries k ((j, w) ∷ m) h = elim (dec j k) [
    | yes e ↦ rw (if_pos _ e) (delete-Entries k m h.1)
    | no e ↦ rw (if_neg _ e) (h.0, delete-Entries k m h.1)
  ]

  pub lookup-Entries :
      (k : K) (v : V) (m : Map K V) → Map.lookup dec k m ≡ some v → Entries P m → P k v
  unfolding Map.lookup
  lookup-Entries k v [] e h = cc
  lookup-Entries k v ((j, w) ∷ m) e h = elim (dec j k) [
    | yes p ↦ let same : w ≡ v = ground (arith, e, p) in rw (← same) (rw (← p) (h.0))
    | no p ↦ lookup-Entries k v m (ground (arith, e, p)) h.1
  ]
