-- ===== src/Prelude/Map.antt =====
-- Go's maps as association lists. An update of a key replaces its value in place, a new key goes
-- to the end, so the keys stay distinct; a range over the map takes the list's order.
pub mod Entries
use Prim.Native.Nat.{◌+◌, ◌≤◌}
use mathlib.Core.Path.{◌≡◌, refl, sym}
use mathlib.Core.Logic.{◌≢◌, ite, if_pos, if_neg}
use mathlib.Core.List.{List, [], ◌∷◌}
use mathlib.Core.Option.{Option, none, some}
use native.Mathlib.Omega.{arith}
use pipeops_k8_agent.Prelude.Lists.{length}

abbrev pub Map {ℓ} : Type ℓ → Type ℓ → Type ℓ
Map K V = List (K × V)

module _ {ℓ} {K V : Type ℓ} (dec : Discrete K) where
  unfoldable pub lookup : K → Map K V → Option V
  lookup k [] = none
  lookup k ((j, v) ∷ m) = ite (dec j k) (some v) (lookup k m)

  unfoldable pub insert : K → V → Map K V → Map K V
  insert k v [] = (k, v) ∷ []
  insert k v ((j, w) ∷ m) = ite (dec j k) ((j, v) ∷ m) ((j, w) ∷ insert k v m)

  unfoldable pub delete : K → Map K V → Map K V
  delete k [] = []
  delete k ((j, w) ∷ m) = ite (dec j k) (delete k m) ((j, w) ∷ delete k m)

  pub lookup-insert_self : (k : K) (v : V) (m : Map K V) → lookup k (insert k v m) ≡ some v
  unfolding lookup insert
  lookup-insert_self k v [] = ground arith
  lookup-insert_self k v ((j, w) ∷ m) = ground (arith, lookup-insert_self k v m)

  pub lookup-insert_ne :
      (k j : K) (v : V) (m : Map K V) → j ≢ k → lookup j (insert k v m) ≡ lookup j m
  unfolding lookup insert
  lookup-insert_ne k j v [] h = ground arith
  lookup-insert_ne k j v ((i, w) ∷ m) h = ground (arith, lookup-insert_ne k j v m)

  pub lookup-delete_self : (k : K) (m : Map K V) → lookup k (delete k m) ≡ none
  unfolding lookup delete
  lookup-delete_self k [] = refl
  lookup-delete_self k ((j, w) ∷ m) = ground (arith, lookup-delete_self k m)

  pub lookup-delete_ne : (k j : K) (m : Map K V) → j ≢ k → lookup j (delete k m) ≡ lookup j m
  unfolding lookup delete
  lookup-delete_ne k j [] h = refl
  lookup-delete_ne k j ((i, w) ∷ m) h = ground (arith, lookup-delete_ne k j m)

  pub length-insert_new :
      (k : K) (v : V) (m : Map K V) → lookup k m ≡ none → length (insert k v m) ≡ length m + 1
  unfolding lookup insert
  length-insert_new k v [] h = omega arith
  length-insert_new k v ((j, w) ∷ m) h = ground (arith, length-insert_new k v m)

  pub length-insert_old :
      (k : K) (v w : V) (m : Map K V) → lookup k m ≡ some w → length (insert k v m) ≡ length m
  unfolding lookup insert
  length-insert_old k v w [] h = ground arith
  length-insert_old k v w ((j, u) ∷ m) h = ground (arith, length-insert_old k v w m)

  pub length-delete-le : (k : K) (m : Map K V) → length (delete k m) ≤ length m
  unfolding delete
  length-delete-le k [] = omega arith
  length-delete-le k ((j, w) ∷ m) = ground (arith, length-delete-le k m)

  -- A key that is not bound by any entry, and a map that binds no key twice.
  abbrev pub Fresh : K → Map K V → Type ℓ
  Fresh k [] = Unit {ℓ}
  Fresh k ((j, w) ∷ m) = (j ≢ k) × Fresh k m

  abbrev pub HasKeys : Map K V → Type ℓ
  HasKeys [] = Unit {ℓ}
  HasKeys ((j, w) ∷ m) = Fresh j m × HasKeys m

  pub insert-Fresh : (i k : K) (v : V) (m : Map K V) → i ≢ k → Fresh k m → Fresh k (insert i v m)
  unfolding insert
  insert-Fresh i k v [] h f = (h, tt)
  insert-Fresh i k v ((j, w) ∷ m) h f = elim (dec j i) [
    | yes p ↦ rw (if_pos _ p) f
    | no p ↦ rw (if_neg _ p) (f.0, insert-Fresh i k v m h f.1)
  ]

  pub insert-HasKeys : (k : K) (v : V) (m : Map K V) → HasKeys m → HasKeys (insert k v m)
  unfolding insert
  insert-HasKeys k v [] h = (tt, tt)
  insert-HasKeys k v ((j, w) ∷ m) h = elim (dec j k) [
    | yes p ↦ rw (if_pos _ p) h
    | no p ↦ rw (if_neg _ p) (insert-Fresh k j v m (λ e. p (sym e)) h.0, insert-HasKeys k v m h.1)
  ]

  pub delete-Fresh : (i k : K) (m : Map K V) → Fresh k m → Fresh k (delete i m)
  unfolding delete
  delete-Fresh i k [] f = tt
  delete-Fresh i k ((j, w) ∷ m) f = elim (dec j i) [
    | yes p ↦ rw (if_pos _ p) (delete-Fresh i k m f.1)
    | no p ↦ rw (if_neg _ p) (f.0, delete-Fresh i k m f.1)
  ]

  pub delete-HasKeys : (k : K) (m : Map K V) → HasKeys m → HasKeys (delete k m)
  unfolding delete
  delete-HasKeys k [] h = tt
  delete-HasKeys k ((j, w) ∷ m) h = elim (dec j k) [
    | yes p ↦ rw (if_pos _ p) (delete-HasKeys k m h.1)
    | no p ↦ rw (if_neg _ p) (delete-Fresh k j m h.0, delete-HasKeys k m h.1)
  ]
