-- ===== src/Prelude/HostPort.antt =====
-- SplitHostPort of Go's package net, up to its host.
use Prim.Native.Nat.{ℕ, suc}
use mathlib.Core.Bool.{Bool, not, ◌||◌}
use mathlib.Core.Option.{Option, none, some}
use mathlib.Core.List.{[], ◌∷◌, ◌++◌}
use pipeops_k8_agent.Prelude.Bytes.{Bytes, codes}
use pipeops_k8_agent.Prelude.Lists.{length}
use pipeops_k8_agent.Prelude.Tests.{◌==◌, if◌then◌else◌}
use pipeops_k8_agent.Prelude.Text.{has_infix, before}

abbrev cons_last : ℕ → Option (Bytes × Bytes) → Bytes → Bool → Option (Bytes × Bytes)
cons_last x none s is_it = if is_it then some ([], s) else none
cons_last x (some (a, b)) s is_it = some (x ∷ a, b)

-- What stands before and after the last `c`.
unfoldable pub split_last : ℕ → Bytes → Option (Bytes × Bytes)
split_last c [] = none
split_last c (x ∷ s) = cons_last x (split_last c s) s (x == c)

abbrev plain_host : Bytes → Bytes → Option Bytes
plain_host host port =
    if has_infix host (codes ":")
      || has_infix (host ++ port) (codes "[")
      || has_infix (host ++ port) (codes "]")
    then none
    else some host

abbrev bracket_host : Bytes → Option Bytes → Bytes → Option Bytes
bracket_host inner none port = none
bracket_host inner (some host) port =
    if not (length inner == suc (length host))
      || has_infix (host ++ port) (codes "[")
      || has_infix port (codes "]")
    then none
    else some host

abbrev host_of : Bytes → Bytes → Option Bytes
host_of [] port = plain_host [] port
host_of (x ∷ inner) port =
    if x == b'[' then bracket_host inner (before b']' inner) port else plain_host (x ∷ inner) port

-- The host that net.SplitHostPort gives, `none` for an error.
unfoldable pub split_host_port : Bytes → Option Bytes
split_host_port s = elim (split_last b':' s) [ none ↦ none | some (a, port) ↦ host_of a port ]
