-- ===== src/Origin/Dialer/Permitted.antt =====
-- A HostDialer reaches only what its settings name and its allowlist permits.
use pipeops_k8_agent.Prelude.{
  ◌≡◌, refl, sym, ◌∙◌, ap, ◌≢◌, ◌⊎◌, inl, inr, Bool, true, false, ◌||◌, Option, none, some, List,
  [], ◌∷◌, ◌++◌, if◌then◌else◌, arith, Option-cases,
}
use pipeops_k8_agent.Prelude.Bytes.{Bytes, bytes_eq, bytes_eq_iff, codes}
use pipeops_k8_agent.Prelude.Text.{has_infix, cut_prefix, cut_prefix-append, trim_space}
use pipeops_k8_agent.Prelude.HostPort.{split_host_port}
use pipeops_k8_agent.Prelude.Bytes.{is_empty}
use pipeops_k8_agent.Origin.Dialer.{
  Target, HostDialer, Resolved, trim_prefix, is_host, or_tcp, route_keys, routed, strip_scheme,
  stripped, resolve_cut, resolve_tcp, resolve_address, entry_allows, any_allows, addr_allowed,
  permitted, resolve,
}

-- The configured address is the one that is dialled: a Unix socket, or a host without a slash, to
-- which a scheme may have been added.
abbrev pub IsConfigured : Target → Bytes → Resolved → Type 0
IsConfigured t address r =
    ((address ≡ codes "unix://" ++ r.address) × (r.network ≡ codes "unix"))
    ⊎ ((r.network ≡ or_tcp t.protocol)
        × (r.address ≢ [])
        × (has_infix r.address (codes "/") ≡ false)
        × ((address ≡ r.address)
            ⊎ (address ≡ codes "http://" ++ r.address)
            ⊎ (address ≡ codes "https://" ++ r.address)))

-- An entry, trimmed, permits a network and an address: it is the address, or the address of a socket
-- after unix://, or the host of an address that is no socket.
abbrev pub Permits : Bytes → Resolved → Type 0
Permits a r =
    (a ≢ [])
    × ((a ≡ r.address)
        ⊎ ((r.network ≡ codes "unix") × (a ≡ codes "unix://" ++ r.address))
        ⊎ ((r.network ≢ codes "unix") × (split_host_port r.address ≡ some a)))

abbrev pub SomePermits : List Bytes → Resolved → Type 0
SomePermits [] r = ⊥
SomePermits (a ∷ allowlist) r = Permits (trim_space a) r ⊎ SomePermits allowlist r

trim_prefix_cases : (s p : Bytes) → (trim_prefix s p ≡ s) ⊎ (s ≡ p ++ trim_prefix s p)
unfolding trim_prefix
trim_prefix_cases s p = elim (Option-cases (cut_prefix s p)) [
  | inl n ↦ inl (rw n refl)
  | inr (rest, e) ↦ inr (rw e (cut_prefix-append s p rest e))
]

is_host_iff : (o : Option Bytes) (a : Bytes) → is_host o a ≡ true → o ≡ some a
is_host_iff none a e = absurd (ground (arith, e))
is_host_iff (some h) a e = ap some ((bytes_eq_iff h a).0 e)

or_cases : (a b : Bool) → (a || b) ≡ true → (a ≡ true) ⊎ (b ≡ true)
or_cases true b e = inl refl
or_cases false b e = inr e

unix_allows :
    (a address : Bytes)
    → (bytes_eq a address || bytes_eq (trim_prefix a (codes "unix://")) address) ≡ true
    → (a ≡ address) ⊎ (a ≡ codes "unix://" ++ address)
unix_allows a address e =
    let trimmed = trim_prefix a (codes "unix://") in
    elim (or_cases (bytes_eq a address) (bytes_eq trimmed address) e) [
      | inl h ↦ inl ((bytes_eq_iff a address).0 h)
      | inr h ↦
          let same = (bytes_eq_iff trimmed address).0 h in
          elim (trim_prefix_cases a (codes "unix://")) [
            | inl q ↦ inl (sym q ∙ same)
            | inr q ↦ inr (q ∙ ap (λ r. codes "unix://" ++ r) same)
          ]
    ]

chosen {ℓ} :
    {A : Type ℓ} (b : Bool) (x y z : A)
    → (if b then x else y) ≡ z
    → ((b ≡ true) × (x ≡ z)) ⊎ ((b ≡ false) × (y ≡ z))
chosen true x y z e = inl (refl, e)
chosen false x y z e = inr (refl, e)

entry_allows-Permits :
    (a : Bytes) (r : Resolved) → entry_allows r.network r.address a ≡ true → Permits a r
unfolding entry_allows
entry_allows-Permits [] r e = absurd (ground (arith, e))
entry_allows-Permits (x ∷ a) r e =
    let entry = x ∷ a in
    let as_socket =
      bytes_eq entry r.address || bytes_eq (trim_prefix entry (codes "unix://")) r.address in
    let as_host = bytes_eq entry r.address || is_host (split_host_port r.address) entry in
    let network = bytes_eq_iff r.network (codes "unix") in
    elim (chosen (bytes_eq r.network (codes "unix")) as_socket as_host true e) [
      | inl (u, h) ↦ elim (unix_allows entry r.address h) [
        | inl q ↦ (ground arith, inl q)
        | inr q ↦ (ground arith, inr (inl (network.0 u, q)))
      ]
      | inr (u, h) ↦
          let no_socket : r.network ≢ codes "unix" =
            λ q. let yes_it_is = network.1 q in ground (arith, yes_it_is, u) in
          elim (or_cases (bytes_eq entry r.address) (is_host (split_host_port r.address) entry) h) [
            | inl q ↦ (ground arith, inl ((bytes_eq_iff entry r.address).0 q))
            | inr q ↦ (
              ground arith,
              inr (inr (no_socket, is_host_iff (split_host_port r.address) entry q)),
            )
          ]
    ]

any_allows-SomePermits :
    (allowlist : List Bytes) (r : Resolved)
    → any_allows r.network r.address allowlist ≡ true
    → SomePermits allowlist r
unfolding any_allows
any_allows-SomePermits [] r e = absurd (ground (arith, e))
any_allows-SomePermits (a ∷ allowlist) r e =
    elim (or_cases (entry_allows r.network r.address (trim_space a))
      (any_allows r.network r.address allowlist) e) [
        | inl h ↦ inl (entry_allows-Permits (trim_space a) r h)
        | inr h ↦ inr (any_allows-SomePermits allowlist r h)
      ]

addr_allowed-SomePermits :
    (allowlist : List Bytes) (r : Resolved)
    → addr_allowed allowlist r.network r.address ≡ true
    → (allowlist ≡ []) ⊎ SomePermits allowlist r
unfolding addr_allowed
addr_allowed-SomePermits [] r e = inl refl
addr_allowed-SomePermits (a ∷ allowlist) r e = inr (any_allows-SomePermits (a ∷ allowlist) r e)

resolve_tcp-IsConfigured :
    (t : Target) (address scheme rest : Bytes) (r : Resolved)
    → (address ≡ rest) ⊎ (address ≡ codes "http://" ++ rest) ⊎ (address ≡ codes "https://" ++ rest)
    → resolve_tcp t (scheme, rest) ≡ some r
    → IsConfigured t address r
unfolding resolve_tcp
resolve_tcp-IsConfigured t address scheme [] r from e = absurd (ground (arith, e))
resolve_tcp-IsConfigured t address scheme (x ∷ rest) r from e =
    let same : x ∷ rest ≡ r.address = ground (arith, e) in
    let no_slash : has_infix (x ∷ rest) (codes "/") ≡ false = ground (arith, e) in
    inr (ground (arith, e), ground (arith, same), rw (← same) no_slash, rw (← same) from)

stripped_cases :
    (address : Bytes) (https http : Option Bytes)
    → cut_prefix address (codes "https://") ≡ https
    → cut_prefix address (codes "http://") ≡ http
    → (let rest = (stripped address https http).1 in
        (address ≡ rest)
        ⊎ (address ≡ codes "http://" ++ rest)
        ⊎ (address ≡ codes "https://" ++ rest))
unfolding stripped
stripped_cases address (some rest) http e f =
    inr (inr (cut_prefix-append address (codes "https://") rest e))
stripped_cases address none (some rest) e f =
    inr (inl (cut_prefix-append address (codes "http://") rest f))
stripped_cases address none none e f = inl refl

resolve_cut-IsConfigured :
    (t : Target) (address : Bytes) (socket : Option Bytes) (r : Resolved)
    → cut_prefix address (codes "unix://") ≡ socket
    → resolve_cut t address socket ≡ some r
    → IsConfigured t address r
unfolding resolve_cut strip_scheme
resolve_cut-IsConfigured t address (some path) r cut e =
    let same : path ≡ r.address = ground (arith, e) in
    inl (
      cut_prefix-append address (codes "unix://") path cut ∙ ap (λ p. codes "unix://" ++ p) same,
      ground (arith, e),
    )
resolve_cut-IsConfigured t address none r cut e =
    let https = cut_prefix address (codes "https://") in
    let http = cut_prefix address (codes "http://") in
    let (scheme, rest) = stripped address https http in
    resolve_tcp-IsConfigured t address scheme rest r (stripped_cases address https http refl refl) e

permitted_cases :
    (allowlist : List Bytes) (o : Option Resolved) (r : Resolved)
    → permitted allowlist o ≡ some r
    → (o ≡ some r) × (addr_allowed allowlist r.network r.address ≡ true)
unfolding permitted
permitted_cases allowlist none r e = absurd (ground (arith, e))
permitted_cases allowlist (some q) r e =
    elim (chosen (addr_allowed allowlist q.network q.address) (some q) none (some r) e) [
      | inl (allowed, same) ↦ let it : q ≡ r = ground (arith, same) in (same, rw (← it) allowed)
      | inr (_, wrong) ↦ absurd (ground (arith, wrong))
    ]

-- What a HostDialer dials for a target is the address of the first of the target's keys that has a
-- route, or else the default one: the path of a Unix socket, or a host without a slash, after a
-- scheme or not. And the allowlist is empty, or one of its entries, trimmed, is that address, or the
-- socket's with unix://, or its host.
pub resolve-IsPermitted :
    (d : HostDialer) (t : Target) (r : Resolved)
    → resolve d t ≡ some r
    → IsConfigured t (routed d.routes d.default_address (route_keys t)) r
      × ((d.allowed_origins ≡ []) ⊎ SomePermits d.allowed_origins r)
unfolding resolve resolve_address
resolve-IsPermitted d t r e =
    let address = routed d.routes d.default_address (route_keys t) in
    let found = permitted d.allowed_origins (resolve_address t address) in
    elim (chosen (is_empty address) none found (some r) e) [
      | inl (_, wrong) ↦ absurd (ground (arith, wrong))
      | inr (_, allowed) ↦
          let (same, ok) =
            permitted_cases d.allowed_origins (resolve_address t address) r allowed in
          (
            resolve_cut-IsConfigured t address (cut_prefix address (codes "unix://")) r refl same,
            addr_allowed-SomePermits d.allowed_origins r ok,
          )
    ]
