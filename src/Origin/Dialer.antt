-- ===== src/Origin/Dialer.antt =====
-- The dialers of internal/origin/dialer.go up to the call that connects. A dialer is its settings; an
-- entry of the allowlist is trimmed of ASCII white space.
pub mod Permitted
use pipeops_k8_agent.Prelude.{
  ℕ, suc, ◌+◌, Bool, true, false, not, ◌&&◌, ◌||◌, ◌==◌, Option, none, some, List, [], ◌∷◌, ◌++◌,
  length, if◌then◌else◌,
}
use pipeops_k8_agent.Prelude.Bytes.{is_empty, Bytes, Bytes-discrete, bytes_eq, codes}
use pipeops_k8_agent.Prelude.Text.{has_infix, before, cut_prefix, trim_space, decimal}
use pipeops_k8_agent.Prelude.HostPort.{split_host_port}
use pipeops_k8_agent.Prelude.Map
use pipeops_k8_agent.Prelude.Map.{Map}

pub record Target : Type 0 where
  pub protocol : Bytes
  pub service_name : Bytes
  pub namespace : Bytes
  pub port : ℕ
  pub hostname : Bytes

pub record HttpOrigin : Type 0 where
  pub url_host : Bytes
  pub network : Bytes
  pub address : Bytes
  pub scheme : Bytes

pub record HostDialer : Type 0 where
  pub default_address : Bytes
  pub routes : Map Bytes Bytes
  pub allowed_origins : List Bytes

-- ClusterDialer with its domain, or HostDialer.
pub data Dialer : Type 0 where
  cluster_dialer : Bytes → Dialer
  host_dialer : HostDialer → Dialer

unfoldable pub new_cluster_dialer : Bytes → Dialer
new_cluster_dialer domain =
    cluster_dialer (if is_empty domain then codes "cluster.local" else domain)

unfoldable pub fqdn : Bytes → Target → Option Bytes
fqdn domain t =
    if is_empty t.service_name || is_empty t.namespace
    then none
    else some (t.service_name ++ b'.' ∷ t.namespace ++ codes ".svc." ++ domain)

unfoldable pub with_port : ℕ → Option Bytes → Option Bytes
with_port port none = none
with_port port (some host) = some (host ++ b':' ∷ decimal port)

-- HTTPHostPort of a ClusterDialer.
unfoldable pub cluster_host_port : Bytes → Target → Option Bytes
cluster_host_port domain t = with_port t.port (fqdn domain t)

-- What resolve returns: network, address and scheme.
pub record Resolved : Type 0 where
  pub network : Bytes
  pub address : Bytes
  pub scheme : Bytes

unfoldable pub service_keys : Target → List Bytes
service_keys t =
    if is_empty t.service_name
    then []
    else t.service_name
      ∷ (if is_empty t.namespace then [] else (t.service_name ++ b'.' ∷ t.namespace) ∷ [])

unfoldable pub route_keys : Target → List Bytes
route_keys t = let keys = service_keys t in if is_empty t.hostname then keys else t.hostname ∷ keys

-- The address of the first key that has a route, or else the default one.
unfoldable pub routed : Map Bytes Bytes → Bytes → List Bytes → Bytes
routed routes default [] = default
routed routes default (k ∷ keys) =
    let later = routed routes default keys in
    elim (Map.lookup Bytes-discrete k routes) [ none ↦ later | some address ↦ address ]

-- The scheme that a route pins, and the rest of its address.
unfoldable pub stripped : Bytes → Option Bytes → Option Bytes → Bytes × Bytes
stripped address (some rest) http = (codes "https", rest)
stripped address none (some rest) = (codes "http", rest)
stripped address none none = ([], address)

unfoldable pub strip_scheme : Bytes → Bytes × Bytes
strip_scheme address =
    stripped address (cut_prefix address (codes "https://")) (cut_prefix address (codes "http://"))

abbrev pub or_tcp : Bytes → Bytes
or_tcp [] = codes "tcp"
or_tcp (x ∷ protocol) = x ∷ protocol

unfoldable pub resolve_tcp : Target → Bytes × Bytes → Option Resolved
resolve_tcp t (scheme, address) =
    if is_empty address || has_infix address (codes "/")
    then none
    else some (record { network = or_tcp t.protocol; address = address; scheme = scheme })

-- An address, and what follows its unix:// if it starts so.
unfoldable pub resolve_cut : Target → Bytes → Option Bytes → Option Resolved
resolve_cut t address (some socket) =
    some (record { network = codes "unix"; address = socket; scheme = [] })
resolve_cut t address none = resolve_tcp t (strip_scheme address)

unfoldable pub resolve_address : Target → Bytes → Option Resolved
resolve_address t address = resolve_cut t address (cut_prefix address (codes "unix://"))

abbrev pub rest_or : Bytes → Option Bytes → Bytes
rest_or s none = s
rest_or s (some rest) = rest

unfoldable pub trim_prefix : Bytes → Bytes → Bytes
trim_prefix s p = rest_or s (cut_prefix s p)

abbrev pub is_host : Option Bytes → Bytes → Bool
is_host none a = false
is_host (some host) a = bytes_eq host a

-- An entry of the allowlist, trimmed.
unfoldable pub entry_allows : Bytes → Bytes → Bytes → Bool
entry_allows network address a =
    if is_empty a
    then false
    else if bytes_eq network (codes "unix")
    then bytes_eq a address || bytes_eq (trim_prefix a (codes "unix://")) address
    else bytes_eq a address || is_host (split_host_port address) a

unfoldable pub any_allows : Bytes → Bytes → List Bytes → Bool
any_allows network address [] = false
any_allows network address (a ∷ allowlist) =
    entry_allows network address (trim_space a) || any_allows network address allowlist

unfoldable pub addr_allowed : List Bytes → Bytes → Bytes → Bool
addr_allowed [] network address = true
addr_allowed (a ∷ allowlist) network address = any_allows network address (a ∷ allowlist)

unfoldable pub permitted : List Bytes → Option Resolved → Option Resolved
permitted allowlist none = none
permitted allowlist (some r) = if addr_allowed allowlist r.network r.address then some r else none

unfoldable pub resolve : HostDialer → Target → Option Resolved
resolve d t =
    let address = routed d.routes d.default_address (route_keys t) in
    if is_empty address then none else permitted d.allowed_origins (resolve_address t address)

abbrev placeholder_host : Bytes
placeholder_host = codes "unix-origin.invalid"

unfoldable pub origin_of : Resolved → HttpOrigin
origin_of r =
    if bytes_eq r.network (codes "unix")
    then record {
      url_host = placeholder_host;
      network = codes "unix";
      address = r.address;
      scheme = r.scheme;
    }
    else record {
      url_host = r.address;
      network = codes "tcp";
      address = r.address;
      scheme = r.scheme;
    }

abbrev origin_or_none : Option Resolved → Option HttpOrigin
origin_or_none none = none
origin_or_none (some r) = some (origin_of r)

abbrev pub cluster_origin : Option Bytes → Option HttpOrigin
cluster_origin none = none
cluster_origin (some address) =
    some (record { url_host = address; network = codes "tcp"; address = address; scheme = [] })

unfoldable pub http_origin : Dialer → Target → Option HttpOrigin
http_origin (cluster_dialer domain) t = cluster_origin (cluster_host_port domain t)
http_origin (host_dialer d) t = origin_or_none (resolve d t)

-- What DialContext connects to: the network and the address.
unfoldable pub dialled : Dialer → Target → Option (Bytes × Bytes)
dialled (cluster_dialer domain) t = elim (cluster_host_port domain t) [
  | none ↦ none
  | some address ↦ some (or_tcp t.protocol, address)
]
dialled (host_dialer d) t = elim (resolve d t) [
  | none ↦ none
  | some r ↦ some (r.network, r.address)
]
