-- ===== src/Agent/ServiceProxy.antt =====
-- The checks of proxyToService of internal/agent/agent.go on a request, and the address that it asks
-- the origin dialer for. Go's
-- net/url parses the query and encodes it again; whether it refuses the query is an argument.
pub mod Labels
pub mod Paths
pub mod Accepted
use pipeops_k8_agent.Prelude.{
  ℕ, ◌+◌, ◌-◌, Bool, true, false, not, ◌&&◌, ◌||◌, ◌==◌, ltb, leb, Option, none, some, List, [],
  ◌∷◌, length, if◌then◌else◌,
}
use pipeops_k8_agent.Prelude.Bytes.{Bytes, Bytes-discrete, bytes_eq, codes}
use pipeops_k8_agent.Prelude.Text.{has_prefix, has_infix}
use pipeops_k8_agent.Prelude.Map
use pipeops_k8_agent.Prelude.Map.{Map}
use pipeops_k8_agent.Origin.Dialer.{Target, HttpOrigin, Dialer, http_origin}

pub record ProxyRequest : Type 0 where
  pub service_name : Bytes
  pub namespace : Bytes
  pub service_port : ℕ
  pub path : Bytes
  pub scheme : Bytes
  pub headers : Map Bytes (List Bytes)

abbrev is_between : ℕ → ℕ → ℕ → Bool
is_between low high x = leb low x && leb x high

-- A lower case letter, a digit or a hyphen.
abbrev pub is_label_char : ℕ → Bool
is_label_char r = is_between b'a' b'z' r || is_between b'0' b'9' r || r == b'-'

-- The loop over a name of n bytes from position i.
unfoldable pub valid_from : ℕ → ℕ → Bytes → Bool
valid_from n i [] = true
valid_from n i (r ∷ rs) =
    let later = valid_from n (i + 1) rs in
    is_label_char r && not (i == 0 && r == b'-') && not (i == n - 1 && r == b'-') && later

unfoldable pub validate_service_name : Bytes → Bool
validate_service_name [] = false
validate_service_name (r ∷ rs) =
    not (ltb 253 (length (r ∷ rs))) && valid_from (length (r ∷ rs)) 0 (r ∷ rs)

unfoldable pub validate_namespace : Bytes → Bool
validate_namespace [] = false
validate_namespace (r ∷ rs) =
    not (ltb 253 (length (r ∷ rs))) && valid_from (length (r ∷ rs)) 0 (r ∷ rs)

-- A negative port is 0 here.
unfoldable pub validate_service_port : ℕ → Bool
validate_service_port port = not (ltb port 1 || ltb 65535 port)

unfoldable pub validate_path : Bytes → Bool
validate_path path =
    not (not (bytes_eq path []) && not (has_prefix path (codes "/")))
    && not (has_infix path (codes ".."))
    && not (has_infix path (codes "://"))

abbrev value_or : Option (List Bytes) → Bytes → Bytes
value_or none later = later
value_or (some []) later = later
value_or (some ([] ∷ values)) later = later
value_or (some ((x ∷ value) ∷ values)) later = x ∷ value

-- The first value of the first of these headers that has one.
unfoldable pub first_header : Map Bytes (List Bytes) → List Bytes → Bytes
first_header headers [] = []
first_header headers (k ∷ ks) =
    let later = first_header headers ks in value_or (Map.lookup Bytes-discrete k headers) later

unfoldable pub request_host : ProxyRequest → Bytes
request_host req =
    first_header req.headers (codes "Host" ∷ codes "host" ∷ codes "X-Forwarded-Host" ∷ [])

-- The target of the request, `none` if a check refuses it.
unfoldable pub proxy_target : ProxyRequest → Option Target
proxy_target req =
    if validate_service_name req.service_name
      && validate_namespace req.namespace
      && validate_service_port req.service_port
      && validate_path req.path
    then some (record {
      protocol = [];
      service_name = req.service_name;
      namespace = req.namespace;
      port = req.service_port;
      hostname = request_host req;
    })
    else none

abbrev scheme_or : Bytes → Bytes → Bytes
scheme_or requested [] = if bytes_eq requested (codes "https") then codes "https" else codes "http"
scheme_or requested (x ∷ pinned) = x ∷ pinned

-- The scheme of the URL, and where the HTTP client connects.
unfoldable pub proxied_to : Bool → ProxyRequest → Option HttpOrigin → Option (Bytes × HttpOrigin)
proxied_to refused req none = none
proxied_to true req (some o) = none
proxied_to false req (some o) = some (scheme_or req.scheme o.scheme, o)

unfoldable pub origin_for : Dialer → Option Target → Option HttpOrigin
origin_for d none = none
origin_for d (some t) = http_origin d t

-- `query_fails` is whether the query cannot be parsed, and `request_fails` whether
-- http.NewRequestWithContext refuses the method or the URL.
unfoldable pub proxy_to_service : Dialer → Bool → Bool → ProxyRequest → Option (Bytes × HttpOrigin)
proxy_to_service d query_fails request_fails req =
    proxied_to (query_fails || request_fails) req (origin_for d (proxy_target req))
