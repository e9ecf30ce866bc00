-- ===== src/Agent/ServiceProxy/Accepted.antt =====
-- Which requests proxyToService accepts in a cluster, and where they go.
use pipeops_k8_agent.Prelude.{
  ◌≤◌, ◌≡◌, refl, sym, ◌∙◌, ap, ◌≢◌, ◌↔◌, inl, inr, Bool, true, false, ◌&&◌, ◌||◌, Option, none,
  some, [], ◌∷◌, ◌++◌, if◌then◌else◌, arith, Bool-cases,
}
use mathlib.Core.Option.{some-injective}
use pipeops_k8_agent.Prelude.Bytes.{Bytes, bytes_eq, codes}
use pipeops_k8_agent.Prelude.Text.{decimal}
use pipeops_k8_agent.Prelude.Bytes.{is_empty}
use pipeops_k8_agent.Origin.Dialer.{
  Target, HttpOrigin, cluster_dialer, http_origin, cluster_origin, cluster_host_port, fqdn,
  with_port,
}
use pipeops_k8_agent.Agent.ServiceProxy.{
  ProxyRequest, validate_service_name, validate_namespace, validate_service_port, validate_path,
  proxy_target, proxied_to, origin_for, proxy_to_service, request_host,
}
use pipeops_k8_agent.Agent.ServiceProxy.Labels.{
  IsLabel, validate_service_name_iff, validate_namespace_iff,
}
use pipeops_k8_agent.Agent.ServiceProxy.Paths.{IsSafePath, validate_path_iff}

-- What the four checks accept.
abbrev pub IsAccepted : ProxyRequest → Type 0
IsAccepted req =
    IsLabel req.service_name
    × IsLabel req.namespace
    × ((1 ≤ req.service_port) × (req.service_port ≤ 65535))
    × IsSafePath req.path

checks_iff :
    (req : ProxyRequest)
    → ((validate_service_name req.service_name
          && validate_namespace req.namespace
          && validate_service_port req.service_port
          && validate_path req.path)
        ≡ true)
      ↔ IsAccepted req
unfolding validate_service_port
checks_iff req =
    let name = validate_service_name_iff req.service_name in
    let namespace = validate_namespace_iff req.namespace in
    let path = validate_path_iff req.path in
    (
      λ e. (
        name.0 (ground (arith, e)),
        namespace.0 (ground (arith, e)),
        ground (arith, e),
        path.0 (ground (arith, e)),
      ),
      λ (n, s, p, q).
          let n' = name.1 n in
          let s' = namespace.1 s in let q' = path.1 q in ground (arith, n', s', p, q'),
    )

-- <service>.<namespace>.svc.<domain>:<port>
abbrev pub service_host : Bytes → ProxyRequest → Bytes
service_host domain req = req.service_name ++ b'.' ∷ req.namespace ++ codes ".svc." ++ domain

abbrev pub service_address : Bytes → ProxyRequest → Bytes
service_address domain req = service_host domain req ++ b':' ∷ decimal req.service_port

abbrev pub service_origin : Bytes → ProxyRequest → HttpOrigin
service_origin domain req = record {
  url_host = service_address domain req;
  network = codes "tcp";
  address = service_address domain req;
  scheme = [];
}

abbrev pub url_scheme : Bytes → Bytes
url_scheme scheme = if bytes_eq scheme (codes "https") then codes "https" else codes "http"

not_empty : (b : Bytes) → b ≢ [] → is_empty b ≡ false
not_empty [] h = absurd (h refl)
not_empty (x ∷ b) h = refl

checks : ProxyRequest → Bool
checks req =
    validate_service_name req.service_name
    && validate_namespace req.namespace
    && validate_service_port req.service_port
    && validate_path req.path

fqdn_lem :
    (domain : Bytes) (t : Target)
    → is_empty t.service_name ≡ false
    → is_empty t.namespace ≡ false
    → fqdn domain t ≡ some (t.service_name ++ b'.' ∷ t.namespace ++ codes ".svc." ++ domain)
unfolding fqdn
fqdn_lem domain t n s = rw (n, s) refl

origin_for_lem :
    (domain : Bytes) (req : ProxyRequest) (t : Target)
    → fqdn domain t ≡ some (req.service_name ++ b'.' ∷ req.namespace ++ codes ".svc." ++ domain)
    → t.port ≡ req.service_port
    → origin_for (cluster_dialer domain) (some t) ≡ some (service_origin domain req)
unfolding origin_for http_origin cluster_host_port with_port
origin_for_lem domain req t f p =
    ap (λ host. cluster_origin (with_port t.port host)) f
    ∙ ap (λ port. cluster_origin (with_port port (some (service_host domain req)))) p

proxied_accepted :
    (domain : Bytes) (req : ProxyRequest)
    → checks req ≡ true
    → req.service_name ≢ []
    → req.namespace ≢ []
    → proxy_to_service (cluster_dialer domain) false false req
      ≡ some (url_scheme req.scheme, service_origin domain req)
unfolding proxy_to_service proxy_target checks proxied_to
proxied_accepted domain req e n s =
    let n' = not_empty req.service_name n in
    let s' = not_empty req.namespace s in
    let target : Target = record {
      protocol = [];
      service_name = req.service_name;
      namespace = req.namespace;
      port = req.service_port;
      hostname = request_host req;
    } in
    rw e (
      ap (proxied_to false req)
        (origin_for_lem domain req target (fqdn_lem domain target n' s') refl))

proxied_refused :
    (domain : Bytes) (query_fails request_fails : Bool) (req : ProxyRequest)
    → checks req ≡ false
    → proxy_to_service (cluster_dialer domain) query_fails request_fails req ≡ none
unfolding proxy_to_service proxy_target checks
proxied_refused domain query_fails request_fails req e = rw e (unfold origin_for proxied_to in refl)

unreadable : (req : ProxyRequest) (o : Option HttpOrigin) → proxied_to true req o ≡ none
unfolding proxied_to
unreadable req none = refl
unreadable req (some o) = refl

no_request :
    (domain : Bytes) (query_fails request_fails : Bool) (req : ProxyRequest)
    → (query_fails || request_fails) ≡ true
    → proxy_to_service (cluster_dialer domain) query_fails request_fails req ≡ none
unfolding proxy_to_service
no_request domain query_fails request_fails req e =
    rw e (unreadable req (origin_for (cluster_dialer domain) (proxy_target req)))

-- In a cluster, proxyToService makes its request exactly when the names of its service and its
-- namespace are labels of lower case letters, digits and inner hyphens, of 1 to 253 bytes, its port
-- is one of 1 to 65535, its path is empty or from the root, without ".." and "://", its query can be
-- parsed, and net/http takes its method and its URL. A path may have an "@". The request goes to
-- <service>.<namespace>.svc.<domain>:<port>, with https exactly if it says so.
pub proxy_to_service_iff :
    (domain : Bytes) (query_fails request_fails : Bool) (req : ProxyRequest) (scheme : Bytes)
    (o : HttpOrigin)
    → (proxy_to_service (cluster_dialer domain) query_fails request_fails req ≡ some (scheme, o))
      ↔ (IsAccepted req
          × (query_fails ≡ false)
          × (request_fails ≡ false)
          × (url_scheme req.scheme ≡ scheme)
          × (service_origin domain req ≡ o))
proxy_to_service_iff domain true request_fails req scheme o = (
  λ e. absurd (ground (arith, sym (no_request domain true request_fails req refl) ∙ e)),
  λ (ok, q, f, p, r). absurd (ground (arith, q)),
)
proxy_to_service_iff domain false true req scheme o = (
  λ e. absurd (ground (arith, sym (no_request domain false true req refl) ∙ e)),
  λ (ok, q, f, p, r). absurd (ground (arith, f)),
)
proxy_to_service_iff domain false false req scheme o = (
  λ e. elim (Bool-cases (checks req)) [
    | inl c ↦
        let ok : IsAccepted req = (checks_iff req).0 (unfold checks in c) in
        let same =
          some-injective (url_scheme req.scheme, service_origin domain req) (scheme, o)
            (sym (proxied_accepted domain req c ok.0.0 ok.1.0) ∙ e) in
        (ok, refl, refl, ap (λ x. x.0) same, ap (λ x. x.1) same)
    | inr c ↦ absurd (ground (arith, sym (proxied_refused domain false false req c) ∙ e))
  ],
  λ (ok, _, _, p, q).
      let c : checks req ≡ true = unfold checks in (checks_iff req).1 ok in
      proxied_accepted domain req c ok.0.0 ok.1.0
      ∙ ap (λ x. some (x, service_origin domain req)) p
      ∙ ap (λ y. some (scheme, y)) q,
)
