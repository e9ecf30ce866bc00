-- ===== src/Tests/Origin.antt =====
-- Runs of the model of internal/origin/dialer.go and of proxyToService, and the theorems at
-- concrete inputs.
use pipeops_k8_agent.Prelude.{◌≡◌, refl, ◌⊎◌, ◌↔◌, some, false, [], ◌∷◌, ℕ_discrete}
use pipeops_k8_agent.Prelude.Bytes.{codes, Bytes-discrete}
use pipeops_k8_agent.Prelude.Text.{cut_prefix, has_infix, trim_space, trim_left, trim_right}
use pipeops_k8_agent.Prelude.HostPort.{split_host_port, split_last}
use pipeops_k8_agent.Prelude.Map
use pipeops_k8_agent.Origin.Dialer.{
  Target, HostDialer, Resolved, cluster_dialer, resolve, routed, route_keys, resolve_address,
  resolve_cut, resolve_tcp, strip_scheme, stripped, permitted, addr_allowed, any_allows,
  entry_allows, service_keys,
}
use pipeops_k8_agent.Origin.Dialer.Permitted.{IsConfigured, SomePermits, resolve-IsPermitted}
use pipeops_k8_agent.Agent.ServiceProxy.{ProxyRequest, proxy_to_service}
use pipeops_k8_agent.Agent.ServiceProxy.Accepted.{
  IsAccepted, url_scheme, service_origin, proxy_to_service_iff,
}

abbrev local_dialer : HostDialer
local_dialer = record {
  default_address = codes "localhost:3000";
  routes = (codes "a.io", codes "https://localhost:8443") ∷ [];
  allowed_origins = codes " localhost " ∷ [];
}

abbrev a_io : Target
a_io = record {
  protocol = [];
  service_name = [];
  namespace = [];
  port = 0;
  hostname = codes "a.io";
}

abbrev a_io_resolved : Resolved
a_io_resolved = record {
  network = codes "tcp";
  address = codes "localhost:8443";
  scheme = codes "https";
}

a_io_found : resolve local_dialer a_io ≡ some a_io_resolved
unfolding resolve routed route_keys service_keys Map.lookup Bytes-discrete ℕ_discrete
    resolve_address resolve_cut resolve_tcp strip_scheme stripped cut_prefix has_infix permitted
    addr_allowed any_allows entry_allows trim_space trim_left trim_right split_host_port split_last
a_io_found = refl

resolve-IsPermitted_example :
    IsConfigured a_io
      (routed local_dialer.routes local_dialer.default_address (route_keys a_io))
      a_io_resolved
    × ((local_dialer.allowed_origins ≡ []) ⊎ SomePermits local_dialer.allowed_origins a_io_resolved)
resolve-IsPermitted_example = resolve-IsPermitted local_dialer a_io a_io_resolved a_io_found

abbrev web_request : ProxyRequest
web_request = record {
  service_name = codes "web-1";
  namespace = codes "shop";
  service_port = 80;
  path = codes "/x";
  scheme = codes "https";
  headers = [];
}

proxy_to_service_iff_example :
    (proxy_to_service (cluster_dialer (codes "cluster.local")) false false web_request
      ≡ some (codes "https", service_origin (codes "cluster.local") web_request))
    ↔ (IsAccepted web_request
        × (false ≡ false)
        × (false ≡ false)
        × (url_scheme web_request.scheme ≡ codes "https")
        × (service_origin (codes "cluster.local") web_request
            ≡ service_origin (codes "cluster.local") web_request))
proxy_to_service_iff_example =
    proxy_to_service_iff (codes "cluster.local") false false web_request (codes "https")
      (service_origin (codes "cluster.local") web_request)
