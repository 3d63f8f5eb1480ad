-- ===== src/Builder/Ingress.antt =====
-- `BuildIngress` of internal/resourcebuilder/ingress.go.
pub mod Rules
use unbind_operator.Base.{
  String, ◌<>◌, ℤ, not, ◌||◌, List, [], ◌∷◌, map, deref_or, if◌then◌else◌, is_empty, ◌==◌,
}
use unbind_operator.Base.Text.{to_lower}
use unbind_operator.Base.Outcome.{Outcome, ok, err, ingress_not_needed}
use unbind_operator.Api.{Service, HostSpec, PortSpec}
use unbind_operator.Kube.{IngressRule, Ingress}
use unbind_operator.Kube.Dynamic.{null}
use unbind_operator.Builder.Labels.{get_common_labels, build_ingress_annotations}

-- The rule of a host: its own port or the default one, its own path or "/".
unfoldable pub ingress_rule : Service → ℤ → HostSpec → IngressRule
ingress_rule service default_port host = record {
  host = host.host;
  path = if host.path == "" then "/" else host.path;
  path_type = "Prefix";
  backend_name = service.name;
  backend_port = deref_or host.port default_port;
}

abbrev pub tls_host : HostSpec → String
tls_host host = host.host

abbrev pub ingress_of : Service → ℤ → Ingress
ingress_of service default_port = record {
  meta = record {
    name = service.name;
    namespace = service.namespace;
    labels = get_common_labels service;
    annotations = build_ingress_annotations service;
    owner_references = [];
  };
  spec = record {
    ingress_class_name = "nginx";
    tls_hosts = map tls_host service.spec.config.hosts;
    tls_secret_name = to_lower service.name <> "-tls-secret";
    rules = map (ingress_rule service default_port) service.spec.config.hosts;
    extra = null;
  };
}

abbrev pub with_first_port : {F : Type 0} → Service → List PortSpec → Outcome F Ingress
with_first_port service [] = err ingress_not_needed
with_first_port service (port ∷ _) =
    if is_empty service.spec.config.hosts || not service.spec.config.public
    then err ingress_not_needed
    else ok (ingress_of service port.port)

-- `BuildIngress`; it needs a host, a port and a public service.
unfoldable pub build_ingress : {F : Type 0} → Service → Outcome F Ingress
unfolding ingress_rule
build_ingress service = with_first_port service service.spec.config.ports
