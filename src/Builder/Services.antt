-- ===== src/Builder/Services.antt =====
-- `BuildServices` of internal/resourcebuilder/service.go.
pub mod Ports
use unbind_operator.Base.{
  ◌<>◌, ℤ, pos, Option, none, some, List, [], ◌∷◌, ◌++◌, deref_or, if◌then◌else◌, is_empty,
}
use unbind_operator.Base.Text.{to_lower}
use unbind_operator.Base.Int.{format_int}
use unbind_operator.Base.Outcome.{Outcome, ok, err, service_not_needed}
use unbind_operator.Api.{Service, PortSpec}
use unbind_operator.Kube.{ServicePort, CoreService}
use unbind_operator.Kube.Dynamic.{null}
use unbind_operator.Builder.Labels.{get_label_selectors, build_object_meta}

-- The `servicePort` of the loop, before its node port is set.
unfoldable pub service_port : Service → PortSpec → ServicePort
service_port service port =
    let protocol = deref_or port.protocol "TCP" in
    record {
      name = to_lower (service.spec.name <> "-" <> format_int port.port <> "-" <> protocol);
      protocol = protocol;
      port = port.port;
      target_port = port.port;
      node_port = pos 0;
    }

abbrev pub Groups : Type 0
Groups = List ServicePort × List ServicePort

-- The body of the loop, on `nodePortPorts` and `clusterIPPorts`
abbrev pub group_port : Service → PortSpec → Option ℤ → Groups → Groups
group_port service port none (node_ports, cluster_ip_ports) =
    (node_ports, cluster_ip_ports ++ (service_port service port ∷ []))
group_port service port (some n) (node_ports, cluster_ip_ports) =
    (node_ports ++ (record (service_port service port) { node_port = n } ∷ []), cluster_ip_ports)

unfoldable pub group_ports : Service → List PortSpec → Groups → Groups
group_ports service [] groups = groups
group_ports service (port ∷ ports) groups =
    group_ports service ports (group_port service port port.node_port groups)

abbrev pub node_port_services : Service → List ServicePort → List CoreService
node_port_services service ports =
    if is_empty ports
    then []
    else record {
      meta = record (build_object_meta service) { name = service.name <> "-nodeport" };
      spec = record {
        type = "NodePort";
        selector = get_label_selectors service;
        ports = ports;
        cluster_ip = "";
        extra = null;
      };
    }
      ∷ []

abbrev pub cluster_ip_services : Service → List ServicePort → List CoreService
cluster_ip_services service ports =
    if is_empty ports
    then []
    else record {
      meta = build_object_meta service;
      spec = record {
        type = "";
        selector = get_label_selectors service;
        ports = ports;
        cluster_ip = "";
        extra = null;
      };
    }
      ∷ []

-- `BuildServices`
unfoldable pub build_services : {F : Type 0} → Service → Outcome F (List CoreService)
unfolding group_ports
build_services service =
    if is_empty service.spec.config.ports
    then err service_not_needed
    else let (node_ports, cluster_ip_ports) =
        group_ports service service.spec.config.ports ([], []) in
      ok (node_port_services service node_ports ++ cluster_ip_services service cluster_ip_ports)
