-- ===== src/Builder/Services/Ports.antt =====
-- The ports of the services of `BuildServices`.
use mathlib.Core.List.{append_assoc, append-nil}
use mathlib.Core.Path.{subst}
use unbind_operator.Base.{
  Bool, true, false, String, ◌<>◌, ℤ, pos, Option, none, some, List, [], ◌∷◌, ◌++◌, ◌≡◌, ◌≢◌, ◌∙◌,
  ◌⊎◌, inl, inr, ◌==◌, refl, sym, arith, ◌≤◌, length, length-append, All, is_some, deref_or,
  if◌then◌else◌,
}
use unbind_operator.Base.Text.{to_lower}
use unbind_operator.Base.Int.{format_int}
use unbind_operator.Base.Outcome.{ok}
use unbind_operator.Api.{Service, PortSpec}
use unbind_operator.Kube.{ServicePort, CoreService}
use unbind_operator.Builder.Labels.{build_object_meta}
use unbind_operator.Builder.Services.{
  service_port, group_port, group_ports, Groups, node_port_services, cluster_ip_services,
  build_services,
}

-- The port of a service for a port of the specification
abbrev pub full_port : Service → PortSpec → ServicePort
full_port service p = record {
  name =
      to_lower (service.spec.name <> "-" <> format_int p.port <> "-" <> deref_or p.protocol "TCP");
  protocol = deref_or p.protocol "TCP";
  port = p.port;
  target_port = p.port;
  node_port = deref_or p.node_port (pos 0);
}

-- One port for each port of the specification that asks for a node port, or that asks for none
unfoldable pub wanted_ports : Bool → Service → List PortSpec → List ServicePort
wanted_ports requested service [] = []
wanted_ports requested service (p ∷ ports) =
    let rest = wanted_ports requested service ports in
    if is_some p.node_port
    then (if requested then full_port service p ∷ rest else rest)
    else (if requested then rest else full_port service p ∷ rest)

-- The ports of the services of a type
unfoldable pub ports_of : String → List CoreService → List ServicePort
ports_of type [] = []
ports_of type (s ∷ services) =
    let rest = ports_of type services in if s.spec.type == type then s.spec.ports ++ rest else rest

-- A service is of one of the two types, has the name of its type, and has a port.
abbrev pub IsNamed : Service → CoreService → Type 0
IsNamed service s =
    (((s.spec.type ≡ "NodePort") × (s.meta.name ≡ service.name <> "-nodeport"))
      ⊎ ((s.spec.type ≡ "") × (s.meta.name ≡ service.name)))
    × (s.spec.ports ≢ [])

module _ (service : Service) where
  group_port-wanted :
      (p : PortSpec) (n : Option ℤ) (g : Groups)
      → p.node_port ≡ n
      → (ports : List PortSpec)
      → ((group_port service p n g).0 ++ wanted_ports true service ports
          ≡ g.0 ++ wanted_ports true service (p ∷ ports))
        × ((group_port service p n g).1 ++ wanted_ports false service ports
            ≡ g.1 ++ wanted_ports false service (p ∷ ports))
  unfolding wanted_ports service_port
  group_port-wanted p none (a, b) e ports = (rw e refl, rw e (simp append_assoc refl))
  group_port-wanted p (some n) (a, b) e ports = (rw e (simp append_assoc refl), rw e refl)

  group_ports-wanted :
      (ports : List PortSpec) (g : Groups)
      → ((group_ports service ports g).0 ≡ g.0 ++ wanted_ports true service ports)
        × ((group_ports service ports g).1 ≡ g.1 ++ wanted_ports false service ports)
  unfolding group_ports wanted_ports
  group_ports-wanted [] (a, b) = (sym (append-nil a), sym (append-nil b))
  group_ports-wanted (p ∷ ports) g =
      let (e, e') = group_ports-wanted ports (group_port service p p.node_port g) in
      let (h, h') = group_port-wanted p p.node_port g refl ports in (e ∙ h, e' ∙ h')

  built-ports :
      (a b : List ServicePort)
      → (ports_of "NodePort" (node_port_services service a ++ cluster_ip_services service b) ≡ a)
        × (ports_of "" (node_port_services service a ++ cluster_ip_services service b) ≡ b)
  unfolding ports_of
  built-ports [] [] = (refl, refl)
  built-ports [] (p ∷ b) = (refl, append-nil (p ∷ b))
  built-ports (p ∷ a) [] = (append-nil (p ∷ a), refl)
  built-ports (p ∷ a) (q ∷ b) = (append-nil (p ∷ a), append-nil (q ∷ b))

  built-IsNamed :
      (a b : List ServicePort)
      → All (IsNamed service) (node_port_services service a ++ cluster_ip_services service b)
  unfolding build_object_meta
  built-IsNamed [] [] = tt
  built-IsNamed [] (p ∷ b) = ((inr (refl, refl), λ e. ground arith), tt)
  built-IsNamed (p ∷ a) [] = ((inl (refl, refl), λ e. ground arith), tt)
  built-IsNamed (p ∷ a) (q ∷ b) =
      ((inl (refl, refl), λ e. ground arith), ((inr (refl, refl), λ e. ground arith), tt))

-- What the built services offer
pub record Offers (service : Service) (services : List CoreService) : Type 0 where
  pub requested : ports_of "NodePort" services ≡ wanted_ports true service service.spec.config.ports
  pub others : ports_of "" services ≡ wanted_ports false service service.spec.config.ports
  pub named : All (IsNamed service) services

-- If `BuildServices` succeeds, each service that it returns has a port, and is either of the type
-- NodePort, with `-nodeport` after its name, or of no type and named as the service. The ports of the
-- former are, in order, one for each port of the specification with a node port, those of the latter
-- one for each port without. Each has the number, the protocol (TCP by default), the node port (0 by
-- default) of the specification, and the name, the number and the protocol as its name.
pub build_services-ports :
    {F : Type 0} (service : Service) (services : List CoreService)
    → build_services {F = F} service ≡ ok services
    → Offers service services
unfolding build_services
build_services-ports service services h =
    let g = group_ports service service.spec.config.ports ([], []) in
    let e : node_port_services service g.0 ++ cluster_ip_services service g.1 ≡ services =
      ground arith in
    let (ports, ports') = built-ports service g.0 g.1 in
    let (wanted, wanted') = group_ports-wanted service service.spec.config.ports ([], []) in
    subst (Offers service) e (record {
      requested = ports ∙ wanted;
      others = ports' ∙ wanted';
      named = built-IsNamed service g.0 g.1;
    })

node_port_services-length :
    (service : Service) (ports : List ServicePort) → length (node_port_services service ports) ≤ 1
node_port_services-length service [] = omega arith
node_port_services-length service (_ ∷ _) = omega arith

cluster_ip_services-length :
    (service : Service) (ports : List ServicePort) → length (cluster_ip_services service ports) ≤ 1
cluster_ip_services-length service [] = omega arith
cluster_ip_services-length service (_ ∷ _) = omega arith

-- The builder makes at most two services.
pub build_services-length :
    {F : Type 0} (service : Service) (services : List CoreService)
    → build_services {F = F} service ≡ ok services
    → length services ≤ 2
unfolding build_services
build_services-length service services h =
    let g = group_ports service service.spec.config.ports ([], []) in
    let e : node_port_services service g.0 ++ cluster_ip_services service g.1 ≡ services =
      ground arith in
    rw (← e) (
      omega (
        arith,
        length-append (node_port_services service g.0) (cluster_ip_services service g.1),
        node_port_services-length service g.0,
        cluster_ip_services-length service g.1,
      ))
