-- ===== src/Controller/Reconcile/Built.antt =====
-- What the builders can answer to the reconciler.
use unbind_operator.Base.{
  ◌≡◌, Bool, refl, inl, inr, true, false, Option, none, some, List, [], ◌∷◌, ◌++◌, Bool-cases, ◌==◌,
  ◌||◌, not, is_empty, if◌then◌else◌,
}
use unbind_operator.Base.Outcome.{
  ok, err, panic, deployment_not_needed, service_not_needed, ingress_not_needed,
}
use unbind_operator.Api.{Service, PortSpec}
use unbind_operator.Kube.{Deployment, ServicePort}
use unbind_operator.Client.View.{View}
use unbind_operator.Builder.Deployment.{assemble, or_panic, build_deployment}
use unbind_operator.Builder.Services.{
  group_ports, node_port_services, cluster_ip_services, build_services,
}
use unbind_operator.Builder.Ingress.{with_first_port, build_ingress}
use unbind_operator.Controller.Retry.Runs.{IsBuilt}
use unbind_operator.Controller.Services.Runs.{BuiltMore}

module _ (F : Type 0) (service : Service) where
  assembled :
      (no_image : Bool) (r : Option Deployment)
      → ¬ ((if no_image then err deployment_not_needed else or_panic service {F = F} r) ≡ panic)
      → IsBuilt {F = F} deployment_not_needed
          (if no_image then err deployment_not_needed else or_panic service {F = F} r)
  assembled true r no_panic = refl
  assembled false none no_panic = no_panic refl
  assembled false (some d) no_panic = tt

  pub build_deployment-IsBuilt :
      ¬ (build_deployment service {F = F} ≡ panic)
      → IsBuilt deployment_not_needed (build_deployment service {F = F})
  unfolding build_deployment
  build_deployment-IsBuilt no_panic =
      assembled (service.spec.config.image == "") (assemble service) no_panic

  pub build_services-IsBuilt : IsBuilt service_not_needed (build_services {F = F} service)
  unfolding build_services
  build_services-IsBuilt = elim (Bool-cases (is_empty service.spec.config.ports)) [
    | inl e ↦ rw e refl
    | inr e ↦ rw e tt
  ]

  chosen :
      (ports : List PortSpec) → IsBuilt {F = F} ingress_not_needed (with_first_port service ports)
  chosen [] = refl
  chosen (port ∷ ports) =
      elim (Bool-cases (is_empty service.spec.config.hosts || not service.spec.config.public)) [
        | inl e ↦ rw e refl
        | inr e ↦ rw e tt
      ]

  pub build_ingress-IsBuilt : IsBuilt ingress_not_needed (build_ingress {F = F} service)
  unfolding build_ingress
  build_ingress-IsBuilt = chosen service.spec.config.ports

  two_services :
      (ps qs : List ServicePort) (v : View)
      → ¬ BuiltMore {F = F} 2
          (ok (node_port_services service ps ++ cluster_ip_services service qs))
          v
  two_services [] [] v h = h
  two_services [] (q ∷ qs) v h = h.1
  two_services (p ∷ ps) [] v h = h.1
  two_services (p ∷ ps) (q ∷ qs) v h = h.1.1

  -- There are at most two services.
  pub build_services-two : (v : View) → ¬ BuiltMore 2 (build_services {F = F} service) v
  unfolding build_services
  build_services-two v =
      let g = group_ports service service.spec.config.ports ([], []) in
      elim (Bool-cases (is_empty service.spec.config.ports)) [
        | inl e ↦ rw e (λ h. h)
        | inr e ↦ rw e (two_services g.0 g.1 v)
      ]
