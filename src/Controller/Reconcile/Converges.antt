-- ===== src/Controller/Reconcile/Converges.antt =====
-- What a successful run on the generic path of `Reconcile` leaves on the server.
use unbind_operator.Base.{◌≡◌, All, List, [], ◌∷◌}
use unbind_operator.Base.Outcome.{Outcome, ok, err, panic}
use unbind_operator.Api.{Service}
use unbind_operator.Client.{Client}
use unbind_operator.Client.View.{Tracked, View, IsKeyed}
use unbind_operator.Client.Frames.{IsStable, Framed}
use unbind_operator.Client.Stores.{Stores}
use unbind_operator.Client.Triples.{Triple, Triple-bind, Triple-weaken}
use unbind_operator.Client.Monad.{World}
use unbind_operator.Kube.{Deployment, CoreService}
use unbind_operator.Controller.Services.Ends.{HasService}
use unbind_operator.Builder.Deployment.{build_deployment}
use unbind_operator.Builder.Services.{build_services}
use unbind_operator.Builder.Ingress.{build_ingress}
use unbind_operator.Controller.Deployment.Ends.{DeploymentMatches, reconcile_deployment-Triple}
use unbind_operator.Controller.Services.Cleanup.{reconcile_services-Triple}
use unbind_operator.Controller.Services.Desired.{ServicesMatch}
use unbind_operator.Controller.Ingress.Ends.{IngressMatches, reconcile_ingress-Triple}
use unbind_operator.Controller.Reconcile.{reconcile_generic, new_resource_builder}
use unbind_operator.Controller.Reconcile.Fit.{HasRequestedPort, build_services-AreFit}

-- The abstract specification: the server has the deployment, the services and the ingress that the
-- builder makes of the service, and nothing under their names that it does not make. An empty map or
-- slice of the deployment is the same as nil here, since it is read back as nil.
pub record Matches (F : Type 0) (service : Service) (v : View) : Type 0 where
  pub deployment : DeploymentMatches {F = F} service (build_deployment service) v
  pub services : ServicesMatch {F = F} service (build_services service) v
  pub ingress : IngressMatches {F = F} service (build_ingress service) v

-- What other kinds of object have been brought to stays so.
DeploymentMatches-service :
    {F : Type 0} (service : Service) (r : Outcome F Deployment)
    → IsStable Tracked.core_service (DeploymentMatches service r)
DeploymentMatches-service service (ok d) namespace name entry v h = record {
  stored = h.stored;
  is_stored = h.is_stored;
  same_spec = h.same_spec;
  same_labels = h.same_labels;
}
DeploymentMatches-service service (err e) namespace name entry v h = h
DeploymentMatches-service service panic namespace name entry v h = h

DeploymentMatches-ingress :
    {F : Type 0} (service : Service) (r : Outcome F Deployment)
    → IsStable Tracked.ingress (DeploymentMatches service r)
DeploymentMatches-ingress service (ok d) namespace name entry v h = record {
  stored = h.stored;
  is_stored = h.is_stored;
  same_spec = h.same_spec;
  same_labels = h.same_labels;
}
DeploymentMatches-ingress service (err e) namespace name entry v h = h
DeploymentMatches-ingress service panic namespace name entry v h = h

HasServices-ingress :
    (ds : List CoreService) → IsStable Tracked.ingress (λ v. All (λ d. HasService d v) ds)
HasServices-ingress [] namespace name entry v h = tt
HasServices-ingress (d ∷ ds) namespace name entry v (h, hs) = (
  record {
    stored = h.stored;
    is_stored = h.is_stored;
    same_ports = h.same_ports;
    same_selector = h.same_selector;
    same_type = h.same_type;
  },
  HasServices-ingress ds namespace name entry v hs,
)

ServicesMatch-ingress :
    {F : Type 0} (service : Service) (r : Outcome F (List CoreService))
    → IsStable Tracked.ingress (ServicesMatch service r)
ServicesMatch-ingress service (ok ds) namespace name entry v (h, cleaned) =
    (HasServices-ingress ds namespace name entry v h, cleaned)
ServicesMatch-ingress service (err e) namespace name entry v h = h
ServicesMatch-ingress service panic namespace name entry v h = h

-- A property that does not depend on the objects of the generic path
abbrev pub IsIndependent : (View → Type 0) → Type 0
IsIndependent R =
    IsStable Tracked.deployment R × IsStable Tracked.core_service R × IsStable Tracked.ingress R

module _ {C : Client} (S : Stores C) (service : Service) where
  pub reconcile_generic-Triple :
      (R : View → Type 0)
      → IsIndependent R
      → All HasRequestedPort service.spec.config.ports
      → Triple S
          (Framed R)
          (reconcile_generic service)
          (λ _ v. Framed R v × Matches C.Failure service v)
  unfolding reconcile_generic new_resource_builder
  reconcile_generic-Triple R (deployments, core_services, ingresses) requested =
      let rb = new_resource_builder {F = C.Failure} service in
      Triple-bind S (reconcile_deployment-Triple S R deployments rb service) (λ _.
        Triple-bind S
          (Triple-weaken S (λ v ((keyed, r), d). (keyed, (r, d))) (λ _ v h. h)
            (reconcile_services-Triple S service
              (λ v. R v × DeploymentMatches service rb.build_deployment v)
              (λ namespace name entry v (r, d). (
                core_services namespace name entry v r,
                DeploymentMatches-service service rb.build_deployment namespace name entry v d,
              ))
              rb (build_services-AreFit service C.Failure requested)))
          (λ _.
            Triple-weaken S (λ v ((keyed, (r, d)), s). (keyed, (r, d, s)))
              (λ _ v ((keyed, (r, d, s)), i).
                ((keyed, r), record { deployment = d; services = s; ingress = i }))
              (reconcile_ingress-Triple S
                (λ v.
                  R v
                  × DeploymentMatches service rb.build_deployment v
                  × ServicesMatch service rb.build_services v)
                (λ namespace name entry v (r, d, s). (
                  ingresses namespace name entry v r,
                  DeploymentMatches-ingress service rb.build_deployment namespace name entry v d,
                  ServicesMatch-ingress service rb.build_services namespace name entry v s,
                ))
                rb service)))

  -- On a server with the effects of `Stores` that keeps every object under its own key, when the
  -- node ports that the specification asks for are not 0: if the generic path succeeds, the server
  -- has the built deployment (with nil for empty), services and ingress, none of them where the builder makes none, no
  -- other service of the two names, and is still keyed.
  pub reconcile_generic-Matches :
      (w : World C)
      → IsKeyed (S.view w.state)
      → All HasRequestedPort service.spec.config.ports
      → (reconcile_generic service w).0 ≡ ok tt
      → IsKeyed (S.view (reconcile_generic service w).1.state)
        × Matches C.Failure service (S.view (reconcile_generic service w).1.state)
  reconcile_generic-Matches w keyed requested e =
      let h =
        (reconcile_generic-Triple (λ _. Unit) (λ _ _ _ v u. u, λ _ _ _ v u. u, λ _ _ _ v u. u)
            requested).holds
          w tt (keyed, tt) e in
      (h.0.0, h.1)
