-- ===== src/Controller/Reconcile/Settles.antt =====
-- What a successful run of `Reconcile` leaves on the server for a service of the generic path.
use unbind_operator.Base.{
  ◌≡◌, refl, ◌∙◌, ap, arith, true, false, not, some, All, List, [], ◌∷◌, ◌==◌, eq_iff,
}
use unbind_operator.Base.Equal.{deep_equal_iff}
use unbind_operator.Base.Outcome.{Outcome, ok, err, panic}
use unbind_operator.Api.{Service}
use unbind_operator.Kube.{CoreService, Deployment, Ingress}
use unbind_operator.Client.{Client}
use unbind_operator.Client.View.{Tracked, View, IsKeyed, look-put}
use unbind_operator.Client.Frames.{IsStable, Framed}
use unbind_operator.Client.Stores.{Stores}
use unbind_operator.Client.Triples.{Triple, Triple-bind, Triple-pure, Triple-if, Triple-raise}
use unbind_operator.Client.Stored.{Triple-known, Triple-update_status}
use unbind_operator.Client.Monad.{World, is_not_found}
use unbind_operator.Builder.Deployment.{build_deployment}
use unbind_operator.Builder.Services.{build_services}
use unbind_operator.Builder.Ingress.{build_ingress}
use unbind_operator.Controller.Database.{Platform}
use unbind_operator.Controller.Deployment.Ends.{DeploymentMatches}
use unbind_operator.Controller.Services.Ends.{HasService}
use unbind_operator.Controller.Services.Desired.{ServicesMatch}
use unbind_operator.Controller.Ingress.Ends.{IngressMatches}
use unbind_operator.Controller.Reconcile.{
  urls_discrete, new_urls, needs_status_update, write_status, reconcile_live, reconcile_service,
  reconcile, service_finalizer,
}
use unbind_operator.Controller.Reconcile.Status.{ready}
use unbind_operator.Controller.Reconcile.Fit.{HasRequestedPort}
use unbind_operator.Controller.Reconcile.Converges.{Matches, reconcile_generic-Triple}

-- The status of a service is not among what it asks for.
DeploymentMatches-status :
    {F : Type 0} (service : Service) (r : Outcome F Deployment)
    → IsStable Tracked.service (DeploymentMatches service r)
DeploymentMatches-status service (ok d) namespace name entry v h = record {
  stored = h.stored;
  is_stored = h.is_stored;
  same_spec = h.same_spec;
  same_labels = h.same_labels;
}
DeploymentMatches-status service (err e) namespace name entry v h = h
DeploymentMatches-status service panic namespace name entry v h = h

HasServices-status :
    (ds : List CoreService) → IsStable Tracked.service (λ v. All (λ d. HasService d v) ds)
HasServices-status [] namespace name entry v h = tt
HasServices-status (d ∷ ds) namespace name entry v (h, hs) = (
  record {
    stored = h.stored;
    is_stored = h.is_stored;
    same_ports = h.same_ports;
    same_selector = h.same_selector;
    same_type = h.same_type;
  },
  HasServices-status ds namespace name entry v hs,
)

ServicesMatch-status :
    {F : Type 0} (service : Service) (r : Outcome F (List CoreService))
    → IsStable Tracked.service (ServicesMatch service r)
ServicesMatch-status service (ok ds) namespace name entry v (h, cleaned) =
    (HasServices-status ds namespace name entry v h, cleaned)
ServicesMatch-status service (err e) namespace name entry v h = h
ServicesMatch-status service panic namespace name entry v h = h

IngressMatches-status :
    {F : Type 0} (service : Service) (r : Outcome F Ingress)
    → IsStable Tracked.service (IngressMatches service r)
IngressMatches-status service (ok d) namespace name entry v h = record {
  stored = h.stored;
  is_stored = h.is_stored;
  same_spec = h.same_spec;
}
IngressMatches-status service (err e) namespace name entry v h = h
IngressMatches-status service panic namespace name entry v h = h

Matches-status : {F : Type 0} (service : Service) → IsStable Tracked.service (Matches F service)
Matches-status {F} service namespace name entry v h = record {
  deployment =
      DeploymentMatches-status service (build_deployment service {F = F}) namespace name entry v
        h.deployment;
  services =
      ServicesMatch-status service (build_services service) namespace name entry v h.services;
  ingress = IngressMatches-status service (build_ingress service) namespace name entry v h.ingress;
}

-- A status that needs no update is the one that a run writes.
ready_already : (service : Service) → needs_status_update service ≡ false → service ≡ ready service
unfolding needs_status_update
ready_already service h =
    let e : service.status.deployment_status ≡ "Ready" =
      ground (arith, eq_iff service.status.deployment_status "Ready") in
    let e' : service.status.urls ≡ new_urls service =
      ground (arith, deep_equal_iff urls_discrete service.status.urls (new_urls service)) in
    λ i. record service { status = record service.status { deployment_status = e i; urls = e' i } }

module _ {C : Client} (S : Stores C) (P : Platform C) (service : Service) where
  -- The service is stored.
  abbrev Stored : Service → View → Type 0
  Stored s v = v.services service.namespace service.name ≡ some s

  write_status-Triple :
      Triple S
        (λ v. Framed (Stored service) v × Matches C.Failure service v)
        (write_status service)
        (λ _ v. Stored (ready service) v × Matches C.Failure service v)
  unfolding write_status
  write_status-Triple =
      Triple-if S (needs_status_update service) _ _
        (λ needed. Triple-update_status S (ready service) service (λ v ((keyed, stored), h). (
          stored,
          (
            look-put Tracked.service (ready service) _ _ v refl refl,
            Matches-status service _ _ _ v h,
          ),
        )))
        (λ settled.
          Triple-pure S tt
            (λ v ((keyed, stored), h). (stored ∙ ap some (ready_already service settled), h)))

  live-Triple :
      service.spec.type == "database" ≡ false
      → All HasRequestedPort service.spec.config.ports
      → Triple S
          (Framed (Stored service))
          (reconcile_live P service)
          (λ _ v. Stored (ready service) v × Matches C.Failure service v)
  unfolding reconcile_live
  live-Triple generic requested =
      Triple-bind S
        (Triple-if S (service.spec.type == "database") _ _ (λ database. absurd (ground arith))
          (λ _.
            reconcile_generic-Triple S service (Stored service)
              (λ _ _ _ v r. r, λ _ _ _ v r. r, λ _ _ _ v r. r) requested))
        (λ _. write_status-Triple)

  -- A service that is stored, keyed, not being deleted, has the finalizer and is not a database, on a
  -- server with the effects of `Stores`, when the node ports that it asks for are not 0: if a run of
  -- `Reconcile` succeeds, the server has the objects that the service asks for and no leftovers of
  -- them, and the stored service is the same but for its status, which is ready.
  pub reconcile-Settles :
      (w : World C)
      → IsKeyed (S.view w.state)
      → (S.view w.state).services service.namespace service.name ≡ some service
      → service.is_deleting ≡ false
      → P.contains_finalizer service.finalizers service_finalizer ≡ true
      → service.spec.type == "database" ≡ false
      → All HasRequestedPort service.spec.config.ports
      → (reconcile P service.namespace service.name w).0 ≡ ok tt
      → ((S.view (reconcile P service.namespace service.name w).1.state).services service.namespace
            service.name
          ≡ some (ready service))
        × Matches C.Failure service (S.view (reconcile P service.namespace service.name w).1.state)
  unfolding reconcile reconcile_service
  reconcile-Settles w keyed stored alive has generic requested e =
      (Triple-known S Tracked.service service.namespace service.name service _ _ (λ v (k, s). s)
          (λ x other.
            Triple-if S (is_not_found C x) _ _ (λ missing. absurd (ground arith))
              (λ _. Triple-raise S x))
          (Triple-if S service.is_deleting _ _ (λ h. absurd (ground arith))
            (λ _.
              Triple-if S (not (P.contains_finalizer service.finalizers service_finalizer)) _ _
                (λ h. absurd (ground arith)) (λ _. live-Triple generic requested)))).holds
        w tt (keyed, stored) e
