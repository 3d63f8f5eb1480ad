-- ===== src/Controller/Reconcile/Idle.antt =====
-- Runs of `Reconcile` from a state that is as the service asks for. The deployment is sent again
-- in each of them, since its empty maps and slices are read back as nil.
use mathlib.Core.Path.{subst}
use unbind_operator.Base.{
  ℕ, ◌≡◌, ◌+◌, if◌then◌else◌, refl, All, ◌↔◌, some, true, false, ◌==◌, not, arith,
}
use unbind_operator.Base.Outcome.{ok}
use unbind_operator.Api.{Service}
use unbind_operator.Controller.Database.{Platform}
use unbind_operator.Client.{Client}
use unbind_operator.Client.Log.{writes}
use unbind_operator.Client.View.{View, IsKeyed, Tracked}
use unbind_operator.Client.Stores.{Stores}
use unbind_operator.Client.Quiet.{Answers, Quiet-bind, Quiet-if, Quiet-pure}
use unbind_operator.Client.Rewrites.{Rewrites, Rewrites-bind, Rewrites-found, Rewrites-if}
use unbind_operator.Client.Runs.{Accepts}
use unbind_operator.Client.Monad.{World}
use unbind_operator.Controller.Deployment.Idle.{IsRead, reconcile_deployment-Rewrites}
use unbind_operator.Controller.Services.Idle.{reconcile_services-Quiet}
use unbind_operator.Controller.Ingress.Idle.{reconcile_ingress-Quiet}
use unbind_operator.Controller.Reconcile.{
  reconcile_generic, new_resource_builder, reconcile, reconcile_service, reconcile_live,
  write_status, needs_status_update, service_finalizer,
}
use unbind_operator.Controller.Reconcile.Fit.{HasRequestedPort, build_services-AreFit}
use unbind_operator.Controller.Reconcile.Converges.{Matches, reconcile_generic-Matches}

module _ {C : Client} (S : Stores C) (answers : Answers S) (accepts : Accepts S) (service : Service)
    (requested : All HasRequestedPort service.spec.config.ports) where
  reconcile_generic-Rewrites :
      (v : View)
      → IsKeyed v
      → IsRead v
      → Matches C.Failure service v
      → Rewrites S v
          (if service.spec.config.image == "" then 0 else 1)
          (reconcile_generic service)
          tt
  unfolding reconcile_generic new_resource_builder
  reconcile_generic-Rewrites v keyed read h =
      let rb = new_resource_builder {F = C.Failure} service in
      Rewrites-bind S v _ _ _ tt tt
        (reconcile_deployment-Rewrites S answers v accepts rb service refl keyed read h.deployment)
        (Quiet-bind S v _ _ tt tt
          (reconcile_services-Quiet S answers v service rb
            (build_services-AreFit service C.Failure requested) h.services)
          (reconcile_ingress-Quiet S answers v rb service h.ingress))

  -- On a server with the effects of `Stores` that answers every lookup and accepts every write, from
  -- a keyed state with all deployments as they are read back, when the node ports that the
  -- specification asks for are not 0: the state is the one that the service asks for exactly when a
  -- run of the generic path succeeds, leaves the state alone, and asks the server for no change if
  -- the service has no image, and for one if it has.
  pub reconcile_generic-fixed_iff :
      (w : World C)
      → IsKeyed (S.view w.state)
      → IsRead (S.view w.state)
      → Matches C.Failure service (S.view w.state) ↔ (
          ((reconcile_generic service w).0 ≡ ok tt)
          × (S.view (reconcile_generic service w).1.state ≡ S.view w.state)
          × (writes (reconcile_generic service w).1.log
              ≡ (if service.spec.config.image == "" then 0 else 1) + writes w.log))
  reconcile_generic-fixed_iff w keyed read = (
    (λ h. (reconcile_generic-Rewrites (S.view w.state) keyed read h).ends w refl),
    (λ (done', same, written).
        subst (Matches C.Failure service) same
          (reconcile_generic-Matches S service w keyed requested done').1),
  )

module _ {C : Client} (S : Stores C) (answers : Answers S) (accepts : Accepts S) (P : Platform C)
    (service : Service) (requested : All HasRequestedPort service.spec.config.ports) where
  -- A service that is stored, not being deleted, has the finalizer, is not a database and has a
  -- status that is up to date, on a server with the effects of `Stores` that answers every lookup,
  -- accepts every write, keeps every object under its key and every deployment as it is read back,
  -- and has what the service asks for, when the node ports that it asks for are not 0: a run of
  -- `Reconcile` succeeds, leaves the state alone, and asks the server for no change if the service
  -- has no image, and for one if it has.
  pub reconcile-idle :
      (w : World C)
      → IsKeyed (S.view w.state)
      → IsRead (S.view w.state)
      → (S.view w.state).services service.namespace service.name ≡ some service
      → service.is_deleting ≡ false
      → P.contains_finalizer service.finalizers service_finalizer ≡ true
      → service.spec.type == "database" ≡ false
      → needs_status_update service ≡ false
      → Matches C.Failure service (S.view w.state)
      → ((reconcile P service.namespace service.name w).0 ≡ ok tt)
        × (S.view (reconcile P service.namespace service.name w).1.state ≡ S.view w.state)
        × (writes (reconcile P service.namespace service.name w).1.log
            ≡ (if service.spec.config.image == "" then 0 else 1) + writes w.log)
  unfolding reconcile reconcile_service reconcile_live write_status
  reconcile-idle w keyed read stored alive has generic settled h =
      let v = S.view w.state in
      let n : ℕ = if service.spec.config.image == "" then 0 else 1 in
      (Rewrites-found S answers v n Tracked.service service.namespace service.name service _ _ tt
          stored
          (Rewrites-if S v n service.is_deleting _ _ tt (λ deleting. absurd (ground arith))
            (λ _.
              Rewrites-if S v n (not (P.contains_finalizer service.finalizers service_finalizer)) _
                _ tt (λ missing. absurd (ground arith))
                (λ _.
                  Rewrites-bind S v n _ _ tt tt
                    (Rewrites-if S v n (service.spec.type == "database") _ _ tt
                      (λ database. absurd (ground arith))
                      (λ _.
                        reconcile_generic-Rewrites S answers accepts service requested v keyed read
                          h))
                    (Quiet-if S v (needs_status_update service) _ _ tt
                      (λ needed. absurd (ground arith)) (λ _. Quiet-pure S v tt)))))).ends
        w refl
