-- ===== src/Controller/Reconcile/Bounds.antt =====
-- The time and the updates of the generic path of `Reconcile`.
use unbind_operator.Base.{ℕ, ◌≤◌, List, length, arith, ◌≡◌, refl}
use unbind_operator.Base.Outcome.{Outcome, ok, err, panic}
use unbind_operator.Api.{Service}
use unbind_operator.Kube.{CoreService}
use unbind_operator.Builder.Services.{build_services}
use unbind_operator.Builder.Services.Ports.{build_services-length}
use unbind_operator.Client.{Client}
use unbind_operator.Client.Spends.{Spends, Spends-weaken, Spends-bind}
use unbind_operator.Controller.Deployment.Bounds.{reconcile_deployment-Spends}
use unbind_operator.Controller.Services.Bounds.{built, reconcile_services-Spends}
use unbind_operator.Controller.Ingress.Bounds.{reconcile_ingress-Spends}
use unbind_operator.Controller.Reconcile.{reconcile_generic, new_resource_builder}

built-le :
    {F : Type 0} (n : ℕ) (r : Outcome F (List CoreService))
    → ((services : List CoreService) → r ≡ ok services → length services ≤ n)
    → built r ≤ n
built-le n (ok services) h = h services refl
built-le n (err e) h = omega arith
built-le n panic h = omega arith

built_services-le : (F : Type 0) (service : Service) → built (build_services {F = F} service) ≤ 2
built_services-le F service = built-le 2 (build_services service) (build_services-length service)

module _ {C : Client} where
  -- Whatever the server answers and whatever others do meanwhile, one run over the deployment, the
  -- services and the ingress of a service sleeps at most 124 seconds, sends at most 20 updates and
  -- leaves the status alone.
  pub reconcile_generic-Spends :
      (service : Service) → Spends {C = C} 124 20 (reconcile_generic service)
  unfolding reconcile_generic new_resource_builder
  reconcile_generic-Spends service =
      Spends-weaken 124 20
        (Spends-bind (reconcile_deployment-Spends (new_resource_builder service) service) λ _.
          Spends-bind (reconcile_services-Spends service (new_resource_builder service))
            λ _. reconcile_ingress-Spends (new_resource_builder service) service)
        (omega (arith, built_services-le C.Failure service))
        (omega (arith, built_services-le C.Failure service))
