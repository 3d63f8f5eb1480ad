-- ===== src/Controller/Deployment/Bounds.antt =====
-- What `reconcileDeployment` spends.
use unbind_operator.Base.{arith}
use unbind_operator.Base.Outcome.{Outcome, ok, err, panic, deployment_not_needed}
use unbind_operator.Api.{Service}
use unbind_operator.Kube.{Deployment}
use unbind_operator.Client.{Client}
use unbind_operator.Client.Spends.{
  Spends, Spends-weaken, Spends-bind, Spends-handle, Spends-if, Spends-pure, Spends-raise,
  Spends-crash, Spends-get, Spends-create, Spends-update, Spends-delete, Spends-wrapping,
}
use unbind_operator.Controller.Retry.{ResourceBuilder}
use unbind_operator.Controller.Retry.Bounds.{retry-Spends}
use unbind_operator.Controller.Deployment.{
  deployment_round, apply_loop, remove_deployment, on_build, reconcile_deployment,
}

module _ {C : Client} where
  deployment_round-Spends :
      (desired : Deployment) (u : Unit {0}) → Spends {C = C} 0 1 (deployment_round desired u)
  unfolding deployment_round
  deployment_round-Spends desired u =
      Spends-handle (Spends-get _ _ _)
        (λ e.
          Spends-if _
            (Spends-weaken 0 1 (Spends-bind (Spends-create _ _) (λ _. Spends-pure _ 0 0))
              (omega arith) (omega arith))
            (Spends-raise _ _ _))
        (λ existing.
          Spends-if _
            (Spends-handle (Spends-update _ _)
              (λ e. Spends-if _ (Spends-pure _ 0 0) (Spends-raise _ _ _)) (λ _. Spends-pure _ _ _))
            (Spends-pure _ _ _))

  remove_deployment-Spends : (service : Service) → Spends {C = C} 0 0 (remove_deployment service)
  unfolding remove_deployment
  remove_deployment-Spends service =
      Spends-handle (Spends-get _ _ _) (λ e. Spends-if _ (Spends-pure _ 0 0) (Spends-raise _ _ _))
        (λ existing. Spends-wrapping _ _ (Spends-delete _ _ _))

  apply_loop-Spends : (desired : Deployment) → Spends {C = C} 31 5 (apply_loop desired)
  unfolding apply_loop
  apply_loop-Spends desired =
      retry-Spends (deployment_round desired) _ (deployment_round-Spends desired)
        (λ _. Spends-raise _ _ _) 5 1 tt

  on_build-Spends :
      (service : Service) (r : Outcome C.Failure Deployment)
      → Spends {C = C} 31 5 (on_build service r)
  on_build-Spends service (ok desired) = apply_loop-Spends desired
  on_build-Spends service (err deployment_not_needed) =
      Spends-weaken 31 5 (remove_deployment-Spends service) (omega arith) (omega arith)
  on_build-Spends service (err _) = Spends-raise _ _ _
  on_build-Spends service panic = Spends-crash _ _

  pub reconcile_deployment-Spends :
      (rb : ResourceBuilder C.Failure) (service : Service)
      → Spends 31 5 (reconcile_deployment {C = C} rb service)
  unfolding reconcile_deployment
  reconcile_deployment-Spends rb service = on_build-Spends service rb.build_deployment
