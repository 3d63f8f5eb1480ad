-- ===== src/Controller/Deployment.antt =====
-- `reconcileDeployment`
pub mod Bounds
pub mod Repeated
pub mod Ends
pub mod Idle
pub mod Runs
use unbind_operator.Base.{Bool, not, ◌||◌, ◌⊎◌, inl, inr, if◌then◌else◌}
use unbind_operator.Base.Equal.{deep_equal}
use unbind_operator.Base.Outcome.{Outcome, ok, err, panic, wrap, message, deployment_not_needed}
use unbind_operator.Api.{Service}
use unbind_operator.Kube.{Kind, Deployment, DeploymentSpec-discrete, labels_discrete}
use unbind_operator.Client.{Client}
use unbind_operator.Client.Monad.{
  Action, pure, raise, crash, handle, wrapping, done, ◌>>=◌, is_not_found, is_conflict, get, create,
  update, delete,
}
use unbind_operator.Controller.Retry.{ResourceBuilder, retry, max_retries}

-- the specification or the labels differ
unfoldable pub deployment_differs : Deployment → Deployment → Bool
deployment_differs existing desired =
    not (deep_equal DeploymentSpec-discrete existing.spec desired.spec)
    || not (deep_equal labels_discrete existing.meta.labels desired.meta.labels)

-- `existing` with the labels and the specification of `desired`
unfoldable pub apply_deployment : Deployment → Deployment → Deployment
apply_deployment existing desired = record existing {
  meta = record existing.meta { labels = desired.meta.labels };
  spec = desired.spec;
}

module _ {C : Client} where
  -- the branch of `ErrDeploymentNotNeeded`
  unfoldable pub remove_deployment : Service → Action C (Unit {0})
  unfolding handle wrapping
  remove_deployment service =
      handle (get Kind.deployment service.namespace service.name)
        (λ e. if is_not_found C e then done else raise (wrap "checking if deployment exists" e))
        (λ existing.
          wrapping "deleting Deployment"
            (delete Kind.deployment existing.meta.namespace existing.meta.name))

  -- the body of the retry loop
  unfoldable pub deployment_round : Deployment → Unit {0} → Action C (Unit {0} ⊎ Unit {0})
  unfolding handle deployment_differs apply_deployment ◌>>=◌
  deployment_round desired _ =
      handle (get Kind.deployment desired.meta.namespace desired.meta.name)
        (λ e.
          if is_not_found C e
          then create Kind.deployment desired >>= (λ _. pure (inr tt))
          else raise e)
        (λ existing.
          if deployment_differs existing desired
          then handle (update Kind.deployment (apply_deployment existing desired))
              (λ e. if is_conflict C e then pure (inl tt) else raise (wrap "updating deployment" e))
              (λ _. pure (inr tt))
          else pure (inr tt))

  unfoldable pub apply_loop : Deployment → Action C (Unit {0})
  unfolding retry deployment_round
  apply_loop desired =
      retry (deployment_round desired)
        (λ _. raise (message "failed to update deployment after 5 retries")) max_retries 1 tt

  abbrev on_build : Service → Outcome C.Failure Deployment → Action C (Unit {0})
  on_build service (ok desired) = apply_loop desired
  on_build service (err deployment_not_needed) = remove_deployment service
  on_build service (err e) = raise (wrap "building deployment" e)
  on_build service panic = crash

  unfoldable pub reconcile_deployment : ResourceBuilder C.Failure → Service → Action C (Unit {0})
  unfolding apply_loop remove_deployment
  reconcile_deployment rb service = on_build service rb.build_deployment
