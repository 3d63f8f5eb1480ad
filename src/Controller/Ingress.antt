-- ===== src/Controller/Ingress.antt =====
-- `reconcileIngress`
pub mod Bounds
pub mod Settled
pub mod Ends
pub mod Idle
pub mod Runs
use unbind_operator.Base.{Bool, not, ◌⊎◌, inl, inr, if◌then◌else◌}
use unbind_operator.Base.Equal.{deep_equal}
use unbind_operator.Base.Outcome.{Outcome, ok, err, panic, wrap, message, ingress_not_needed}
use unbind_operator.Api.{Service}
use unbind_operator.Kube.{Kind, Ingress, IngressSpec-discrete}
use unbind_operator.Client.{Client}
use unbind_operator.Client.Monad.{
  Action, pure, raise, crash, handle, wrapping, done, ◌>>=◌, is_not_found, is_conflict, get, create,
  update, delete, set_controller_reference,
}
use unbind_operator.Controller.Retry.{ResourceBuilder, retry, max_retries}

unfoldable pub ingress_differs : Ingress → Ingress → Bool
ingress_differs existing desired = not (deep_equal IngressSpec-discrete existing.spec desired.spec)

module _ {C : Client} where
  -- the branch of `ErrIngressNotNeeded`
  unfoldable pub remove_ingress : Service → Action C (Unit {0})
  unfolding handle wrapping
  remove_ingress service =
      handle (get Kind.ingress service.namespace service.name)
        (λ e. if is_not_found C e then done else raise (wrap "checking if ingress exists" e))
        (λ existing.
          wrapping "deleting ingress"
            (delete Kind.ingress existing.meta.namespace existing.meta.name))

  -- the body of the retry loop
  unfoldable pub ingress_round : Service → Ingress → Unit {0} → Action C (Unit {0} ⊎ Unit {0})
  unfolding handle ingress_differs ◌>>=◌ wrapping
  ingress_round service desired _ =
      handle (get Kind.ingress desired.meta.namespace desired.meta.name)
        (λ e.
          if is_not_found C e
          then wrapping "setting controller reference"
              (set_controller_reference service desired.meta)
            >>= (λ meta.
                create Kind.ingress (record desired { meta = meta }) >>= (λ _. pure (inr tt)))
          else raise (wrap "getting ingress" e))
        (λ existing.
          if ingress_differs existing desired
          then wrapping "setting controller reference"
              (set_controller_reference service existing.meta)
            >>= (λ meta.
                handle (update Kind.ingress (record { meta = meta; spec = desired.spec }))
                  (λ e.
                    if is_conflict C e then pure (inl tt) else raise (wrap "updating ingress" e))
                  (λ _. pure (inr tt)))
          else pure (inr tt))

  unfoldable pub apply_ingress : Service → Ingress → Action C (Unit {0})
  unfolding retry ingress_round
  apply_ingress service desired =
      retry (ingress_round service desired)
        (λ _. raise (message "failed to update ingress after 5 retries")) max_retries 1 tt

  abbrev on_build : Service → Outcome C.Failure Ingress → Action C (Unit {0})
  on_build service (ok desired) = apply_ingress service desired
  on_build service (err ingress_not_needed) = remove_ingress service
  on_build service (err e) = raise (wrap "building ingress" e)
  on_build service panic = crash

  unfoldable pub reconcile_ingress : ResourceBuilder C.Failure → Service → Action C (Unit {0})
  unfolding apply_ingress remove_ingress
  reconcile_ingress rb service = on_build service rb.build_ingress
