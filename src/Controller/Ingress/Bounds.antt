-- ===== src/Controller/Ingress/Bounds.antt =====
-- What `reconcileIngress` spends.
use unbind_operator.Base.{arith}
use unbind_operator.Base.Outcome.{Outcome, ok, err, panic, ingress_not_needed}
use unbind_operator.Api.{Service}
use unbind_operator.Kube.{Ingress}
use unbind_operator.Client.{Client}
use unbind_operator.Client.Spends.{
  Spends, Spends-weaken, Spends-bind, Spends-handle, Spends-if, Spends-pure, Spends-raise,
  Spends-crash, Spends-get, Spends-create, Spends-update, Spends-delete, Spends-wrapping,
  Spends-set_controller_reference,
}
use unbind_operator.Controller.Retry.{ResourceBuilder}
use unbind_operator.Controller.Retry.Bounds.{retry-Spends}
use unbind_operator.Controller.Ingress.{
  ingress_round, apply_ingress, remove_ingress, on_build, reconcile_ingress,
}

module _ {C : Client} where
  ingress_round-Spends :
      (service : Service) (desired : Ingress) (u : Unit {0})
      → Spends {C = C} 0 1 (ingress_round service desired u)
  unfolding ingress_round
  ingress_round-Spends service desired u =
      Spends-handle (Spends-get _ _ _)
        (λ e.
          Spends-if _
            (Spends-weaken 0 1
              (Spends-bind (Spends-wrapping _ _ (Spends-set_controller_reference _ _))
                λ meta. Spends-bind (Spends-create _ _) (λ _. Spends-pure _ 0 0))
              (omega arith) (omega arith))
            (Spends-raise _ _ _))
        (λ existing.
          Spends-if _
            (Spends-bind (Spends-wrapping _ _ (Spends-set_controller_reference _ _)) λ meta.
              Spends-handle (Spends-update _ _)
                (λ e. Spends-if _ (Spends-pure _ 0 0) (Spends-raise _ _ _))
                (λ _. Spends-pure _ _ _))
            (Spends-pure _ _ _))

  remove_ingress-Spends : (service : Service) → Spends {C = C} 0 0 (remove_ingress service)
  unfolding remove_ingress
  remove_ingress-Spends service =
      Spends-handle (Spends-get _ _ _) (λ e. Spends-if _ (Spends-pure _ 0 0) (Spends-raise _ _ _))
        (λ existing. Spends-wrapping _ _ (Spends-delete _ _ _))

  apply_ingress-Spends :
      (service : Service) (desired : Ingress) → Spends {C = C} 31 5 (apply_ingress service desired)
  unfolding apply_ingress
  apply_ingress-Spends service desired =
      retry-Spends (ingress_round service desired) _ (ingress_round-Spends service desired)
        (λ _. Spends-raise _ _ _) 5 1 tt

  on_build-Spends :
      (service : Service) (r : Outcome C.Failure Ingress) → Spends {C = C} 31 5 (on_build service r)
  on_build-Spends service (ok desired) = apply_ingress-Spends service desired
  on_build-Spends service (err ingress_not_needed) =
      Spends-weaken 31 5 (remove_ingress-Spends service) (omega arith) (omega arith)
  on_build-Spends service (err _) = Spends-raise _ _ _
  on_build-Spends service panic = Spends-crash _ _

  pub reconcile_ingress-Spends :
      (rb : ResourceBuilder C.Failure) (service : Service)
      → Spends 31 5 (reconcile_ingress {C = C} rb service)
  unfolding reconcile_ingress
  reconcile_ingress-Spends rb service = on_build-Spends service rb.build_ingress
