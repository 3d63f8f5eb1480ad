-- ===== src/Controller/Services/Bounds.antt =====
-- What `reconcileServices` spends.
use unbind_operator.Base.{ℕ, ◌*◌, String, Option, none, some, List, [], ◌∷◌, length, arith}
use unbind_operator.Base.Outcome.{Outcome, Error, ok, err, panic, service_not_needed}
use unbind_operator.Api.{Service}
use unbind_operator.Kube.{CoreService}
use unbind_operator.Client.{Client}
use unbind_operator.Client.Spends.{
  Spends, Spends-weaken, Spends-bind, Spends-handle, Spends-if, Spends-pure, Spends-raise,
  Spends-crash, Spends-get, Spends-create, Spends-update, Spends-delete, Spends-wrapping,
  Spends-set_controller_reference,
}
use unbind_operator.Controller.Retry.{ResourceBuilder}
use unbind_operator.Controller.Retry.Bounds.{retry-Spends}
use unbind_operator.Controller.Services.{
  Vars, service_round, check_error, apply_service, apply_services, remove_services, clean_up,
  on_build, reconcile_services,
}

-- The number of services that the builder made
abbrev pub built : {F : Type 0} → Outcome F (List CoreService) → ℕ
built (ok desired) = length desired
built _ = 0

module _ {C : Client} (service : Service) where
  service_round-Spends : (v : Vars C) → Spends {C = C} 0 1 (service_round service v)
  unfolding service_round
  service_round-Spends (desired, e) =
      Spends-handle (Spends-get _ _ _)
        (λ e.
          Spends-if _
            (Spends-weaken 0 1
              (Spends-bind (Spends-wrapping _ _ (Spends-set_controller_reference _ _)) λ meta.
                Spends-bind (Spends-wrapping _ _ (Spends-create _ _)) (λ _. Spends-pure _ 0 0))
              (omega arith) (omega arith))
            (Spends-raise _ _ _))
        (λ existing.
          Spends-if _
            (Spends-bind (Spends-wrapping _ _ (Spends-set_controller_reference _ _)) λ meta.
              Spends-handle (Spends-update _ _)
                (λ e. Spends-if _ (Spends-pure _ 0 0) (Spends-raise _ _ _))
                (λ _. Spends-pure _ _ _))
            (Spends-pure _ _ _))

  check_error-Spends :
      (name : String) (e : Option (Error C.Failure))
      → Spends {C = C} 0 0 (check_error service name e)
  check_error-Spends name none = Spends-pure _ _ _
  check_error-Spends name (some e) = Spends-raise _ _ _

  apply_service-Spends :
      (desired : CoreService) → Spends {C = C} 31 5 (apply_service service desired)
  unfolding apply_service
  apply_service-Spends desired =
      Spends-bind
        (retry-Spends (service_round service) _ service_round-Spends (λ _. Spends-pure _ _ _) 5 1
          (desired, none))
        (check_error-Spends _)

  apply_services-Spends :
      (desired : List CoreService)
      → Spends {C = C} (31 * length desired) (5 * length desired) (apply_services service desired)
  unfolding apply_services
  apply_services-Spends [] = Spends-pure _ _ _
  apply_services-Spends (d ∷ desired) =
      Spends-weaken _ _ (Spends-bind (apply_service-Spends d) (λ _. apply_services-Spends desired))
        (omega arith) (omega arith)

  remove_services-Spends :
      (names : List String) → Spends {C = C} 0 0 (remove_services service names)
  unfolding remove_services
  remove_services-Spends [] = Spends-pure _ _ _
  remove_services-Spends (name ∷ names) =
      Spends-bind
        (Spends-handle (Spends-get _ _ _)
          (λ e. Spends-if _ (Spends-pure _ 0 0) (Spends-raise _ _ _))
          (λ existing. Spends-wrapping _ _ (Spends-delete _ _ _)))
        (λ _. remove_services-Spends names)

  clean_up-Spends :
      (desired : List CoreService) (names : List String)
      → Spends {C = C} 0 0 (clean_up service desired names)
  unfolding clean_up
  clean_up-Spends desired [] = Spends-pure _ _ _
  clean_up-Spends desired (name ∷ names) =
      Spends-bind
        (Spends-if _ (Spends-pure _ 0 0) (
          Spends-handle (Spends-get _ _ _)
            (λ e. Spends-if _ (Spends-pure _ 0 0) (Spends-raise _ _ _))
            (λ old. Spends-wrapping _ _ (Spends-delete _ _ _))))
        (λ _. clean_up-Spends desired names)

  on_build-Spends :
      (r : Outcome C.Failure (List CoreService))
      → Spends {C = C} (31 * built r) (5 * built r) (on_build service r)
  on_build-Spends (ok desired) =
      Spends-weaken _ _
        (Spends-bind (apply_services-Spends desired) (λ _. clean_up-Spends desired _)) (omega arith)
        (omega arith)
  on_build-Spends (err service_not_needed) = remove_services-Spends _
  on_build-Spends (err _) = Spends-raise _ _ _
  on_build-Spends panic = Spends-crash _ _

  pub reconcile_services-Spends :
      (rb : ResourceBuilder C.Failure)
      → Spends
          (31 * built rb.build_services)
          (5 * built rb.build_services)
          (reconcile_services {C = C} rb service)
  unfolding reconcile_services
  reconcile_services-Spends rb = on_build-Spends rb.build_services
