-- ===== src/Controller/Services/Idle.antt =====
-- `reconcileServices` where there is nothing left to do.
use mathlib.Core.Path.{subst}
use text.Mathlib.TextPositions.{eq_refl}
use unbind_operator.Base.{◌≡◌, refl, sym, arith, inl, inr, false, none, All, List, [], ◌∷◌, String}
use unbind_operator.Base.Equal.{deep_equal_self}
use unbind_operator.Base.Outcome.{Outcome, ok, err, panic}
use unbind_operator.Api.{Service}
use unbind_operator.Kube.{CoreService, ports_discrete, labels_discrete}
use unbind_operator.Client.{Client}
use unbind_operator.Client.View.{Tracked, View}
use unbind_operator.Client.Stores.{Stores}
use unbind_operator.Client.Quiet.{
  Answers, Quiet, Quiet-pure, Quiet-bind, Quiet-if, Quiet-found, Quiet-missing,
}
use unbind_operator.Client.Monad.{pure, is_not_found}
use unbind_operator.Controller.Retry.{ResourceBuilder}
use unbind_operator.Controller.Retry.Idle.{retry-Quiet}
use unbind_operator.Controller.Services.{
  adopt, is_desired, services_to_check, service_differs, service_round, apply_service,
  apply_services, remove_services, clean_up, on_build, reconcile_services,
}
use unbind_operator.Controller.Services.Settled.{adopt-plain}
use unbind_operator.Controller.Services.Ends.{HasService, IsPlain}
use unbind_operator.Controller.Services.Desired.{ServicesMatch, AreFit, IsAbsent, IsCleaned}

not_different :
    (d : CoreService) (v : View) (h : HasService d v)
    → IsPlain d
    → service_differs h.stored (adopt h.stored d) ≡ false
unfolding service_differs
not_different d v h plain =
    rw (adopt-plain h.stored d plain, h.same_ports, h.same_selector, h.same_type)
      (simp (deep_equal_self ports_discrete, deep_equal_self labels_discrete, eq_refl) refl)

module _ {C : Client} (S : Stores C) (answers : Answers S) (v : View) (service : Service) where
  apply_service-Quiet :
      (d : CoreService) → IsPlain d → HasService d v → Quiet S v (apply_service service d) tt
  unfolding apply_service service_round
  apply_service-Quiet d plain h =
      Quiet-bind S v _ _ none tt
        (retry-Quiet S v (service_round service) (λ x. pure x.1) 4 1 (d, none) none
          (Quiet-found S answers v Tracked.core_service d.meta.namespace d.meta.name h.stored _ _ _
            h.is_stored
            (Quiet-if S v (service_differs h.stored (adopt h.stored d)) _ _ _
              (λ differs. let same = not_different d v h plain in absurd (ground arith))
              (λ same. Quiet-pure S v (inr none)))))
        (Quiet-pure S v tt)

  apply_services-Quiet :
      (ds : List CoreService)
      → All IsPlain ds
      → All (λ d. HasService d v) ds
      → Quiet S v (apply_services service ds) tt
  unfolding apply_services
  apply_services-Quiet [] p h = Quiet-pure S v tt
  apply_services-Quiet (d ∷ ds) (p, ps) (h, hs) =
      Quiet-bind S v _ _ tt tt (apply_service-Quiet d p h) (apply_services-Quiet ds ps hs)

  remove_services-Quiet :
      (names : List String)
      → All (IsAbsent service v) names
      → Quiet S v (remove_services service names) tt
  unfolding remove_services
  remove_services-Quiet [] h = Quiet-pure S v tt
  remove_services-Quiet (name ∷ names) (h, hs) =
      Quiet-bind S v _ _ tt tt
        (Quiet-missing S answers v Tracked.core_service service.namespace name _ _ _ h (λ e missing.
          Quiet-if S v (is_not_found C e) _ _ _ (λ _. Quiet-pure S v tt)
            (λ other. absurd (ground arith))))
        (remove_services-Quiet names hs)

  clean_up-Quiet :
      (ds : List CoreService) (names : List String)
      → All (IsCleaned service ds v) names
      → Quiet S v (clean_up service ds names) tt
  unfolding clean_up
  clean_up-Quiet ds [] h = Quiet-pure S v tt
  clean_up-Quiet ds (name ∷ names) (h, hs) =
      Quiet-bind S v _ _ tt tt
        (Quiet-if S v (is_desired ds name) _ _ _ (λ desired. Quiet-pure S v tt)
          (λ other. elim h [
            | inl desired ↦ absurd (ground arith)
            | inr absent ↦
                Quiet-missing S answers v Tracked.core_service service.namespace name _ _ _ absent
                  (λ e missing.
                    Quiet-if S v (is_not_found C e) _ _ _ (λ _. Quiet-pure S v tt)
                      (λ other'. absurd (ground arith)))
          ]))
        (clean_up-Quiet ds names hs)

  on_build-Quiet :
      (r : Outcome C.Failure (List CoreService))
      → AreFit r
      → ServicesMatch service r v
      → Quiet S v (on_build service r) tt
  on_build-Quiet (ok ds) (plain, apart) (h, cleaned) =
      Quiet-bind S v _ _ tt tt (apply_services-Quiet ds plain h)
        (clean_up-Quiet ds (services_to_check service) cleaned)
  on_build-Quiet (err e) fit (same, absent) =
      subst (λ x. Quiet S v (on_build service (err x)) tt) (sym same)
        (remove_services-Quiet (services_to_check service) absent)
  on_build-Quiet panic fit h = absurd h

  pub reconcile_services-Quiet :
      (rb : ResourceBuilder C.Failure)
      → AreFit rb.build_services
      → ServicesMatch service rb.build_services v
      → Quiet S v (reconcile_services rb service) tt
  unfolding reconcile_services
  reconcile_services-Quiet rb fit h = on_build-Quiet rb.build_services fit h
