-- ===== src/Controller/Ingress/Idle.antt =====
-- `reconcileIngress` where there is nothing left to do.
use mathlib.Core.Path.{subst}
use unbind_operator.Base.{◌≡◌, refl, sym, arith, inr, false, none}
use unbind_operator.Base.Equal.{deep_equal_self}
use unbind_operator.Base.Outcome.{Outcome, ok, err, panic, message}
use unbind_operator.Api.{Service}
use unbind_operator.Kube.{Ingress, IngressSpec-discrete}
use unbind_operator.Client.{Client}
use unbind_operator.Client.View.{Tracked, View}
use unbind_operator.Client.Stores.{Stores}
use unbind_operator.Client.Quiet.{Answers, Quiet, Quiet-pure, Quiet-if, Quiet-found, Quiet-missing}
use unbind_operator.Client.Monad.{raise, is_not_found}
use unbind_operator.Controller.Retry.{ResourceBuilder}
use unbind_operator.Controller.Retry.Idle.{retry-Quiet}
use unbind_operator.Controller.Ingress.{
  ingress_differs, remove_ingress, ingress_round, apply_ingress, on_build, reconcile_ingress,
}
use unbind_operator.Controller.Ingress.Ends.{HasIngress, IngressMatches}

not_different : (existing d : Ingress) → existing.spec ≡ d.spec → ingress_differs existing d ≡ false
unfolding ingress_differs
not_different existing d e = rw e (simp (deep_equal_self IngressSpec-discrete) refl)

module _ {C : Client} (S : Stores C) (answers : Answers S) (v : View) where
  round-Quiet :
      (service : Service) (d : Ingress)
      → HasIngress d v
      → Quiet S v (ingress_round service d tt) (inr tt)
  unfolding ingress_round
  round-Quiet service d h =
      Quiet-found S answers v Tracked.ingress d.meta.namespace d.meta.name h.stored _ _ _
        h.is_stored
        (Quiet-if S v (ingress_differs h.stored d) _ _ _
          (λ differs. let same = not_different h.stored d h.same_spec in absurd (ground arith))
          (λ same. Quiet-pure S v (inr tt)))

  remove-Quiet :
      (service : Service)
      → v.ingresses service.namespace service.name ≡ none
      → Quiet S v (remove_ingress service) tt
  unfolding remove_ingress
  remove-Quiet service absent =
      Quiet-missing S answers v Tracked.ingress service.namespace service.name _ _ _ absent
        (λ e missing.
          Quiet-if S v (is_not_found C e) _ _ _ (λ _. Quiet-pure S v tt)
            (λ h. absurd (ground arith)))

  on_build-Quiet :
      (service : Service) (r : Outcome C.Failure Ingress)
      → IngressMatches service r v
      → Quiet S v (on_build service r) tt
  unfolding apply_ingress
  on_build-Quiet service (ok d) h =
      retry-Quiet S v (ingress_round service d)
        (λ _. raise (message "failed to update ingress after 5 retries")) 4 1 tt tt
        (round-Quiet service d h)
  on_build-Quiet service (err e) (same, absent) =
      subst (λ x. Quiet S v (on_build service (err x)) tt) (sym same) (remove-Quiet service absent)
  on_build-Quiet service panic h = absurd h

  pub reconcile_ingress-Quiet :
      (rb : ResourceBuilder C.Failure) (service : Service)
      → IngressMatches service rb.build_ingress v
      → Quiet S v (reconcile_ingress rb service) tt
  unfolding reconcile_ingress
  reconcile_ingress-Quiet rb service h = on_build-Quiet service rb.build_ingress h
