-- ===== src/Controller/Ingress/Runs.antt =====
-- `reconcileIngress` on a server that refuses nothing.
use mathlib.Core.Path.{subst}
use unbind_operator.Base.{◌∙◌, sym, arith, inr}
use unbind_operator.Base.Outcome.{Outcome, ok, err, panic, message, ingress_not_needed}
use unbind_operator.Api.{Service}
use unbind_operator.Kube.{Ingress, ObjectMeta}
use unbind_operator.Client.{Client}
use unbind_operator.Client.View.{Tracked, View, look-key, look-at}
use unbind_operator.Client.Frames.{IsStable, Framed, Framed-put, Framed-remove}
use unbind_operator.Client.Stores.{Stores}
use unbind_operator.Client.Quiet.{Answers}
use unbind_operator.Client.Runs.{
  Accepts, Run, Run-pure, Run-if, Run-bind, Run-get, Run-create, Run-update, Run-delete,
  Run-wrapping, Run-own,
}
use unbind_operator.Client.Monad.{raise, is_not_found}
use unbind_operator.Controller.Retry.{ResourceBuilder}
use unbind_operator.Controller.Retry.Runs.{IsBuilt, Leaves, retry-Run}
use unbind_operator.Controller.Ingress.{
  ingress_differs, remove_ingress, ingress_round, apply_ingress, on_build, reconcile_ingress,
}

abbrev with_spec : ObjectMeta → Ingress → Ingress
with_spec meta d = record { meta = meta; spec = d.spec }

module _ {C : Client} (S : Stores C) (answers : Answers S) (accepts : Accepts S) (R : View → Type 0)
    (stable : IsStable Tracked.ingress R) where
  round-Run :
      (service : Service) (d : Ingress)
      → Run S (Framed R) (ingress_round service d tt) (Leaves (λ _. Framed R)) (λ _. ⊥)
  unfolding ingress_round
  round-Run service d =
      Run-get S answers Tracked.ingress d.meta.namespace d.meta.name
        (λ e missing.
          Run-if S (is_not_found C e) _ _
            (λ _. Run-bind S (Run-wrapping S _ _ (Run-own S accepts service d.meta)) (λ meta.
              Run-bind S
                (Run-create S accepts Tracked.ingress (with_spec meta d) {Q = λ _. Framed R}
                  (λ v ((f, absent), m). (
                    look-at Tracked.ingress _ v _ _ _ _ m.same_namespace m.same_name absent,
                    Framed-put Tracked.ingress R stable (with_spec meta d) v f,
                  )))
                (λ _. Run-pure S (inr tt) (λ v h. h))))
            (λ other. absurd (ground arith)))
        (λ existing.
          Run-if S (ingress_differs existing d) _ _
            (λ differs.
              Run-bind S (Run-wrapping S _ _ (Run-own S accepts service existing.meta)) (λ meta.
                Run-update S accepts Tracked.ingress (with_spec meta d) {P' = Framed R} _ _
                  (λ v ((f, found), m).
                    let (e, e') = look-key Tracked.ingress _ _ existing v f.0 found in
                    (
                      (
                        existing,
                        look-at Tracked.ingress _ v _ _ _ _ (m.same_namespace ∙ e)
                            (m.same_name ∙ e') found,
                      ),
                      Framed-put Tracked.ingress R stable (with_spec meta d) v f,
                    ))
                  (Run-pure S (inr tt) (λ v h. h))))
            (λ same. Run-pure S (inr tt) (λ v (f, found). f)))

  remove-Run :
      (service : Service) → Run S (Framed R) (remove_ingress service) (λ _. Framed R) (λ _. ⊥)
  unfolding remove_ingress
  remove-Run service =
      Run-get S answers Tracked.ingress service.namespace service.name
        (λ e missing.
          Run-if S (is_not_found C e) _ _ (λ _. Run-pure S tt (λ v (f, absent). f))
            (λ other. absurd (ground arith)))
        (λ existing. Run-wrapping S _ _ (
          Run-delete S accepts Tracked.ingress existing.meta.namespace existing.meta.name
            (λ v (f, found).
              let (e, e') = look-key Tracked.ingress _ _ existing v f.0 found in
              (
                (existing, look-at Tracked.ingress _ v _ _ _ _ e e' found),
                Framed-remove Tracked.ingress R stable existing.meta.namespace existing.meta.name v
                    f,
              ))))

  on_build-Run :
      (service : Service) (r : Outcome C.Failure Ingress)
      → IsBuilt ingress_not_needed r
      → Run S (Framed R) (on_build service r) (λ _. Framed R) (λ _. ⊥)
  unfolding apply_ingress
  on_build-Run service (ok d) h =
      retry-Run S (ingress_round service d)
        (λ _. raise (message "failed to update ingress after 5 retries")) (Framed R) (λ _. Framed R)
        (λ _. ⊥) 4 1 tt (round-Run service d)
  on_build-Run service (err e) same =
      subst (λ x. Run S (Framed R) (on_build service (err x)) (λ _. Framed R) (λ _. ⊥)) (sym same)
        (remove-Run service)
  on_build-Run service panic h = absurd h

  -- The method succeeds, and keeps what does not depend on ingresses.
  pub reconcile_ingress-Run :
      (rb : ResourceBuilder C.Failure) (service : Service)
      → IsBuilt ingress_not_needed rb.build_ingress
      → Run S (Framed R) (reconcile_ingress rb service) (λ _. Framed R) (λ _. ⊥)
  unfolding reconcile_ingress
  reconcile_ingress-Run rb service h = on_build-Run service rb.build_ingress h
