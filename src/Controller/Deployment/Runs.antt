-- ===== src/Controller/Deployment/Runs.antt =====
-- `reconcileDeployment` on a server that refuses nothing.
use mathlib.Core.Path.{subst}
use unbind_operator.Base.{sym, arith, inr}
use unbind_operator.Base.Outcome.{Outcome, ok, err, panic, message, deployment_not_needed}
use unbind_operator.Api.{Service}
use unbind_operator.Kube.{Deployment}
use unbind_operator.Client.{Client}
use unbind_operator.Client.View.{Tracked, View, look-key, look-at}
use unbind_operator.Client.Frames.{IsStable, Framed, Framed-put, Framed-remove}
use unbind_operator.Client.Stores.{Stores}
use unbind_operator.Client.Quiet.{Answers}
use unbind_operator.Client.Runs.{
  Accepts, Run, Run-pure, Run-if, Run-bind, Run-get, Run-create, Run-update, Run-delete,
  Run-wrapping,
}
use unbind_operator.Client.Monad.{raise, is_not_found}
use unbind_operator.Controller.Retry.{ResourceBuilder}
use unbind_operator.Controller.Retry.Runs.{IsBuilt, Leaves, retry-Run}
use unbind_operator.Controller.Deployment.{
  deployment_differs, apply_deployment, remove_deployment, deployment_round, apply_loop, on_build,
  reconcile_deployment,
}

module _ {C : Client} (S : Stores C) (answers : Answers S) (accepts : Accepts S) (R : View → Type 0)
    (stable : IsStable Tracked.deployment R) where
  round-Run :
      (d : Deployment) → Run S (Framed R) (deployment_round d tt) (Leaves (λ _. Framed R)) (λ _. ⊥)
  unfolding deployment_round apply_deployment
  round-Run d =
      Run-get S answers Tracked.deployment d.meta.namespace d.meta.name
        (λ e missing.
          Run-if S (is_not_found C e) _ _
            (λ _.
              Run-bind S
                (Run-create S accepts Tracked.deployment d {Q = λ _. Framed R}
                  (λ v (f, absent). (absent, Framed-put Tracked.deployment R stable d v f)))
                (λ _. Run-pure S (inr tt) (λ v h. h)))
            (λ other. absurd (ground arith)))
        (λ existing.
          Run-if S (deployment_differs existing d) _ _
            (λ differs.
              Run-update S accepts Tracked.deployment (apply_deployment existing d) {P' = Framed R}
                _ _
                (λ v (f, found).
                  let (e, e') = look-key Tracked.deployment _ _ existing v f.0 found in
                  (
                    (existing, look-at Tracked.deployment _ v _ _ _ _ e e' found),
                    Framed-put Tracked.deployment R stable (apply_deployment existing d) v f,
                  ))
                (Run-pure S (inr tt) (λ v h. h)))
            (λ same. Run-pure S (inr tt) (λ v (f, found). f)))

  remove-Run :
      (service : Service) → Run S (Framed R) (remove_deployment service) (λ _. Framed R) (λ _. ⊥)
  unfolding remove_deployment
  remove-Run service =
      Run-get S answers Tracked.deployment service.namespace service.name
        (λ e missing.
          Run-if S (is_not_found C e) _ _ (λ _. Run-pure S tt (λ v (f, absent). f))
            (λ other. absurd (ground arith)))
        (λ existing. Run-wrapping S _ _ (
          Run-delete S accepts Tracked.deployment existing.meta.namespace existing.meta.name
            (λ v (f, found).
              let (e, e') = look-key Tracked.deployment _ _ existing v f.0 found in
              (
                (existing, look-at Tracked.deployment _ v _ _ _ _ e e' found),
                Framed-remove Tracked.deployment R stable existing.meta.namespace existing.meta.name
                    v f,
              ))))

  on_build-Run :
      (service : Service) (r : Outcome C.Failure Deployment)
      → IsBuilt deployment_not_needed r
      → Run S (Framed R) (on_build service r) (λ _. Framed R) (λ _. ⊥)
  unfolding apply_loop
  on_build-Run service (ok d) h =
      retry-Run S (deployment_round d)
        (λ _. raise (message "failed to update deployment after 5 retries")) (Framed R)
        (λ _. Framed R) (λ _. ⊥) 4 1 tt (round-Run d)
  on_build-Run service (err e) same =
      subst (λ x. Run S (Framed R) (on_build service (err x)) (λ _. Framed R) (λ _. ⊥)) (sym same)
        (remove-Run service)
  on_build-Run service panic h = absurd h

  -- The method succeeds, and keeps what does not depend on deployments.
  pub reconcile_deployment-Run :
      (rb : ResourceBuilder C.Failure) (service : Service)
      → IsBuilt deployment_not_needed rb.build_deployment
      → Run S (Framed R) (reconcile_deployment rb service) (λ _. Framed R) (λ _. ⊥)
  unfolding reconcile_deployment
  reconcile_deployment-Run rb service h = on_build-Run service rb.build_deployment h
