-- ===== src/Controller/Deployment/Repeated.antt =====
-- `reconcileDeployment` on a deployment that exists, as it is read back from the server: an empty map
-- of annotations is left out when an object is sent, so that it is nil there.
use unbind_operator.Base.{
  ◌≡◌, ◌≢◌, ◌∙◌, refl, true, some, none, [], ◌∷◌, inl, inr, arith, Bool-cases,
}
use unbind_operator.Base.Equal.{deep_equal, deep_equal_iff}
use unbind_operator.Base.Outcome.{ok}
use unbind_operator.Api.{Service}
use unbind_operator.Kube.{Kind, Deployment, DeploymentSpec-discrete}
use unbind_operator.Client.{Client, getting, updating}
use unbind_operator.Client.Monad.{World, get, update, handle, ◌>>=◌}
use unbind_operator.Builder.Deployment.{build_deployment}
use unbind_operator.Builder.Deployment.Mounts.{build_deployment-IsComplete}
use unbind_operator.Controller.Retry.{retry}
use unbind_operator.Controller.Deployment.{
  deployment_differs, apply_deployment, deployment_round, apply_loop,
}

pub differs :
    (existing desired : Deployment)
    → existing.spec.template_annotations ≢ some []
    → desired.spec.template_annotations ≡ some []
    → deployment_differs existing desired ≡ true
unfolding deployment_differs
differs existing desired other empty =
    elim (Bool-cases (deep_equal DeploymentSpec-discrete existing.spec desired.spec)) [
      | inl same ↦
          let e : existing.spec ≡ desired.spec =
            ground (arith, deep_equal_iff DeploymentSpec-discrete existing.spec desired.spec) in
          absurd (other ((λ i. (e i).template_annotations) ∙ empty))
      | inr different ↦ ground arith
    ]

module _ {C : Client} where
  -- The run of the loop where the deployment that is found differs and the update succeeds
  pub apply_loop-updates :
      (existing desired : Deployment) (w : World C)
      → (C.get Kind.deployment desired.meta.namespace desired.meta.name w.state).0 ≡ inr existing
      → deployment_differs existing desired ≡ true
      → (C.update Kind.deployment
          (apply_deployment existing desired)
          (C.get Kind.deployment desired.meta.namespace desired.meta.name w.state).1).0
        ≡ none
      → apply_loop desired w ≡ (
        ok tt,
        record {
          state =
              (C.update Kind.deployment
                (apply_deployment existing desired)
                (C.get Kind.deployment desired.meta.namespace desired.meta.name w.state).1).1;
          log =
              updating Kind.deployment (apply_deployment existing desired)
              ∷ getting Kind.deployment desired.meta.namespace desired.meta.name
              ∷ w.log;
        },
      )
  unfolding apply_loop retry deployment_round handle ◌>>=◌ get update
  apply_loop-updates existing desired w found different updated = ground arith

  -- If `BuildDeployment` succeeds, the server answers with a deployment whose pods do not have an
  -- empty map of annotations (nil, for one), whatever else it holds, and the update succeeds, then
  -- the loop looks the deployment up, updates it and succeeds: a deployment that is as desired, but
  -- has nil annotations because it was read back, is written again in every run.
  pub apply_loop-repeats :
      (service : Service) (existing desired : Deployment) (w : World C)
      → build_deployment service {F = C.Failure} ≡ ok desired
      → (C.get Kind.deployment desired.meta.namespace desired.meta.name w.state).0 ≡ inr existing
      → existing.spec.template_annotations ≢ some []
      → (C.update Kind.deployment
          (apply_deployment existing desired)
          (C.get Kind.deployment desired.meta.namespace desired.meta.name w.state).1).0
        ≡ none
      → ((apply_loop desired w).0 ≡ ok tt)
        × ((apply_loop desired w).1.log
            ≡ updating Kind.deployment (apply_deployment existing desired)
              ∷ getting Kind.deployment desired.meta.namespace desired.meta.name
              ∷ w.log)
  apply_loop-repeats service existing desired w built found other updated =
      let complete = build_deployment-IsComplete service desired built in
      let different = differs existing desired other complete.annotated in
      rw (apply_loop-updates existing desired w found different updated) (refl, refl)
