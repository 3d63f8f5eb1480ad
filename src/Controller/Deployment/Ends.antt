-- ===== src/Controller/Deployment/Ends.antt =====
-- What `reconcileDeployment` leaves on the server when it succeeds.
use unbind_operator.Base.{◌≡◌, ap, inl, inr, refl, false, none, some, arith}
use unbind_operator.Base.Equal.{deep_equal_iff}
use unbind_operator.Base.Outcome.{
  Outcome, ok, err, panic, failure, wrap, message, deployment_not_needed, service_not_needed,
  ingress_not_needed,
}
use unbind_operator.Api.{Service}
use unbind_operator.Kube.{Deployment, DeploymentSpec-discrete, labels_discrete}
use unbind_operator.Client.{Client}
use unbind_operator.Client.View.{Tracked, View, put, look-key, look-put, look-assign_same}
use unbind_operator.Client.Reading.{read_spec, read_deployment, read_spec-again}
use unbind_operator.Client.Frames.{IsStable, Framed, Framed-put, Framed-remove}
use unbind_operator.Client.Stores.{Stores}
use unbind_operator.Client.Triples.{
  Triple, Triple-bind, Triple-get, Triple-create, Triple-update, Triple-delete, Triple-pure,
  Triple-raise, Triple-crash, Triple-wrapping, Triple-if, Triple-weaken,
}
use unbind_operator.Client.Monad.{is_not_found, is_conflict}
use unbind_operator.Controller.Retry.{ResourceBuilder}
use unbind_operator.Controller.Retry.Ends.{AfterRound, retry-Triple}
use unbind_operator.Controller.Deployment.{
  deployment_differs, apply_deployment, remove_deployment, deployment_round, apply_loop, on_build,
  reconcile_deployment,
}

-- The server has the deployment with the desired specification, as it is read back, and labels.
pub record HasDeployment (d : Deployment) (v : View) : Type 0 where
  pub stored : Deployment
  pub is_stored : v.deployments d.meta.namespace d.meta.name ≡ some stored
  pub same_spec : read_spec stored.spec ≡ read_spec d.spec
  pub same_labels : stored.meta.labels ≡ d.meta.labels

-- The server has what the builder made, or nothing if none is needed.
abbrev pub DeploymentMatches : {F : Type 0} → Service → Outcome F Deployment → View → Type 0
DeploymentMatches service (ok d) v = HasDeployment d v
DeploymentMatches service (err e) v =
    (e ≡ deployment_not_needed) × (v.deployments service.namespace service.name ≡ none)
DeploymentMatches service panic v = ⊥

same_deployment :
    (existing d : Deployment)
    → deployment_differs existing d ≡ false
    → (existing.spec ≡ d.spec) × (existing.meta.labels ≡ d.meta.labels)
unfolding deployment_differs
same_deployment existing d h = (
  ground (arith, deep_equal_iff DeploymentSpec-discrete existing.spec d.spec),
  ground (arith, deep_equal_iff labels_discrete existing.meta.labels d.meta.labels),
)

has_applied :
    (existing d : Deployment) (v : View)
    → existing.meta.namespace ≡ d.meta.namespace
    → existing.meta.name ≡ d.meta.name
    → HasDeployment d (put Tracked.deployment (apply_deployment existing d) v)
unfolding apply_deployment
has_applied existing d v e e' = record {
  stored = read_deployment (apply_deployment existing d);
  is_stored =
      look-put Tracked.deployment (apply_deployment existing d) d.meta.namespace d.meta.name v e e';
  same_spec = read_spec-again d.spec;
  same_labels = refl;
}

module _ {C : Client} (S : Stores C) (R : View → Type 0)
    (stable : IsStable Tracked.deployment R) where
  round-Triple :
      (d : Deployment) (x : Unit {0})
      → Triple S
          (Framed R)
          (deployment_round d x)
          (AfterRound (λ _. Unit) (Framed R) (λ _ v. Framed R v × HasDeployment d v))
  unfolding deployment_round
  round-Triple d x =
      Triple-get S Tracked.deployment d.meta.namespace d.meta.name
        (λ e missing.
          Triple-if S (is_not_found C e) _ _
            (λ _.
              Triple-bind S
                (Triple-create S Tracked.deployment d {Q = λ _ v. Framed R v × HasDeployment d v}
                  (λ v (f, _). (
                    Framed-put Tracked.deployment R stable d v f,
                    record {
                      stored = read_deployment d;
                      is_stored = look-put Tracked.deployment d _ _ v refl refl;
                      same_spec = read_spec-again d.spec;
                      same_labels = refl;
                    },
                  )))
                (λ _. Triple-pure S (inr tt) (λ v h. h)))
            (λ h. absurd (ground arith)))
        (λ e other.
          Triple-if S (is_not_found C e) _ _ (λ h. absurd (ground arith)) (λ _. Triple-raise S e))
        (λ existing.
          Triple-if S (deployment_differs existing d) _ _
            (λ differs.
              Triple-update S Tracked.deployment (apply_deployment existing d)
                {P' = λ v. Framed R v × HasDeployment d v}
                (λ v (f, found). (
                  Framed-put Tracked.deployment R stable (apply_deployment existing d) v f,
                  (let (e, e') = look-key Tracked.deployment _ _ existing v f.0 found in
                      has_applied existing d v e e'),
                ))
                (λ e.
                  Triple-if S (is_conflict C e) _ _
                    (λ _. Triple-pure S (inl tt) (λ v (f, found). (tt, f))) (λ _. Triple-raise S _))
                (λ _. Triple-pure S (inr tt) (λ v h. h)))
            (λ same.
              let (e, e') = same_deployment existing d same in
              Triple-pure S (inr tt) (λ v (f, found). (
                f,
                record {
                  stored = existing;
                  is_stored = found;
                  same_spec = ap read_spec e;
                  same_labels = e';
                },
              ))))

  apply_loop-Triple :
      (d : Deployment) → Triple S (Framed R) (apply_loop d) (λ _ v. Framed R v × HasDeployment d v)
  unfolding apply_loop
  apply_loop-Triple d =
      retry-Triple S (deployment_round d) _ (λ _. Unit) (λ _. Unit) (Framed R)
        (λ _ v. Framed R v × HasDeployment d v) (λ x _. round-Triple d x) (λ x _. tt)
        (λ x _. Triple-raise S _) 4 1 tt tt

  remove_deployment-Triple :
      (service : Service)
      → Triple S
          (Framed R)
          (remove_deployment service)
          (λ _ v. Framed R v × (v.deployments service.namespace service.name ≡ none))
  unfolding remove_deployment
  remove_deployment-Triple service =
      Triple-get S Tracked.deployment service.namespace service.name
        (λ e missing.
          Triple-if S (is_not_found C e) _ _ (λ _. Triple-pure S tt (λ v h. h))
            (λ h. absurd (ground arith)))
        (λ e other.
          Triple-if S (is_not_found C e) _ _ (λ h. absurd (ground arith)) (λ _. Triple-raise S _))
        (λ existing. Triple-wrapping S _ _ (
          Triple-delete S Tracked.deployment existing.meta.namespace existing.meta.name
            (λ v (f, found). (
              Framed-remove Tracked.deployment R stable existing.meta.namespace existing.meta.name v
                  f,
              (let (e, e') = look-key Tracked.deployment _ _ existing v f.0 found in
                  rw (← e, ← e')
                    (look-assign_same Tracked.deployment existing.meta.namespace existing.meta.name
                      none v)),
            ))))

  on_build-Triple :
      (service : Service) (r : Outcome C.Failure Deployment)
      → Triple S (Framed R) (on_build service r) (λ _ v. Framed R v × DeploymentMatches service r v)
  on_build-Triple service (ok d) = apply_loop-Triple d
  on_build-Triple service (err deployment_not_needed) =
      Triple-weaken S (λ v f. f) (λ _ v (f, gone). (f, (refl, gone)))
        (remove_deployment-Triple service)
  on_build-Triple service (err service_not_needed) = Triple-raise S _
  on_build-Triple service (err ingress_not_needed) = Triple-raise S _
  on_build-Triple service (err (failure f)) = Triple-raise S _
  on_build-Triple service (err (wrap m e)) = Triple-raise S _
  on_build-Triple service (err (message m)) = Triple-raise S _
  on_build-Triple service panic = Triple-crash S

  pub reconcile_deployment-Triple :
      (rb : ResourceBuilder C.Failure) (service : Service)
      → Triple S
          (Framed R)
          (reconcile_deployment rb service)
          (λ _ v. Framed R v × DeploymentMatches service rb.build_deployment v)
  unfolding reconcile_deployment
  reconcile_deployment-Triple rb service = on_build-Triple service rb.build_deployment
