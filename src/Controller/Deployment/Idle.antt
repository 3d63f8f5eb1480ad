-- ===== src/Controller/Deployment/Idle.antt =====
-- `reconcileDeployment` where the deployment is as desired, or none is wanted and none is there.
use mathlib.Core.Path.{subst}
use unbind_operator.Base.{
  ◌≡◌, ◌≢◌, ◌∙◌, ap, String, refl, sym, arith, true, false, none, some, Option, Option-cases,
  Bool-cases, [], ◌==◌, ◌⊎◌, inl, inr, if◌then◌else◌,
}
use unbind_operator.Base.Outcome.{Outcome, ok, err, panic}
use unbind_operator.Api.{Service}
use unbind_operator.Kube.{Kind, Deployment}
use unbind_operator.Client.{Client}
use unbind_operator.Client.Reading.{nil_if_empty, read_spec, read_deployment, read_deployment-again}
use unbind_operator.Client.View.{Tracked, View, IsKeyed, put, look-key, look-at, set-there, set-All}
use unbind_operator.Client.Stores.{Stores}
use unbind_operator.Client.Quiet.{Answers, Quiet, Quiet-pure, Quiet-if, Quiet-missing}
use unbind_operator.Client.Rewrites.{Rewrites, Rewrites-Quiet}
use unbind_operator.Client.Runs.{Accepts}
use unbind_operator.Client.Monad.{is_not_found}
use unbind_operator.Builder.Deployment.{assemble, build_deployment}
use unbind_operator.Builder.Deployment.Mounts.{build_deployment-IsComplete}
use unbind_operator.Controller.Retry.{ResourceBuilder}
use unbind_operator.Controller.Deployment.{
  apply_deployment, remove_deployment, apply_loop, on_build, reconcile_deployment,
}
use unbind_operator.Controller.Deployment.Repeated.{differs, apply_loop-updates}
use unbind_operator.Controller.Deployment.Ends.{HasDeployment, DeploymentMatches}

-- Every deployment is kept as it is read back.
abbrev pub IsReadAt : Option Deployment → Type 0
IsReadAt none = Unit
IsReadAt (some o) = read_deployment o ≡ o

abbrev pub IsRead : View → Type 0
IsRead v = (namespace name : String) → IsReadAt (v.deployments namespace name)

pub IsRead-put : (o : Deployment) (v : View) → IsRead v → IsRead (put Tracked.deployment o v)
IsRead-put o v h =
    set-All (λ _ _ entry. IsReadAt entry) o.meta.namespace o.meta.name (some (read_deployment o))
      v.deployments h (read_deployment-again o)

-- What has been read back has no empty map.
not_empty : (o : Deployment) → read_deployment o ≡ o → o.spec.template_annotations ≢ some []
not_empty o same empty =
    let e : nil_if_empty o.spec.template_annotations ≡ o.spec.template_annotations =
      λ i. (same i).spec.template_annotations in
    let e' : none ≡ some [] = ap nil_if_empty (sym empty) ∙ e ∙ empty in ground arith

-- An update of a deployment that is as desired is read back as it was.
read-apply :
    (o d : Deployment)
    → read_deployment o ≡ o
    → read_spec o.spec ≡ read_spec d.spec
    → o.meta.labels ≡ d.meta.labels
    → read_deployment (apply_deployment o d) ≡ o
unfolding apply_deployment
read-apply o d same e e' =
    let spec : read_spec d.spec ≡ o.spec = sym e ∙ (λ i. (same i).spec) in
    λ i. record { meta = record o.meta { labels = sym e' i }; spec = spec i }

put-apply :
    (o d : Deployment) (v : View)
    → v.deployments o.meta.namespace o.meta.name ≡ some o
    → read_deployment (apply_deployment o d) ≡ o
    → put Tracked.deployment (apply_deployment o d) v ≡ v
unfolding apply_deployment
put-apply o d v there same =
    let kept =
      set-there o.meta.namespace o.meta.name (some (read_deployment (apply_deployment o d)))
        v.deployments (there ∙ ap (λ (x : Deployment). some x) (sym same)) in
    λ i. record v { deployments = kept i }

module _ {C : Client} (S : Stores C) (answers : Answers S) (v : View) where
  remove-Quiet :
      (service : Service)
      → v.deployments service.namespace service.name ≡ none
      → Quiet S v (remove_deployment service) tt
  unfolding remove_deployment
  remove-Quiet service absent =
      Quiet-missing S answers v Tracked.deployment service.namespace service.name _ _ _ absent
        (λ e missing.
          Quiet-if S v (is_not_found C e) _ _ _ (λ _. Quiet-pure S v tt)
            (λ h. absurd (ground arith)))

  absent-Rewrites :
      (service : Service) (r : Outcome C.Failure Deployment)
      → ((d : Deployment) → ¬ (r ≡ ok d))
      → DeploymentMatches service r v
      → Rewrites S v 0 (on_build service r) tt
  absent-Rewrites service (ok d) other h = absurd (other d refl)
  absent-Rewrites service (err e) other (same, absent) =
      subst (λ x. Rewrites S v 0 (on_build service (err x)) tt) (sym same)
        (Rewrites-Quiet S v _ tt (remove-Quiet service absent))
  absent-Rewrites service panic other h = absurd h

  -- One update, of what is there
  apply_loop-Rewrites :
      (accepts : Accepts S) (service : Service) (d : Deployment)
      → build_deployment service {F = C.Failure} ≡ ok d
      → IsKeyed v
      → IsRead v
      → HasDeployment d v
      → Rewrites S v 1 (apply_loop d) tt
  unfolding apply_deployment
  apply_loop-Rewrites accepts service d built keyed read h = record {
    ends = λ w e.
        let o = h.stored in
        let (e1, e2) = look-key Tracked.deployment _ _ o v keyed h.is_stored in
        let key = look-at Tracked.deployment (some o) v _ _ _ _ e1 e2 h.is_stored in
        let same = subst IsReadAt h.is_stored (read d.meta.namespace d.meta.name) in
        let found =
          answers.found Tracked.deployment d.meta.namespace d.meta.name w.state o
            (rw e h.is_stored) in
        let s = (C.get Kind.deployment d.meta.namespace d.meta.name w.state).1 in
        let view : S.view s ≡ v =
          S.get_view Kind.deployment d.meta.namespace d.meta.name w.state ∙ e in
        let updated = accepts.updated Tracked.deployment (apply_deployment o d) o s (rw view key) in
        let complete = build_deployment-IsComplete service d built in
        let different = differs o d (not_empty o same) complete.annotated in
        rw (apply_loop-updates o d w found different updated) (
          refl,
          S.update_done Tracked.deployment (apply_deployment o d) s updated
              ∙ (ap (put Tracked.deployment (apply_deployment o d)) view
                  ∙ put-apply o d v key (read-apply o d same h.same_spec h.same_labels)),
          omega arith,
        );
  }

  build-cases :
      (service : Service)
      → ((service.spec.config.image == "" ≡ true)
          × ((d : Deployment) → ¬ (build_deployment service {F = C.Failure} ≡ ok d)))
        ⊎ ((service.spec.config.image == "" ≡ false)
            × (((d : Deployment) × (build_deployment service {F = C.Failure} ≡ ok d))
                ⊎ (build_deployment service {F = C.Failure} ≡ panic)))
  unfolding build_deployment
  build-cases service = elim (Bool-cases (service.spec.config.image == "")) [
    | inl none_wanted ↦ inl (none_wanted, λ d e. ground arith)
    | inr wanted ↦ elim (Option-cases (assemble service)) [
      | inl panics ↦ inr (wanted, inr (ground arith))
      | inr (d, built) ↦ inr (wanted, inl (d, ground arith))
    ]
  ]

  -- The method writes once exactly if there is an image to deploy.
  pub reconcile_deployment-Rewrites :
      (accepts : Accepts S) (rb : ResourceBuilder C.Failure) (service : Service)
      → rb.build_deployment ≡ build_deployment service {F = C.Failure}
      → IsKeyed v
      → IsRead v
      → DeploymentMatches service (build_deployment service {F = C.Failure}) v
      → Rewrites S v
          (if service.spec.config.image == "" then 0 else 1)
          (reconcile_deployment rb service)
          tt
  unfolding reconcile_deployment
  reconcile_deployment-Rewrites accepts rb service same keyed read h = elim (build-cases service) [
    | inl (none_wanted, never) ↦
        rw (same, none_wanted)
          (absent-Rewrites service (build_deployment service {F = C.Failure}) never h)
    | inr (wanted, inl (d, built)) ↦
        rw (same, wanted, built)
          (apply_loop-Rewrites accepts service d built keyed read
            (subst (λ r. DeploymentMatches service r v) built h))
    | inr (wanted, inr panics) ↦ absurd (subst (λ r. DeploymentMatches service r v) panics h)
  ]
