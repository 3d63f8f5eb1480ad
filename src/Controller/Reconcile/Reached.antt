-- ===== src/Controller/Reconcile/Reached.antt =====
-- How many runs of the generic path of `Reconcile` it takes to bring the server to the state that a
-- service asks for.
use mathlib.Core.Path.{subst}
use unbind_operator.Base.{ℕ, zero, suc, ◌≡◌, refl, All, some, List, [], ◌∷◌}
use unbind_operator.Base.Outcome.{Outcome, ok, err, panic}
use unbind_operator.Api.{Service}
use unbind_operator.Kube.{CoreService}
use unbind_operator.Client.{Client}
use unbind_operator.Client.View.{View, IsKeyed}
use unbind_operator.Client.Frames.{Framed}
use unbind_operator.Client.Stores.{Stores}
use unbind_operator.Client.Quiet.{Answers}
use unbind_operator.Client.Runs.{Accepts, Ends, Run, Run-bind, Run-weaken}
use unbind_operator.Client.Monad.{World}
use unbind_operator.Builder.Deployment.{build_deployment}
use unbind_operator.Builder.Services.{build_services}
use unbind_operator.Controller.Services.Progress.{FirstPresent}
use unbind_operator.Controller.Services.Runs.{
  FirstBuilt, BuiltMore, BuiltMore-FirstBuilt, reconcile_services-Run,
}
use unbind_operator.Controller.Deployment.Runs.{reconcile_deployment-Run}
use unbind_operator.Controller.Ingress.Runs.{reconcile_ingress-Run}
use unbind_operator.Controller.Reconcile.{reconcile_generic, new_resource_builder}
use unbind_operator.Controller.Reconcile.Built.{
  build_deployment-IsBuilt, build_services-IsBuilt, build_ingress-IsBuilt, build_services-two,
}
use unbind_operator.Controller.Reconcile.Fit.{HasRequestedPort}
use unbind_operator.Controller.Reconcile.Converges.{Matches, reconcile_generic-Matches}

-- Whether the services are there depends on them alone.
FirstPresent-same :
    (n : ℕ) (ds : List CoreService) (v v' : View)
    → v.core_services ≡ v'.core_services
    → FirstPresent n ds v
    → FirstPresent n ds v'
FirstPresent-same zero ds v v' e h = tt
FirstPresent-same (suc n) [] v v' e h = tt
FirstPresent-same (suc n) (d ∷ ds) v v' e ((x, there), hs) = (
  (x, subst (λ table. table d.meta.namespace d.meta.name ≡ some x) e there),
  FirstPresent-same n ds v v' e hs,
)

FirstBuilt-same :
    {F : Type 0} (n : ℕ) (r : Outcome F (List CoreService)) (v v' : View)
    → v.core_services ≡ v'.core_services
    → FirstBuilt n r v
    → FirstBuilt n r v'
FirstBuilt-same n (ok ds) v v' e h = FirstPresent-same n ds v v' e h
FirstBuilt-same n (err x) v v' e h = tt
FirstBuilt-same n panic v v' e h = tt

FirstBuilt-none : {F : Type 0} (r : Outcome F (List CoreService)) (v : View) → FirstBuilt 0 r v
FirstBuilt-none (ok ds) v = tt
FirstBuilt-none (err x) v = tt
FirstBuilt-none panic v = tt

-- The world after so many runs, whatever they end in
abbrev pub rerun : {C : Client} → Service → ℕ → World C → World C
rerun service zero w = w
rerun service (suc n) w = (reconcile_generic service (rerun service n w)).1

module _ {C : Client} (S : Stores C) (answers : Answers S) (accepts : Accepts S) (service : Service)
    (no_panic : ¬ (build_deployment service {F = C.Failure} ≡ panic)) where
  -- A run that finds the first `n` services.
  reconcile_generic-Run :
      (n : ℕ)
      → Run S
          (Framed (FirstBuilt {F = C.Failure} n (build_services service)))
          (reconcile_generic service)
          (λ _. Framed (FirstBuilt {F = C.Failure} (suc n) (build_services service)))
          (Framed (BuiltMore {F = C.Failure} n (build_services service)))
  unfolding reconcile_generic new_resource_builder
  reconcile_generic-Run n =
      let rb = new_resource_builder {F = C.Failure} service in
      Run-bind S
        (Run-weaken S (λ v f. f) (λ _ v f. f) (λ v f. absurd f)
          (reconcile_deployment-Run S answers accepts (FirstBuilt n rb.build_services)
            (λ namespace name entry v h. FirstBuilt-same n rb.build_services v _ refl h) rb service
            (build_deployment-IsBuilt C.Failure service no_panic)))
        (λ _.
          Run-bind S
            (reconcile_services-Run S answers accepts service n rb
              (build_services-IsBuilt C.Failure service))
            (λ _.
              Run-weaken S (λ v f. f) (λ _ v f. f) (λ v f. absurd f)
                (reconcile_ingress-Run S answers accepts (FirstBuilt (suc n) rb.build_services)
                  (λ namespace name entry v h. FirstBuilt-same (suc n) rb.build_services v _ refl h)
                  rb service (build_ingress-IsBuilt C.Failure service))))

  -- Each run finds one more of the services.
  FirstBuilt-rerun :
      (n : ℕ) (w : World C)
      → IsKeyed (S.view w.state)
      → Framed
          (FirstBuilt {F = C.Failure} n (build_services service))
          (S.view (rerun service n w).state)
  FirstBuilt-rerun zero w keyed = (keyed, FirstBuilt-none (build_services service) (S.view w.state))
  FirstBuilt-rerun (suc n) w keyed =
      one_more (reconcile_generic service (rerun service n w)).0 _
        ((reconcile_generic-Run n).ends (rerun service n w) (FirstBuilt-rerun n w keyed))
    where
      one_more :
          (r : Outcome C.Failure (Unit {0})) (v : View)
          → Ends
              (λ _. Framed (FirstBuilt {F = C.Failure} (suc n) (build_services service)))
              (Framed (BuiltMore {F = C.Failure} n (build_services service)))
              r
              v
          → Framed (FirstBuilt {F = C.Failure} (suc n) (build_services service)) v
      one_more (ok x) v f = f
      one_more (err e) v (keyed', more) =
          (keyed', BuiltMore-FirstBuilt n (build_services service) v more)
      one_more panic v f = absurd f

  pub rerun-IsKeyed :
      (n : ℕ) (w : World C) → IsKeyed (S.view w.state) → IsKeyed (S.view (rerun service n w).state)
  rerun-IsKeyed n w keyed = (FirstBuilt-rerun n w keyed).0

  third_run :
      (r : Outcome C.Failure (Unit {0})) (v : View)
      → Ends
          (λ _. Framed (FirstBuilt {F = C.Failure} 3 (build_services service)))
          (Framed (BuiltMore {F = C.Failure} 2 (build_services service)))
          r
          v
      → r ≡ ok tt
  third_run (ok tt) v f = refl
  third_run (err e) v (keyed, more) = absurd (build_services-two C.Failure service v more)
  third_run panic v f = absurd f

  -- On a server with the effects of `Stores` that answers every lookup and accepts every write, from
  -- any keyed state, when the node ports that the specification asks for are not 0 and the builder
  -- of the deployment does not panic: the third of three successive runs of the generic path
  -- succeeds, whatever the first two end in, and leaves the state that the service asks for.
  pub rerun-Matches :
      (w : World C)
      → IsKeyed (S.view w.state)
      → All HasRequestedPort service.spec.config.ports
      → ((reconcile_generic service (rerun service 2 w)).0 ≡ ok tt)
        × Matches C.Failure service (S.view (rerun service 3 w).state)
  rerun-Matches w keyed requested =
      let f = FirstBuilt-rerun 2 w keyed in
      let done' =
        third_run (reconcile_generic service (rerun service 2 w)).0 _
          ((reconcile_generic-Run 2).ends (rerun service 2 w) f) in
      (done', (reconcile_generic-Matches S service (rerun service 2 w) f.0 requested done').1)
