-- ===== src/Controller/Job/Finished.antt =====
-- `reconcileJob` on a job that exists.
use unbind_operator.Base.{true, ◌≡◌, ◌⊎◌, inl, inr, List, [], ◌∷◌, refl, arith}
use unbind_operator.Base.Outcome.{ok}
use unbind_operator.Api.{Service}
use unbind_operator.Kube.{Kind, Job, JobCondition, ObjectMeta}
use unbind_operator.Client.{Client, getting}
use unbind_operator.Client.Monad.{World, get, handle, wrapping, ◌>>=◌, set_controller_reference}
use unbind_operator.Controller.Job.{is_complete, reconcile_job}

-- A condition says that the job is complete, or that it has failed.
abbrev pub HasEnded : List JobCondition → Type 0
HasEnded [] = ⊥
HasEnded (c ∷ conditions) =
    (((c.type ≡ "Complete") ⊎ (c.type ≡ "Failed")) × (c.status ≡ "True")) ⊎ HasEnded conditions

HasEnded-complete :
    (conditions : List JobCondition) → HasEnded conditions → is_complete conditions ≡ true
unfolding is_complete
HasEnded-complete [] h = absurd h
HasEnded-complete (c ∷ conditions) (inl (inl e, e')) = rw (e, e') refl
HasEnded-complete (c ∷ conditions) (inl (inr e, e')) = rw (e, e') refl
HasEnded-complete (c ∷ conditions) (inr h) =
    let rest = HasEnded-complete conditions h in ground arith

module _ {C : Client} where
  -- An existing job that is complete or has failed is neither deleted nor created again, even if the
  -- desired containers differ: the run makes one call, the lookup, and succeeds.
  pub reconcile_job-finished :
      (job existing : Job) (owner : Service) (meta : ObjectMeta) (w : World C)
      → C.set_controller_reference owner job.meta ≡ inr meta
      → (C.get Kind.job job.meta.namespace job.meta.name w.state).0 ≡ inr existing
      → HasEnded existing.conditions
      → ((reconcile_job job owner w).0 ≡ ok tt)
        × ((reconcile_job job owner w).1.log
            ≡ getting Kind.job job.meta.namespace job.meta.name ∷ w.log)
  unfolding reconcile_job handle wrapping ◌>>=◌ get set_controller_reference
  reconcile_job-finished job existing owner meta w owned found ended =
      let finished = HasEnded-complete existing.conditions ended in (ground arith, ground arith)
