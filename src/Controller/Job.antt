-- ===== src/Controller/Job.antt =====
-- `reconcileJob`
pub mod Finished
use unbind_operator.Base.{
  ℕ, zero, suc, Bool, false, not, ◌&&◌, ◌||◌, List, [], ◌∷◌, ◌==◌, if◌then◌else◌,
}
use unbind_operator.Base.Equal.{deep_equal}
use unbind_operator.Api.{Service}
use unbind_operator.Kube.{Kind, Job, JobCondition, containers_discrete}
use unbind_operator.Client.{Client}
use unbind_operator.Client.Monad.{
  Action, raise, handle, wrapping, done, ◌>>=◌, is_not_found, get, create, delete, sleep,
  set_controller_reference,
}

-- `jobComplete`: a condition says that the job is complete or has failed.
unfoldable pub is_complete : List JobCondition → Bool
is_complete [] = false
is_complete (c ∷ conditions) =
    ((c.type == "Complete" || c.type == "Failed") && (c.status == "True")) || is_complete conditions

unfoldable pub containers_differ : Job → Job → Bool
containers_differ existing desired =
    not (deep_equal containers_discrete existing.containers desired.containers)

module _ {C : Client} where
  -- The loop that waits for the deletion. It ends early where the job is gone; any other error and
  -- the end of the rounds are ignored.
  unfoldable pub wait_for_deletion : ℕ → Job → Action C (Unit {0})
  unfolding handle ◌>>=◌
  wait_for_deletion zero job = done
  wait_for_deletion (suc rounds) job =
      let again = sleep 1 >>= (λ _. wait_for_deletion rounds job) in
      handle (get Kind.job job.meta.namespace job.meta.name)
        (λ e. if is_not_found C e then done else again) (λ _. again)

  unfoldable pub recreate : Job → Job → Action C (Unit {0})
  unfolding wrapping ◌>>=◌ wait_for_deletion
  recreate existing desired =
      wrapping "deleting Job" (delete Kind.job existing.meta.namespace existing.meta.name)
      >>= (λ _. wait_for_deletion 10 desired >>= (λ _. create Kind.job desired))

  unfoldable pub reconcile_job : Job → Service → Action C (Unit {0})
  unfolding handle wrapping ◌>>=◌ recreate is_complete containers_differ
  reconcile_job job owner =
      wrapping "setting controller reference" (set_controller_reference owner job.meta) >>= (λ meta.
        let desired = record job { meta = meta } in
        handle (get Kind.job job.meta.namespace job.meta.name)
          (λ e. if is_not_found C e then create Kind.job desired else raise e)
          (λ existing.
            if not (is_complete existing.conditions) && containers_differ existing desired
            then recreate existing desired
            else done))
