-- ===== src/Controller/Runtime/Bounds.antt =====
-- The time and the updates of `reconcileRuntimeObjects`.
use unbind_operator.Base.{
  Bool, ℕ, zero, suc, ◌*◌, arith, String, ◌&&◌, not, List, [], ◌∷◌, length, if◌then◌else◌,
}
use unbind_operator.Base.Outcome.{wrap}
use unbind_operator.Api.{Service}
use unbind_operator.Kube.{
  Kind, Job, RuntimeObject, Generic, ObjectMeta, as_object, job, postgresql, helm_release,
  helm_repository, mysql_cluster, backup_policy, clickhouse_installation, other,
}
use unbind_operator.Client.{Client}
use unbind_operator.Client.Monad.{Action, wrapping, done, is_not_found}
use unbind_operator.Client.Spends.{
  Spends, Spends-weaken, Spends-bind, Spends-handle, Spends-if, Spends-get, Spends-create,
  Spends-update, Spends-delete, Spends-sleep, Spends-pure, Spends-raise, Spends-wrapping,
  Spends-set_controller_reference, Spends-lift,
}
use unbind_operator.Controller.Job.{
  wait_for_deletion, recreate, reconcile_job, is_complete, containers_differ,
}
use unbind_operator.Controller.Custom.{
  reconcile_helm_release, reconcile_helm_repository, reconcile_backup_policy, helm_release_shape,
  helm_repository_shape, backup_policy_shape,
}
use unbind_operator.Controller.Custom.Bounds.{
  reconcile_once-Spends, reconcile_postgresql-Spends, reconcile_mysql_cluster-Spends,
  reconcile_clickhouse-Spends,
}
use unbind_operator.Controller.Dynamic.Typed.{
  Converter, converted, object_needs_update, update_object,
}
use unbind_operator.Controller.Runtime.{
  get_existing_object, convert_existing, create_missing, create_object, update_existing,
  reconcile_other, reconcile_object, reconcile_runtime_objects,
}

module _ {C : Client} where
  wait_for_deletion-Spends :
      (rounds : ℕ) (o : Job) → Spends {C = C} rounds 0 (wait_for_deletion rounds o)
  unfolding wait_for_deletion
  wait_for_deletion-Spends zero o = Spends-pure tt 0 0
  wait_for_deletion-Spends (suc rounds) o =
      let again = Spends-bind (Spends-sleep 1) (λ _. wait_for_deletion-Spends rounds o) in
      Spends-weaken (suc rounds) 0
        (Spends-handle (Spends-get Kind.job o.meta.namespace o.meta.name)
          (λ e. Spends-if (is_not_found C e) (Spends-pure tt _ _) again) (λ _. again))
        (omega arith) (omega arith)

  recreate-Spends : (existing o : Job) → Spends {C = C} 10 0 (recreate existing o)
  unfolding recreate
  recreate-Spends existing o =
      Spends-weaken 10 0
        (Spends-bind (Spends-wrapping _ _ (Spends-delete _ _ _))
          (λ _. Spends-bind (wait_for_deletion-Spends 10 o) (λ _. Spends-create Kind.job o)))
        (omega arith) (omega arith)

  reconcile_job-Spends : (o : Job) (owner : Service) → Spends {C = C} 10 0 (reconcile_job o owner)
  unfolding reconcile_job
  reconcile_job-Spends o owner =
      Spends-bind (Spends-wrapping _ _ (Spends-set_controller_reference owner o.meta)) (λ meta.
        Spends-handle (Spends-get Kind.job o.meta.namespace o.meta.name)
          (λ e.
            Spends-if (is_not_found C e)
              (Spends-weaken 10 0 (Spends-create Kind.job (record o { meta = meta })) (omega arith)
                (omega arith))
              (Spends-raise _ _ _))
          (λ existing.
            Spends-if
              (not (is_complete existing.conditions)
                && containers_differ existing (record o { meta = meta }))
              (recreate-Spends existing (record o { meta = meta })) (Spends-pure tt 10 0)))

  module _ (S : Converter C.Failure) where
    create_missing-Spends :
        (object : Generic) (meta : ObjectMeta) (service : Service)
        → Spends {C = C} 0 0 (create_missing S object meta service)
    unfolding create_missing
    create_missing-Spends object meta service = Spends-bind (Spends-lift _ 0 0) (λ owned.
        Spends-bind (Spends-lift (create_object S owned) 0 0) (λ created.
          Spends-wrapping _ _ (Spends-create (as_object created).0 (as_object created).1)))

    update_existing-Spends :
        (existing object : Generic) (service : Service)
        → Spends {C = C} 0 1 (update_existing S existing object service)
    unfolding update_existing
    update_existing-Spends existing object service =
        Spends-bind (Spends-wrapping _ _ (Spends-lift (update_object S existing object) 0 0))
          (λ updated. Spends-bind (Spends-lift _ 0 0) (λ meta.
            Spends-bind
              (Spends-lift (converted "setting controller reference" (S.own service updated)) 0 0)
              (λ owned.
                Spends-if (S.is_client_object owned)
                  (Spends-wrapping _ _ (Spends-update (as_object owned).0 (as_object owned).1))
                  (Spends-raise _ _ _))))

    get_existing_object-Spends :
        (object : Generic) → Spends {C = C} 0 0 (get_existing_object S object)
    unfolding get_existing_object
    get_existing_object-Spends object =
        Spends-bind (Spends-lift (converted "getting metadata" (S.accessor object)) 0 0) (λ m.
          Spends-bind (Spends-get (Kind.unstructured (S.gvk object)) m.namespace m.name)
            (λ u. Spends-lift (convert_existing S (S.kind object) u) 0 0))

    compare-Spends :
        (object existing : Generic) (service : Service) (needs_update : Bool)
        → Spends {C = C} 0 1
            (if needs_update then update_existing S existing object service else done)
    compare-Spends object existing service needs_update =
        Spends-if needs_update (update_existing-Spends existing object service) (Spends-pure tt 0 1)

    reconcile_other-Spends :
        (object : Generic) (service : Service)
        → Spends {C = C} 0 1 (reconcile_other S object service)
    unfolding reconcile_other
    reconcile_other-Spends object service =
        Spends-bind (Spends-lift (converted "accessing object metadata" (S.accessor object)) 0 0)
          (λ meta.
            Spends-handle (get_existing_object-Spends object)
              (λ e.
                Spends-if (is_not_found C e)
                  (Spends-weaken 0 1 (create_missing-Spends object meta service) (omega arith)
                    (omega arith))
                  (Spends-raise (wrap "getting existing object" e) 0 1))
              (λ existing.
                Spends-bind
                  (Spends-wrapping "checking if update needed" _
                    (Spends-lift (object_needs_update S object existing) 0 0))
                  (λ needs_update. compare-Spends object existing service needs_update)))

    once-Spends :
        (text : String) {m : Action C (Unit {0})} → Spends 0 1 m → Spends 51 6 (wrapping text m)
    once-Spends text h = Spends-weaken 51 6 (Spends-wrapping text _ h) (omega arith) (omega arith)

    reconcile_object-Spends :
        (service : Service) (o : RuntimeObject) → Spends {C = C} 51 6 (reconcile_object S service o)
    unfolding reconcile_object reconcile_helm_release reconcile_helm_repository
        reconcile_backup_policy
    reconcile_object-Spends service (job o) =
        Spends-weaken 51 6 (Spends-wrapping _ _ (reconcile_job-Spends o service)) (omega arith)
          (omega arith)
    reconcile_object-Spends service (postgresql o) =
        Spends-wrapping _ _ (reconcile_postgresql-Spends o service)
    reconcile_object-Spends service (helm_release o) =
        once-Spends _ (reconcile_once-Spends Kind.helm_release helm_release_shape o service)
    reconcile_object-Spends service (helm_repository o) =
        once-Spends _ (reconcile_once-Spends Kind.helm_repository helm_repository_shape o service)
    reconcile_object-Spends service (mysql_cluster o) =
        Spends-wrapping _ _ (reconcile_mysql_cluster-Spends o service)
    reconcile_object-Spends service (backup_policy o) =
        once-Spends _ (reconcile_once-Spends Kind.backup_policy backup_policy_shape o service)
    reconcile_object-Spends service (clickhouse_installation o) =
        Spends-wrapping _ _ (reconcile_clickhouse-Spends o service)
    reconcile_object-Spends service (other o) =
        Spends-weaken 51 6 (reconcile_other-Spends o service) (omega arith) (omega arith)

    -- So much for each of the objects
    pub reconcile_runtime_objects-Spends :
        (objects : List RuntimeObject) (service : Service)
        → Spends {C = C}
            (51 * length objects)
            (6 * length objects)
            (reconcile_runtime_objects S objects service)
    unfolding reconcile_runtime_objects
    reconcile_runtime_objects-Spends [] service = Spends-pure tt _ _
    reconcile_runtime_objects-Spends (o ∷ objects) service =
        Spends-weaken _ _
          (Spends-bind (reconcile_object-Spends service o)
            (λ _. reconcile_runtime_objects-Spends objects service))
          (omega arith) (omega arith)
