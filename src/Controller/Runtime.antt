-- ===== src/Controller/Runtime.antt =====
-- `reconcileRuntimeObjects` and `getExistingObject`.
pub mod Bounds
use unbind_operator.Base.{String, ◌<>◌, List, [], ◌∷◌, ◌==◌, if◌then◌else◌}
use unbind_operator.Base.Outcome.{Outcome, ok, wrap, message}
use unbind_operator.Api.{Service}
use unbind_operator.Kube.{
  Kind, ObjectMeta, Unstructured, Generic, as_object, RuntimeObject, job, postgresql, helm_release,
  helm_repository, mysql_cluster, backup_policy, clickhouse_installation, other,
}
use unbind_operator.Client.{Client}
use unbind_operator.Client.Monad.{
  Action, raise, lift, handle, wrapping, done, ◌>>=◌, is_not_found, get, create, update,
}
use unbind_operator.Controller.Dynamic.Typed.{
  Converter, converted, and_then, object_needs_update, update_object,
}
use unbind_operator.Controller.Custom.{
  reconcile_postgresql, reconcile_mysql_cluster, reconcile_clickhouse_installation,
  reconcile_helm_release, reconcile_helm_repository, reconcile_backup_policy,
}
use unbind_operator.Controller.Job.{reconcile_job}

module _ {F : Type 0} (S : Converter F) where
  -- The switch on the kind: built-in types are converted back.
  unfoldable pub convert_existing : String → Unstructured → Outcome F Generic
  convert_existing kind u =
      if kind == "Deployment"
      then (and_then (converted "converting unstructured to Deployment" (S.to_deployment u.content))
          λ d. ok (Generic.deployment d))
      else if kind == "Service"
      then (and_then (converted "converting unstructured to Service" (S.to_service u.content))
          λ s. ok (Generic.core_service s))
      else if kind == "Ingress"
      then (and_then (converted "converting unstructured to Ingress" (S.to_ingress u.content))
          λ i. ok (Generic.ingress i))
      else ok (Generic.unstructured u)

  abbrev kind_name : Generic → String
  kind_name object = if S.kind object == "" then S.type_name object else S.kind object

  -- `kind namespace/name` in an error
  abbrev label : Generic → ObjectMeta → String
  label object meta = kind_name object <> " " <> meta.namespace <> "/" <> meta.name

  -- What is created for an object that is missing: itself, or its unstructured form
  unfoldable pub create_object : Generic → Outcome F Generic
  create_object owned =
      if S.is_client_object owned
      then ok owned
      else and_then (converted "converting object to unstructured" (S.to_unstructured owned))
          λ content. ok (Generic.unstructured (record { gvk = S.gvk owned; content = content }))

module _ {C : Client} (S : Converter C.Failure) where
  unfoldable pub get_existing_object : Generic → Action C Generic
  unfolding ◌>>=◌ convert_existing
  get_existing_object object = lift (converted "getting metadata" (S.accessor object)) >>= (λ meta.
      get (Kind.unstructured (S.gvk object)) meta.namespace meta.name
      >>= (λ u. lift (convert_existing S (S.kind object) u)))

  unfoldable pub create_missing : Generic → ObjectMeta → Service → Action C (Unit {0})
  unfolding wrapping ◌>>=◌ create_object
  create_missing object meta service =
      lift (converted "setting controller reference" (S.own service object)) >>= (λ owned.
        lift (create_object S owned) >>= (λ created.
          let (k, o) = as_object created in
          wrapping ("creating " <> label S object meta) (create k o)))

  unfoldable pub update_existing : Generic → Generic → Service → Action C (Unit {0})
  unfolding wrapping ◌>>=◌ update_object
  update_existing existing object service =
      wrapping "updating object spec" (lift (update_object S existing object)) >>= (λ updated.
        lift (converted "getting metadata from existing object" (S.accessor updated)) >>= (λ meta.
          lift (converted "setting controller reference" (S.own service updated)) >>= (λ owned.
            if S.is_client_object owned
            then (let (k, o) = as_object owned in
                wrapping ("updating " <> label S object meta) (update k o))
            else raise (message "existing object is not a client.Object"))))

  -- The default branch
  unfoldable pub reconcile_other : Generic → Service → Action C (Unit {0})
  unfolding handle wrapping ◌>>=◌ get_existing_object create_missing update_existing
      object_needs_update
  reconcile_other object service =
      lift (converted "accessing object metadata" (S.accessor object)) >>= (λ meta.
        handle (get_existing_object object)
          (λ e.
            if is_not_found C e
            then create_missing object meta service
            else raise (wrap "getting existing object" e))
          (λ existing.
            wrapping "checking if update needed" (lift (object_needs_update S object existing))
            >>= (λ needs_update.
                if needs_update then update_existing existing object service else done)))

  -- The switch on the type of an object
  unfoldable pub reconcile_object : Service → RuntimeObject → Action C (Unit {0})
  unfolding wrapping reconcile_job reconcile_postgresql reconcile_helm_release
      reconcile_helm_repository reconcile_mysql_cluster reconcile_backup_policy
      reconcile_clickhouse_installation reconcile_other
  reconcile_object service (job o) = wrapping "reconciling Job" (reconcile_job o service)
  reconcile_object service (postgresql o) =
      wrapping "reconciling Postgresql" (reconcile_postgresql o service)
  reconcile_object service (helm_release o) =
      wrapping "reconciling HelmRelease" (reconcile_helm_release o service)
  reconcile_object service (helm_repository o) =
      wrapping "reconciling HelmRepository" (reconcile_helm_repository o service)
  reconcile_object service (mysql_cluster o) =
      wrapping "reconciling MySQLCluster" (reconcile_mysql_cluster o service)
  reconcile_object service (backup_policy o) =
      wrapping "reconciling BackupPolicy" (reconcile_backup_policy o service)
  reconcile_object service (clickhouse_installation o) =
      wrapping "reconciling ClickHouseInstallation" (reconcile_clickhouse_installation o service)
  reconcile_object service (other o) = reconcile_other o service

  unfoldable pub reconcile_runtime_objects : List RuntimeObject → Service → Action C (Unit {0})
  unfolding ◌>>=◌ reconcile_object
  reconcile_runtime_objects [] service = done
  reconcile_runtime_objects (o ∷ objects) service =
      reconcile_object service o >>= (λ _. reconcile_runtime_objects objects service)
