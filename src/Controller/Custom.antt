-- ===== src/Controller/Custom.antt =====
-- The custom resources of a database: `reconcilePostgresql`, `reconcileMySQLCluster`,
-- `reconcileClickhouseInstallation` (with retries), `reconcileHelmRelease`,
-- `reconcileHelmRepository` and `reconcileBackupPolicy` (in one attempt).
pub mod Bounds
use unbind_operator.Base.{String, Bool, not, ◌&&◌, ◌⊎◌, inl, inr, pos, int_eq, if◌then◌else◌}
use unbind_operator.Base.Equal.{deep_equal}
use unbind_operator.Base.Outcome.{message}
use unbind_operator.Api.{Service}
use unbind_operator.Kube.{Kind, Object, ObjectMeta, Custom, MysqlCluster}
use unbind_operator.Kube.Dynamic.{Value-discrete}
use unbind_operator.Client.{Client}
use unbind_operator.Client.Monad.{
  Action, pure, raise, handle, wrapping, done, ◌>>=◌, is_not_found, is_conflict, get, create,
  update, set_controller_reference,
}
use unbind_operator.Controller.Retry.{retry, max_retries}
use unbind_operator.Controller.Copy.{
  if_target, copy_postgres_credentials, copy_mysql_credentials, copy_clickhouse_credentials,
}

-- How a kind is compared and updated: `differs existing desired`, `assign existing desired`
pub record Shape (k : Kind) : Type 0 where
  pub meta : Object k → ObjectMeta
  pub set_meta : Object k → ObjectMeta → Object k
  pub differs : Object k → Object k → Bool
  pub assign : Object k → Object k → Object k

unfoldable pub custom_differs : Custom → Custom → Bool
custom_differs existing desired = not (deep_equal Value-discrete existing.spec desired.spec)

-- `existing.Spec = desired.Spec`; the status stays.
unfoldable pub assign_spec : Custom → Custom → Custom
assign_spec existing desired = record existing { spec = desired.spec }

abbrev pub custom_meta : Custom → ObjectMeta
custom_meta c = c.meta

abbrev pub set_custom_meta : Custom → ObjectMeta → Custom
set_custom_meta c meta = record c { meta = meta }

abbrev pub postgresql_shape : Shape Kind.postgresql
postgresql_shape = record {
  meta = custom_meta;
  set_meta = set_custom_meta;
  differs = custom_differs;
  assign = assign_spec;
}

abbrev pub clickhouse_shape : Shape Kind.clickhouse_installation
clickhouse_shape = record {
  meta = custom_meta;
  set_meta = set_custom_meta;
  differs = custom_differs;
  assign = assign_spec;
}

abbrev pub helm_release_shape : Shape Kind.helm_release
helm_release_shape = record {
  meta = custom_meta;
  set_meta = set_custom_meta;
  differs = custom_differs;
  assign = assign_spec;
}

abbrev pub helm_repository_shape : Shape Kind.helm_repository
helm_repository_shape = record {
  meta = custom_meta;
  set_meta = set_custom_meta;
  differs = custom_differs;
  assign = assign_spec;
}

abbrev pub backup_policy_shape : Shape Kind.backup_policy
backup_policy_shape = record {
  meta = custom_meta;
  set_meta = set_custom_meta;
  differs = custom_differs;
  assign = assign_spec;
}

-- The specification of a MySQL cluster is its server id base and the rest.
unfoldable pub mysql_differs : MysqlCluster → MysqlCluster → Bool
mysql_differs existing desired = not (
    int_eq existing.server_id_base desired.server_id_base
    && deep_equal Value-discrete existing.spec desired.spec)

unfoldable pub assign_mysql : MysqlCluster → MysqlCluster → MysqlCluster
assign_mysql existing desired = record existing {
  server_id_base = desired.server_id_base;
  spec = desired.spec;
}

abbrev pub mysql_shape : Shape Kind.mysql_cluster
mysql_shape = record {
  meta = λ c. c.meta;
  set_meta = λ c meta. record c { meta = meta };
  differs = mysql_differs;
  assign = assign_mysql;
}

module _ {C : Client} where
  module _ (k : Kind) (shape : Shape k) where
    open shape use {meta, set_meta, differs, assign}

    -- The body of the retry loop; `after` stands behind the update.
    unfoldable pub custom_round :
        Action C (Unit {0}) → Object k → Unit {0} → Action C (Unit {0} ⊎ Unit {0})
    unfolding handle ◌>>=◌
    custom_round after desired _ =
        handle (get k (meta desired).namespace (meta desired).name)
          (λ e. if is_not_found C e then create k desired >>= (λ _. pure (inr tt)) else raise e)
          (λ existing.
            if differs existing desired
            then handle (update k (assign existing desired))
                (λ e. if is_conflict C e then pure (inl tt) else raise e)
                (λ _. after >>= (λ _. pure (inr tt)))
            else after >>= (λ _. pure (inr tt)))

    -- The controller reference, then the loop
    unfoldable pub reconcile_retrying :
        String → Action C (Unit {0}) → Object k → Service → Action C (Unit {0})
    unfolding retry custom_round wrapping ◌>>=◌
    reconcile_retrying text after desired owner =
        wrapping "setting controller reference" (set_controller_reference owner (meta desired))
        >>= (λ owned.
            retry (custom_round after (set_meta desired owned)) (λ _. raise (message text))
              max_retries 1 tt)

    -- The reconcilers without retries
    unfoldable pub reconcile_once : Object k → Service → Action C (Unit {0})
    unfolding handle wrapping ◌>>=◌
    reconcile_once object owner =
        wrapping "setting controller reference" (set_controller_reference owner (meta object))
        >>= (λ owned.
            let desired = set_meta object owned in
            handle (get k (meta desired).namespace (meta desired).name)
              (λ e. if is_not_found C e then create k desired else raise e)
              (λ existing.
                if differs existing desired then update k (assign existing desired) else done))

    -- `Get the latest status`, then copy; only where there is a target secret
    abbrev pub copy_latest : String → Object k → Action C (Unit {0}) → Action C (Unit {0})
    copy_latest text object copy =
        wrapping text (get k (meta object).namespace (meta object).name) >>= (λ _. copy)

  unfoldable pub reconcile_postgresql : Custom → Service → Action C (Unit {0})
  unfolding reconcile_retrying copy_postgres_credentials custom_differs assign_spec
  reconcile_postgresql postgres owner =
      reconcile_retrying Kind.postgresql postgresql_shape
        "failed to update postgresql after 5 retries"
        (if_target owner (copy_postgres_credentials owner)) postgres owner

  unfoldable pub reconcile_mysql_cluster : MysqlCluster → Service → Action C (Unit {0})
  unfolding reconcile_retrying copy_mysql_credentials mysql_differs assign_mysql wrapping ◌>>=◌
  reconcile_mysql_cluster mysqlcluster owner =
      let desired = record mysqlcluster { server_id_base = pos 100 } in
      reconcile_retrying Kind.mysql_cluster mysql_shape
        "failed to update mysqlcluster after 5 retries"
        (if_target owner (
          copy_latest Kind.mysql_cluster mysql_shape "failed to get latest MySQL status" desired
            (copy_mysql_credentials owner)))
        desired owner

  unfoldable pub reconcile_clickhouse_installation : Custom → Service → Action C (Unit {0})
  unfolding reconcile_retrying copy_clickhouse_credentials custom_differs assign_spec wrapping ◌>>=◌
  reconcile_clickhouse_installation installation owner =
      reconcile_retrying Kind.clickhouse_installation clickhouse_shape
        "failed to update clickhouse installation after 5 retries"
        (if_target owner (
          copy_latest Kind.clickhouse_installation clickhouse_shape
            "failed to get latest Cllickhouse status" installation
            (copy_clickhouse_credentials owner)))
        installation owner

  unfoldable pub reconcile_helm_release : Custom → Service → Action C (Unit {0})
  unfolding reconcile_once custom_differs assign_spec
  reconcile_helm_release = reconcile_once Kind.helm_release helm_release_shape

  unfoldable pub reconcile_helm_repository : Custom → Service → Action C (Unit {0})
  unfolding reconcile_once custom_differs assign_spec
  reconcile_helm_repository = reconcile_once Kind.helm_repository helm_repository_shape

  unfoldable pub reconcile_backup_policy : Custom → Service → Action C (Unit {0})
  unfolding reconcile_once custom_differs assign_spec
  reconcile_backup_policy = reconcile_once Kind.backup_policy backup_policy_shape
