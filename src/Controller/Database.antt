-- ===== src/Controller/Database.antt =====
-- `reconcileDatabase`, and what the reconciler is made with besides the client.
pub mod Bounds
use unbind_operator.Base.{String, Bool, List, ◌||◌, ◌==◌, if◌then◌else◌}
use unbind_operator.Base.Outcome.{message}
use unbind_operator.Api.{Service}
use unbind_operator.Client.{Client}
use unbind_operator.Client.Monad.{Action, raise, lift, wrapping, done, ◌>>=◌}
use unbind_operator.Builder.Database.{Databases, build_database_objects}
use unbind_operator.Operator.{Discovery, ensure_operator_installed}
use unbind_operator.Controller.Dynamic.Typed.{Converter}
use unbind_operator.Controller.Runtime.{reconcile_runtime_objects}
use unbind_operator.Controller.Secrets.{
  ensure_redis_secret, ensure_mongodb_secret, ensure_clickhouse_secret,
}

pub record Platform (C : Client) : Type 1 where
  pub converter : Converter C.Failure
  pub discovery : Discovery C.Failure
  pub databases : Databases C.Failure
  -- the environment variable POD_NAMESPACE
  pub pod_namespace : String
  -- `controllerutil.ContainsFinalizer`, `AddFinalizer` and `RemoveFinalizer`, on the finalizers of an
  -- object and one of them
  pub contains_finalizer : List String → String → Bool
  pub add_finalizer : List String → String → List String
  pub remove_finalizer : List String → String → List String

module _ {C : Client} (P : Platform C) where
  -- The operator, for the types that need one
  unfoldable pub ensure_operator : Service → Action C (Unit {0})
  unfolding ensure_operator_installed
  ensure_operator service =
      let type = service.spec.config.database.type in
      if type == "mysql" || type == "clickhouse"
      then ensure_operator_installed P.discovery type P.pod_namespace
      else done

  -- The switch on the type of the database
  unfoldable pub ensure_secret : Service → Action C (Unit {0})
  unfolding ensure_redis_secret ensure_mongodb_secret ensure_clickhouse_secret
  ensure_secret service =
      let type = service.spec.config.database.type in
      if type == "redis"
      then (if service.spec.kubernetes_secret == "" then done else ensure_redis_secret service)
      else if type == "mongodb"
      then ensure_mongodb_secret service
      else if type == "clickhouse"
      then ensure_clickhouse_secret service
      else done

  unfoldable pub reconcile_database : Service → Action C (Unit {0})
  unfolding wrapping ◌>>=◌ ensure_operator ensure_secret build_database_objects
      reconcile_runtime_objects
  reconcile_database service =
      if P.pod_namespace == ""
      then raise (message "POD_NAMESPACE environment variable not set")
      else ensure_operator service >>= (λ _. ensure_secret service >>= (λ _.
        wrapping "failed to build database objects"
          (lift (build_database_objects P.databases service))
        >>= (λ objects. reconcile_runtime_objects P.converter objects service)))
