-- ===== src/Controller/Custom/Bounds.antt =====
-- The time and the updates of the reconcilers of custom resources.
use unbind_operator.Base.{ℕ, ◌+◌, inl, inr, arith, String, ◌<>◌, none, some, ◌==◌, pos, Option}
use unbind_operator.Base.Outcome.{message}
use unbind_operator.Api.{Service}
use unbind_operator.Kube.{Kind, Object, Custom, MysqlCluster}
use unbind_operator.Client.{Client}
use unbind_operator.Client.Monad.{Action, raise, crash, is_not_found, is_conflict}
use unbind_operator.Client.Spends.{
  Spends, Spends-weaken, Spends-bind, Spends-handle, Spends-if, Spends-get, Spends-create,
  Spends-update, Spends-pure, Spends-raise, Spends-crash, Spends-wrapping,
  Spends-set_controller_reference,
}
use unbind_operator.Client.Costs.{
  Costs, unless_again, Costs-Spends, Costs-if, Costs-weaken, Costs-handle, Costs-then,
}
use unbind_operator.Controller.Retry.Costs.{retry-Costs}
use unbind_operator.Controller.Copy.{
  if_target, copy_zalando, fill_existing, copy_postgres_credentials, copy_mysql_credentials,
  copy_clickhouse_credentials, copy_mongodb_credentials,
}
use unbind_operator.Controller.Copy.Waits.{wait_for_secret-Spends, copy_credentials-Spends}
use unbind_operator.Controller.Credentials.{
  get_pg_default_database_name, needs_credentials, update_mysql_secret_data,
  update_mongodb_secret_data, update_clickhouse_secret_data,
}
use unbind_operator.Controller.Custom.{
  Shape, postgresql_shape, mysql_shape, clickhouse_shape, copy_latest, custom_round,
  reconcile_retrying, reconcile_once, reconcile_postgresql, reconcile_mysql_cluster,
  reconcile_clickhouse_installation,
}

module _ {C : Client} where
  pub if_target-Spends :
      (service : Service) (copy : Action C (Unit {0})) (a b : ℕ)
      → Spends a b copy
      → Spends a b (if_target service copy)
  if_target-Spends service copy a b h =
      Spends-if (service.spec.kubernetes_secret == "") (Spends-pure tt a b) h

  copy_zalando-Spends :
      (name : String) (service : Service) → Spends {C = C} 20 1 (copy_zalando name service)
  unfolding copy_zalando fill_existing
  copy_zalando-Spends name service =
      Spends-weaken 20 1
        (Spends-bind (wait_for_secret-Spends "Zalando PostgreSQL" service.namespace _ 10 none)
          λ source.
            Spends-handle (Spends-get Kind.secret service.namespace service.spec.kubernetes_secret)
              (λ e. Spends-pure tt _ _)
              (λ target.
                Spends-if (needs_credentials target.contents)
                  (Spends-wrapping _ _ (Spends-update Kind.secret _)) (Spends-pure tt _ _)))
        (omega arith) (omega arith)

  abbrev copy_named : Service → Option String → Action C (Unit {0})
  copy_named service name = elim name [ none ↦ crash | some n ↦ copy_zalando n service ]

  named-Spends : (service : Service) (name : Option String) → Spends 20 1 (copy_named service name)
  named-Spends service none = Spends-crash 20 1
  named-Spends service (some n) = copy_zalando-Spends n service

  copy_postgres-Spends :
      (service : Service) → Spends {C = C} 20 1 (copy_postgres_credentials service)
  unfolding copy_postgres_credentials
  copy_postgres-Spends service = named-Spends service (get_pg_default_database_name service)

  copy_mysql-Spends : (service : Service) → Spends {C = C} 20 1 (copy_mysql_credentials service)
  unfolding copy_mysql_credentials
  copy_mysql-Spends service =
      copy_credentials-Spends "MOCO MySQL" ("moco-" <> service.name)
        (λ target source. update_mysql_secret_data target source service) service

  pub copy_mongodb-Spends :
      (service : Service) → Spends {C = C} 20 1 (copy_mongodb_credentials service)
  unfolding copy_mongodb_credentials
  copy_mongodb-Spends service =
      copy_credentials-Spends "MongoDB" (service.spec.service_ref <> "-mongo-secret")
        (λ target source. update_mongodb_secret_data target source service) service

  pub copy_clickhouse-Spends :
      (service : Service) → Spends {C = C} 20 1 (copy_clickhouse_credentials service)
  unfolding copy_clickhouse_credentials
  copy_clickhouse-Spends service =
      copy_credentials-Spends "Clickhouse" (service.spec.service_ref <> "-clickhouse-secret")
        (λ target source. update_clickhouse_secret_data target source service) service

  module _ (k : Kind) (shape : Shape k) where
    custom_round-Costs :
        (after : Action C (Unit {0})) (desired : Object k) (x : Unit {0})
        → Spends 20 1 after
        → Costs (unless_again 20) (λ r. 1 + unless_again 1 r) (custom_round k shape after desired x)
    unfolding custom_round
    custom_round-Costs after desired x h =
        Costs-weaken (λ r. 1 + unless_again 1 r) (λ r. omega arith)
          (Costs-handle {u = λ r. 1 + unless_again 1 r}
            (Spends-get k (shape.meta desired).namespace (shape.meta desired).name)
            (λ e.
              Costs-if (is_not_found C e)
                (Costs-Spends
                  (Spends-bind (Spends-create k desired) (λ _. Spends-pure (inr tt) 0 0))
                  (λ r. omega arith) (λ r. omega arith))
                (Costs-Spends (Spends-raise e 0 0) (λ r. omega arith) (λ r. omega arith)))
            (λ existing.
              Costs-if (shape.differs existing desired)
                (Costs-handle (Spends-update k (shape.assign existing desired))
                  (λ e.
                    Costs-if (is_conflict C e)
                      (Costs-Spends (Spends-pure (inl tt) 0 0) (λ r. omega arith)
                        (λ r. omega arith))
                      (Costs-Spends (Spends-raise e 0 0) (λ r. omega arith) (λ r. omega arith)))
                  (λ _. Costs-then tt h))
                (Costs-weaken (λ r. 1 + unless_again 1 r) (λ r. omega arith) (Costs-then tt h))))

    -- The copying of credentials follows at most once.
    reconcile_retrying-Spends :
        (text : String) (after : Action C (Unit {0})) (desired : Object k) (owner : Service)
        → Spends 20 1 after
        → Spends 51 6 (reconcile_retrying k shape text after desired owner)
    unfolding reconcile_retrying
    reconcile_retrying-Spends text after desired owner h =
        Spends-weaken 51 6
          (Spends-bind (Spends-wrapping _ _ (Spends-set_controller_reference _ _)) (λ owned.
            retry-Costs (custom_round k shape after (shape.set_meta desired owned))
              (λ _. raise (message text)) 20 1
              (λ x. custom_round-Costs after (shape.set_meta desired owned) x h)
              (λ x. Spends-raise _ 0 0) 5 1 tt))
          (omega arith) (omega arith)

    pub reconcile_once-Spends :
        (object : Object k) (owner : Service)
        → Spends {C = C} 0 1 (reconcile_once k shape object owner)
    unfolding reconcile_once
    reconcile_once-Spends object owner =
        Spends-bind (Spends-wrapping _ _ (Spends-set_controller_reference _ _)) (λ owned.
          Spends-handle (Spends-get _ _ _)
            (λ e.
              Spends-if (is_not_found C e)
                (Spends-weaken 0 1 (Spends-create _ _) (omega arith) (omega arith))
                (Spends-raise _ _ _))
            (λ existing. Spends-if _ (Spends-update _ _) (Spends-pure _ _ _)))

  pub reconcile_postgresql-Spends :
      (postgres : Custom) (owner : Service)
      → Spends {C = C} 51 6 (reconcile_postgresql postgres owner)
  unfolding reconcile_postgresql
  reconcile_postgresql-Spends postgres owner =
      reconcile_retrying-Spends Kind.postgresql postgresql_shape
        "failed to update postgresql after 5 retries"
        (if_target owner (copy_postgres_credentials owner)) postgres owner
        (if_target-Spends owner _ 20 1 (copy_postgres-Spends owner))

  pub reconcile_mysql_cluster-Spends :
      (cluster : MysqlCluster) (owner : Service)
      → Spends {C = C} 51 6 (reconcile_mysql_cluster cluster owner)
  unfolding reconcile_mysql_cluster
  reconcile_mysql_cluster-Spends cluster owner =
      let desired = record cluster { server_id_base = pos 100 } in
      reconcile_retrying-Spends Kind.mysql_cluster mysql_shape
        "failed to update mysqlcluster after 5 retries"
        (if_target owner (
          copy_latest Kind.mysql_cluster mysql_shape "failed to get latest MySQL status" desired
            (copy_mysql_credentials owner)))
        desired owner
        (if_target-Spends owner _ 20 1
          (Spends-bind (Spends-wrapping _ _ (Spends-get _ _ _)) (λ _. copy_mysql-Spends owner)))

  pub reconcile_clickhouse-Spends :
      (installation : Custom) (owner : Service)
      → Spends {C = C} 51 6 (reconcile_clickhouse_installation installation owner)
  unfolding reconcile_clickhouse_installation
  reconcile_clickhouse-Spends installation owner =
      reconcile_retrying-Spends Kind.clickhouse_installation clickhouse_shape
        "failed to update clickhouse installation after 5 retries"
        (if_target owner (
          copy_latest Kind.clickhouse_installation clickhouse_shape
            "failed to get latest Cllickhouse status" installation
            (copy_clickhouse_credentials owner)))
        installation owner
        (if_target-Spends owner _ 20 1 (
          Spends-bind (Spends-wrapping _ _ (Spends-get _ _ _)) (λ _. copy_clickhouse-Spends owner)))
