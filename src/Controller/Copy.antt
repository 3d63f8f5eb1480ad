-- ===== src/Controller/Copy.antt =====
-- `copyPostgresCredentials`, `copyMySQLCredentials`, `copyMongoDBCredentials` and
-- `copyClickhouseCredentials`: wait for the secret of the database, then fill the target secret.
pub mod Settled
pub mod Waits
use unbind_operator.Base.{
  ℕ, zero, suc, String, ◌<>◌, Option, none, some, [], deref_or, ◌==◌, if◌then◌else◌,
}
use unbind_operator.Base.Dict.{Dict}
use unbind_operator.Base.Outcome.{Error, wrap}
use unbind_operator.Api.{Service}
use unbind_operator.Kube.{Kind, Secret}
use unbind_operator.Client.{Client}
use unbind_operator.Client.Monad.{
  Action, pure, raise, crash, handle, wrapping, done, ◌>>=◌, is_not_found, get, create, update,
  sleep,
}
use unbind_operator.Controller.Credentials.{
  needs_credentials, update_secret_data, update_mysql_secret_data, update_mongodb_secret_data,
  update_clickhouse_secret_data, get_pg_default_database_name,
}

-- `Secret{ObjectMeta{Name: …, Namespace: …}, Type: Opaque, Data: …}`
abbrev pub opaque_secret : String → String → Dict String → Secret
opaque_secret namespace name contents = record {
  meta = record {
    name = name;
    namespace = namespace;
    labels = [];
    annotations = [];
    owner_references = [];
  };
  type = "Opaque";
  contents = some contents;
  string_contents = none;
}

-- What is written to the target, from its contents and those of the database's secret
abbrev pub Filling : Type 0
Filling = Dict String → Dict String → Dict String

module _ {C : Client} where
  -- `for retries < 10 { … }`, by the rounds left; `last` is `err`, which behind the loop is not nil.
  unfoldable pub wait_for_secret :
      String → String → String → ℕ → Option (Error C.Failure) → Action C Secret
  unfolding handle ◌>>=◌
  wait_for_secret text namespace name zero last = elim last [
    | none ↦ crash
    | some e ↦ raise (wrap ("failed to get " <> text <> " secret after retries") e)
  ]
  wait_for_secret text namespace name (suc rounds) last =
      handle (get Kind.secret namespace name)
        (λ e.
          if is_not_found C e
          then sleep 2 >>= (λ _. wait_for_secret text namespace name rounds (some e))
          else raise (wrap ("failed to get " <> text <> " secret") e))
        (λ secret. pure secret)

  -- The end of the four methods, once both secrets are there
  unfoldable pub fill_existing : Filling → Secret → Secret → Action C (Unit {0})
  unfolding wrapping
  fill_existing filling source target =
      if needs_credentials target.contents
      then wrapping "failed to update target secret" (
          update Kind.secret (record target {
            contents = some (filling (deref_or target.contents []) (deref_or source.contents []));
          }))
      else done

  -- The branch where the target secret is missing
  unfoldable pub fill_new : Filling → Secret → Service → Action C (Unit {0})
  unfolding wrapping
  fill_new filling source service = wrapping "failed to create target secret" (
      create Kind.secret (
        opaque_secret service.namespace service.spec.kubernetes_secret
          (filling [] (deref_or source.contents []))))

  -- The common body for MySQL, MongoDB and ClickHouse
  unfoldable pub copy_credentials : String → String → Filling → Service → Action C (Unit {0})
  unfolding wait_for_secret fill_existing fill_new handle ◌>>=◌
  copy_credentials text name filling service =
      wait_for_secret text service.namespace name 10 none >>= (λ source.
        handle (get Kind.secret service.namespace service.spec.kubernetes_secret)
          (λ e.
            if is_not_found C e
            then fill_new filling source service
            else raise (wrap "failed to check if target secret exists" e))
          (λ target. fill_existing filling source target))

  unfoldable pub copy_mysql_credentials : Service → Action C (Unit {0})
  unfolding copy_credentials
  copy_mysql_credentials service =
      copy_credentials "MOCO MySQL" ("moco-" <> service.name)
        (λ target source. update_mysql_secret_data target source service) service

  unfoldable pub copy_mongodb_credentials : Service → Action C (Unit {0})
  unfolding copy_credentials
  copy_mongodb_credentials service =
      copy_credentials "MongoDB" (service.spec.service_ref <> "-mongo-secret")
        (λ target source. update_mongodb_secret_data target source service) service

  unfoldable pub copy_clickhouse_credentials : Service → Action C (Unit {0})
  unfolding copy_credentials
  copy_clickhouse_credentials service =
      copy_credentials "Clickhouse" (service.spec.service_ref <> "-clickhouse-secret")
        (λ target source. update_clickhouse_secret_data target source service) service

  -- For PostgreSQL any error of the second `Get` ends the method without an error.
  unfoldable pub copy_zalando : String → Service → Action C (Unit {0})
  unfolding wait_for_secret fill_existing handle ◌>>=◌
  copy_zalando db_name service =
      wait_for_secret "Zalando PostgreSQL" service.namespace
        (db_name <> "." <> service.name <> ".credentials.postgresql.acid.zalan.do") 10 none
      >>= (λ source.
          handle (get Kind.secret service.namespace service.spec.kubernetes_secret) (λ e. done)
            (λ target. fill_existing (λ t s. update_secret_data t s service db_name) source target))

  unfoldable pub copy_postgres_credentials : Service → Action C (Unit {0})
  unfolding copy_zalando get_pg_default_database_name
  copy_postgres_credentials service = elim (get_pg_default_database_name service) [
    | none ↦ crash
    | some db_name ↦ copy_zalando db_name service
  ]

  -- `if owner.Spec.KubernetesSecret != "" { copy }`
  abbrev pub if_target : Service → Action C (Unit {0}) → Action C (Unit {0})
  if_target service copy = if service.spec.kubernetes_secret == "" then done else copy
