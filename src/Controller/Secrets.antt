-- ===== src/Controller/Secrets.antt =====
-- `ensureRedisSecret`, `ensureMongoDBSecret` and `ensureClickhouseSecret`.
pub mod Bounds
pub mod Kept
pub mod Present
use unbind_operator.Base.{String, ◌<>◌, none, some, [], ◌&&◌, is_some, deref_or, if◌then◌else◌}
use unbind_operator.Base.Dict.{Dict, lookup, insert}
use unbind_operator.Base.Outcome.{wrap}
use unbind_operator.Api.{Service}
use unbind_operator.Kube.{Kind, Secret}
use unbind_operator.Client.{Client}
use unbind_operator.Client.Monad.{
  Action, pure, raise, crash, handle, wrapping, done, ◌>>=◌, is_not_found, get, create, update,
  set_controller_reference,
}
use unbind_operator.Controller.Password.{generate_secure_password}
use unbind_operator.Controller.Copy.{
  opaque_secret, copy_mongodb_credentials, copy_clickhouse_credentials, if_target,
}

-- What an existing Redis secret without a password receives
unfoldable pub redis_data : Service → String → Dict String → Dict String
redis_data service password m =
    let host = service.name <> "-headless." <> service.namespace in
    insert "DATABASE_HOST" host (
      insert "DATABASE_PORT" "6379" (
        insert "DATABASE_URL" ("redis://default:" <> password <> "@" <> host <> ":6379")
          (insert "DATABASE_PASSWORD" password (insert "DATABASE_USERNAME" "default" m))))

module _ {C : Client} where
  unfoldable pub ensure_redis_secret : Service → Action C (Unit {0})
  unfolding handle wrapping ◌>>=◌ generate_secure_password
  ensure_redis_secret service =
      handle (get Kind.secret service.namespace service.spec.kubernetes_secret)
        (λ e.
          if is_not_found C e
          then wrapping "failed to generate Redis password" (generate_secure_password 32)
            >>= (λ password. wrapping "failed to create Redis secret" (
                create Kind.secret (
                  opaque_secret service.namespace service.spec.kubernetes_secret
                    (insert "DATABASE_PASSWORD" password []))))
          else raise (wrap "failed to check if Redis secret exists" e))
        (λ secret.
          let contents = deref_or secret.contents [] in
          if is_some (lookup "DATABASE_PASSWORD" contents)
          then done
          else wrapping "failed to generate Redis password" (generate_secure_password 32)
            >>= (λ password. wrapping "failed to update Redis secret" (
                update Kind.secret
                  (record secret { contents = some (redis_data service password contents) }))))

  -- `secret.Data[key] = password`: a panic where the map is nil
  abbrev pub put : String → String → Secret → Action C Secret
  put key password secret = elim secret.contents [
    | none ↦ crash
    | some m ↦ pure (record secret { contents = some (insert key password m) })
  ]

  -- `if !hasKey { generate; secret.Data[key] = … }`
  unfoldable pub generate_missing : String → String → Secret → Action C Secret
  unfolding wrapping ◌>>=◌ generate_secure_password
  generate_missing key text secret =
      if is_some (lookup key (deref_or secret.contents []))
      then pure secret
      else wrapping ("failed to generate " <> text) (generate_secure_password 32)
        >>= (λ password. put key password secret)

  -- A secret with two generated values, its names and texts as arguments
  module _ (name database key other_key text other_text : String)
      (copy : Service → Action C (Unit {0})) (service : Service) where
    -- The branch where the secret is missing
    unfoldable pub create_generated : Action C (Unit {0})
    unfolding wrapping ◌>>=◌ generate_secure_password
    create_generated =
        wrapping ("failed to generate " <> text) (generate_secure_password 32) >>= (λ password.
          wrapping ("failed to generate " <> other_text) (generate_secure_password 32)
          >>= (λ other_password.
              let secret =
                opaque_secret service.namespace name
                  (insert key password (insert other_key other_password [])) in
              wrapping "failed to set controller reference"
                (set_controller_reference service secret.meta)
              >>= (λ meta.
                  wrapping ("failed to create " <> database <> " secret")
                    (create Kind.secret (record secret { meta = meta }))
                  >>= (λ _. if_target service (copy service)))))

    -- The branch where it exists and lacks a key
    unfoldable pub complete_generated : Secret → Action C (Unit {0})
    unfolding wrapping ◌>>=◌ generate_missing
    complete_generated secret = generate_missing key text secret >>= (λ secret'.
        generate_missing other_key other_text secret' >>= (λ secret''.
          wrapping "failed to set controller reference"
            (set_controller_reference service secret''.meta)
          >>= (λ meta.
              wrapping "failed to update MongoDB secret"
                (update Kind.secret (record secret'' { meta = meta }))
              >>= (λ _. if_target service (copy service)))))

    unfoldable pub ensure_generated : Action C (Unit {0})
    unfolding handle create_generated complete_generated
    ensure_generated =
        handle (get Kind.secret service.namespace name)
          (λ e.
            if is_not_found C e
            then create_generated
            else raise (wrap "failed to check if Mongo secret exists" e))
          (λ secret.
            if is_some (lookup key (deref_or secret.contents []))
              && is_some (lookup other_key (deref_or secret.contents []))
            then done
            else complete_generated secret)

  unfoldable pub ensure_mongodb_secret : Service → Action C (Unit {0})
  unfolding ensure_generated copy_mongodb_credentials
  ensure_mongodb_secret service =
      ensure_generated (service.spec.service_ref <> "-mongo-secret") "MongoDB"
        "mongodb-root-password" "mongodb-replica-set-key" "root password" "replica set key"
        copy_mongodb_credentials service

  unfoldable pub ensure_clickhouse_secret : Service → Action C (Unit {0})
  unfolding ensure_generated copy_clickhouse_credentials
  ensure_clickhouse_secret service =
      ensure_generated (service.spec.service_ref <> "-clickhouse-secret") "Clickhouse" "password"
        "backup-password" "default password" "backup password" copy_clickhouse_credentials service
