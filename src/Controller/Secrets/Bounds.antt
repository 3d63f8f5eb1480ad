-- ===== src/Controller/Secrets/Bounds.antt =====
-- The time and the updates of `ensureRedisSecret`, `ensureMongoDBSecret` and `ensureClickhouseSecret`.
use unbind_operator.Base.{ℕ, arith, String, ◌<>◌, ◌&&◌, Option, none, some, [], is_some, deref_or}
use unbind_operator.Api.{Service}
use unbind_operator.Kube.{Kind, Secret}
use unbind_operator.Client.{Client}
use unbind_operator.Client.Monad.{Action, is_not_found}
use unbind_operator.Client.Spends.{
  Spends, Spends-weaken, Spends-bind, Spends-handle, Spends-if, Spends-get, Spends-create,
  Spends-update, Spends-pure, Spends-raise, Spends-crash, Spends-wrapping,
  Spends-set_controller_reference, Spends-read_random,
}
use unbind_operator.Controller.Password.{generate_secure_password}
use unbind_operator.Controller.Secrets.{
  ensure_redis_secret, generate_missing, create_generated, complete_generated, ensure_generated,
  ensure_mongodb_secret, ensure_clickhouse_secret, put,
}
use unbind_operator.Controller.Copy.{copy_mongodb_credentials, copy_clickhouse_credentials}
use unbind_operator.Base.Dict.{Dict, lookup}
use unbind_operator.Controller.Custom.Bounds.{
  if_target-Spends, copy_mongodb-Spends, copy_clickhouse-Spends,
}

module _ {C : Client} where
  password-Spends : (n : ℕ) → Spends {C = C} 0 0 (generate_secure_password n)
  unfolding generate_secure_password
  password-Spends n = Spends-bind (Spends-read_random n) (λ bytes. Spends-pure _ 0 0)

  pub redis-Spends : (service : Service) → Spends {C = C} 0 1 (ensure_redis_secret service)
  unfolding ensure_redis_secret
  redis-Spends service =
      Spends-handle (Spends-get _ _ _)
        (λ e.
          Spends-if (is_not_found C e)
            (Spends-weaken 0 1
              (Spends-bind (Spends-wrapping _ _ (password-Spends 32))
                (λ p. Spends-wrapping _ _ (Spends-create _ _)))
              (omega arith) (omega arith))
            (Spends-raise _ _ _))
        (λ secret. Spends-if _ (Spends-pure _ _ _) (
          Spends-bind (Spends-wrapping _ _ (password-Spends 32))
            (λ p. Spends-wrapping _ _ (Spends-update _ _))))

  put_in-Spends :
      (key password : String) (secret : Secret) (contents : Option (Dict String))
      → Spends {C = C} 0 0 (put key password (record secret { contents = contents }))
  put_in-Spends key password secret none = Spends-crash 0 0
  put_in-Spends key password secret (some m) = Spends-pure _ 0 0

  put-Spends :
      (key password : String) (secret : Secret) → Spends {C = C} 0 0 (put key password secret)
  put-Spends key password secret = put_in-Spends key password secret secret.contents

  generate_missing-Spends :
      (key text : String) (secret : Secret) → Spends {C = C} 0 0 (generate_missing key text secret)
  unfolding generate_missing
  generate_missing-Spends key text secret =
      Spends-if _ (Spends-pure _ _ _)
        (Spends-bind (Spends-wrapping _ _ (password-Spends 32)) (λ p. put-Spends key p secret))

  module _ (name database key other_key text other_text : String)
      (copy : Service → Action C (Unit {0})) (service : Service)
      (h : Spends 20 1 (copy service)) where
    create_generated-Spends :
        Spends 20 1 (create_generated name database key other_key text other_text copy service)
    unfolding create_generated
    create_generated-Spends = Spends-bind (Spends-wrapping _ _ (password-Spends 32)) (λ p.
        Spends-bind (Spends-wrapping _ _ (password-Spends 32)) (λ p'.
          Spends-bind (Spends-wrapping _ _ (Spends-set_controller_reference service _)) (λ m.
            Spends-bind (Spends-wrapping _ _ (Spends-create Kind.secret _))
              (λ _. if_target-Spends service (copy service) 20 1 h))))

    complete_generated-Spends :
        (secret : Secret)
        → Spends 20 2
            (complete_generated name database key other_key text other_text copy service secret)
    unfolding complete_generated
    complete_generated-Spends secret = Spends-bind (generate_missing-Spends key text secret) (λ s.
        Spends-bind (generate_missing-Spends other_key other_text s) (λ s'.
          Spends-bind (Spends-wrapping _ _ (Spends-set_controller_reference service s'.meta)) (λ m.
            Spends-bind (Spends-wrapping _ _ (Spends-update Kind.secret (record s' { meta = m })))
              (λ _. if_target-Spends service (copy service) 20 1 h))))

    ensure_generated-Spends :
        Spends 20 2 (ensure_generated name database key other_key text other_text copy service)
    unfolding ensure_generated
    ensure_generated-Spends =
        Spends-handle (Spends-get Kind.secret service.namespace name)
          (λ e.
            Spends-if (is_not_found C e)
              (Spends-weaken 20 2 create_generated-Spends (omega arith) (omega arith))
              (Spends-raise _ _ _))
          (λ secret.
            Spends-if
              (is_some (lookup key (deref_or secret.contents []))
                && is_some (lookup other_key (deref_or secret.contents [])))
              (Spends-pure tt 20 2) (complete_generated-Spends secret))

  pub mongodb-Spends : (service : Service) → Spends {C = C} 20 2 (ensure_mongodb_secret service)
  unfolding ensure_mongodb_secret
  mongodb-Spends service =
      ensure_generated-Spends (service.spec.service_ref <> "-mongo-secret") "MongoDB"
        "mongodb-root-password" "mongodb-replica-set-key" "root password" "replica set key"
        copy_mongodb_credentials service (copy_mongodb-Spends service)

  pub clickhouse-Spends :
      (service : Service) → Spends {C = C} 20 2 (ensure_clickhouse_secret service)
  unfolding ensure_clickhouse_secret
  clickhouse-Spends service =
      ensure_generated-Spends (service.spec.service_ref <> "-clickhouse-secret") "Clickhouse"
        "password" "backup-password" "default password" "backup password"
        copy_clickhouse_credentials service (copy_clickhouse-Spends service)
