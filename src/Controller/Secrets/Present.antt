-- ===== src/Controller/Secrets/Present.antt =====
-- `ensureRedisSecret` and `ensureMongoDBSecret` on a secret that exists.
use unbind_operator.Base.{String, ◌<>◌, ◌≡◌, none, some, true, inl, inr, arith, [], ◌∷◌, ℕ, List}
use unbind_operator.Base.Dict.{lookup, insert, lookup-nil}
use unbind_operator.Base.Outcome.{ok, panic}
use unbind_operator.Api.{Service}
use unbind_operator.Kube.{Kind, Secret}
use unbind_operator.Client.{Client, getting, creating}
use unbind_operator.Client.Monad.{World, get, create, handle, wrapping, ◌>>=◌, read_random}
use unbind_operator.Controller.Password.{password_of, generate_secure_password}
use unbind_operator.Base.Text.{to_text}
use unbind_operator.Controller.Secrets.{
  generate_missing, complete_generated, ensure_generated, ensure_mongodb_secret,
  ensure_redis_secret,
}

-- The secret that `ensureRedisSecret` creates
abbrev pub created_redis : Service → String → Secret
created_redis service password = record {
  meta = record {
    name = service.spec.kubernetes_secret;
    namespace = service.namespace;
    labels = [];
    annotations = [];
    owner_references = [];
  };
  type = "Opaque";
  contents = some (("DATABASE_PASSWORD", password) ∷ []);
  string_contents = none;
}

module _ {C : Client} (service : Service) (w : World C) where
  -- If the Redis secret is missing, and the random bytes and the creation succeed, then the run
  -- succeeds and creates the secret with the key DATABASE_PASSWORD alone. A later run that finds this
  -- secret, which lacks the URL and the host, makes one call, the lookup, and succeeds.
  pub ensure_redis_secret-partial :
      (f : C.Failure) (bytes : List ℕ)
      → (C.get Kind.secret service.namespace service.spec.kubernetes_secret w.state).0 ≡ inl f
      → C.is_not_found f ≡ true
      → (C.read_random 32
          (C.get Kind.secret service.namespace service.spec.kubernetes_secret w.state).1).0
        ≡ inr bytes
      → (C.create Kind.secret
          (created_redis service (to_text (password_of 32 bytes)))
          (C.read_random 32
            (C.get Kind.secret service.namespace service.spec.kubernetes_secret w.state).1).1).0
        ≡ none
      → (later : World C)
      → (C.get Kind.secret service.namespace service.spec.kubernetes_secret later.state).0
        ≡ inr (created_redis service (to_text (password_of 32 bytes)))
      → ((ensure_redis_secret service w).0 ≡ ok tt)
        × ((ensure_redis_secret service w).1.log
            ≡ creating Kind.secret (created_redis service (to_text (password_of 32 bytes)))
              ∷ getting Kind.secret service.namespace service.spec.kubernetes_secret
              ∷ w.log)
        × ((ensure_redis_secret service later).0 ≡ ok tt)
        × ((ensure_redis_secret service later).1.log
            ≡ getting Kind.secret service.namespace service.spec.kubernetes_secret ∷ later.log)
  unfolding ensure_redis_secret handle get create wrapping ◌>>=◌ read_random lookup insert
      generate_secure_password
  ensure_redis_secret-partial f bytes missing not_there random created later found =
      (ground arith, ground arith, ground arith, ground arith)

module _ {C : Client} (service : Service) (w : World C) (secret : Secret) where
  -- If the secret of MongoDB exists without any data, and random bytes can be read, then the run
  -- panics after the lookup.
  pub ensure_mongodb_secret-panics :
      (bytes : List ℕ)
      → (C.get Kind.secret service.namespace
          (service.spec.service_ref <> "-mongo-secret")
          w.state).0
        ≡ inr secret
      → secret.contents ≡ none
      → (C.read_random 32
          (C.get Kind.secret service.namespace
            (service.spec.service_ref <> "-mongo-secret")
            w.state).1).0
        ≡ inr bytes
      → ((ensure_mongodb_secret service w).0 ≡ panic)
        × ((ensure_mongodb_secret service w).1.log
            ≡ getting Kind.secret service.namespace (service.spec.service_ref <> "-mongo-secret")
              ∷ w.log)
  unfolding ensure_mongodb_secret ensure_generated complete_generated generate_missing
      generate_secure_password handle get wrapping ◌>>=◌ read_random
  ensure_mongodb_secret-panics bytes found empty random =
      let a = lookup-nil {V = String} "mongodb-root-password" in
      let b = lookup-nil {V = String} "mongodb-replica-set-key" in (ground arith, ground arith)
