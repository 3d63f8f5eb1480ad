-- ===== src/Tests/Repeats.antt =====
-- The theorems about objects that exist already or cannot be read, applied to concrete inputs.
use unbind_operator.Base.{◌≡◌, none, refl, inr, [], ◌∷◌, some, pos}
use unbind_operator.Base.Dict.{lookup, insert}
use unbind_operator.Base.Text.{to_text}
use unbind_operator.Base.Outcome.{ok, panic}
use unbind_operator.Kube.{Kind, CoreService, Secret}
use unbind_operator.Client.{Client, getting, creating}
use unbind_operator.Client.Monad.{World, wrapping, ◌>>=◌, read_random}
use unbind_operator.Operator.{moco, chart_repository, chart_release, install_chart}
use unbind_operator.Operator.Repeated.{install_chart-repeated}
use unbind_operator.Controller.Password.{password_of, generate_secure_password}
use unbind_operator.Controller.Secrets.{
  generate_missing, ensure_redis_secret, ensure_mongodb_secret,
}
use unbind_operator.Controller.Secrets.Present.{
  created_redis, ensure_redis_secret-partial, ensure_mongodb_secret-panics,
}
use unbind_operator.Controller.Secrets.Kept.{Completes, generate_missing-Completes}
use unbind_operator.Controller.Services.{apply_service}
use unbind_operator.Controller.Services.Settled.{sent, apply_service-settled}
use unbind_operator.Tests.Server.{Failure, server, bytes}
use unbind_operator.Tests.Inputs

-- the NodePort service of the shop, with a port that is set
abbrev node_port_service : CoreService
node_port_service = record Inputs.core_service {
  spec = record Inputs.core_service.spec {
    type = "NodePort";
    ports = record Inputs.web_port { node_port = pos 30080 } ∷ [];
  };
}

-- the server after an update of that service
abbrev serving : World server
serving = record Inputs.start {
  state = record Inputs.start.state {
    core_services =
        ("team/shop", sent (Inputs.meta "shop") Inputs.core_service node_port_service) ∷ [];
  };
}

apply_service-settled_example :
    ((apply_service {C = server} Inputs.shop node_port_service serving).0 ≡ ok tt)
    × ((apply_service {C = server} Inputs.shop node_port_service serving).1.log
        ≡ getting Kind.core_service "team" "shop" ∷ [])
unfolding lookup
apply_service-settled_example =
    apply_service-settled {C = server} Inputs.shop Inputs.core_service node_port_service
      (Inputs.meta "shop") serving (inr (refl, tt)) refl

abbrev old_secret : Secret
old_secret = Inputs.secret "s1-mongo-secret" (some (("mongodb-replica-set-key", "k") ∷ []))

abbrev new_secret : Secret
new_secret = Inputs.secret "s1-mongo-secret" (
    some (
      insert "mongodb-root-password" (to_text (password_of 32 (bytes 32)))
        (("mongodb-replica-set-key", "k") ∷ [])))

generate_missing-Completes_example : Completes "mongodb-root-password" old_secret new_secret
unfolding generate_missing wrapping ◌>>=◌ generate_secure_password read_random lookup
generate_missing-Completes_example =
    generate_missing-Completes {C = server} "mongodb-root-password" "root password" old_secret
      new_secret Inputs.start refl

-- a server that has every object already
abbrev full_server : Client
full_server = record server { create = λ k o s. (some Failure.already_exists, s) }

abbrev full_start : World full_server
full_start = record { state = Inputs.start.state; log = [] }

install_chart-repeated_example :
    ((install_chart {C = full_server} moco "unbind-system" full_start).0 ≡ ok tt)
    × ((install_chart {C = full_server} moco "unbind-system" full_start).1.log
        ≡ creating Kind.helm_release (chart_release moco "unbind-system")
          ∷ creating Kind.helm_repository (chart_repository moco "unbind-system")
          ∷ [])
install_chart-repeated_example =
    install_chart-repeated {C = full_server} moco "unbind-system" full_start Failure.already_exists
      Failure.already_exists refl refl refl refl

-- the Redis secret of the shop, and the server with it
abbrev redis : Secret
redis = created_redis Inputs.shop (to_text (password_of 32 (bytes 32)))

abbrev with_password : World server
with_password = record Inputs.start {
  state = record Inputs.start.state { secrets = ("team/shop-secret", redis) ∷ [] };
}

ensure_redis_secret-partial_example :
    ((ensure_redis_secret {C = server} Inputs.shop Inputs.start).0 ≡ ok tt)
    × ((ensure_redis_secret {C = server} Inputs.shop Inputs.start).1.log
        ≡ creating Kind.secret redis ∷ getting Kind.secret "team" "shop-secret" ∷ [])
    × ((ensure_redis_secret {C = server} Inputs.shop with_password).0 ≡ ok tt)
    × ((ensure_redis_secret {C = server} Inputs.shop with_password).1.log
        ≡ getting Kind.secret "team" "shop-secret" ∷ [])
unfolding lookup
ensure_redis_secret-partial_example =
    ensure_redis_secret-partial {C = server} Inputs.shop Inputs.start Failure.not_found (bytes 32)
      refl refl refl refl with_password refl

-- the server with a MongoDB secret that has no data
abbrev with_empty_secret : World server
with_empty_secret = record Inputs.start {
  state = record Inputs.start.state {
    secrets = ("team/s1-mongo-secret", Inputs.secret "s1-mongo-secret" none) ∷ [];
  };
}

ensure_mongodb_secret-panics_example :
    ((ensure_mongodb_secret {C = server} Inputs.shop with_empty_secret).0 ≡ panic)
    × ((ensure_mongodb_secret {C = server} Inputs.shop with_empty_secret).1.log
        ≡ getting Kind.secret "team" "s1-mongo-secret" ∷ [])
unfolding lookup
ensure_mongodb_secret-panics_example =
    ensure_mongodb_secret-panics {C = server} Inputs.shop with_empty_secret
      (Inputs.secret "s1-mongo-secret" none) (bytes 32) refl refl refl
