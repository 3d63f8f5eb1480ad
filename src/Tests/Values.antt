-- ===== src/Tests/Values.antt =====
-- The theorems about built objects, credentials and dynamic values, applied to concrete inputs.
use unbind_operator.Base.{
  ◌≤◌, ◌↔◌, ◌≢◌, String, true, false, none, some, List, [], ◌∷◌, ◌++◌, ◌≡◌, refl, inl, pos, arith,
  length, All,
}
use unbind_operator.Base.Dict.{Dict, lookup, insert}
use unbind_operator.Base.Outcome.{ok, err, wrap, failure}
use unbind_operator.Api.{PortSpec}
use unbind_operator.Kube.{Kind, Deployment, CoreService}
use unbind_operator.Client.{Client, getting}
use unbind_operator.Client.Log.{slept}
use unbind_operator.Client.Monad.{World}
use unbind_operator.Builder.Labels.{get_label_selectors, get_common_labels}
use unbind_operator.Builder.Labels.Selectors.{get_label_selectors-common}
use unbind_operator.Builder.Services.{
  service_port, group_ports, node_port_services, cluster_ip_services, build_services,
}
use unbind_operator.Builder.Services.Ports.{Offers, build_services-ports}
use unbind_operator.Builder.Ingress.{ingress_of, build_ingress}
use unbind_operator.Builder.Ingress.Rules.{Serves, build_ingress-Serves}
use unbind_operator.Builder.Deployment.{build_container, deployment_of}
use unbind_operator.Builder.Command.Quotes.{unquote-panics_iff}
use unbind_operator.Builder.Command.Words.{spaced, split_words-spaced}
use unbind_operator.Builder.Command.{unquote, split_words}
use unbind_operator.Base.Text.{runes}
use unbind_operator.Builder.Resources.{megabytes_to_bytes}
use unbind_operator.Builder.Resources.Bounds.{megabytes_to_bytes-exact_iff}
use unbind_operator.Controller.Credentials.{
  needs_credentials, update_secret_data, update_mysql_secret_data, update_mongodb_secret_data,
  update_clickhouse_secret_data,
}
use unbind_operator.Controller.Credentials.Complete.{
  update_secret_data_complete, update_mongodb_secret_data_complete,
  update_clickhouse_secret_data_complete,
}
use unbind_operator.Controller.Copy.{wait_for_secret, copy_mysql_credentials}
use unbind_operator.Controller.Copy.Settled.{copy_mysql_credentials-settled}
use unbind_operator.Controller.Copy.Waits.{wait_for_secret-missing}
use unbind_operator.Controller.Password.{password_of}
use unbind_operator.Controller.Password.Alphabet.{IsUrlDigit, password_of-digits}
use unbind_operator.Tests.Server.{Failure, server}
use unbind_operator.Tests.Inputs

get_label_selectors-common_example :
    lookup "app.kubernetes.io/name" (get_common_labels Inputs.shop) ≡ some "shop"
unfolding lookup get_label_selectors insert
get_label_selectors-common_example =
    get_label_selectors-common Inputs.shop "app.kubernetes.io/name" "shop" refl

abbrev shop_services : List CoreService
shop_services =
    node_port_services Inputs.shop
      (record (service_port Inputs.shop Inputs.api_port) { node_port = pos 30090 } ∷ [])
    ++ cluster_ip_services Inputs.shop
        (service_port Inputs.shop Inputs.http_port ∷ service_port Inputs.shop Inputs.dns_port ∷ [])

build_services-ports_example : Offers Inputs.shop shop_services
unfolding build_services group_ports
build_services-ports_example = build_services-ports {F = Failure} Inputs.shop shop_services refl

build_ingress-Serves_example :
    (first : PortSpec) × (rest : List PortSpec) × (Inputs.shop.spec.config.ports ≡ first ∷ rest)
    × (true ≡ true)
    × (Inputs.shop.spec.config.hosts ≢ [])
    × Serves Inputs.shop first (ingress_of Inputs.shop (pos 8080))
unfolding build_ingress
build_ingress-Serves_example =
    build_ingress-Serves {F = Failure} Inputs.shop (ingress_of Inputs.shop (pos 8080)) refl

abbrev shop_deployment : Deployment
shop_deployment = deployment_of Inputs.shop (build_container Inputs.shop none none none) []

megabytes_to_bytes-exact_iff_example :
    (megabytes_to_bytes (pos 512) ≡ pos 512000000) ↔ (512 ≤ 9223372036854)
megabytes_to_bytes-exact_iff_example = megabytes_to_bytes-exact_iff 512 (omega arith)

update_secret_data_complete_example :
    needs_credentials (
      some (
        update_secret_data []
          (("password", "pw") ∷ ("username", "shop") ∷ [])
          Inputs.shop
          "primarydb"))
    ≡ false
unfolding lookup
update_secret_data_complete_example =
    update_secret_data_complete [] (("password", "pw") ∷ ("username", "shop") ∷ []) Inputs.shop "pw"
      "primarydb" "shop" refl refl

update_mongodb_secret_data_complete_example :
    needs_credentials
      (some (update_mongodb_secret_data [] (("mongodb-root-password", "pw") ∷ []) Inputs.shop))
    ≡ false
unfolding lookup
update_mongodb_secret_data_complete_example =
    update_mongodb_secret_data_complete [] (("mongodb-root-password", "pw") ∷ []) Inputs.shop "pw"
      refl

update_clickhouse_secret_data_complete_example :
    needs_credentials
      (some (update_clickhouse_secret_data [] (("password", "pw") ∷ []) Inputs.shop))
    ≡ false
unfolding lookup
update_clickhouse_secret_data_complete_example =
    update_clickhouse_secret_data_complete [] (("password", "pw") ∷ []) Inputs.shop "pw" refl

abbrev moco : Dict String
moco = ("WRITABLE_PASSWORD", "pw") ∷ []

-- the server after the credentials have been copied
abbrev copied : World server
copied = record Inputs.start {
  state = record Inputs.start.state {
    secrets =
        ("team/moco-shop", Inputs.secret "moco-shop" (some moco))
        ∷ (
          "team/shop-secret",
          Inputs.secret "shop-secret" (some (update_mysql_secret_data [] moco Inputs.shop)),
        )
        ∷ [];
  };
}

copy_mysql_credentials-settled_example :
    ((copy_mysql_credentials {C = server} Inputs.shop copied).0 ≡ ok tt)
    × ((copy_mysql_credentials {C = server} Inputs.shop copied).1.log
        ≡ getting Kind.secret "team" "shop-secret" ∷ getting Kind.secret "team" "moco-shop" ∷ [])
unfolding lookup
copy_mysql_credentials-settled_example =
    copy_mysql_credentials-settled {C = server} Inputs.shop copied
      (Inputs.secret "moco-shop" (some moco))
      (Inputs.secret "shop-secret" (some (update_mysql_secret_data [] moco Inputs.shop))) [] moco
      "pw" refl refl refl refl

-- a server that never has a secret
abbrev without_secrets : Client
without_secrets = record server { get = λ k namespace name s. (inl Failure.not_found, s) }

abbrev empty_world : World without_secrets
empty_world = record { state = Inputs.start.state; log = [] }

wait_for_secret-missing_example :
    ((wait_for_secret {C = without_secrets} "MongoDB" "team" "s1-mongo-secret" 10 none
        empty_world).0
      ≡ err (wrap "failed to get MongoDB secret after retries" (failure Failure.not_found)))
    × (slept
          (wait_for_secret {C = without_secrets} "MongoDB" "team" "s1-mongo-secret" 10 none
            empty_world).1.log
        ≡ 20)
wait_for_secret-missing_example =
    wait_for_secret-missing {C = without_secrets} "MongoDB" "team" "s1-mongo-secret"
      Failure.not_found (λ s. refl) refl empty_world

password_of-digits_example :
    (length (password_of 4 (255 ∷ 0 ∷ 17 ∷ 200 ∷ [])) ≡ 4)
    × All IsUrlDigit (password_of 4 (255 ∷ 0 ∷ 17 ∷ 200 ∷ []))
password_of-digits_example =
    password_of-digits 4 (255 ∷ 0 ∷ 17 ∷ 200 ∷ [])
      (omega arith, (omega arith, (omega arith, (omega arith, tt)))) (omega arith)

split_words-spaced_example :
    split_words (runes "go" ++ spaced (runes "run" ∷ runes "it" ∷ []))
    ≡ runes "go" ∷ runes "run" ∷ runes "it" ∷ []
unfolding runes
split_words-spaced_example =
    split_words-spaced (runes "go") (runes "run" ∷ runes "it" ∷ [])
      (refl, ((refl, refl), ((refl, refl), tt)))
      (
        (refl, ((refl, refl), ((refl, refl), ((refl, refl), tt)))),
        ((refl, ((refl, refl), ((refl, refl), tt))), tt),
      )

unquote-panics_iff_example : (unquote (runes "\"") ≡ none) ↔ (true ≡ true)
unfolding runes
unquote-panics_iff_example = unquote-panics_iff (runes "\"")
