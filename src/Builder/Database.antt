-- ===== src/Builder/Database.antt =====
-- `BuildDatabaseObjects` of internal/resourcebuilder/database.go: the parameters of a database's
-- definition. The definitions and their rendering are the library unbind-api's, a parameter here.
pub mod Storage
use unbind_operator.Base.{
  String, ◌<>◌, Char, ℤ, pos, Bool, ◌⊎◌, inl, inr, Option, none, some, List, [], ◌∷◌, ◌++◌, take,
  deref_or, is_positive, ◌==◌, if◌then◌else◌,
}
use unbind_operator.Base.Dict.{Dict}
use unbind_operator.Base.Int.{format_int}
use unbind_operator.Base.Outcome.{Outcome, ok, err, failure}
use unbind_operator.Base.Text.{runes, to_text, to_lower, equal_fold}
use unbind_operator.Api.{Service, EnvVar, ResourceSpec}
use unbind_operator.Api.Database.{DatabaseConfigSpec, as_map}
use unbind_operator.Kube.{RuntimeObject}
use unbind_operator.Kube.Dynamic.{
  Value, Fields, end, set, get, filter_keys, str, int, obj, bool, null,
}
use unbind_operator.Builder.Labels.{get_common_labels}

-- `RenderContext`, without the definition that comes beside it
pub record RenderContext : Type 0 where
  pub name : String
  pub namespace : String
  pub team_id : String
  pub parameters : Fields

-- The functions of the library; `fetch` may find no definition.
pub record Databases (F : Type 0) : Type 1 where
  pub Definition : Type 0
  pub fetch : String → String → F ⊎ Option Definition
  pub render : Definition → RenderContext → F ⊎ String
  pub render_to_objects : String → F ⊎ List RuntimeObject

-- A map of strings as a map of values: `for k, v := range from { to[k] = v }`
unfoldable pub set_strings : Dict String → Fields → Fields
set_strings [] to = to
set_strings ((k, v) ∷ from) to = set_strings from (set k (str v) to)

unfoldable pub set_env : List EnvVar → Fields → Fields
set_env [] to = to
set_env (v ∷ vars) to = set_env vars (set v.name (str v.value) to)

-- `dbConfig`: the map of the configuration, or an empty one
unfoldable pub config_map_of : Option DatabaseConfigSpec → Fields
unfolding set_strings
config_map_of none = end
config_map_of (some c) = set_strings (as_map c) end

-- `storage := dbConfig["storage"]; if storage == "" { storage = "1Gi" }`: a missing key is nil, and
-- nil is not the empty text.
unfoldable pub storage_of : Fields → Value
storage_of db_config = elim (get "storage" db_config) [
  | none ↦ null
  | some (str s) ↦ if s == "" then str "1Gi" else str s
  | some v ↦ v
]

-- `if x > 0 { m[key] = fmt.Sprintf("%d" + unit, x) }`
abbrev quantity : String → String → ℤ → Fields → Fields
quantity key unit x m = if is_positive x then set key (str (format_int x <> unit)) m else m

unfoldable pub resources_map : ResourceSpec → Fields
resources_map r =
    let requests =
      quantity "memory" "Mi" r.memory_requests_megabytes
        (quantity "cpu" "m" r.cpu_requests_millicores end) in
    let limits =
      quantity "memory" "Mi" r.memory_limits_megabytes
        (quantity "cpu" "m" r.cpu_limits_millicores end) in
    set "limits" (obj limits) (set "requests" (obj requests) end)

-- `commonMap`
unfoldable pub common_map : Service → Value → Fields
unfolding resources_map
common_map service storage =
    let config = service.spec.config in
    let base =
      set "replicas" (int (deref_or config.replicas (pos 1)))
        (set "storage" storage (set "namespace" (str service.namespace) end)) in
    let exposed = if config.public then set "exposeExternal" (bool Bool.true) base else base in
    elim config.resources [
      | none ↦ exposed
      | some r ↦ set "resources" (obj (resources_map r)) exposed
    ]

-- `s3Map`
unfoldable pub s3_map : Service → Fields
s3_map service = elim service.spec.config.database.s3_backup_config [
  | none ↦ end
  | some s3 ↦ set "enabled" (bool Bool.true) (
      set "bucket" (str s3.bucket) (
        set "region" (str s3.region) (
          set "endpoint" (str s3.endpoint) (
            set "secretName" (str s3.secret_name) (
              set "backupPrefix" (str service.spec.service_ref) (
                set "backupSchedule" (str s3.backup_schedule)
                  (set "backupRetention" (int s3.backup_retention_count) end)))))))
]

-- The name of a ClickHouse cluster has at most 15 bytes; the references are ASCII, so these are its
-- first 15 characters.
unfoldable pub cluster_name : String → List Char
cluster_name service_ref = take 15 (runes ("chi-" <> service_ref))

-- The settings that depend on the type of the database
unfoldable pub type_settings : Service → Fields → Fields
unfolding cluster_name
type_settings service m =
    let type = service.spec.config.database.type in
    let secret = service.spec.kubernetes_secret in
    let redis =
      if secret == ""
      then m
      else if to_lower type == "redis"
      then set "secretKey" (str "DATABASE_PASSWORD") (set "secretName" (str secret) m)
      else m in
    let mongodb =
      if equal_fold type "mongodb"
      then set "existingSecretName" (str (service.spec.service_ref <> "-mongo-secret")) redis
      else redis in
    if equal_fold type "clickhouse"
    then set "existingSecretName" (str (service.spec.service_ref <> "-clickhouse-secret"))
        (set "clusterName" (str (to_text (cluster_name service.spec.service_ref))) mongodb)
    else mongodb

abbrev is_not_storage : String → Bool
is_not_storage k = if k == "storage" then Bool.false else Bool.true

-- `dbConfig` as it is rendered. The configuration has none of the keys `labels`, `environment` and
-- `common`, so each of these maps is new.
unfoldable pub parameters : Service → Fields
unfolding set_strings set_env config_map_of storage_of common_map s3_map type_settings
parameters service =
    let db_config = config_map_of service.spec.config.database.config in
    set "s3" (obj (s3_map service)) (
      type_settings service (
        set "common" (obj (common_map service (storage_of db_config))) (
          set "environment" (obj (set_env service.spec.env_vars end)) (
            set "labels" (obj (set_strings (get_common_labels service) end))
              (filter_keys is_not_storage db_config)))))

-- `processRenderedObjects`, from the objects that are processed already
unfoldable pub process_rendered_objects :
    List RuntimeObject → List RuntimeObject → List RuntimeObject
process_rendered_objects result [] = result
process_rendered_objects result (o ∷ objects) =
    process_rendered_objects (result ++ (o ∷ [])) objects

module _ {F : Type 0} (D : Databases F) where
  open D use {fetch, render, render_to_objects}

  abbrev processed : F ⊎ List RuntimeObject → Outcome F (List RuntimeObject)
  processed (inl f) = err (failure f)
  processed (inr objects) = ok (process_rendered_objects [] objects)

  -- `BuildDatabaseObjects`. Where no definition is found, `return nil, err` returns no error.
  unfoldable pub build_database_objects : Service → Outcome F (List RuntimeObject)
  unfolding parameters process_rendered_objects
  build_database_objects service =
      let database = service.spec.config.database in
      elim (fetch database.database_spec_version database.type) [
        | inl f ↦ err (failure f)
        | inr none ↦ ok []
        | inr (some definition) ↦
            elim (render definition (record {
              name = service.name;
              namespace = service.namespace;
              team_id = service.spec.team_ref;
              parameters = parameters service;
            })) [ inl f ↦ err (failure f) | inr yaml ↦ processed (render_to_objects yaml) ]
      ]
