-- ===== src/Controller/Credentials.antt =====
-- The credentials that are copied from a database's secret to the target secret of the service:
-- `updateSecretData` and its variants for MySQL, MongoDB and ClickHouse, and `getPGDefaultDatabaseName`.
-- The maps that they write to are not nil.
pub mod Complete
use unbind_operator.Base.{
  String, ◌<>◌, Bool, true, false, ◌&&◌, ◌||◌, Option, none, some, [], ◌==◌, is_some, is_empty,
  deref_or, if◌then◌else◌,
}
use unbind_operator.Base.Dict.{Dict, lookup, insert}
use unbind_operator.Api.{Service}
use unbind_operator.Api.Database.{as_map}

-- `m[key]` as a text: a missing key reads as the empty text.
abbrev pub read : String → Dict String → String
read key m = deref_or (lookup key m) ""

-- `if v, ok := source[from]; ok { target[to] = v }`
unfoldable pub copy_key : String → String → Dict String → Dict String → Dict String
copy_key from to source target = elim (lookup from source) [
  | none ↦ target
  | some v ↦ insert to v target
]

-- `hasCredentials`
unfoldable pub has_credentials : Dict String → Bool
has_credentials m =
    is_some (lookup "DATABASE_USERNAME" m)
    && is_some (lookup "DATABASE_PASSWORD" m)
    && is_some (lookup "DATABASE_URL" m)

-- `isEmpty || !hasCredentials`, on a map that may be nil
unfoldable pub needs_credentials : Option (Dict String) → Bool
unfolding has_credentials
needs_credentials m =
    is_empty (deref_or m []) || (if has_credentials (deref_or m []) then false else true)

-- `updateSecretData` (PostgreSQL)
unfoldable pub update_secret_data : Dict String → Dict String → Service → String → Dict String
unfolding copy_key
update_secret_data target zalando service db_name =
    let m =
      copy_key "password" "DATABASE_PASSWORD" zalando
        (copy_key "username" "DATABASE_USERNAME" zalando target) in
    let host = service.name <> "." <> service.namespace in
    let url =
      "postgresql://"
      <> read "DATABASE_USERNAME" m
      <> ":"
      <> read "DATABASE_PASSWORD" m
      <> "@"
      <> host
      <> ":5432/"
      <> db_name
      <> "?sslmode=disable" in
    insert "DATABASE_HOST" host (
      insert "DATABASE_PORT" "5432"
        (insert "DATABASE_DEFAULT_DB_NAME" db_name (insert "DATABASE_URL" url m)))

-- `updateMySQLSecretData`
unfoldable pub update_mysql_secret_data : Dict String → Dict String → Service → Dict String
unfolding copy_key
update_mysql_secret_data target moco service =
    let m =
      copy_key "WRITABLE_PASSWORD" "DATABASE_PASSWORD" moco
        (insert "DATABASE_USERNAME" "moco-writable" target) in
    let host = "moco-" <> service.name <> "." <> service.namespace in
    let url =
      "mysql://"
      <> read "DATABASE_USERNAME" m
      <> ":"
      <> read "DATABASE_PASSWORD" m
      <> "@"
      <> host
      <> ":3306/moco" in
    insert "DATABASE_HOST" host (
      insert "DATABASE_PORT" "3306"
        (insert "DATABASE_DEFAULT_DB_NAME" "moco" (insert "DATABASE_URL" url m)))

-- `updateMongoDBSecretData`
unfoldable pub update_mongodb_secret_data : Dict String → Dict String → Service → Dict String
unfolding copy_key
update_mongodb_secret_data target mongo service =
    let m =
      copy_key "mongodb-root-password" "DATABASE_PASSWORD" mongo
        (insert "DATABASE_USERNAME" "root" target) in
    let host = service.name <> "." <> service.namespace in
    let url =
      "mongodb://root:" <> read "DATABASE_PASSWORD" m <> "@" <> host <> ":27017/admin?ssl=false" in
    insert "DATABASE_HOST" host (
      insert "DATABASE_PORT" "27017"
        (insert "DATABASE_DEFAULT_DB_NAME" "admin" (insert "DATABASE_URL" url m)))

-- `updateClickhouseSecretData`
unfoldable pub update_clickhouse_secret_data : Dict String → Dict String → Service → Dict String
unfolding copy_key
update_clickhouse_secret_data target clickhouse service =
    let m =
      copy_key "password" "DATABASE_PASSWORD" clickhouse
        (insert "DATABASE_USERNAME" "default" target) in
    let host = "clickhouse-" <> service.name <> "." <> service.namespace in
    let login = "default:" <> read "DATABASE_PASSWORD" m <> "@" <> host in
    insert "DATABASE_HOST" host (
      insert "DATABASE_HTTP_PORT" "8123" (
        insert "DATABASE_PORT" "9000" (
          insert "DATABASE_DEFAULT_DB_NAME" "default" (
            insert "DATABASE_HTTP_URL" ("http://" <> login <> ":8123/default")
              (insert "DATABASE_URL" ("clickhouse://" <> login <> ":9000/default") m)))))

abbrev default_name : Option String → String
default_name none = "primarydb"
default_name (some name) = if name == "" then "primarydb" else name

-- `getPGDefaultDatabaseName`; `none` is the panic of `AsMap` on a nil configuration.
unfoldable pub get_pg_default_database_name : Service → Option String
get_pg_default_database_name service = elim service.spec.config.database.config [
  | none ↦ none
  | some c ↦ some (default_name (lookup "defaultDatabaseName" (as_map c)))
]
