-- ===== src/Builder/Database/Storage.antt =====
-- What the parameters of a database's definition say of the storage.
use unbind_operator.Base.{
  String, Bool, true, false, ◌==◌, ◌≡◌, refl, ◌∙◌, ap, arith, Option, none, some, [], if◌then◌else◌,
}
use unbind_operator.Base.Dict.{Dict, insert}
use unbind_operator.Api.{Service}
use unbind_operator.Api.Database.{DatabaseConfigSpec, as_map}
use unbind_operator.Kube.Dynamic.{
  Value, Fields, end, get, set, str, obj, null, get-set, fields_laws,
}
use unbind_operator.Builder.Database.{
  set_strings, config_map_of, storage_of, common_map, type_settings, parameters,
}

-- The storage that a database asks for: nothing if the configuration has none.
abbrev pub storage_parameter : Option DatabaseConfigSpec → Value
storage_parameter none = null
storage_parameter (some c) = if c.storage_size == "" then null else str c.storage_size

abbrev insert_unless : Bool → String → String → Dict String → Dict String
insert_unless empty key value res = if empty then res else insert key value res

get-as_map :
    (c : DatabaseConfigSpec) (a b d e f : Bool)
    → get "storage" (
        set_strings
          (insert_unless a "walLevel" c.wal_level (
            insert_unless b "initdb" c.init_db (
              insert_unless d "defaultDatabaseName" c.default_database_name (
                insert_unless e "storage" c.storage_size
                  (insert_unless f "version" c.version [])))))
          end)
      ≡ (if e then none else some (str c.storage_size))
unfolding set_strings insert get set
get-as_map c a b d e f = ground arith

storage_of-size :
    (empty : Bool) (size : String) (m : Fields)
    → (size == "") ≡ empty
    → get "storage" m ≡ (if empty then none else some (str size))
    → storage_of m ≡ (if empty then null else str size)
unfolding storage_of
storage_of-size true size m e h = rw (h, storage_of) refl
storage_of-size false size m e h = rw (h, storage_of) (rw e refl)

storage_of-config :
    (config : Option DatabaseConfigSpec)
    → storage_of (config_map_of config) ≡ storage_parameter config
unfolding config_map_of as_map storage_of get
storage_of-config none = refl
storage_of-config (some c) =
    storage_of-size (c.storage_size == "") c.storage_size (set_strings (as_map c) end) refl (
      get-as_map c (c.wal_level == "") (c.init_db == "") (c.default_database_name == "")
        (c.storage_size == "") (c.version == ""))

get-common_map :
    (service : Service) (storage : Value)
    → get "storage" (common_map service storage) ≡ some storage
unfolding common_map
get-common_map service storage = grind (arith, get-set)

module _ (service : Service) (m : Fields) where
  get-type_settings :
      (k : String)
      → "secretKey" == k ≡ false
      → "secretName" == k ≡ false
      → "existingSecretName" == k ≡ false
      → "clusterName" == k ≡ false
      → get k (type_settings service m) ≡ get k m
  unfolding type_settings
  get-type_settings k a b d e = grind (arith, get-set)

-- The parameters of a database have no storage of their own, and their common part has that of the
-- configuration: null where there is no configuration or its storage size is empty.
pub parameters-storage :
    (service : Service)
    → (get "storage" (parameters service) ≡ none)
      × ((m : Fields) × (get "common" (parameters service) ≡ some (obj m))
          × (get "storage" m ≡ some (storage_parameter service.spec.config.database.config)))
unfolding parameters
parameters-storage service =
    let config = service.spec.config.database.config in
    let m = common_map service (storage_of (config_map_of config)) in
    (
      simp (fields_laws, get-type_settings) refl,
      (
        m,
        simp (fields_laws, get-type_settings) refl,
        get-common_map service _ ∙ ap some (storage_of-config config),
      ),
    )
