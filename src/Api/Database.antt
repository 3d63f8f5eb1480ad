-- ===== src/Api/Database.antt =====
-- The database part of the specification, and `AsMap` of api/v1/service_types.go.
use unbind_operator.Base.{String, ℤ, Option, [], ◌==◌, if◌then◌else◌}
use unbind_operator.Base.Dict.{Dict, insert}

pub record DatabaseConfigSpec : Type 0 where
  pub version : String
  pub storage_size : String
  pub default_database_name : String
  pub init_db : String
  pub wal_level : String

pub record S3ConfigSpec : Type 0 where
  pub bucket : String
  pub endpoint : String
  pub region : String
  pub secret_name : String
  pub backup_schedule : String
  pub backup_retention_count : ℤ

pub record DatabaseSpec : Type 0 where
  pub type : String
  pub database_spec_version : String
  pub config : Option DatabaseConfigSpec
  pub s3_backup_config : Option S3ConfigSpec

-- `if value != "" { res[key] = value }`
abbrev pub insert_nonempty : String → String → Dict String → Dict String
insert_nonempty key value res = if value == "" then res else insert key value res

-- `AsMap`; every value that it stores is a string.
unfoldable pub as_map : DatabaseConfigSpec → Dict String
as_map self = insert_nonempty "walLevel" self.wal_level (
    insert_nonempty "initdb" self.init_db (
      insert_nonempty "defaultDatabaseName" self.default_database_name
        (insert_nonempty "storage" self.storage_size (insert_nonempty "version" self.version []))))
