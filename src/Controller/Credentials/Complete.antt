-- ===== src/Controller/Credentials/Complete.antt =====
-- `updateSecretData` and its variants, and the test for missing credentials.
use unbind_operator.Base.{
  String, true, false, some, [], ◌∷◌, ◌≡◌, refl, arith, ◌==◌, is_some, if◌then◌else◌,
}
use unbind_operator.Base.Dict.{Dict, lookup, lookup-insert, lookup-nil}
use unbind_operator.Api.{Service}
use unbind_operator.Controller.Credentials.{
  copy_key, has_credentials, needs_credentials, update_secret_data, update_mysql_secret_data,
  update_mongodb_secret_data, update_clickhouse_secret_data,
}

lookup-copy_key :
    (j from to v : String) (source target : Dict String)
    → lookup from source ≡ some v
    → lookup j (copy_key from to source target) ≡ (if to == j then some v else lookup j target)
unfolding copy_key
lookup-copy_key j from to v source target h = rw (h, copy_key) (lookup-insert j to v target)

-- A map that has the three credentials needs none.
complete :
    (m : Dict String)
    → is_some (lookup "DATABASE_USERNAME" m) ≡ true
    → is_some (lookup "DATABASE_PASSWORD" m) ≡ true
    → is_some (lookup "DATABASE_URL" m) ≡ true
    → needs_credentials (some m) ≡ false
unfolding needs_credentials has_credentials
complete [] h h' h'' = absurd (ground (arith, lookup-nil {V = String} "DATABASE_URL"))
complete (e ∷ m) h h' h'' = ground arith

module _ (target source : Dict String) (service : Service) (p : String) where
  -- The credentials of a PostgreSQL database are complete in the target once the source has a
  -- user name and a password.
  pub update_secret_data_complete :
      (db_name u : String)
      → lookup "username" source ≡ some u
      → lookup "password" source ≡ some p
      → needs_credentials (some (update_secret_data target source service db_name)) ≡ false
  unfolding update_secret_data
  update_secret_data_complete db_name u h h' =
      let copied = λ (j : String) (target : Dict String).
        lookup-copy_key j "username" "DATABASE_USERNAME" u source target h in
      let copied' = λ (j : String) (target : Dict String).
        lookup-copy_key j "password" "DATABASE_PASSWORD" p source target h' in
      complete (update_secret_data target source service db_name)
        (simp (lookup-insert, copied, copied') refl) (simp (lookup-insert, copied, copied') refl)
        (simp (lookup-insert, copied, copied') refl)

  -- The credentials of a MySQL database are complete in the target once the source has a password.
  pub update_mysql_secret_data_complete :
      lookup "WRITABLE_PASSWORD" source ≡ some p
      → needs_credentials (some (update_mysql_secret_data target source service)) ≡ false
  unfolding update_mysql_secret_data
  update_mysql_secret_data_complete h =
      let copied = λ (j : String) (target : Dict String).
        lookup-copy_key j "WRITABLE_PASSWORD" "DATABASE_PASSWORD" p source target h in
      complete (update_mysql_secret_data target source service) (simp (lookup-insert, copied) refl)
        (simp (lookup-insert, copied) refl) (simp (lookup-insert, copied) refl)

  -- The credentials of a MongoDB database are complete in the target once the source has a password.
  pub update_mongodb_secret_data_complete :
      lookup "mongodb-root-password" source ≡ some p
      → needs_credentials (some (update_mongodb_secret_data target source service)) ≡ false
  unfolding update_mongodb_secret_data
  update_mongodb_secret_data_complete h =
      let copied = λ (j : String) (target : Dict String).
        lookup-copy_key j "mongodb-root-password" "DATABASE_PASSWORD" p source target h in
      complete (update_mongodb_secret_data target source service)
        (simp (lookup-insert, copied) refl) (simp (lookup-insert, copied) refl)
        (simp (lookup-insert, copied) refl)

  -- The credentials of a ClickHouse database are complete in the target once the source has a
  -- password.
  pub update_clickhouse_secret_data_complete :
      lookup "password" source ≡ some p
      → needs_credentials (some (update_clickhouse_secret_data target source service)) ≡ false
  unfolding update_clickhouse_secret_data
  update_clickhouse_secret_data_complete h =
      let copied = λ (j : String) (target : Dict String).
        lookup-copy_key j "password" "DATABASE_PASSWORD" p source target h in
      complete (update_clickhouse_secret_data target source service)
        (simp (lookup-insert, copied) refl) (simp (lookup-insert, copied) refl)
        (simp (lookup-insert, copied) refl)
