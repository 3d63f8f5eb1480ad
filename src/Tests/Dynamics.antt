-- ===== src/Tests/Dynamics.antt =====
-- The theorems about dynamic values, applied to concrete inputs.
use unbind_operator.Base.{
  String, false, some, ◌≡◌, refl, if◌then◌else◌, none, List, [], ◌∷◌, length, ◌≤◌, arith, inr, true,
  inl, ◌⊎◌,
}
use unbind_operator.Base.Outcome.{ok}
use unbind_operator.Kube.{Generic, RuntimeObject, job, Unstructured}
use unbind_operator.Kube.Dynamic.{Fields, get, field, end, obj, str, null}
use unbind_operator.Controller.Dynamic.Fields.{update_content, generic_update, is_relevant}
use unbind_operator.Controller.Dynamic.Fields.Merge.{
  or_else, get-generic_update, update_content-metadata,
}
use unbind_operator.Controller.Dynamic.Typed.{object_needs_update, update_object, Converter}
use unbind_operator.Controller.Dynamic.Typed.Settled.{Alike, update_object-settled}
use unbind_operator.Api.{Service}
use unbind_operator.Builder.Database.{parameters, build_database_objects}
use unbind_operator.Builder.Database.Storage.{parameters-storage}
use mathlib.Core.Path.{subst}
use unbind_operator.Client.Spends.{Spends}
use unbind_operator.Controller.Database.{Platform, reconcile_database}
use unbind_operator.Controller.Database.Bounds.{reconcile_database-Spends}
use unbind_operator.Controller.Dynamic.Typed.Owned.{object_needs_update-owned}
use unbind_operator.Tests.Server.{platform, server, Failure}
use unbind_operator.Tests.Inputs

get-generic_update_example :
    get "spec" (generic_update Inputs.old_content Inputs.new_content)
    ≡ some (obj (field "clusterIP" (str "10.0.0.1") end))
unfolding get
get-generic_update_example =
    get-generic_update Inputs.old_content Inputs.new_content
      (field "clusterIP" (str "10.0.0.1") end) (str "10.0.0.1") refl refl

update_content-metadata_example :
    (merged : Fields) × (get "metadata" (update_content Inputs.old_content Inputs.new_content)
      ≡ some (obj merged))
    × ((k : String)
        → get k merged ≡ (
            if is_relevant k
            then get k (field "name" (str "x") end)
            else or_else
                (get k (field "resourceVersion" (str "7") end))
                (get k (field "name" (str "x") end))))
unfolding get
update_content-metadata_example =
    update_content-metadata Inputs.old_content Inputs.new_content
      (field "resourceVersion" (str "7") end) (field "name" (str "x") end) refl refl

update_object-settled_example :
    (updated : Generic) × (update_object platform.converter
        (Generic.deployment (Inputs.deployment "1"))
        (Generic.deployment (Inputs.deployment "2"))
      ≡ ok updated)
    × (object_needs_update platform.converter (Generic.deployment (Inputs.deployment "2")) updated
        ≡ ok false)
update_object-settled_example =
    update_object-settled platform.converter (Generic.deployment (Inputs.deployment "2"))
      (Generic.deployment (Inputs.deployment "1"))
      (Alike.deployments (Inputs.deployment "2") (Inputs.deployment "1"))

-- a PostgreSQL database without a storage size
abbrev database : Service
database = record Inputs.shop {
  spec = record Inputs.shop.spec {
    type = "database";
    config = record Inputs.shop.spec.config {
      database = record Inputs.no_database {
        type = "postgres";
        config = some (record {
          version = "16";
          storage_size = "";
          default_database_name = "shop";
          init_db = "";
          wal_level = "";
        });
      };
    };
  };
}

parameters-storage_example :
    (get "storage" (parameters database) ≡ none)
    × ((m : Fields) × (get "common" (parameters database) ≡ some (obj m))
        × (get "storage" m ≡ some null))
parameters-storage_example = parameters-storage database

-- a platform on which every database is rendered to a job
abbrev rendering : Platform server
rendering = record platform {
  databases = record {
    Definition = String;
    fetch = λ version type. inr (some type);
    render = λ definition c. inr definition;
    render_to_objects = λ yaml. inr (job Inputs.failed_job ∷ []);
  };
}

one_object :
    (objects : List RuntimeObject)
    → build_database_objects rendering.databases database ≡ ok objects
    → length objects ≤ 1
unfolding build_database_objects
one_object objects e =
    let same : job Inputs.failed_job ∷ [] ≡ objects = ground arith in
    subst (λ l. length l ≤ 1) same (omega arith)

reconcile_database-Spends_example : Spends {C = server} 71 8 (reconcile_database rendering database)
reconcile_database-Spends_example = reconcile_database-Spends rendering database 1 one_object

-- what the reconciler has created, and what is rendered
abbrev metadata : Fields → Unstructured
metadata fields = record {
  gvk = "Backup";
  content = field "metadata" (obj (field "name" (str "x") fields)) end;
}

abbrev owned : Unstructured
owned = metadata (field "ownerReferences" (str "u1") end)

abbrev contents : Generic → Failure ⊎ Fields
contents (Generic.unstructured u) = inr u.content
contents _ = inl Failure.denied

abbrev converting : Converter Failure
converting = record platform.converter { to_unstructured = contents }

object_needs_update-owned_example :
    object_needs_update converting
      (Generic.unstructured (metadata end))
      (Generic.unstructured owned)
    ≡ ok true
unfolding get
object_needs_update-owned_example =
    object_needs_update-owned converting (Generic.unstructured (metadata end)) owned
      (metadata end).content owned.content (field "name" (str "x") end)
      (field "name" (str "x") (field "ownerReferences" (str "u1") end)) (str "u1") refl refl refl
      refl refl refl
