-- ===== src/Controller/Dynamic/Fields.antt =====
-- `removeNonComparedFields`, `preserveImmutableFields`, and the work on maps of
-- `updateUnstructuredObject` and `genericUpdateObject`.
pub mod Merge
use unbind_operator.Base.{
  String, Bool, true, false, not, ◌&&◌, Option, none, some, List, [], ◌∷◌, ◌==◌, if◌then◌else◌,
}
use unbind_operator.Kube.Dynamic.{
  Value, null, obj, str, Fields, end, field, get, set, as_fields, filter_keys,
}

-- The metadata that an update keeps, and that a comparison leaves out: `preserveFields`
abbrev pub preserve_fields : List String
preserve_fields =
    "resourceVersion" ∷ "uid" ∷ "generation" ∷ "creationTimestamp" ∷ "selfLink" ∷ "managedFields"
    ∷ []

-- The test of `removeNonComparedFields` on a key of the metadata
abbrev pub is_relevant : String → Bool
is_relevant k =
    not (k == "resourceVersion")
    && not (k == "generation")
    && not (k == "uid")
    && not (k == "creationTimestamp")
    && not (k == "managedFields")
    && not (k == "selfLink")

abbrev compared_metadata : Value → Fields → Fields
compared_metadata (obj metadata) rest =
    field "metadata" (obj (filter_keys is_relevant metadata)) rest
compared_metadata _ rest = rest

-- `removeNonComparedFields`
unfoldable pub remove_non_compared_fields : Fields → Fields
remove_non_compared_fields end = end
remove_non_compared_fields (field k v m) =
    let rest = remove_non_compared_fields m in
    if k == "status"
    then rest
    else if k == "metadata"
    then compared_metadata v rest
    else field k v rest

-- `for _, field := range preserveFields { if val, exists := existing[field]; exists { … } }`
unfoldable pub preserve : List String → Fields → Fields → Fields
preserve [] existing desired = desired
preserve (k ∷ keys) existing desired =
    preserve keys existing (elim (get k existing) [ none ↦ desired | some v ↦ set k v desired ])

-- `if val, ok := m[k].(map[string]interface{})` on both sides: the two maps under a key
abbrev pub both_maps : Option Fields → Option Fields → (Fields → Fields → Fields) → Fields → Fields
both_maps (some a) (some b) f other = f a b
both_maps _ _ f other = other

abbrev pub with_cluster_ip : Option Value → Fields → Fields
with_cluster_ip none desired_spec = desired_spec
with_cluster_ip (some null) desired_spec = desired_spec
with_cluster_ip (some ip) desired_spec = set "clusterIP" ip desired_spec

abbrev pub with_status : Option Value → Fields → Fields
with_status none desired = desired
with_status (some status) desired = set "status" status desired

abbrev is_service : Option Value → Bool
is_service (some (str kind)) = kind == "Service"
is_service _ = false

-- The metadata of `desired`, with the preserved fields of the existing one
unfoldable pub merge_metadata : Fields → Fields → Fields
unfolding preserve
merge_metadata existing desired =
    both_maps (as_fields (get "metadata" existing)) (as_fields (get "metadata" desired))
      (λ e d. set "metadata" (obj (preserve preserve_fields e d)) desired) desired

-- The cluster IP of a service is kept.
unfoldable pub merge_spec : Fields → Fields → Fields
merge_spec existing desired =
    if is_service (get "kind" desired)
    then both_maps (as_fields (get "spec" existing)) (as_fields (get "spec" desired))
        (λ e d. set "spec" (obj (with_cluster_ip (get "clusterIP" e) d)) desired) desired
    else desired

-- The content that `updateUnstructuredObject` writes
unfoldable pub update_content : Fields → Fields → Fields
unfolding merge_metadata merge_spec
update_content existing desired =
    with_status (get "status" existing) (merge_spec existing (merge_metadata existing desired))

abbrev cluster_ip_only : Option Value → Fields
cluster_ip_only none = end
cluster_ip_only (some ip) = field "spec" (obj (field "clusterIP" ip end)) end

abbrev preserved_spec : Option Fields → Fields
preserved_spec none = end
preserved_spec (some spec) = cluster_ip_only (get "clusterIP" spec)

-- `preserveImmutableFields`
unfoldable pub preserve_immutable_fields : Fields → Fields
preserve_immutable_fields object = preserved_spec (as_fields (get "spec" object))

-- `for k, v := range from { if p(k) { to[k] = v } }`
unfoldable pub assign_fields : (String → Bool) → Fields → Fields → Fields
assign_fields p end to = to
assign_fields p (field k v from) to =
    let rest = assign_fields p from to in if p k then set k v rest else rest

abbrev pub is_assigned : String → Bool
is_assigned k =
    not (k == "metadata") && not (k == "status") && not (k == "apiVersion") && not (k == "kind")

abbrev every_key : String → Bool
every_key k = true

-- The map that `genericUpdateObject` converts back
unfoldable pub generic_update : Fields → Fields → Fields
unfolding preserve_immutable_fields assign_fields
generic_update existing desired =
    assign_fields every_key (preserve_immutable_fields existing)
      (assign_fields is_assigned desired existing)
