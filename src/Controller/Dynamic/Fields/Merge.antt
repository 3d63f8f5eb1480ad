-- ===== src/Controller/Dynamic/Fields/Merge.antt =====
-- `genericUpdateObject` and `updateUnstructuredObject` on the maps of an object.
use unbind_operator.Base.{
  String, Bool, false, not, Option, none, some, List, [], ◌∷◌, ◌==◌, ◌≡◌, ◌∙◌, refl, if◌then◌else◌,
  eq_iff, arith, ◌||◌, Option-cases, inl, inr,
}
use text.Mathlib.TextPositions.{eq_refl}
use unbind_operator.Kube.Dynamic.{Value, obj, Fields, end, field, get, set, as_fields, get-set}
use unbind_operator.Controller.Dynamic.Fields.{
  preserve, preserve_fields, both_maps, with_status, with_cluster_ip, is_relevant, assign_fields,
  preserve_immutable_fields, generic_update, update_content, merge_spec, merge_metadata,
}

-- the value under a key, or the one that was there
abbrev pub or_else : Option Value → Option Value → Option Value
or_else none old = old
or_else (some v) old = some v

get-assign_fields :
    (p : String → Bool) (k : String) (from to : Fields)
    → get k (assign_fields p from to) ≡ (if p k then or_else (get k from) (get k to) else get k to)
unfolding get assign_fields
get-assign_fields p k end to = ground arith
get-assign_fields p k (field i v from) to =
    ground
      (arith, eq_iff i k, get-set k i v (assign_fields p from to), get-assign_fields p k from to)

-- `existing[k]` is mentioned in the list
abbrev mentions : List String → String → Bool
mentions [] k = false
mentions (j ∷ keys) k = j == k || mentions keys k

get-field_same : (k : String) (v : Value) (m : Fields) → get k (field k v m) ≡ some v
unfolding get
get-field_same k v m = simp eq_refl refl

immutable_part :
    (existing spec : Fields) (ip : Value)
    → get "spec" existing ≡ some (obj spec)
    → get "clusterIP" spec ≡ some ip
    → preserve_immutable_fields existing ≡ field "spec" (obj (field "clusterIP" ip end)) end
unfolding preserve_immutable_fields
immutable_part existing spec ip has ip_set = rw (has, ip_set) refl

-- An existing object whose specification has a cluster IP: after `genericUpdateObject`, the
-- specification is that cluster IP alone, so the desired specification is lost.
pub get-generic_update :
    (existing desired spec : Fields) (ip : Value)
    → get "spec" existing ≡ some (obj spec)
    → get "clusterIP" spec ≡ some ip
    → get "spec" (generic_update existing desired) ≡ some (obj (field "clusterIP" ip end))
unfolding generic_update
get-generic_update existing desired spec ip has ip_set =
    simp (get-assign_fields, immutable_part existing spec ip has ip_set, get-field_same) refl

-- A key that is among the preserved ones comes from the existing metadata where it has it.
get-preserve :
    (k : String) (keys : List String) (existing desired : Fields)
    → get k (preserve keys existing desired)
      ≡ (if mentions keys k then or_else (get k existing) (get k desired) else get k desired)
unfolding preserve
get-preserve k [] existing desired = refl
get-preserve k (j ∷ keys) existing desired = elim (Option-cases (get j existing)) [
  | inl missing ↦ ground (arith, eq_iff j k, get-preserve k keys existing desired)
  | inr (v, found) ↦
      ground
        (arith, eq_iff j k, get-set k j v desired, get-preserve k keys existing (set j v desired))
]

-- The preserved keys are those that are not compared.
mentions-preserve_fields : (k : String) → mentions preserve_fields k ≡ not (is_relevant k)
mentions-preserve_fields k = ground (
  arith,
  eq_iff k "resourceVersion",
  eq_iff "resourceVersion" k,
  eq_iff k "uid",
  eq_iff "uid" k,
  eq_iff k "generation",
  eq_iff "generation" k,
  eq_iff k "creationTimestamp",
  eq_iff "creationTimestamp" k,
  eq_iff k "selfLink",
  eq_iff "selfLink" k,
  eq_iff k "managedFields",
  eq_iff "managedFields" k,
)

get-both_maps :
    (k : String) (a b : Option Fields) (f : Fields → Fields → Fields) (other : Fields)
    → ((x y : Fields) → get k (f x y) ≡ get k other)
    → get k (both_maps a b f other) ≡ get k other
get-both_maps k none b f other h = refl
get-both_maps k (some a) none f other h = refl
get-both_maps k (some a) (some b) f other h = h a b

get-merge_spec :
    (k : String) (existing desired : Fields)
    → "spec" == k ≡ false
    → get k (merge_spec existing desired) ≡ get k desired
unfolding merge_spec
get-merge_spec k existing desired other = ground (
  arith,
  get-both_maps k (as_fields (get "spec" existing)) (as_fields (get "spec" desired))
      (λ e d. set "spec" (obj (with_cluster_ip (get "clusterIP" e) d)) desired) desired
      (λ x y.
        ground (arith, get-set k "spec" (obj (with_cluster_ip (get "clusterIP" x) y)) desired)),
)

get-with_status :
    (k : String) (status : Option Value) (desired : Fields)
    → "status" == k ≡ false
    → get k (with_status status desired) ≡ get k desired
get-with_status k none desired other = refl
get-with_status k (some status) desired other = ground (arith, get-set k "status" status desired)

get-merge_metadata :
    (existing desired old new : Fields)
    → get "metadata" existing ≡ some (obj old)
    → get "metadata" desired ≡ some (obj new)
    → get "metadata" (merge_metadata existing desired)
      ≡ some (obj (preserve preserve_fields old new))
unfolding merge_metadata
get-merge_metadata existing desired old new has has' =
    rw (has, has') (get-set "metadata" "metadata" _ desired)

-- Where both objects have metadata, the update keeps of the existing metadata exactly the keys that
-- a comparison leaves out, and takes every other key from the desired metadata.
pub update_content-metadata :
    (existing desired old new : Fields)
    → get "metadata" existing ≡ some (obj old)
    → get "metadata" desired ≡ some (obj new)
    → (merged : Fields) × (get "metadata" (update_content existing desired) ≡ some (obj merged))
      × ((k : String)
          → get k merged ≡ (if is_relevant k then get k new else or_else (get k old) (get k new)))
unfolding update_content
update_content-metadata existing desired old new has has' = (
  preserve preserve_fields old new,
  get-with_status "metadata" (get "status" existing) _ refl
      ∙ get-merge_spec "metadata" existing (merge_metadata existing desired) refl
      ∙ get-merge_metadata existing desired old new has has',
  λ k. rw (get-preserve k preserve_fields old new, mentions-preserve_fields k) (ground arith),
)

-- The existing status stays, whatever the desired object has there.
update_content-status :
    (existing desired : Fields) (status : Value)
    → get "status" existing ≡ some status
    → get "status" (update_content existing desired) ≡ some status
unfolding update_content
update_content-status existing desired status has = rw has (get-set "status" "status" status _)
