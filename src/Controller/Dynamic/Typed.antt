-- ===== src/Controller/Dynamic/Typed.antt =====
-- `objectNeedsUpdate`, `genericObjectNeedsUpdate`, `updateObject`, `updateUnstructuredObject` and
-- `genericUpdateObject`, with the conversions of apimachinery as a parameter.
pub mod Settled
pub mod Owned
use unbind_operator.Base.{String, Bool, not, ◌||◌, ◌⊎◌, inl, inr, ◌==◌}
use unbind_operator.Base.Equal.{deep_equal}
use unbind_operator.Base.Outcome.{Outcome, ok, err, panic, failure, wrap, message}
use unbind_operator.Api.{Service}
use unbind_operator.Kube.{
  ObjectMeta, Deployment, CoreService, Ingress, Unstructured, Generic, DeploymentSpec-discrete,
  IngressSpec-discrete, ports_discrete, labels_discrete, contents_discrete,
}
use unbind_operator.Kube.Dynamic.{Fields, Fields-discrete}
use unbind_operator.Controller.Dynamic.Fields.{
  remove_non_compared_fields, update_content, generic_update,
}

-- What the code uses of `runtime.DefaultUnstructuredConverter` and of the metadata accessors
pub record Converter (F : Type 0) : Type 0 where
  pub accessor : Generic → F ⊎ ObjectMeta
  -- `GroupVersionKind()`: the kind alone, and the whole
  pub kind : Generic → String
  pub gvk : Generic → String
  -- `fmt.Sprintf("%T", obj)`
  pub type_name : Generic → String
  pub is_client_object : Generic → Bool
  pub to_unstructured : Generic → F ⊎ Fields
  pub to_deployment : Fields → F ⊎ Deployment
  pub to_service : Fields → F ⊎ CoreService
  pub to_ingress : Fields → F ⊎ Ingress
  -- `FromUnstructured(content, existing)`
  pub from_unstructured : Fields → Generic → F ⊎ Generic
  -- `SetControllerReference(&service, obj, scheme)`
  pub own : Service → Generic → F ⊎ Generic

module _ {F A : Type 0} where
  abbrev pub converted : String → F ⊎ A → Outcome F A
  converted text (inl f) = err (wrap text (failure f))
  converted text (inr a) = ok a

module _ {F A B : Type 0} where
  abbrev pub and_then : Outcome F A → (A → Outcome F B) → Outcome F B
  and_then (ok a) f = f a
  and_then (err e) f = err e
  and_then panic f = panic

module _ {F : Type 0} (S : Converter F) where
  unfoldable pub generic_object_needs_update : Generic → Generic → Outcome F Bool
  unfolding remove_non_compared_fields
  generic_object_needs_update desired existing =
      and_then (converted "converting desired object to unstructured" (S.to_unstructured desired))
        λ d.
          and_then
            (converted "converting existing object to unstructured" (S.to_unstructured existing))
            λ e. ok (
              not (
                deep_equal Fields-discrete (remove_non_compared_fields d)
                  (remove_non_compared_fields e)))

  abbrev service_needs_update : CoreService → CoreService → Bool
  service_needs_update existing desired =
      not (deep_equal ports_discrete existing.spec.ports desired.spec.ports)
      || not (deep_equal labels_discrete existing.spec.selector desired.spec.selector)
      || not (existing.spec.type == desired.spec.type)

  -- The switch on the type of `desired`
  unfoldable pub typed_needs_update : Generic → Generic → Outcome F Bool
  unfolding generic_object_needs_update
  typed_needs_update (Generic.deployment d) existing = elim existing [
    | Generic.deployment e ↦ ok (not (deep_equal DeploymentSpec-discrete e.spec d.spec))
    | _ ↦ err (message "existing object is not a Deployment")
  ]
  typed_needs_update (Generic.core_service d) existing = elim existing [
    | Generic.core_service e ↦ ok (service_needs_update e d)
    | _ ↦ err (message "existing object is not a Service")
  ]
  typed_needs_update (Generic.ingress d) existing = elim existing [
    | Generic.ingress e ↦ ok (not (deep_equal IngressSpec-discrete e.spec d.spec))
    | _ ↦ err (message "existing object is not an Ingress")
  ]
  typed_needs_update (Generic.config_map d) existing = elim existing [
    | Generic.config_map e ↦ ok (
        not (deep_equal contents_discrete e.contents d.contents)
        || not (deep_equal contents_discrete e.binary_contents d.binary_contents))
    | _ ↦ err (message "existing object is not a ConfigMap")
  ]
  typed_needs_update (Generic.secret d) existing = elim existing [
    | Generic.secret e ↦ ok (
        not (deep_equal contents_discrete e.contents d.contents)
        || not (deep_equal contents_discrete e.string_contents d.string_contents)
        || not (e.type == d.type))
    | _ ↦ err (message "existing object is not a Secret")
  ]
  typed_needs_update desired existing = generic_object_needs_update desired existing

  unfoldable pub object_needs_update : Generic → Generic → Outcome F Bool
  unfolding typed_needs_update
  object_needs_update desired (Generic.unstructured e) =
      generic_object_needs_update desired (Generic.unstructured e)
  object_needs_update desired existing = typed_needs_update desired existing

  -- The content of `desired`: its own, or what it is converted to
  abbrev desired_content : Generic → Outcome F Fields
  desired_content (Generic.unstructured d) = ok d.content
  desired_content d = converted "converting desired to unstructured" (S.to_unstructured d)

  unfoldable pub update_unstructured_object : Unstructured → Generic → Outcome F Generic
  unfolding update_content
  update_unstructured_object existing desired = and_then (desired_content desired) λ d.
      ok (Generic.unstructured (record existing { content = update_content existing.content d }))

  unfoldable pub generic_update_object : Generic → Generic → Outcome F Generic
  unfolding generic_update
  generic_update_object existing desired =
      and_then (converted "converting desired object to unstructured" (S.to_unstructured desired))
        λ d.
          and_then
            (converted "converting existing object to unstructured" (S.to_unstructured existing))
            λ e. elim (S.from_unstructured (generic_update e d) existing) [
              | inl f ↦ err (failure f)
              | inr o ↦ ok o
            ]

  -- The switch on the type of `desired`
  unfoldable pub update_typed : Generic → Generic → Outcome F Generic
  unfolding generic_update_object
  update_typed (Generic.job d) existing = ok existing
  update_typed (Generic.deployment d) existing = elim existing [
    | Generic.deployment e ↦ ok (Generic.deployment (record e { spec = d.spec }))
    | _ ↦ err (message "existing object is not a Deployment")
  ]
  update_typed (Generic.core_service d) existing = elim existing [
    | Generic.core_service e ↦ ok (
        Generic.core_service (record e { spec = record d.spec { cluster_ip = e.spec.cluster_ip } }))
    | _ ↦ err (message "existing object is not a Service")
  ]
  update_typed (Generic.ingress d) existing = elim existing [
    | Generic.ingress e ↦ ok (Generic.ingress (record e { spec = d.spec }))
    | _ ↦ err (message "existing object is not an Ingress")
  ]
  update_typed (Generic.config_map d) existing = elim existing [
    | Generic.config_map e ↦ ok (
        Generic.config_map
          (record e { contents = d.contents; binary_contents = d.binary_contents }))
    | _ ↦ err (message "existing object is not a ConfigMap")
  ]
  update_typed (Generic.secret d) existing = elim existing [
    | Generic.secret e ↦ ok (
        Generic.secret
          (record e { contents = d.contents; string_contents = d.string_contents; type = d.type }))
    | _ ↦ err (message "existing object is not a Secret")
  ]
  update_typed desired existing = generic_update_object existing desired

  unfoldable pub update_object : Generic → Generic → Outcome F Generic
  unfolding update_typed update_unstructured_object
  update_object (Generic.unstructured e) desired = update_unstructured_object e desired
  update_object existing desired = update_typed desired existing
