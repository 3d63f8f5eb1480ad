-- ===== src/Controller/Dynamic/Typed/Settled.antt =====
-- `updateObject` and `objectNeedsUpdate` on the types that both know.
use unbind_operator.Base.{false, ◌≡◌, refl}
use text.Mathlib.TextPositions.{eq_refl}
use unbind_operator.Base.Equal.{deep_equal_self}
use unbind_operator.Base.Outcome.{ok}
use unbind_operator.Kube.{
  Generic, Deployment, CoreService, Ingress, ConfigMap, Secret, DeploymentSpec-discrete,
  IngressSpec-discrete, ports_discrete, labels_discrete, contents_discrete,
}
use unbind_operator.Controller.Dynamic.Typed.{
  Converter, typed_needs_update, object_needs_update, update_typed, update_object,
}

-- Two objects of one of the types that `updateObject` and `objectNeedsUpdate` both have a case for
pub data Alike : Generic → Generic → Type 0 where
  deployments : (d e : Deployment) → Alike (Generic.deployment d) (Generic.deployment e)
  core_services : (d e : CoreService) → Alike (Generic.core_service d) (Generic.core_service e)
  ingresses : (d e : Ingress) → Alike (Generic.ingress d) (Generic.ingress e)
  config_maps : (d e : ConfigMap) → Alike (Generic.config_map d) (Generic.config_map e)
  secrets : (d e : Secret) → Alike (Generic.secret d) (Generic.secret e)

module _ {F : Type 0} (S : Converter F) where
  -- For a desired and an existing object of one known type, the update succeeds, and what it gives
  -- needs no other update.
  pub update_object-settled :
      (desired existing : Generic)
      → Alike desired existing
      → (updated : Generic) × (update_object S existing desired ≡ ok updated)
        × (object_needs_update S desired updated ≡ ok false)
  unfolding update_object object_needs_update update_typed typed_needs_update
  update_object-settled desired existing (deployments d e) =
      (_, refl, simp (deep_equal_self DeploymentSpec-discrete) refl)
  update_object-settled desired existing (core_services d e) = (
    _,
    refl,
    simp (deep_equal_self ports_discrete, deep_equal_self labels_discrete, eq_refl) refl,
  )
  update_object-settled desired existing (ingresses d e) =
      (_, refl, simp (deep_equal_self IngressSpec-discrete) refl)
  update_object-settled desired existing (config_maps d e) =
      (_, refl, simp (deep_equal_self contents_discrete) refl)
  update_object-settled desired existing (secrets d e) =
      (_, refl, simp (deep_equal_self contents_discrete, eq_refl) refl)
