-- ===== src/Controller/Dynamic/Typed/Owned.antt =====
-- The comparison of an object that the reconciler owns with a rendered one, in `objectNeedsUpdate`.
use unbind_operator.Base.{
  true, false, ◌≡◌, refl, sym, ◌∙◌, ap, arith, ◌==◌, eq_iff, Option, none, some, inl, inr,
  Bool-cases,
}
use unbind_operator.Base.Equal.{deep_equal, deep_equal_iff}
use unbind_operator.Base.Outcome.{ok}
use unbind_operator.Kube.{Generic, Unstructured}
use unbind_operator.Kube.Dynamic.{
  Value, obj, Fields, end, field, get, filter_keys, get-filter_keys, Fields-discrete,
}
use unbind_operator.Controller.Dynamic.Fields.{remove_non_compared_fields, is_relevant}
use unbind_operator.Controller.Dynamic.Typed.{
  Converter, generic_object_needs_update, object_needs_update,
}

-- What is compared of the metadata
get-remove_non_compared_fields :
    (m a : Fields)
    → get "metadata" m ≡ some (obj a)
    → get "metadata" (remove_non_compared_fields m) ≡ some (obj (filter_keys is_relevant a))
unfolding get remove_non_compared_fields
get-remove_non_compared_fields end a h = absurd (ground arith)
get-remove_non_compared_fields (field k v m) a h = elim (Bool-cases (k == "metadata")) [
  | inl metadata ↦
      let e : k ≡ "metadata" = (eq_iff k "metadata").0 metadata in
      let e' : v ≡ obj a = ground arith in rw (e, e') refl
  | inr other ↦
      let rest : get "metadata" m ≡ some (obj a) = ground arith in
      let ih = get-remove_non_compared_fields m a rest in rw other (ground arith)
]

abbrev owners_of : Option Value → Option Value
owners_of (some (obj m)) = get "ownerReferences" m
owners_of _ = none

different :
    (d e a b : Fields) (owners : Value)
    → get "metadata" d ≡ some (obj a)
    → get "metadata" e ≡ some (obj b)
    → get "ownerReferences" a ≡ none
    → get "ownerReferences" b ≡ some owners
    → deep_equal Fields-discrete (remove_non_compared_fields d) (remove_non_compared_fields e)
      ≡ false
different d e a b owners h h' none_a some_b =
    elim (Bool-cases
      (deep_equal Fields-discrete (remove_non_compared_fields d) (remove_non_compared_fields e))) [
        | inl same ↦
            let equal =
              (deep_equal_iff Fields-discrete (remove_non_compared_fields d)
                  (remove_non_compared_fields e)).0
                same in
            let owners_same =
              sym (ap owners_of (get-remove_non_compared_fields d a h))
              ∙ ap (λ m. owners_of (get "metadata" m)) equal
              ∙ ap owners_of (get-remove_non_compared_fields e b h') in
            let none_left = get-filter_keys is_relevant "ownerReferences" a in
            let some_left = get-filter_keys is_relevant "ownerReferences" b in absurd (ground arith)
        | inr other ↦ other
      ]

-- The existing object is unstructured, as objects of other types than the built-in ones are. Where
-- both it and the desired object have metadata, and it has owner references and the desired one has
-- none, an update is needed, whatever else the two objects are.
pub object_needs_update-owned :
    {F : Type 0} (S : Converter F) (desired : Generic) (existing : Unstructured) (d e a b : Fields)
    (owners : Value)
    → S.to_unstructured desired ≡ inr d
    → S.to_unstructured (Generic.unstructured existing) ≡ inr e
    → get "metadata" d ≡ some (obj a)
    → get "metadata" e ≡ some (obj b)
    → get "ownerReferences" a ≡ none
    → get "ownerReferences" b ≡ some owners
    → object_needs_update S desired (Generic.unstructured existing) ≡ ok true
unfolding object_needs_update generic_object_needs_update
object_needs_update-owned S desired existing d e a b owners h h' m m' none_a some_b =
    rw (h, h') (rw (different d e a b owners m m' none_a some_b) refl)
