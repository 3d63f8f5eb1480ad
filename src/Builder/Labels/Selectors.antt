-- ===== src/Builder/Labels/Selectors.antt =====
-- `getLabelSelectors` and `getCommonLabels`.
use unbind_operator.Base.{Bool, String, ◌≡◌, refl, ◌==◌, eq_iff, none, some, arith, if◌then◌else◌}
use unbind_operator.Base.Dict.{Dict, lookup, insert, lookup-insert, lookup-nil}
use unbind_operator.Api.{Service}
use unbind_operator.Builder.Labels.{get_label_selectors, get_common_labels}

-- Every entry of the first map is one of the second.
abbrev pub Includes : Dict String → Dict String → Type 0
Includes m m' = (k v : String) → lookup k m ≡ some v → lookup k m' ≡ some v

Includes-insert :
    (j w : String) (m m' : Dict String)
    → lookup j m ≡ none
    → Includes m m'
    → Includes m (insert j w m')
Includes-insert j w m m' fresh h k v e =
    rw (lookup-insert k j w m') (ground (arith, eq_iff j k, h k v))

-- the two steps for a label that is set only if it is not empty
Includes-insert_nonempty :
    (j w : String) (m m' : Dict String)
    → lookup j m ≡ none
    → Includes m m'
    → Includes m (if w == "" then m' else insert j w m')
Includes-insert_nonempty j w m m' fresh h k v e =
    ground (arith, h k v, Includes-insert j w m m' fresh h k v)

-- The selector has none of the labels that are added to it.
is_fresh :
    (service : Service) (j : String)
    → "app.kubernetes.io/name" == j ≡ Bool.false
    → "app.kubernetes.io/instance" == j ≡ Bool.false
    → "app.kubernetes.io/managed-by" == j ≡ Bool.false
    → lookup j (get_label_selectors service) ≡ none
unfolding get_label_selectors
is_fresh service j a b c = simp (lookup-insert, lookup-nil, a, b, c)

selectors-Includes :
    (service : Service) → Includes (get_label_selectors service) (get_common_labels service)
unfolding get_common_labels
selectors-Includes service =
    Includes-insert_nonempty "unbind-framework" service.spec.framework _ _
      (is_fresh service _ refl refl refl)
      (Includes-insert_nonempty "unbind-provider" service.spec.provider _ _
        (is_fresh service _ refl refl refl)
        (Includes-insert "unbind-deployment" service.spec.deployment_ref _ _
          (is_fresh service _ refl refl refl)
          (Includes-insert "unbind-environment" service.spec.environment_ref _ _
            (is_fresh service _ refl refl refl)
            (Includes-insert "unbind-service" service.spec.service_ref _ _
              (is_fresh service _ refl refl refl)
              (Includes-insert "unbind-project" service.spec.project_ref _ _
                (is_fresh service _ refl refl refl)
                (Includes-insert "unbind-team" service.spec.team_ref _ _
                  (is_fresh service _ refl refl refl) (λ k v e. e)))))))

-- Every label that a deployment or a service selects by is among the common labels, which the pods
-- of the service have, with the same value.
pub get_label_selectors-common :
    (service : Service) (k v : String)
    → lookup k (get_label_selectors service) ≡ some v
    → lookup k (get_common_labels service) ≡ some v
get_label_selectors-common service k v h = selectors-Includes service k v h
