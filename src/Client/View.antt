-- ===== src/Client/View.antt =====
-- What the API server holds of the services and of the kinds of the generic path (deployments,
-- core services and ingresses), by namespace and name: the abstract state of the cluster.
use mathlib.Core.Path.{subst}
use text.Mathlib.TextPositions.{eq_refl}
use unbind_operator.Base.{
  String, Bool, false, ◌&&◌, ◌==◌, ◌≡◌, refl, arith, Option, none, some, if◌then◌else◌, inl, inr,
  ◌∙◌, sym, Bool-cases, eq_iff, [],
}
use unbind_operator.Api.{Service}
use unbind_operator.Kube.{Kind, Object, ObjectMeta, Deployment, CoreService, Ingress}
use unbind_operator.Client.Reading.{read_deployment}

pub data Tracked : Type 0 where
  service deployment core_service ingress : Tracked

abbrev pub kind_of : Tracked → Kind
kind_of Tracked.service = Kind.service
kind_of Tracked.deployment = Kind.deployment
kind_of Tracked.core_service = Kind.core_service
kind_of Tracked.ingress = Kind.ingress

abbrev pub meta_of : (t : Tracked) → Object (kind_of t) → ObjectMeta
meta_of Tracked.service o = record {
  name = o.name;
  namespace = o.namespace;
  labels = [];
  annotations = [];
  owner_references = [];
}
meta_of Tracked.deployment o = o.meta
meta_of Tracked.core_service o = o.meta
meta_of Tracked.ingress o = o.meta

abbrev pub Table : Type 0 → Type 0
Table A = String → String → Option A

pub record View : Type 0 where
  pub services : Table Service
  pub deployments : Table Deployment
  pub core_services : Table CoreService
  pub ingresses : Table Ingress

abbrev pub is_at : String → String → String → String → Bool
is_at namespace name namespace' name' = namespace == namespace' && (name == name')

module _ {A : Type 0} where
  -- A table with another entry under one key
  unfoldable pub set : String → String → Option A → Table A → Table A
  set namespace name entry table namespace' name' =
      if is_at namespace name namespace' name' then entry else table namespace' name'

  pub set-same :
      (namespace name : String) (entry : Option A) (table : Table A)
      → set namespace name entry table namespace name ≡ entry
  unfolding set
  set-same namespace name entry table = simp eq_refl refl

  -- The entry that is there already
  pub set-there :
      (namespace name : String) (entry : Option A) (table : Table A)
      → table namespace name ≡ entry
      → set namespace name entry table ≡ table
  unfolding set
  set-there namespace name entry table h =
      let each : (namespace' name' : String)
          → set namespace name entry table namespace' name' ≡ table namespace' name' =
        (λ namespace' name'. elim (Bool-cases (is_at namespace name namespace' name')) [
          | inl here ↦
              let same : namespace ≡ namespace' = ground (arith, eq_iff namespace namespace') in
              let same' : name ≡ name' = ground (arith, eq_iff name name') in
              rw here (sym h ∙ (λ i. table (same i) (same' i)))
          | inr other ↦ rw other refl
        ]) in
      λ i namespace' name'. each namespace' name' i

  pub set-other :
      (namespace name namespace' name' : String) (entry : Option A) (table : Table A)
      → is_at namespace name namespace' name' ≡ false
      → set namespace name entry table namespace' name' ≡ table namespace' name'
  unfolding set
  set-other namespace name namespace' name' entry table h = rw h refl

abbrev pub look : (t : Tracked) → View → String → String → Option (Object (kind_of t))
look Tracked.service v = v.services
look Tracked.deployment v = v.deployments
look Tracked.core_service v = v.core_services
look Tracked.ingress v = v.ingresses

abbrev pub assign : (t : Tracked) → String → String → Option (Object (kind_of t)) → View → View
assign Tracked.service namespace name entry v = record v {
  services = set namespace name entry v.services;
}
assign Tracked.deployment namespace name entry v = record v {
  deployments = set namespace name entry v.deployments;
}
assign Tracked.core_service namespace name entry v = record v {
  core_services = set namespace name entry v.core_services;
}
assign Tracked.ingress namespace name entry v = record v {
  ingresses = set namespace name entry v.ingresses;
}

-- What a lookup returns of an object that has been sent
abbrev pub read_back : (t : Tracked) → Object (kind_of t) → Object (kind_of t)
read_back Tracked.service o = o
read_back Tracked.deployment o = read_deployment o
read_back Tracked.core_service o = o
read_back Tracked.ingress o = o

-- The view after an object has been written, or deleted
abbrev pub put : (t : Tracked) → Object (kind_of t) → View → View
put t o v = assign t (meta_of t o).namespace (meta_of t o).name (some (read_back t o)) v

abbrev pub remove : Tracked → String → String → View → View
remove t namespace name v = assign t namespace name none v

pub look-assign_same :
    (t : Tracked) (namespace name : String) (entry : Option (Object (kind_of t))) (v : View)
    → look t (assign t namespace name entry v) namespace name ≡ entry
look-assign_same Tracked.service namespace name entry v = set-same namespace name entry v.services
look-assign_same Tracked.deployment namespace name entry v =
    set-same namespace name entry v.deployments
look-assign_same Tracked.core_service namespace name entry v =
    set-same namespace name entry v.core_services
look-assign_same Tracked.ingress namespace name entry v = set-same namespace name entry v.ingresses

-- Every object is kept under its own namespace and name.
abbrev pub IsKeyedAt : (t : Tracked) → String → String → Option (Object (kind_of t)) → Type 0
IsKeyedAt t namespace name none = Unit
IsKeyedAt t namespace name (some o) =
    ((meta_of t o).namespace ≡ namespace) × ((meta_of t o).name ≡ name)

abbrev pub IsKeyed : View → Type 0
IsKeyed v =
    (t : Tracked) (namespace name : String) → IsKeyedAt t namespace name (look t v namespace name)

pub set-All :
    {A : Type 0} (P : String → String → Option A → Type 0) (namespace name : String)
    (entry : Option A) (table : Table A)
    → ((namespace' name' : String) → P namespace' name' (table namespace' name'))
    → P namespace name entry
    → (namespace' name' : String)
    → P namespace' name' (set namespace name entry table namespace' name')
set-All P namespace name entry table h e namespace' name' =
    elim (Bool-cases (is_at namespace name namespace' name')) [
      | inl here ↦
          let same : namespace ≡ namespace' = ground (arith, eq_iff namespace namespace') in
          let same' : name ≡ name' = ground (arith, eq_iff name name') in
          subst (λ m. P namespace' m (set namespace name entry table namespace' m)) same'
            (subst (λ m. P m name (set namespace name entry table m name)) same
              (rw (set-same namespace name entry table) e))
      | inr other ↦
          rw (set-other namespace name namespace' name' entry table other) (h namespace' name')
    ]

pub IsKeyed-assign :
    (t : Tracked) (namespace name : String) (entry : Option (Object (kind_of t))) (v : View)
    → IsKeyed v
    → IsKeyedAt t namespace name entry
    → IsKeyed (assign t namespace name entry v)
IsKeyed-assign Tracked.service namespace name entry v h e Tracked.service =
    set-All (IsKeyedAt Tracked.service) namespace name entry v.services (h Tracked.service) e
IsKeyed-assign Tracked.service namespace name entry v h e Tracked.deployment = h Tracked.deployment
IsKeyed-assign Tracked.service namespace name entry v h e Tracked.core_service =
    h Tracked.core_service
IsKeyed-assign Tracked.service namespace name entry v h e Tracked.ingress = h Tracked.ingress
IsKeyed-assign Tracked.deployment namespace name entry v h e Tracked.service = h Tracked.service
IsKeyed-assign Tracked.deployment namespace name entry v h e Tracked.deployment =
    set-All (IsKeyedAt Tracked.deployment) namespace name entry v.deployments (h Tracked.deployment)
      e
IsKeyed-assign Tracked.deployment namespace name entry v h e Tracked.core_service =
    h Tracked.core_service
IsKeyed-assign Tracked.deployment namespace name entry v h e Tracked.ingress = h Tracked.ingress
IsKeyed-assign Tracked.core_service namespace name entry v h e Tracked.service = h Tracked.service
IsKeyed-assign Tracked.core_service namespace name entry v h e Tracked.deployment =
    h Tracked.deployment
IsKeyed-assign Tracked.core_service namespace name entry v h e Tracked.core_service =
    set-All (IsKeyedAt Tracked.core_service) namespace name entry v.core_services
      (h Tracked.core_service) e
IsKeyed-assign Tracked.core_service namespace name entry v h e Tracked.ingress = h Tracked.ingress
IsKeyed-assign Tracked.ingress namespace name entry v h e Tracked.service = h Tracked.service
IsKeyed-assign Tracked.ingress namespace name entry v h e Tracked.deployment = h Tracked.deployment
IsKeyed-assign Tracked.ingress namespace name entry v h e Tracked.core_service =
    h Tracked.core_service
IsKeyed-assign Tracked.ingress namespace name entry v h e Tracked.ingress =
    set-All (IsKeyedAt Tracked.ingress) namespace name entry v.ingresses (h Tracked.ingress) e

read_back-IsKeyedAt :
    (t : Tracked) (o : Object (kind_of t))
    → IsKeyedAt t (meta_of t o).namespace (meta_of t o).name (some (read_back t o))
read_back-IsKeyedAt Tracked.service o = (refl, refl)
read_back-IsKeyedAt Tracked.deployment o = (refl, refl)
read_back-IsKeyedAt Tracked.core_service o = (refl, refl)
read_back-IsKeyedAt Tracked.ingress o = (refl, refl)

pub IsKeyed-put :
    (t : Tracked) (o : Object (kind_of t)) (v : View) → IsKeyed v → IsKeyed (put t o v)
IsKeyed-put t o v h =
    IsKeyed-assign t (meta_of t o).namespace (meta_of t o).name (some (read_back t o)) v h
      (read_back-IsKeyedAt t o)

-- What is found has the key that was looked up.
pub look-key :
    (t : Tracked) (namespace name : String) (o : Object (kind_of t)) (v : View)
    → IsKeyed v
    → look t v namespace name ≡ some o
    → ((meta_of t o).namespace ≡ namespace) × ((meta_of t o).name ≡ name)
look-key t namespace name o v h e = subst (IsKeyedAt t namespace name) e (h t namespace name)

-- An object that is written under a key is found there.
pub look-put :
    (t : Tracked) (o : Object (kind_of t)) (namespace name : String) (v : View)
    → (meta_of t o).namespace ≡ namespace
    → (meta_of t o).name ≡ name
    → look t (put t o v) namespace name ≡ some (read_back t o)
look-put t o namespace name v e e' =
    rw (← e, ← e')
      (look-assign_same t (meta_of t o).namespace (meta_of t o).name (some (read_back t o)) v)

-- A deletion leaves what is missing missing.
pub look-remove_missing :
    (t : Tracked) (namespace name namespace' name' : String) (v : View)
    → look t v namespace' name' ≡ none
    → look t (remove t namespace name v) namespace' name' ≡ none
unfolding set
look-remove_missing Tracked.service namespace name namespace' name' v e = ground arith
look-remove_missing Tracked.deployment namespace name namespace' name' v e = ground arith
look-remove_missing Tracked.core_service namespace name namespace' name' v e = ground arith
look-remove_missing Tracked.ingress namespace name namespace' name' v e = ground arith

-- What is found under a key is found under its equal.
pub look-at :
    (t : Tracked) (entry : Option (Object (kind_of t))) (v : View)
    (namespace name namespace' name' : String)
    → namespace' ≡ namespace
    → name' ≡ name
    → look t v namespace name ≡ entry
    → look t v namespace' name' ≡ entry
look-at t entry v namespace name namespace' name' e e' found = rw (e, e') found
