-- ===== src/Tests/Cluster.antt =====
-- An API server that holds the objects of the generic path as tables, and nothing else. It serves
-- as an example of a server with the effects that the theorems about the whole path ask for.
use mathlib.Core.Path.{subst}
use unbind_operator.Base.{
  String, Bool, true, false, ◌⊎◌, inl, inr, Option, none, some, [], ◌∷◌, ◌≡◌, refl, arith, List,
  ◌==◌, ◌||◌,
}
use unbind_operator.Kube.{Kind, Object, ObjectMeta}
use unbind_operator.Api.{Service}
use unbind_operator.Controller.Database.{Platform}
use unbind_operator.Client.{Client}
use unbind_operator.Client.View.{Tracked, Table, View, kind_of, look, put, remove, IsKeyed}
use unbind_operator.Client.Stores.{Stores, IsSameObject}
use unbind_operator.Client.Quiet.{Answers}
use unbind_operator.Client.Runs.{Accepts}
use unbind_operator.Client.Monad.{World}

abbrev Failure : Type 0
Failure = Bool

abbrev answer : {A : Type 0} → Option A → Failure ⊎ A
answer none = inl true
answer (some a) = inr a

abbrev find : (k : Kind) → String → String → View → Failure ⊎ Object k
find Kind.service namespace name v = answer (v.services namespace name)
find Kind.deployment namespace name v = answer (v.deployments namespace name)
find Kind.core_service namespace name v = answer (v.core_services namespace name)
find Kind.ingress namespace name v = answer (v.ingresses namespace name)
find _ namespace name v = inl true

abbrev write : (k : Kind) → Object k → View → View
write Kind.service o v = put Tracked.service o v
write Kind.deployment o v = put Tracked.deployment o v
write Kind.core_service o v = put Tracked.core_service o v
write Kind.ingress o v = put Tracked.ingress o v
write _ o v = v

abbrev erase : Kind → String → String → View → View
erase Kind.service namespace name v = remove Tracked.service namespace name v
erase Kind.deployment namespace name v = remove Tracked.deployment namespace name v
erase Kind.core_service namespace name v = remove Tracked.core_service namespace name v
erase Kind.ingress namespace name v = remove Tracked.ingress namespace name v
erase _ namespace name v = v

abbrev pub own : Service → ObjectMeta → ObjectMeta
own owner meta = record meta { owner_references = owner.uid ∷ [] }

-- The status alone is written, if the service is there.
abbrev write_status : Service → Option Service → View → View
write_status service none v = v
write_status service (some x) v = put Tracked.service (record x { status = service.status }) v

abbrev pub cluster : Client
cluster = record {
  State = View;
  Failure = Failure;
  is_not_found = λ f. f;
  is_conflict = λ f. false;
  is_already_exists = λ f. false;
  get = λ k namespace name v. (find k namespace name v, v);
  create = λ k o v. (none, write k o v);
  update = λ k o v. (none, write k o v);
  delete = λ k namespace name v. (none, erase k namespace name v);
  update_status =
      λ service v. (none, write_status service (v.services service.namespace service.name) v);
  set_controller_reference = λ owner meta. inr (own owner meta);
  read_random = λ n v. (inr [], v);
  sleep = λ n v. v;
}

answer-found : {A : Type 0} (r : Option A) (a : A) → answer r ≡ inr a → r ≡ some a
answer-found none a e = absurd (ground arith)
answer-found (some x) a e = ground arith

answer-missing : {A : Type 0} (r : Option A) (f : Failure) → answer r ≡ inl f → r ≡ none
answer-missing none f e = refl
answer-missing (some x) f e = absurd (ground arith)

pub find-found :
    (t : Tracked) (namespace name : String) (v : View) (o : Object (kind_of t))
    → find (kind_of t) namespace name v ≡ inr o
    → look t v namespace name ≡ some o
find-found Tracked.service namespace name v o e = answer-found (v.services namespace name) o e
find-found Tracked.deployment namespace name v o e = answer-found (v.deployments namespace name) o e
find-found Tracked.core_service namespace name v o e =
    answer-found (v.core_services namespace name) o e
find-found Tracked.ingress namespace name v o e = answer-found (v.ingresses namespace name) o e

pub find-missing :
    (t : Tracked) (namespace name : String) (v : View) (f : Failure)
    → find (kind_of t) namespace name v ≡ inl f
    → look t v namespace name ≡ none
find-missing Tracked.service namespace name v f e = answer-missing (v.services namespace name) f e
find-missing Tracked.deployment namespace name v f e =
    answer-missing (v.deployments namespace name) f e
find-missing Tracked.core_service namespace name v f e =
    answer-missing (v.core_services namespace name) f e
find-missing Tracked.ingress namespace name v f e = answer-missing (v.ingresses namespace name) f e

find-look :
    (t : Tracked) (namespace name : String) (v : View)
    → find (kind_of t) namespace name v ≡ answer (look t v namespace name)
find-look Tracked.service namespace name v = refl
find-look Tracked.deployment namespace name v = refl
find-look Tracked.core_service namespace name v = refl
find-look Tracked.ingress namespace name v = refl

pub write-put :
    (t : Tracked) (o : Object (kind_of t)) (v : View) → write (kind_of t) o v ≡ put t o v
write-put Tracked.service o v = refl
write-put Tracked.deployment o v = refl
write-put Tracked.core_service o v = refl
write-put Tracked.ingress o v = refl

pub erase-remove :
    (t : Tracked) (namespace name : String) (v : View)
    → erase (kind_of t) namespace name v ≡ remove t namespace name v
erase-remove Tracked.service namespace name v = refl
erase-remove Tracked.deployment namespace name v = refl
erase-remove Tracked.core_service namespace name v = refl
erase-remove Tracked.ingress namespace name v = refl

pub own-same :
    (owner : Service) (m m' : ObjectMeta)
    → cluster.set_controller_reference owner m ≡ inr m'
    → IsSameObject m m'
own-same owner m m' e =
    let same : own owner m ≡ m' = ground arith in
    subst (IsSameObject m) same
      (record { same_name = refl; same_namespace = refl; same_labels = refl })

pub not_failed : (f : Failure) → ¬ (none ≡ some f)
not_failed f e = ground arith

abbrev pub stores : Stores cluster
stores = record {
  view = λ v. v;
  get_view = λ k namespace name v. refl;
  get_found = λ t namespace name v o e. find-found t namespace name v o e;
  get_missing = λ t namespace name v f e e'. find-missing t namespace name v f e;
  create_done = λ t o v e. write-put t o v;
  update_done = λ t o v e. write-put t o v;
  update_failed = λ t o v f e. absurd (not_failed f e);
  delete_done = λ t namespace name v e. erase-remove t namespace name v;
  status_done = λ service x v there e. rw there refl;
  sleep_view = λ n v. refl;
  own_same = own-same;
}

pub answers : Answers stores
answers = record {
  found = λ t namespace name v o e. rw (find-look t namespace name v, e) refl;
  missing = λ t namespace name v e. (true, rw (find-look t namespace name v, e) refl, refl);
}

pub accepts : Accepts stores
accepts = record {
  created = λ t o v e. refl;
  updated = λ t o x v e. refl;
  deleted = λ t namespace name x v e. refl;
  owned = λ owner m. (own owner m, refl);
}

abbrev contains : List String → String → Bool
contains [] f = false
contains (g ∷ finalizers) f = g == f || contains finalizers f

abbrev empty_table : {A : Type 0} → Table A
empty_table namespace name = none

abbrev pub start : World cluster
start = record {
  state = record {
    services = empty_table;
    deployments = empty_table;
    core_services = empty_table;
    ingresses = empty_table;
  };
  log = [];
}

pub start-IsKeyed : IsKeyed start.state
start-IsKeyed Tracked.service namespace name = tt
start-IsKeyed Tracked.deployment namespace name = tt
start-IsKeyed Tracked.core_service namespace name = tt
start-IsKeyed Tracked.ingress namespace name = tt

abbrev pub platform : Platform cluster
platform = record {
  converter = record {
    accessor = λ o. inl false;
    kind = λ o. "";
    gvk = λ o. "";
    type_name = λ o. "";
    is_client_object = λ o. true;
    to_unstructured = λ o. inl false;
    to_deployment = λ m. inl false;
    to_service = λ m. inl false;
    to_ingress = λ m. inl false;
    from_unstructured = λ m o. inl false;
    own = λ owner o. inl false;
  };
  discovery = record { server_resources = λ g. inl true; is_group_discovery_failed = λ f. false };
  databases = record {
    Definition = String;
    fetch = λ version type. inr (some type);
    render = λ definition c. inr definition;
    render_to_objects = λ yaml. inr [];
  };
  pod_namespace = "unbind-system";
  contains_finalizer = contains;
  add_finalizer = λ finalizers f. f ∷ finalizers;
  remove_finalizer = λ finalizers f. [];
}
