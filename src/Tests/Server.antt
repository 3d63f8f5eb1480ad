-- ===== src/Tests/Server.antt =====
-- An API server that keeps the objects of some kinds by namespace and name. The first updates may
-- meet conflicts.
use unbind_operator.Base.{
  ℕ, zero, suc, String, ◌<>◌, Bool, true, false, ◌⊎◌, inl, inr, Option, none, some, List, [], ◌∷◌,
  if◌then◌else◌, ◌==◌, ◌||◌,
}
use unbind_operator.Base.Dict.{Dict, lookup, insert, erase}
use unbind_operator.Api.{Service}
use unbind_operator.Kube.{Kind, Object, ObjectMeta, Deployment, CoreService, Ingress, Secret, Job}
use unbind_operator.Client.{Client}
use unbind_operator.Controller.Database.{Platform}

pub data Failure : Type 0 where
  not_found conflict already_exists denied : Failure

abbrev is_not_found : Failure → Bool
is_not_found not_found = true
is_not_found _ = false

abbrev is_conflict : Failure → Bool
is_conflict conflict = true
is_conflict _ = false

abbrev is_already_exists : Failure → Bool
is_already_exists already_exists = true
is_already_exists _ = false

pub record Server : Type 0 where
  pub services : Dict Service
  pub deployments : Dict Deployment
  pub core_services : Dict CoreService
  pub ingresses : Dict Ingress
  pub secrets : Dict Secret
  pub jobs : Dict Job
  pub conflicts : ℕ

abbrev pub key : String → String → String
key namespace name = namespace <> "/" <> name

abbrev answer : {A : Type 0} → Option A → Failure ⊎ A
answer none = inl not_found
answer (some a) = inr a

abbrev find : (k : Kind) → String → Server → Failure ⊎ Object k
find Kind.service id s = answer (lookup id s.services)
find Kind.deployment id s = answer (lookup id s.deployments)
find Kind.core_service id s = answer (lookup id s.core_services)
find Kind.ingress id s = answer (lookup id s.ingresses)
find Kind.secret id s = answer (lookup id s.secrets)
find Kind.job id s = answer (lookup id s.jobs)
find _ id s = inl not_found

abbrev of_meta : ObjectMeta → String
of_meta m = key m.namespace m.name

abbrev store : (k : Kind) → Object k → Server → Server
store Kind.service o s = record s { services = insert (key o.namespace o.name) o s.services }
store Kind.deployment o s = record s { deployments = insert (of_meta o.meta) o s.deployments }
store Kind.core_service o s = record s { core_services = insert (of_meta o.meta) o s.core_services }
store Kind.ingress o s = record s { ingresses = insert (of_meta o.meta) o s.ingresses }
store Kind.secret o s = record s { secrets = insert (of_meta o.meta) o s.secrets }
store Kind.job o s = record s { jobs = insert (of_meta o.meta) o s.jobs }
store _ o s = s

abbrev change : (k : Kind) → Object k → ℕ → Server → Option Failure × Server
change k o zero s = (none, store k o s)
change k o (suc n) s = (some conflict, record s { conflicts = n })

abbrev remove : Kind → String → Server → Server
remove Kind.service id s = record s { services = erase id s.services }
remove Kind.deployment id s = record s { deployments = erase id s.deployments }
remove Kind.core_service id s = record s { core_services = erase id s.core_services }
remove Kind.ingress id s = record s { ingresses = erase id s.ingresses }
remove Kind.secret id s = record s { secrets = erase id s.secrets }
remove Kind.job id s = record s { jobs = erase id s.jobs }
remove _ id s = s

abbrev pub bytes : ℕ → List ℕ
bytes zero = []
bytes (suc n) = n ∷ bytes n

abbrev pub server : Client
server = record {
  State = Server;
  Failure = Failure;
  is_not_found = is_not_found;
  is_conflict = is_conflict;
  is_already_exists = is_already_exists;
  get = λ k namespace name s. (find k (key namespace name) s, s);
  create = λ k o s. (none, store k o s);
  update = λ k o s. change k o s.conflicts s;
  delete = λ k namespace name s. (none, remove k (key namespace name) s);
  update_status = λ service s. (none, store Kind.service service s);
  set_controller_reference = λ owner meta. inr (record meta { owner_references = owner.uid ∷ [] });
  read_random = λ n s. (inr (bytes n), s);
  sleep = λ n s. s;
}

abbrev pub empty_server : Server
empty_server = record {
  services = [];
  deployments = [];
  core_services = [];
  ingresses = [];
  secrets = [];
  jobs = [];
  conflicts = 0;
}

abbrev contains : List String → String → Bool
contains [] f = false
contains (g ∷ finalizers) f = g == f || contains finalizers f

abbrev without : List String → String → List String
without [] f = []
without (g ∷ finalizers) f = let rest = without finalizers f in if g == f then rest else g ∷ rest

abbrev pub platform : Platform server
platform = record {
  converter = record {
    accessor = λ o. inl denied;
    kind = λ o. "";
    gvk = λ o. "";
    type_name = λ o. "";
    is_client_object = λ o. true;
    to_unstructured = λ o. inl denied;
    to_deployment = λ m. inl denied;
    to_service = λ m. inl denied;
    to_ingress = λ m. inl denied;
    from_unstructured = λ m o. inl denied;
    own = λ owner o. inl denied;
  };
  discovery = record {
    server_resources = λ g. inl not_found;
    is_group_discovery_failed = λ f. false;
  };
  databases = record {
    Definition = String;
    fetch = λ version type. inr (some type);
    render = λ definition c. inr definition;
    render_to_objects = λ yaml. inr [];
  };
  pod_namespace = "unbind-system";
  contains_finalizer = contains;
  add_finalizer = λ finalizers f. f ∷ finalizers;
  remove_finalizer = without;
}
