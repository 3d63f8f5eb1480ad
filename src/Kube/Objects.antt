-- ===== src/Kube/Objects.antt =====
-- The kinds of objects that the reconciler asks the API server for, and the Go type of each.
use unbind_operator.Base.{String, ℤ, Option, List}
use unbind_operator.Base.Dict.{Dict}
use unbind_operator.Api.{Service}
use unbind_operator.Kube.Types.{ObjectMeta, Deployment, CoreService, Ingress, Container}
use unbind_operator.Kube.Dynamic.{Value, Fields}

-- `corev1.Secret`; the data of a secret that was never written is the nil map.
pub record Secret : Type 0 where
  pub meta : ObjectMeta
  pub type : String
  pub contents : Option (Dict String)
  pub string_contents : Option (Dict String)

pub record ConfigMap : Type 0 where
  pub meta : ObjectMeta
  pub contents : Option (Dict String)
  pub binary_contents : Option (Dict String)

-- `metav1.Condition` of a job, by its type and status
pub record JobCondition : Type 0 where
  pub type : String
  pub status : String

pub record Job : Type 0 where
  pub meta : ObjectMeta
  pub containers : List Container
  pub conditions : List JobCondition
  pub extra : Value

pub record MysqlCluster : Type 0 where
  pub meta : ObjectMeta
  pub server_id_base : ℤ
  pub spec : Value

-- The other custom resources, whose specification is only compared and copied
pub record Custom : Type 0 where
  pub meta : ObjectMeta
  pub spec : Value
  pub status : Value

-- `unstructured.Unstructured`, by its content
pub record Unstructured : Type 0 where
  pub gvk : String
  pub content : Fields

-- Any other Go type, by what it holds
pub record Typed : Type 0 where
  pub gvk : String
  pub content : Fields

pub data Kind : Type 0 where
  service deployment core_service ingress config_map secret job mysql_cluster : Kind
  postgresql helm_release helm_repository backup_policy clickhouse_installation : Kind
  unstructured typed : String → Kind

abbrev pub Object : Kind → Type 0
Object Kind.service = Service
Object Kind.deployment = Deployment
Object Kind.core_service = CoreService
Object Kind.ingress = Ingress
Object Kind.config_map = ConfigMap
Object Kind.secret = Secret
Object Kind.job = Job
Object Kind.mysql_cluster = MysqlCluster
Object (Kind.unstructured gvk) = Unstructured
Object (Kind.typed gvk) = Typed
Object _ = Custom

-- `runtime.Object` where the code tells its Go types apart
pub data Generic : Type 0 where
  unstructured : Unstructured → Generic
  deployment : Deployment → Generic
  core_service : CoreService → Generic
  ingress : Ingress → Generic
  config_map : ConfigMap → Generic
  secret : Secret → Generic
  job : Job → Generic
  typed : Typed → Generic

-- The object as the client sends it
abbrev pub as_object : Generic → (k : Kind) × Object k
as_object (Generic.unstructured u) = (Kind.unstructured u.gvk, u)
as_object (Generic.deployment d) = (Kind.deployment, d)
as_object (Generic.core_service s) = (Kind.core_service, s)
as_object (Generic.ingress i) = (Kind.ingress, i)
as_object (Generic.config_map m) = (Kind.config_map, m)
as_object (Generic.secret s) = (Kind.secret, s)
as_object (Generic.job j) = (Kind.job, j)
as_object (Generic.typed t) = (Kind.typed t.gvk, t)

pub data RuntimeObject : Type 0 where
  job : Job → RuntimeObject
  postgresql helm_release helm_repository : Custom → RuntimeObject
  mysql_cluster : MysqlCluster → RuntimeObject
  backup_policy clickhouse_installation : Custom → RuntimeObject
  other : Generic → RuntimeObject
