-- ===== src/Kube/Types.antt =====
-- The Kubernetes objects that the operator builds and reads, with the fields that it sets or reads.
-- `extra` holds whatever else the object of the API server has in the same place; it is empty in
-- what the operator builds.

use unbind_operator.Base.{String, ℤ, Option, List}
use unbind_operator.Base.Dict.{Dict}
use native.Mathlib.Decide.{ℕ_discrete}
use unbind_operator.Base.Equal.{string_discrete}
use unbind_operator.Api.{EnvVar}
use unbind_operator.Kube.Dynamic.{Value}

pub record Probe : Type 0 where
  pub period_seconds : ℤ
  pub timeout_seconds : ℤ
  pub failure_threshold : ℤ
  pub http_get : Option (String × ℤ)
  pub exec : Option (List String)

pub record VolumeMount : Type 0 where
  pub name : String
  pub mount_path : String
  pub sub_path : String

-- A volume is a claim, or a secret with the items that it shows (key and path).
pub data VolumeSource : Type 0 where
  persistent_volume_claim : String → VolumeSource
  secret : String → List (String × String) → VolumeSource

pub record Volume : Type 0 where
  pub name : String
  pub source : VolumeSource

-- Quantities by resource name: CPU in thousandths, memory in bytes. `none` is the nil map.
pub record ResourceRequirements : Type 0 where
  pub requests : Option (Dict ℤ)
  pub limits : Option (Dict ℤ)

-- `none` is the nil slice, which `reflect.DeepEqual` tells from the empty one. Where the operator
-- leaves an empty slice nil, as an object that is read back has it, a list is enough.
pub record Container : Type 0 where
  pub name : String
  pub image : String
  pub image_pull_policy : String
  pub ports : Option (List ℤ)
  pub env_from : List String
  pub env : List EnvVar
  pub security_context : Option Value
  pub liveness_probe : Option Probe
  pub readiness_probe : Option Probe
  pub startup_probe : Option Probe
  pub volume_mounts : Option (List VolumeMount)
  pub command : List String
  pub args : List String
  pub resources : ResourceRequirements
  pub extra : Value

pub record DeploymentSpec : Type 0 where
  pub replicas : ℤ
  pub strategy : String
  pub match_labels : Dict String
  pub template_labels : Dict String
  pub template_annotations : Option (Dict String)
  pub image_pull_secrets : Option (List String)
  pub init_containers : List Container
  pub containers : List Container
  pub volumes : List Volume
  pub extra : Value

pub record ServicePort : Type 0 where
  pub name : String
  pub protocol : String
  pub port : ℤ
  pub target_port : ℤ
  pub node_port : ℤ

pub record ServiceSpec : Type 0 where
  pub type : String
  pub selector : Dict String
  pub ports : List ServicePort
  pub cluster_ip : String
  pub extra : Value

pub record IngressRule : Type 0 where
  pub host : String
  pub path : String
  pub path_type : String
  pub backend_name : String
  pub backend_port : ℤ

pub record IngressSpec : Type 0 where
  pub ingress_class_name : String
  pub tls_hosts : List String
  pub tls_secret_name : String
  pub rules : List IngressRule
  pub extra : Value

-- `ObjectMeta`. The owner references are kept by owner, in the order that they were added.
pub record ObjectMeta : Type 0 where
  pub name : String
  pub namespace : String
  pub labels : Dict String
  pub annotations : Dict String
  pub owner_references : List String

pub record Deployment : Type 0 where
  pub meta : ObjectMeta
  pub spec : DeploymentSpec

-- `corev1.Service`
pub record CoreService : Type 0 where
  pub meta : ObjectMeta
  pub spec : ServiceSpec

pub record Ingress : Type 0 where
  pub meta : ObjectMeta
  pub spec : IngressSpec

pub DeploymentSpec-discrete : Discrete DeploymentSpec
DeploymentSpec-discrete = hlevel (ℕ_discrete, string_discrete)

pub labels_discrete : Discrete (Dict String)
labels_discrete = hlevel string_discrete

pub ports_discrete : Discrete (List ServicePort)
ports_discrete = hlevel (ℕ_discrete, string_discrete)

pub containers_discrete : Discrete (List Container)
containers_discrete = hlevel (ℕ_discrete, string_discrete)

pub IngressSpec-discrete : Discrete IngressSpec
IngressSpec-discrete = hlevel (ℕ_discrete, string_discrete)

pub contents_discrete : Discrete (Option (Dict String))
contents_discrete = hlevel string_discrete
