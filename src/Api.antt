-- ===== src/Api.antt =====
-- The custom resource of api/v1/service_types.go: the specification of a service, as the operator
-- reads it. A pointer and a slice or map that may be nil is an `Option`.
pub mod Database
use unbind_operator.Base.{String, ℤ, Bool, Option, List}
use unbind_operator.Base.Dict.{Dict}
use unbind_operator.Kube.Dynamic.{Value}
use unbind_operator.Api.Database.{DatabaseSpec}

pub record HostSpec : Type 0 where
  pub host : String
  pub path : String
  pub port : Option ℤ

pub record PortSpec : Type 0 where
  pub node_port : Option ℤ
  pub port : ℤ
  pub protocol : Option String

pub record VolumeSpec : Type 0 where
  pub name : String
  pub mount_path : String

pub record VariableMountSpec : Type 0 where
  pub name : String
  pub path : String

pub record InitContainerSpec : Type 0 where
  pub image : String
  pub command : String

pub record ResourceSpec : Type 0 where
  pub cpu_requests_millicores : ℤ
  pub cpu_limits_millicores : ℤ
  pub memory_requests_megabytes : ℤ
  pub memory_limits_megabytes : ℤ

pub record HealthCheckSpec : Type 0 where
  pub type : String
  pub path : String
  pub port : Option ℤ
  pub command : String
  pub startup_period_seconds : Option ℤ
  pub startup_timeout_seconds : Option ℤ
  pub startup_failure_threshold : Option ℤ
  pub health_period_seconds : Option ℤ
  pub health_timeout_seconds : Option ℤ
  pub health_failure_threshold : Option ℤ

pub record ServiceConfigSpec : Type 0 where
  pub git_branch : String
  pub hosts : List HostSpec
  pub ports : List PortSpec
  pub replicas : Option ℤ
  pub run_command : Option String
  pub public : Bool
  pub image : String
  pub database : DatabaseSpec
  pub volumes : List VolumeSpec
  pub health_check : Option HealthCheckSpec
  pub variable_mounts : List VariableMountSpec
  pub init_containers : List InitContainerSpec
  pub resources : Option ResourceSpec

-- `corev1.EnvVar`. The operator hands on `valueFrom` without reading it.
pub record EnvVar : Type 0 where
  pub name : String
  pub value : String
  pub value_from : Option Value

pub record ServiceSpec : Type 0 where
  pub name : String
  pub display_name : String
  pub description : String
  pub type : String
  pub builder : String
  pub provider : String
  pub framework : String
  pub github_installation_id : Option ℤ
  pub git_repository : String
  pub kubernetes_secret : String
  pub config : ServiceConfigSpec
  pub env_vars : List EnvVar
  pub image_pull_secrets : List String
  pub deployment_ref : String
  pub service_ref : String
  pub team_ref : String
  pub project_ref : String
  pub environment_ref : String
  pub security_context : Option Value

-- The operator neither reads nor sets the conditions and the time of the last deployment.
pub record ServiceStatus : Type 0 where
  pub conditions : List Value
  pub deployment_status : String
  pub urls : Option (List String)
  pub last_deployed_at : Option String

-- `Service`: the object's metadata with its finalizers, and whether a deletion timestamp is set.
pub record Service : Type 0 where
  pub name : String
  pub namespace : String
  pub uid : String
  pub finalizers : List String
  pub is_deleting : Bool
  pub spec : ServiceSpec
  pub status : ServiceStatus
