-- ===== src/Tests/Inputs.antt =====
-- A web service with two hosts and three ports, and the objects that belong to it.
use unbind_operator.Base.{String, pos, true, false, Option, none, some, List, [], ◌∷◌}
use unbind_operator.Api.{Service, ServiceSpec, ServiceConfigSpec, HostSpec, PortSpec}
use unbind_operator.Api.Database.{DatabaseSpec}
use unbind_operator.Kube.{
  ObjectMeta, Deployment, CoreService, ServicePort, Ingress, Secret, Job, Container,
}
use unbind_operator.Kube.Dynamic.{Fields, null, end, field, obj, int, str}
use unbind_operator.Builder.Deployment.{build_container, deployment_of}
use unbind_operator.Client.Monad.{World}
use unbind_operator.Tests.Server.{server, empty_server}

abbrev pub no_database : DatabaseSpec
no_database = record {
  type = "";
  database_spec_version = "";
  config = none;
  s3_backup_config = none;
}

abbrev http_host : HostSpec
http_host = record { host = "shop.example.org"; path = ""; port = none }

abbrev api_host : HostSpec
api_host = record { host = "api.example.org"; path = "/v1"; port = some (pos 9090) }

abbrev pub http_port : PortSpec
http_port = record { node_port = none; port = pos 8080; protocol = none }

abbrev pub api_port : PortSpec
api_port = record { node_port = some (pos 30090); port = pos 9090; protocol = some "TCP" }

abbrev pub dns_port : PortSpec
dns_port = record { node_port = none; port = pos 53; protocol = some "UDP" }

abbrev shop_config : ServiceConfigSpec
shop_config = record {
  git_branch = "main";
  hosts = http_host ∷ api_host ∷ [];
  ports = http_port ∷ api_port ∷ dns_port ∷ [];
  replicas = some (pos 2);
  run_command = none;
  public = true;
  image = "registry.example.org/shop:1";
  database = no_database;
  volumes = record { name = "uploads"; mount_path = "/uploads" } ∷ [];
  health_check = none;
  variable_mounts = record { name = "API_KEY"; path = "/run/key" } ∷ [];
  init_containers = [];
  resources = none;
}

abbrev shop_spec : ServiceSpec
shop_spec = record {
  name = "Shop";
  display_name = "Shop";
  description = "";
  type = "git";
  builder = "railpack";
  provider = "node";
  framework = "next";
  github_installation_id = none;
  git_repository = "shop";
  kubernetes_secret = "shop-secret";
  config = shop_config;
  env_vars = record { name = "PORT"; value = "8080"; value_from = none } ∷ [];
  image_pull_secrets = "registry" ∷ [];
  deployment_ref = "d1";
  service_ref = "s1";
  team_ref = "t1";
  project_ref = "p1";
  environment_ref = "e1";
  security_context = some (obj (field "runAsUser" (int (pos 1000)) end));
}

-- A service without the finalizer
abbrev pub new_shop : Service
new_shop = record {
  name = "shop";
  namespace = "team";
  uid = "u1";
  finalizers = [];
  is_deleting = false;
  spec = shop_spec;
  status = record { conditions = []; deployment_status = ""; urls = none; last_deployed_at = none };
}

abbrev pub shop : Service
shop = record new_shop { finalizers = "service.unbind.unbind.app/finalizer" ∷ [] }

-- The same service, on its way out
abbrev pub doomed_shop : Service
doomed_shop = record shop { is_deleting = true }

-- The same service without ports, and the deployment that is built of it
abbrev pub worker : Service
worker = record shop { spec = record shop.spec { config = record shop.spec.config { ports = [] } } }

abbrev pub worker_deployment : Deployment
worker_deployment = deployment_of worker (build_container worker none none none) []

abbrev pub start : World server
start = record { state = empty_server; log = [] }

abbrev pub meta : String → ObjectMeta
meta name = record {
  name = name;
  namespace = "team";
  labels = [];
  annotations = [];
  owner_references = [];
}

abbrev pub web_port : ServicePort
web_port = record {
  name = "shop-8080-tcp";
  protocol = "TCP";
  port = pos 8080;
  target_port = pos 8080;
  node_port = pos 0;
}

abbrev pub core_service : CoreService
core_service = record {
  meta = meta "shop";
  spec = record { type = ""; selector = []; ports = web_port ∷ []; cluster_ip = ""; extra = null };
}

abbrev pub deployment : String → Deployment
deployment version = record {
  meta = meta "shop";
  spec = record {
    replicas = pos 1;
    strategy = "Recreate";
    match_labels = [];
    template_labels = ("version", version) ∷ [];
    template_annotations = none;
    image_pull_secrets = none;
    init_containers = [];
    containers = [];
    volumes = [];
    extra = null;
  };
}

abbrev pub ingress : Ingress
ingress = record {
  meta = meta "shop";
  spec = record {
    ingress_class_name = "nginx";
    tls_hosts = [];
    tls_secret_name = "shop-tls-secret";
    rules = [];
    extra = null;
  };
}

abbrev pub secret : String → Option (List (String × String)) → Secret
secret name contents = record {
  meta = meta name;
  type = "Opaque";
  contents = contents;
  string_contents = none;
}

-- A container of a job
abbrev pub runner : String → Container
runner image = record {
  name = "run";
  image = image;
  image_pull_policy = "Always";
  ports = none;
  env_from = [];
  env = [];
  security_context = none;
  liveness_probe = none;
  readiness_probe = none;
  startup_probe = none;
  volume_mounts = none;
  command = [];
  args = [];
  resources = record { requests = none; limits = none };
  extra = null;
}

abbrev pub job : Job
job = record {
  meta = meta "migrate";
  containers = runner "migrate:2" ∷ [];
  conditions = [];
  extra = null;
}

-- The job of another image, which has failed
abbrev pub failed_job : Job
failed_job = record {
  meta = meta "migrate";
  containers = runner "migrate:1" ∷ [];
  conditions =
      record { type = "Suspended"; status = "False" }
      ∷ record { type = "Failed"; status = "True" }
      ∷ [];
  extra = null;
}

abbrev pub old_content : Fields
old_content = field "metadata" (obj (field "resourceVersion" (str "7") end)) (
    field "spec" (obj (field "clusterIP" (str "10.0.0.1") end))
      (field "status" (str "running") end))

abbrev pub new_content : Fields
new_content = field "metadata" (obj (field "name" (str "x") end)) (field "spec" (obj end) end)
