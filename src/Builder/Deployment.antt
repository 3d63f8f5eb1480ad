-- ===== src/Builder/Deployment.antt =====
-- `BuildDeployment` of internal/resourcebuilder/deployment.go.
pub mod Mounts
use unbind_operator.Base.{
  ℕ, String, ◌<>◌, ℤ, pos, Option, none, some, List, [], ◌∷◌, ◌++◌, map, map_index, deref_or,
  if◌then◌else◌, is_empty, ◌==◌, ◌&&◌,
}
use unbind_operator.Base.Int.{decimal}
use unbind_operator.Base.Outcome.{Outcome, ok, err, panic, deployment_not_needed}
use unbind_operator.Api.{Service, VolumeSpec, VariableMountSpec, InitContainerSpec, PortSpec}
use unbind_operator.Kube.{
  Container, Deployment, Probe, Volume, VolumeMount, persistent_volume_claim, secret,
}
use unbind_operator.Kube.Dynamic.{null}
use unbind_operator.Builder.Labels.{
  get_label_selectors, get_common_labels, build_object_meta, build_pod_annotations,
}
use unbind_operator.Builder.Command.{parse_command}
use unbind_operator.Builder.Probes.{
  build_liveness_probe, build_readiness_probe, build_startup_probe,
}
use unbind_operator.Builder.Resources.{build_resources}

-- `fmt.Sprintf("var-mount-%d", i)`
unfoldable pub volume_name : ℕ → String
volume_name i = "var-mount-" <> decimal i

abbrev pub volume_of : VolumeSpec → Volume
volume_of vol = record { name = vol.name; source = persistent_volume_claim vol.name }

abbrev pub mount_of : VolumeSpec → VolumeMount
mount_of vol = record { name = vol.name; mount_path = vol.mount_path; sub_path = "" }

abbrev pub variable_volume : Service → ℕ → VariableMountSpec → Volume
variable_volume service i vm = record {
  name = volume_name i;
  source = secret service.spec.kubernetes_secret ((vm.name, vm.name) ∷ []);
}

abbrev pub variable_mount : ℕ → VariableMountSpec → VolumeMount
variable_mount i vm = record { name = volume_name i; mount_path = vm.path; sub_path = vm.name }

-- The volumes and their mounts, those of the claims first
unfoldable pub build_volumes : Service → List Volume
build_volumes service =
    map volume_of service.spec.config.volumes
    ++ map_index (variable_volume service) 0 service.spec.config.variable_mounts

unfoldable pub build_volume_mounts : Service → List VolumeMount
build_volume_mounts service =
    map mount_of service.spec.config.volumes
    ++ map_index variable_mount 0 service.spec.config.variable_mounts

-- The command and the arguments of a container, from the words of a parsed command: all of them
-- are the command of a shell; otherwise the first is the command.
unfoldable pub set_command : Container → List String → Container
set_command container [] = container
set_command container (a ∷ b ∷ c ∷ rest) =
    if a == "/bin/sh" && b == "-c"
    then record container { command = a ∷ b ∷ c ∷ rest }
    else record container { command = a ∷ []; args = b ∷ c ∷ rest }
set_command container (a ∷ rest) = record container { command = a ∷ []; args = rest }

-- `if cmd != "" { … parseCommand … }`; `none` is a panic.
unfoldable pub run_command : Container → String → Option Container
unfolding set_command
run_command container cmd =
    if cmd == ""
    then some container
    else elim (parse_command cmd) [ none ↦ none | some words ↦ some (set_command container words) ]

module _ (service : Service) where
  abbrev port_number : PortSpec → ℤ
  port_number port = port.port

  unfoldable pub build_container : Option Probe → Option Probe → Option Probe → Container
  unfolding build_volume_mounts
  build_container liveness readiness startup = record {
    name = service.name;
    image = service.spec.config.image;
    image_pull_policy = "Always";
    ports = some (map port_number service.spec.config.ports);
    env_from = service.spec.kubernetes_secret ∷ [];
    env = service.spec.env_vars;
    security_context = service.spec.security_context;
    liveness_probe = liveness;
    readiness_probe = readiness;
    startup_probe = startup;
    volume_mounts = some (build_volume_mounts service);
    command = [];
    args = [];
    resources = build_resources service.spec.config.resources;
    extra = null;
  }

  -- The init container at the index `i`, before its command is set
  unfoldable pub init_container : ℕ → InitContainerSpec → Container
  unfolding build_volume_mounts
  init_container i ic = record {
    name = service.name <> "-init-" <> decimal i;
    image = ic.image;
    image_pull_policy = "Always";
    ports = none;
    env_from = service.spec.kubernetes_secret ∷ [];
    env = service.spec.env_vars;
    security_context = none;
    liveness_probe = none;
    readiness_probe = none;
    startup_probe = none;
    volume_mounts = some (build_volume_mounts service);
    command = [];
    args = [];
    resources = build_resources service.spec.config.resources;
    extra = null;
  }

  unfoldable pub build_init_containers : ℕ → List InitContainerSpec → Option (List Container)
  unfolding init_container run_command
  build_init_containers i [] = some []
  build_init_containers i (ic ∷ ics) =
      let rest = build_init_containers (ℕ.suc i) ics in
      elim (run_command (init_container i ic) ic.command) [
        | none ↦ none
        | some c ↦ elim rest [ none ↦ none | some cs ↦ some (c ∷ cs) ]
      ]

  unfoldable pub deployment_of : Container → List Container → Deployment
  unfolding build_volumes
  deployment_of container init_containers = record {
    meta = build_object_meta service;
    spec = record {
      replicas = deref_or service.spec.config.replicas (pos 1);
      strategy = if is_empty service.spec.config.volumes then "RollingUpdate" else "Recreate";
      match_labels = get_label_selectors service;
      template_labels = get_common_labels service;
      template_annotations = some (build_pod_annotations service);
      image_pull_secrets = some service.spec.image_pull_secrets;
      init_containers = init_containers;
      containers = container ∷ [];
      volumes = build_volumes service;
      extra = null;
    };
  }

  -- the three probes, the run command and the init containers, in the order of the code
  unfoldable pub assemble : Option Deployment
  unfolding build_container build_init_containers deployment_of run_command
  assemble = elim (build_liveness_probe service) [
    | none ↦ none
    | some liveness ↦ elim (build_readiness_probe service) [
      | none ↦ none
      | some readiness ↦ elim (build_startup_probe service) [
        | none ↦ none
        | some startup ↦
            elim (run_command (build_container liveness readiness startup)
              (deref_or service.spec.config.run_command "")) [
                | none ↦ none
                | some container ↦
                    elim (build_init_containers 0 service.spec.config.init_containers) [
                      | none ↦ none
                      | some init_containers ↦ some (deployment_of container init_containers)
                    ]
              ]
      ]
    ]
  ]

  abbrev pub or_panic : {F A : Type 0} → Option A → Outcome F A
  or_panic none = panic
  or_panic (some a) = ok a

  -- `BuildDeployment`
  unfoldable pub build_deployment : {F : Type 0} → Outcome F Deployment
  unfolding assemble
  build_deployment =
      if service.spec.config.image == "" then err deployment_not_needed else or_panic assemble
