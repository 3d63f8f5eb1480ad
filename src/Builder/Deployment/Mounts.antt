-- ===== src/Builder/Deployment/Mounts.antt =====
-- The volumes, mounts and labels of `BuildDeployment`.
use unbind_operator.Base.{
  ℕ, suc, String, ◌<>◌, ◌++◌, Option, some, List, [], ◌∷◌, ◌≡◌, refl, map, map_index, All, arith,
  inl, inr, Option-cases, deref_or,
}
use unbind_operator.Base.Int.{decimal}
use unbind_operator.Base.Outcome.{ok}
use unbind_operator.Api.{Service, VolumeSpec, VariableMountSpec, InitContainerSpec}
use unbind_operator.Kube.{
  Container, Deployment, Probe, Volume, VolumeMount, persistent_volume_claim, secret,
}
use unbind_operator.Builder.Command.{parse_command}
use unbind_operator.Builder.Probes.{
  build_liveness_probe, build_readiness_probe, build_startup_probe,
}
use unbind_operator.Builder.Labels.{get_label_selectors, get_common_labels, build_pod_annotations}
use unbind_operator.Builder.Deployment.{
  build_volumes, build_volume_mounts, volume_of, mount_of, variable_volume, variable_mount,
  volume_name, set_command, run_command, build_container, init_container, build_init_containers,
  deployment_of, assemble, build_deployment,
}

-- The volumes of the claims and of the mounted variables, these numbered from `i`
abbrev claim_volumes : List VolumeSpec → List Volume
claim_volumes [] = []
claim_volumes (v ∷ vols) =
    record { name = v.name; source = persistent_volume_claim v.name } ∷ claim_volumes vols

abbrev secret_volumes : Service → ℕ → List VariableMountSpec → List Volume
secret_volumes service i [] = []
secret_volumes service i (v ∷ vms) =
    record {
      name = "var-mount-" <> decimal i;
      source = secret service.spec.kubernetes_secret ((v.name, v.name) ∷ []);
    }
    ∷ secret_volumes service (suc i) vms

-- Where a container has them
abbrev claim_mounts : List VolumeSpec → List VolumeMount
claim_mounts [] = []
claim_mounts (v ∷ vols) =
    record { name = v.name; mount_path = v.mount_path; sub_path = "" } ∷ claim_mounts vols

abbrev secret_mounts : ℕ → List VariableMountSpec → List VolumeMount
secret_mounts i [] = []
secret_mounts i (v ∷ vms) =
    record { name = "var-mount-" <> decimal i; mount_path = v.path; sub_path = v.name }
    ∷ secret_mounts (suc i) vms

abbrev pub wanted_volumes : Service → List Volume
wanted_volumes service =
    claim_volumes service.spec.config.volumes
    ++ secret_volumes service 0 service.spec.config.variable_mounts

abbrev pub wanted_mounts : Service → List VolumeMount
wanted_mounts service =
    claim_mounts service.spec.config.volumes ++ secret_mounts 0 service.spec.config.variable_mounts

claim_volumes-map : (vols : List VolumeSpec) → map volume_of vols ≡ claim_volumes vols
claim_volumes-map [] = refl
claim_volumes-map (v ∷ vols) = cc (claim_volumes-map vols)

claim_mounts-map : (vols : List VolumeSpec) → map mount_of vols ≡ claim_mounts vols
claim_mounts-map [] = refl
claim_mounts-map (v ∷ vols) = cc (claim_mounts-map vols)

secret_volumes-map :
    (service : Service) (i : ℕ) (vms : List VariableMountSpec)
    → map_index (variable_volume service) i vms ≡ secret_volumes service i vms
unfolding volume_name
secret_volumes-map service i [] = refl
secret_volumes-map service i (v ∷ vms) = rw (secret_volumes-map service (suc i) vms) refl

secret_mounts-map :
    (i : ℕ) (vms : List VariableMountSpec) → map_index variable_mount i vms ≡ secret_mounts i vms
unfolding volume_name
secret_mounts-map i [] = refl
secret_mounts-map i (v ∷ vms) = rw (secret_mounts-map (suc i) vms) refl

build_volumes-wanted : (service : Service) → build_volumes service ≡ wanted_volumes service
unfolding build_volumes
build_volumes-wanted service =
    rw
      (
        claim_volumes-map service.spec.config.volumes,
        secret_volumes-map service 0 service.spec.config.variable_mounts,
      )
      refl

build_volume_mounts-wanted :
    (service : Service) → build_volume_mounts service ≡ wanted_mounts service
unfolding build_volume_mounts
build_volume_mounts-wanted service =
    rw
      (
        claim_mounts-map service.spec.config.volumes,
        secret_mounts-map 0 service.spec.config.variable_mounts,
      )
      refl

-- A container of the service has these mounts and reads the service's secret and variables.
abbrev pub IsEquipped : Service → Container → Type 0
IsEquipped service c =
    (c.volume_mounts ≡ some (wanted_mounts service))
    × (c.env_from ≡ service.spec.kubernetes_secret ∷ [])
    × (c.env ≡ service.spec.env_vars)

set_command-IsEquipped :
    (service : Service) (c : Container) (words : List String)
    → IsEquipped service c
    → IsEquipped service (set_command c words)
unfolding set_command
set_command-IsEquipped service c [] h = h
set_command-IsEquipped service c (a ∷ []) h = h
set_command-IsEquipped service c (a ∷ b ∷ []) h = h
set_command-IsEquipped service c (a ∷ b ∷ d ∷ rest) h = ground arith

run_command-IsEquipped :
    (service : Service) (c : Container) (cmd : String) (r : Container)
    → IsEquipped service c
    → run_command c cmd ≡ some r
    → IsEquipped service r
unfolding run_command
run_command-IsEquipped service c cmd r h e = elim (Option-cases (parse_command cmd)) [
  | inl panics ↦ ground arith
  | inr (words, parsed) ↦ ground (arith, set_command-IsEquipped service c words)
]

init_container-IsEquipped :
    (service : Service) (i : ℕ) (ic : InitContainerSpec)
    → IsEquipped service (init_container service i ic)
unfolding init_container
init_container-IsEquipped service i ic = (rw (build_volume_mounts-wanted service) refl, refl, refl)

init_containers-IsEquipped :
    (service : Service) (i : ℕ) (ics : List InitContainerSpec) (cs : List Container)
    → build_init_containers service i ics ≡ some cs
    → All (IsEquipped service) cs
unfolding build_init_containers
init_containers-IsEquipped service i [] cs e = ground arith
init_containers-IsEquipped service i (ic ∷ ics) cs e =
    elim (Option-cases (run_command (init_container service i ic) ic.command)) [
      | inl panics ↦ ground arith
      | inr (c, made) ↦ elim (Option-cases (build_init_containers service (suc i) ics)) [
        | inl panics ↦ ground arith
        | inr (rest, built) ↦ ground (
          arith,
          init_container-IsEquipped service i ic,
          run_command-IsEquipped service (init_container service i ic) ic.command c,
          init_containers-IsEquipped service (suc i) ics rest,
        )
      ]
    ]

container-IsEquipped :
    (service : Service) (a b c : Option Probe) → IsEquipped service (build_container service a b c)
unfolding build_container
container-IsEquipped service a b c = (rw (build_volume_mounts-wanted service) refl, refl, refl)

-- The main container, with the image and the security context of the specification
abbrev pub IsMain : Service → Container → Type 0
IsMain service c =
    IsEquipped service c
    × (c.image ≡ service.spec.config.image)
    × (c.security_context ≡ service.spec.security_context)

set_command-IsMain :
    (service : Service) (c : Container) (words : List String)
    → IsMain service c
    → IsMain service (set_command c words)
unfolding set_command
set_command-IsMain service c [] h = h
set_command-IsMain service c (a ∷ []) h = h
set_command-IsMain service c (a ∷ b ∷ []) h = h
set_command-IsMain service c (a ∷ b ∷ d ∷ rest) h = ground arith

run_command-IsMain :
    (service : Service) (c : Container) (cmd : String) (r : Container)
    → IsMain service c
    → run_command c cmd ≡ some r
    → IsMain service r
unfolding run_command
run_command-IsMain service c cmd r h e = elim (Option-cases (parse_command cmd)) [
  | inl panics ↦ ground arith
  | inr (words, parsed) ↦ ground (arith, set_command-IsMain service c words)
]

container-IsMain :
    (service : Service) (a b c : Option Probe) → IsMain service (build_container service a b c)
unfolding build_container
container-IsMain service a b c = (container-IsEquipped service a b c, refl, refl)

-- What a built deployment holds
pub record IsComplete (service : Service) (d : Deployment) : Type 0 where
  pub volumes : d.spec.volumes ≡ wanted_volumes service
  pub containers : All (IsMain service) d.spec.containers
  pub init_containers : All (IsEquipped service) d.spec.init_containers
  pub selected : d.spec.match_labels ≡ get_label_selectors service
  pub labelled : d.spec.template_labels ≡ get_common_labels service
  pub annotated : d.spec.template_annotations ≡ some []

deployment_of-IsComplete :
    (service : Service) (c : Container) (cs : List Container)
    → IsMain service c
    → All (IsEquipped service) cs
    → IsComplete service (deployment_of service c cs)
unfolding deployment_of build_pod_annotations
deployment_of-IsComplete service c cs h hs = record {
  volumes = build_volumes-wanted service;
  containers = (h, tt);
  init_containers = hs;
  selected = refl;
  labelled = refl;
  annotated = refl;
}

-- the containers that `assemble` has made
assemble_inv :
    (service : Service) (d : Deployment)
    → assemble service ≡ some d
    → (c : Container) × (cs : List Container) × (d ≡ deployment_of service c cs)
      × IsMain service c
      × All (IsEquipped service) cs
unfolding assemble
assemble_inv service d e = elim (Option-cases (build_liveness_probe service)) [
  | inl n ↦ absurd (ground arith)
  | inr (p, pe) ↦ elim (Option-cases (build_readiness_probe service)) [
    | inl n ↦ absurd (ground arith)
    | inr (q, qe) ↦ elim (Option-cases (build_startup_probe service)) [
      | inl n ↦ absurd (ground arith)
      | inr (r, re) ↦
          let base = build_container service p q r in
          let cmd = deref_or service.spec.config.run_command "" in
          elim (Option-cases (run_command base cmd)) [
            | inl n ↦ absurd (ground arith)
            | inr (c, ce) ↦
                elim (Option-cases
                  (build_init_containers service 0 service.spec.config.init_containers)) [
                    | inl n ↦ absurd (ground arith)
                    | inr (cs, cse) ↦ (
                      c,
                      cs,
                      ground arith,
                      run_command-IsMain service base cmd c (container-IsMain service p q r) ce,
                      init_containers-IsEquipped service 0 service.spec.config.init_containers cs
                          cse,
                    )
                  ]
          ]
    ]
  ]
]

pub build_deployment-IsComplete :
    {F : Type 0} (service : Service) (d : Deployment)
    → build_deployment service {F = F} ≡ ok d
    → IsComplete service d
unfolding build_deployment
build_deployment-IsComplete service d e =
    let (c, cs, same, h, hs) = assemble_inv service d (ground arith) in
    rw same (deployment_of-IsComplete service c cs h hs)
