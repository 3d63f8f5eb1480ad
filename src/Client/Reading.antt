-- ===== src/Client/Reading.antt =====
-- How a deployment is read back from the API server: an empty slice or map is left out when an object
-- is sent, so that it is nil in what a later lookup returns.
use unbind_operator.Base.{◌≡◌, refl, Option, none, some, List, [], ◌∷◌, map}
use unbind_operator.Kube.{Container, Deployment, DeploymentSpec}

module _ {A : Type 0} where
  abbrev pub nil_if_empty : Option (List A) → Option (List A)
  nil_if_empty none = none
  nil_if_empty (some []) = none
  nil_if_empty (some (a ∷ rest)) = some (a ∷ rest)

  nil_if_empty-again : (r : Option (List A)) → nil_if_empty (nil_if_empty r) ≡ nil_if_empty r
  nil_if_empty-again none = refl
  nil_if_empty-again (some []) = refl
  nil_if_empty-again (some (a ∷ rest)) = refl

abbrev pub read_container : Container → Container
read_container c = record c {
  ports = nil_if_empty c.ports;
  volume_mounts = nil_if_empty c.volume_mounts;
}

abbrev pub read_spec : DeploymentSpec → DeploymentSpec
read_spec s = record s {
  template_annotations = nil_if_empty s.template_annotations;
  image_pull_secrets = nil_if_empty s.image_pull_secrets;
  init_containers = map read_container s.init_containers;
  containers = map read_container s.containers;
}

abbrev pub read_deployment : Deployment → Deployment
read_deployment d = record d { spec = read_spec d.spec }

read_container-again : (c : Container) → read_container (read_container c) ≡ read_container c
read_container-again c = rw (nil_if_empty-again c.ports, nil_if_empty-again c.volume_mounts) refl

read_containers-again :
    (cs : List Container) → map read_container (map read_container cs) ≡ map read_container cs
read_containers-again [] = refl
read_containers-again (c ∷ cs) = rw (read_container-again c, read_containers-again cs) refl

-- What has been read back stays as it is.
pub read_spec-again : (s : DeploymentSpec) → read_spec (read_spec s) ≡ read_spec s
read_spec-again s =
    rw
      (
        nil_if_empty-again s.template_annotations,
        nil_if_empty-again s.image_pull_secrets,
        read_containers-again s.init_containers,
        read_containers-again s.containers,
      )
      refl

pub read_deployment-again :
    (d : Deployment) → read_deployment (read_deployment d) ≡ read_deployment d
read_deployment-again d = rw (read_spec-again d.spec) refl
