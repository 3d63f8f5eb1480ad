-- ===== src/Controller/Services.antt =====
-- `reconcileServices`
pub mod Bounds
pub mod NodePorts
pub mod Creation
pub mod Settled
pub mod Ends
pub mod Idle
pub mod Progress
pub mod Runs
pub mod Desired
pub mod Cleanup
use unbind_operator.Base.{
  Bool, false, not, ◌||◌, ◌&&◌, String, ◌<>◌, ◌==◌, pos, int_eq, ◌⊎◌, inl, inr, Option, none, some,
  List, [], ◌∷◌, if◌then◌else◌,
}
use unbind_operator.Base.Equal.{deep_equal}
use unbind_operator.Base.Outcome.{Outcome, Error, ok, err, panic, wrap, service_not_needed}
use unbind_operator.Api.{Service}
use unbind_operator.Kube.{Kind, CoreService, ServicePort, ports_discrete, labels_discrete}
use unbind_operator.Client.{Client}
use unbind_operator.Client.Monad.{
  Action, pure, raise, crash, handle, wrapping, done, ◌>>=◌, is_not_found, is_conflict, get, create,
  update, delete, set_controller_reference,
}
use unbind_operator.Controller.Retry.{ResourceBuilder, retry, max_retries}

-- The inner loop: a node port that is not set takes that of an existing port of the same number and
-- name.
unfoldable pub copy_node_port : ServicePort → List ServicePort → ServicePort
copy_node_port desired [] = desired
copy_node_port desired (e ∷ existing) =
    copy_node_port
      (if int_eq desired.port e.port && (desired.name == e.name) && int_eq desired.node_port (pos 0)
        then record desired { node_port = e.node_port }
        else desired)
      existing

unfoldable pub copy_node_ports : List ServicePort → List ServicePort → List ServicePort
unfolding copy_node_port
copy_node_ports [] existing = []
copy_node_ports (p ∷ desired) existing =
    copy_node_port p existing ∷ copy_node_ports desired existing

-- The cluster IP and the node ports that the server has assigned are taken over.
unfoldable pub adopt : CoreService → CoreService → CoreService
unfolding copy_node_ports
adopt existing desired =
    let spec = record desired.spec { cluster_ip = existing.spec.cluster_ip } in
    record desired {
      spec =
          if desired.spec.type == "NodePort"
          then record spec { ports = copy_node_ports desired.spec.ports existing.spec.ports }
          else spec;
    }

-- `needsUpdate`: the ports, the selector or the type differ
unfoldable pub service_differs : CoreService → CoreService → Bool
service_differs existing desired =
    not (deep_equal ports_discrete existing.spec.ports desired.spec.ports)
    || not (deep_equal labels_discrete existing.spec.selector desired.spec.selector)
    || not (existing.spec.type == desired.spec.type)

-- `desiredServiceNames[name]`
unfoldable pub is_desired : List CoreService → String → Bool
is_desired [] name = false
is_desired (s ∷ services) name = s.meta.name == name || is_desired services name

-- The variables of the retry loop: the desired service, which each round changes, and `err`
abbrev pub Vars : Client → Type 0
Vars C = CoreService × Option (Error C.Failure)

-- `servicesToCheck`
abbrev pub services_to_check : Service → List String
services_to_check service = service.name ∷ (service.name <> "-nodeport") ∷ []

module _ {C : Client} where
  module _ (service : Service) where
    -- The body of the retry loop; it leaves the loop with the value of `err`. On the path that
    -- creates the service, `err` is still the error of the `Get`.
    unfoldable pub service_round : Vars C → Action C (Vars C ⊎ Option (Error C.Failure))
    unfolding handle wrapping ◌>>=◌ adopt service_differs
    service_round (desired, _) =
        let name = desired.meta.name in
        handle (get Kind.core_service desired.meta.namespace name)
          (λ e.
            if is_not_found C e
            then wrapping "setting controller reference"
                (set_controller_reference service desired.meta)
              >>= (λ meta.
                  wrapping ("creating service " <> name)
                    (create Kind.core_service (record desired { meta = meta }))
                  >>= (λ _. pure (inr (some e))))
            else raise (wrap ("getting service " <> name) e))
          (λ existing.
            let desired' = adopt existing desired in
            if service_differs existing desired'
            then wrapping "setting controller reference"
                (set_controller_reference service existing.meta)
              >>= (λ meta.
                  handle (update Kind.core_service (record { meta = meta; spec = desired'.spec }))
                    (λ e.
                      if is_conflict C e
                      then pure (inl (desired', some e))
                      else raise (wrap ("updating service " <> name) e))
                    (λ _. pure (inr none)))
            else pure (inr none))

    -- the test of `err` behind the loop
    abbrev check_error : String → Option (Error C.Failure) → Action C (Unit {0})
    check_error name none = done
    check_error name (some e) =
        raise (wrap ("failed to update service " <> name <> " after 5 retries") e)

    unfoldable pub apply_service : CoreService → Action C (Unit {0})
    unfolding retry service_round
    apply_service desired =
        retry service_round (λ v. pure v.1) max_retries 1 (desired, none)
        >>= check_error desired.meta.name

    -- `for _, desired := range desiredServices`
    unfoldable pub apply_services : List CoreService → Action C (Unit {0})
    unfolding apply_service
    apply_services [] = done
    apply_services (d ∷ desired) = apply_service d >>= (λ _. apply_services desired)

    -- the loop of the branch of `ErrServiceNotNeeded`
    unfoldable pub remove_services : List String → Action C (Unit {0})
    unfolding handle wrapping ◌>>=◌
    remove_services [] = done
    remove_services (name ∷ names) =
        handle (get Kind.core_service service.namespace name)
          (λ e. if is_not_found C e then done else raise (wrap "checking if service exists" e))
          (λ existing.
            wrapping "deleting service"
              (delete Kind.core_service existing.meta.namespace existing.meta.name))
        >>= (λ _. remove_services names)

    -- the loop that cleans up services which are no longer desired
    unfoldable pub clean_up : List CoreService → List String → Action C (Unit {0})
    unfolding handle wrapping ◌>>=◌ is_desired
    clean_up desired [] = done
    clean_up desired (name ∷ names) =
        (if is_desired desired name
          then done
          else handle (get Kind.core_service service.namespace name)
              (λ e.
                if is_not_found C e
                then done
                else raise (wrap ("checking if unneeded service " <> name <> " exists") e))
              (λ old.
                wrapping ("deleting unneeded service " <> name)
                  (delete Kind.core_service old.meta.namespace old.meta.name)))
        >>= (λ _. clean_up desired names)

    abbrev on_build : Outcome C.Failure (List CoreService) → Action C (Unit {0})
    on_build (ok desired) =
        apply_services desired >>= (λ _. clean_up desired (services_to_check service))
    on_build (err service_not_needed) = remove_services (services_to_check service)
    on_build (err e) = raise (wrap "building services" e)
    on_build panic = crash

  unfoldable pub reconcile_services : ResourceBuilder C.Failure → Service → Action C (Unit {0})
  unfolding apply_services remove_services clean_up ◌>>=◌
  reconcile_services rb service = on_build service rb.build_services
