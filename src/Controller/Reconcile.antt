-- ===== src/Controller/Reconcile.antt =====
-- `Reconcile`
pub mod Bounds
pub mod Fit
pub mod Converges
pub mod Built
pub mod Idle
pub mod Reached
pub mod Settles
pub mod Finalizer
pub mod Status
use unbind_operator.Base.{
  String, ◌<>◌, Bool, not, ◌&&◌, ◌||◌, Option, none, some, List, map, ◌==◌, is_empty, if◌then◌else◌,
}
use unbind_operator.Base.Equal.{deep_equal, string_discrete}
use unbind_operator.Api.{Service, ServiceStatus, HostSpec}
use unbind_operator.Kube.{Kind}
use unbind_operator.Client.{Client}
use unbind_operator.Client.Monad.{
  Action, raise, handle, wrapping, done, ◌>>=◌, is_not_found, get, update, update_status,
}
use unbind_operator.Builder.Deployment.{build_deployment}
use unbind_operator.Builder.Services.{build_services}
use unbind_operator.Builder.Ingress.{build_ingress}
use unbind_operator.Controller.Retry.{ResourceBuilder}
use unbind_operator.Controller.Deployment.{reconcile_deployment}
use unbind_operator.Controller.Services.{reconcile_services}
use unbind_operator.Controller.Ingress.{reconcile_ingress}
use unbind_operator.Controller.Finalize.{finalize_service}
use unbind_operator.Controller.Database.{Platform, reconcile_database}

abbrev pub service_finalizer : String
service_finalizer = "service.unbind.unbind.app/finalizer"

pub urls_discrete : Discrete (Option (List String))
urls_discrete = hlevel string_discrete

abbrev pub host_url : HostSpec → String
host_url host = "https://" <> host.host

-- `newURLs`, which stays nil unless the service is public and has a host
unfoldable pub new_urls : Service → Option (List String)
new_urls service =
    if not (is_empty service.spec.config.hosts) && service.spec.config.public
    then some (map host_url service.spec.config.hosts)
    else none

-- The status that a successful run leaves
abbrev pub ready_status : Service → ServiceStatus
ready_status service = record service.status {
  deployment_status = "Ready";
  urls = new_urls service;
}

-- `needsStatusUpdate`
unfoldable pub needs_status_update : Service → Bool
unfolding new_urls
needs_status_update service =
    not (service.status.deployment_status == "Ready")
    || not (deep_equal urls_discrete service.status.urls (new_urls service))

-- `newResourceBuilder`
unfoldable pub new_resource_builder : {F : Type 0} → Service → ResourceBuilder F
unfolding build_deployment build_services build_ingress
new_resource_builder service = record {
  build_deployment = build_deployment service;
  build_services = build_services service;
  build_ingress = build_ingress service;
}

module _ {C : Client} where
  -- The last part: the status is written if it has changed.
  unfoldable pub write_status : Service → Action C (Unit {0})
  unfolding needs_status_update
  write_status service =
      if needs_status_update service
      then update_status (record service { status = ready_status service })
      else done

  -- The generic path
  unfoldable pub reconcile_generic : Service → Action C (Unit {0})
  unfolding ◌>>=◌ new_resource_builder reconcile_deployment reconcile_services reconcile_ingress
  reconcile_generic service =
      let rb = new_resource_builder service in
      reconcile_deployment rb service
      >>= (λ _. reconcile_services rb service >>= (λ _. reconcile_ingress rb service))

  module _ (P : Platform C) where
    -- A service that exists, is not being deleted and has the finalizer
    unfoldable pub reconcile_live : Service → Action C (Unit {0})
    unfolding ◌>>=◌ reconcile_generic reconcile_database write_status
    reconcile_live service =
        (if service.spec.type == "database"
          then reconcile_database P service
          else reconcile_generic service)
        >>= (λ _. write_status service)

    -- The branch of a service that is being deleted
    unfoldable pub finalize : Service → Action C (Unit {0})
    unfolding wrapping ◌>>=◌ finalize_service
    finalize service =
        if P.contains_finalizer service.finalizers service_finalizer
        then wrapping "failed to finalize service" (finalize_service service) >>= (λ _.
          wrapping "failed to remove finalizer" (
            update Kind.service (record service {
              finalizers = P.remove_finalizer service.finalizers service_finalizer;
            })))
        else done

    -- What is done with the service that was read
    unfoldable pub reconcile_service : Service → Action C (Unit {0})
    unfolding wrapping finalize reconcile_live
    reconcile_service service =
        if service.is_deleting
        then finalize service
        else if not (P.contains_finalizer service.finalizers service_finalizer)
        then wrapping "failed to add finalizer" (
            update Kind.service (record service {
              finalizers = P.add_finalizer service.finalizers service_finalizer;
            }))
        else reconcile_live service

    -- `Reconcile`, on a request by namespace and name
    unfoldable pub reconcile : String → String → Action C (Unit {0})
    unfolding handle reconcile_service
    reconcile namespace name =
        handle (get Kind.service namespace name) (λ e. if is_not_found C e then done else raise e)
          (λ service. reconcile_service service)
