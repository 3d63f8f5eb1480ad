-- ===== src/Tests/Examples.antt =====
-- The theorems about the reconciler, applied to concrete inputs.
use unbind_operator.Base.{[], ◌∷◌, ◌≡◌, refl, pos, inl, inr, arith}
use unbind_operator.Base.Dict.{lookup}
use unbind_operator.Base.Outcome.{ok}
use unbind_operator.Kube.{Kind}
use unbind_operator.Client.{getting, creating, updating}
use unbind_operator.Client.Monad.{World}
use unbind_operator.Client.Spends.{Spends}
use unbind_operator.Controller.Reconcile.{reconcile_service, reconcile_generic, write_status}
use unbind_operator.Controller.Reconcile.Bounds.{reconcile_generic-Spends}
use unbind_operator.Controller.Reconcile.Finalizer.{Stopped, held, deleted-Stopped, unheld-log}
use unbind_operator.Controller.Reconcile.Status.{
  ready, StatusFollows, reconcile_service-status, write_status-settled,
}
use unbind_operator.Client.Log.{status_updates}
use unbind_operator.Controller.Services.{apply_service, copy_node_port}
use unbind_operator.Controller.Services.Creation.{creation_error, apply_service-created}
use unbind_operator.Controller.Services.NodePorts.{Takes, copy_node_port-Takes}
use unbind_operator.Controller.Deployment.{apply_deployment, apply_loop}
use unbind_operator.Controller.Deployment.Repeated.{apply_loop-repeats}
use unbind_operator.Controller.Ingress.{apply_ingress}
use unbind_operator.Controller.Ingress.Settled.{apply_ingress-settled}
use unbind_operator.Controller.Job.{reconcile_job}
use unbind_operator.Controller.Job.Finished.{reconcile_job-finished}
use unbind_operator.Base.Text.{runes}
use unbind_operator.Client.Reading.{read_deployment}
use unbind_operator.Builder.Command.{parse_command, parse_runes}
use unbind_operator.Builder.Probes.{
  build_liveness_probe, build_readiness_probe, build_startup_probe,
}
use unbind_operator.Builder.Labels.{build_object_meta}
use unbind_operator.Builder.Deployment.{
  deployment_of, assemble, build_deployment, run_command, build_init_containers, set_command,
}
use unbind_operator.Tests.Server.{Failure, server, platform}
use unbind_operator.Tests.Inputs

deleted-Stopped_example :
    Stopped platform Inputs.doomed_shop []
      (reconcile_service platform Inputs.doomed_shop Inputs.start)
deleted-Stopped_example = deleted-Stopped platform Inputs.doomed_shop Inputs.start refl refl

unheld-log_example :
    (reconcile_service platform Inputs.new_shop Inputs.start).1.log
    ≡ updating Kind.service (held platform Inputs.new_shop) ∷ []
unheld-log_example = unheld-log platform Inputs.new_shop Inputs.start refl

reconcile_service-status_example :
    (status_updates (reconcile_generic Inputs.shop Inputs.start).1.log ≡ 0)
    × StatusFollows platform Inputs.shop
        (reconcile_generic Inputs.shop Inputs.start)
        (reconcile_service platform Inputs.shop Inputs.start)
reconcile_service-status_example =
    reconcile_service-status platform Inputs.shop Inputs.start refl refl refl

write_status-settled_example : write_status (ready Inputs.shop) Inputs.start ≡ (ok tt, Inputs.start)
write_status-settled_example = write_status-settled Inputs.shop Inputs.start

reconcile_generic-Spends_example : Spends {C = server} 124 20 (reconcile_generic Inputs.shop)
reconcile_generic-Spends_example = reconcile_generic-Spends Inputs.shop

apply_service-created_example :
    ((apply_service {C = server} Inputs.shop Inputs.core_service Inputs.start).0
      ≡ creation_error "shop" Failure.not_found)
    × ((apply_service {C = server} Inputs.shop Inputs.core_service Inputs.start).1.log
        ≡ creating Kind.core_service (record Inputs.core_service {
          meta = record (Inputs.meta "shop") { owner_references = "u1" ∷ [] };
        })
          ∷ getting Kind.core_service "team" "shop"
          ∷ [])
unfolding lookup
apply_service-created_example =
    apply_service-created {C = server} Inputs.shop Inputs.core_service Inputs.start
      Failure.not_found (record (Inputs.meta "shop") { owner_references = "u1" ∷ [] }) refl refl
      refl refl

copy_node_port-Takes_example :
    Takes
      (record Inputs.web_port { node_port = pos 30080 } ∷ [])
      Inputs.web_port
      (copy_node_port Inputs.web_port (record Inputs.web_port { node_port = pos 30080 } ∷ []))
copy_node_port-Takes_example =
    copy_node_port-Takes Inputs.web_port (record Inputs.web_port { node_port = pos 30080 } ∷ [])

-- the server after an update of the deployment, with what is read back
abbrev deployed : World server
deployed = record Inputs.start {
  state = record Inputs.start.state {
    deployments =
        (
          "team/shop",
          read_deployment (apply_deployment (Inputs.deployment "1") Inputs.worker_deployment),
        )
        ∷ [];
  };
}

apply_loop-repeats_example :
    ((apply_loop {C = server} Inputs.worker_deployment deployed).0 ≡ ok tt)
    × ((apply_loop {C = server} Inputs.worker_deployment deployed).1.log
        ≡ updating Kind.deployment (
            apply_deployment
              (read_deployment (apply_deployment (Inputs.deployment "1") Inputs.worker_deployment))
              Inputs.worker_deployment)
          ∷ getting Kind.deployment "team" "shop"
          ∷ [])
unfolding lookup build_deployment assemble run_command build_init_containers set_command
    build_liveness_probe build_readiness_probe build_startup_probe parse_command parse_runes runes
    deployment_of apply_deployment build_object_meta
apply_loop-repeats_example =
    apply_loop-repeats {C = server} Inputs.worker
      (read_deployment (apply_deployment (Inputs.deployment "1") Inputs.worker_deployment))
      Inputs.worker_deployment deployed refl refl (λ e. ground arith) refl

abbrev exposed : World server
exposed = record Inputs.start {
  state = record Inputs.start.state {
    ingresses = ("team/shop", record Inputs.ingress { meta = Inputs.meta "other" }) ∷ [];
  };
}

apply_ingress-settled_example :
    ((apply_ingress {C = server} Inputs.shop Inputs.ingress exposed).0 ≡ ok tt)
    × ((apply_ingress {C = server} Inputs.shop Inputs.ingress exposed).1.log
        ≡ getting Kind.ingress "team" "shop" ∷ [])
unfolding lookup
apply_ingress-settled_example =
    apply_ingress-settled {C = server} Inputs.shop Inputs.ingress (Inputs.meta "other") exposed refl

abbrev migrated : World server
migrated = record Inputs.start {
  state = record Inputs.start.state { jobs = ("team/migrate", Inputs.failed_job) ∷ [] };
}

reconcile_job-finished_example :
    ((reconcile_job {C = server} Inputs.job Inputs.shop migrated).0 ≡ ok tt)
    × ((reconcile_job {C = server} Inputs.job Inputs.shop migrated).1.log
        ≡ getting Kind.job "team" "migrate" ∷ [])
unfolding lookup
reconcile_job-finished_example =
    reconcile_job-finished {C = server} Inputs.job Inputs.failed_job Inputs.shop
      (record (Inputs.meta "migrate") { owner_references = "u1" ∷ [] }) migrated refl refl
      (inr (inl (inr refl, refl)))
