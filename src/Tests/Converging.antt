-- ===== src/Tests/Converging.antt =====
-- The theorems about the whole generic path, applied to a web service and a cluster of its own.
use unbind_operator.Base.{arith, ◌+◌, ◌≡◌, ap, true, false, Bool, refl, All, ◌↔◌, [], some}
use unbind_operator.Base.Outcome.{Outcome, ok, panic}
use unbind_operator.Api.{Service}
use unbind_operator.Client.Log.{writes}
use unbind_operator.Client.Monad.{World, get, delete, update_status}
use unbind_operator.Client.View.{View, set, Tracked, IsKeyed, IsKeyed-put, put}
use unbind_operator.Client.Reading.{read_deployment, read_spec-again}
use unbind_operator.Builder.Labels.{
  build_object_meta, build_pod_annotations, get_common_labels, get_label_selectors,
}
use unbind_operator.Builder.Deployment.{
  build_deployment, assemble, run_command, build_init_containers, deployment_of,
}
use unbind_operator.Builder.Services.{build_services}
use unbind_operator.Builder.Ingress.{build_ingress}
use unbind_operator.Builder.Probes.{
  build_liveness_probe, build_readiness_probe, build_startup_probe,
}
use unbind_operator.Controller.Deployment.Idle.{IsRead, IsRead-put}
use unbind_operator.Controller.Reconcile.{reconcile, reconcile_generic, new_urls}
use unbind_operator.Controller.Reconcile.Status.{ready, ready_again}
use unbind_operator.Controller.Reconcile.Settles.{reconcile-Settles}
use unbind_operator.Controller.Reconcile.Fit.{HasRequestedPort}
use unbind_operator.Controller.Reconcile.Converges.{Matches, reconcile_generic-Matches}
use unbind_operator.Controller.Reconcile.Idle.{reconcile-idle, reconcile_generic-fixed_iff}
use unbind_operator.Controller.Reconcile.Reached.{rerun, rerun-IsKeyed, rerun-Matches}
use unbind_operator.Tests.Cluster.{
  platform, cluster, stores, answers, accepts, start, start-IsKeyed,
}
use unbind_operator.Tests.Inputs

-- the API service has a node port that is not 0
requested : All HasRequestedPort Inputs.shop.spec.config.ports
requested = (tt, (refl, (tt, tt)))

abbrev is_panic : {F A : Type 0} → Outcome F A → Bool
is_panic panic = true
is_panic _ = false

no_panic : ¬ (build_deployment Inputs.shop {F = cluster.Failure} ≡ panic)
unfolding build_deployment build_liveness_probe build_readiness_probe build_startup_probe
no_panic e = let other : false ≡ true = ap is_panic e in absurd (ground arith)

-- the two services exist already, with other ports
abbrev served : World cluster
served = record start {
  state =
      put Tracked.core_service (record Inputs.core_service { meta = Inputs.meta "shop-nodeport" })
        (put Tracked.core_service Inputs.core_service start.state);
}

served-IsKeyed : IsKeyed served.state
served-IsKeyed =
    IsKeyed-put Tracked.core_service
      (record Inputs.core_service { meta = Inputs.meta "shop-nodeport" })
      (put Tracked.core_service Inputs.core_service start.state)
      (IsKeyed-put Tracked.core_service Inputs.core_service start.state start-IsKeyed)

-- a cluster that has been reconciled twice
abbrev twice : World cluster
twice = rerun Inputs.shop 2 start

reconcile_generic-Matches_example :
    IsKeyed (reconcile_generic Inputs.shop twice).1.state
    × Matches cluster.Failure Inputs.shop (reconcile_generic Inputs.shop twice).1.state
reconcile_generic-Matches_example =
    reconcile_generic-Matches stores Inputs.shop twice
      (rerun-IsKeyed stores answers accepts Inputs.shop no_panic 2 start start-IsKeyed) requested
      (rerun-Matches stores answers accepts Inputs.shop no_panic start start-IsKeyed requested).0

reconcile_generic-fixed_iff_example : Matches cluster.Failure Inputs.shop served.state ↔ (
    ((reconcile_generic Inputs.shop served).0 ≡ ok tt)
    × ((reconcile_generic Inputs.shop served).1.state ≡ served.state)
    × (writes (reconcile_generic Inputs.shop served).1.log ≡ 1 + writes served.log))
reconcile_generic-fixed_iff_example =
    reconcile_generic-fixed_iff stores answers accepts Inputs.shop requested served served-IsKeyed
      (λ namespace name. tt)

rerun-Matches_example :
    ((reconcile_generic Inputs.shop (rerun Inputs.shop 2 start)).0 ≡ ok tt)
    × Matches cluster.Failure Inputs.shop (rerun Inputs.shop 3 start).state
rerun-Matches_example =
    rerun-Matches stores answers accepts Inputs.shop no_panic start start-IsKeyed requested

-- a service that is stored and asks for nothing any more
abbrev bare : Service
bare = record Inputs.shop {
  spec = record Inputs.shop.spec {
    config = record Inputs.shop.spec.config { image = ""; ports = [] };
  };
}

-- a cluster with that service and a deployment and a core service of its past
abbrev leftover : World cluster
leftover = record start {
  state =
      put Tracked.deployment (Inputs.deployment "1")
        (put Tracked.core_service Inputs.core_service (put Tracked.service bare start.state));
}

leftover-IsKeyed : IsKeyed leftover.state
leftover-IsKeyed =
    IsKeyed-put Tracked.deployment (Inputs.deployment "1")
      (put Tracked.core_service Inputs.core_service (put Tracked.service bare start.state))
      (IsKeyed-put Tracked.core_service Inputs.core_service (put Tracked.service bare start.state)
        (IsKeyed-put Tracked.service bare start.state start-IsKeyed))

leftover-ok : (reconcile platform "team" "shop" leftover).0 ≡ ok tt
unfolding reconcile get set delete update_status
leftover-ok = refl

reconcile-Settles_example :
    ((reconcile platform "team" "shop" leftover).1.state.services "team" "shop" ≡ some (ready bare))
    × Matches cluster.Failure bare (reconcile platform "team" "shop" leftover).1.state
unfolding set
reconcile-Settles_example =
    reconcile-Settles stores platform bare leftover leftover-IsKeyed refl refl refl refl tt
      leftover-ok

-- a cluster with a service without ports and its deployment
abbrev serviced : View
serviced = put Tracked.service (ready Inputs.worker) start.state

abbrev deployed : World cluster
deployed = record start { state = put Tracked.deployment Inputs.worker_deployment serviced }

deployed-IsKeyed : IsKeyed deployed.state
deployed-IsKeyed =
    IsKeyed-put Tracked.deployment Inputs.worker_deployment serviced
      (IsKeyed-put Tracked.service (ready Inputs.worker) start.state start-IsKeyed)

deployed-IsRead : IsRead deployed.state
deployed-IsRead = IsRead-put Inputs.worker_deployment serviced (λ namespace name. tt)

deployed-Matches : Matches cluster.Failure (ready Inputs.worker) deployed.state
unfolding build_deployment build_services build_ingress assemble run_command build_init_containers
    build_liveness_probe build_readiness_probe build_startup_probe set deployment_of
    build_object_meta new_urls get_label_selectors get_common_labels build_pod_annotations
deployed-Matches = record {
  deployment = record {
    stored = read_deployment Inputs.worker_deployment;
    is_stored = refl;
    same_spec = read_spec-again Inputs.worker_deployment.spec;
    same_labels = refl;
  };
  services = (refl, (refl, (refl, tt)));
  ingress = (refl, refl);
}

reconcile-idle_example :
    ((reconcile platform "team" "shop" deployed).0 ≡ ok tt)
    × ((reconcile platform "team" "shop" deployed).1.state ≡ deployed.state)
    × (writes (reconcile platform "team" "shop" deployed).1.log ≡ 1 + writes deployed.log)
unfolding set
reconcile-idle_example =
    reconcile-idle stores answers accepts platform (ready Inputs.worker) tt deployed
      deployed-IsKeyed deployed-IsRead refl refl refl refl (ready_again Inputs.worker)
      deployed-Matches
