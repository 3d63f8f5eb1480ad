-- ===== src/Controller/Database/Bounds.antt =====
-- The time and the updates of the database path of `Reconcile`.
use unbind_operator.Base.{
  Bool, false, ◌<>◌, ℕ, ◌+◌, ◌*◌, ◌≤◌, ◌≡◌, refl, arith, ◌==◌, ◌||◌, inl, inr, ◌⊎◌, List, length,
  String, if◌then◌else◌,
}
use unbind_operator.Base.Outcome.{Outcome, ok, err, panic, wrap, failure}
use unbind_operator.Api.{Service}
use unbind_operator.Kube.{Kind, RuntimeObject}
use unbind_operator.Client.{Client}
use unbind_operator.Client.Monad.{Action, pure, raise, lift, wrapping, ◌>>=◌, is_already_exists}
use unbind_operator.Client.Spends.{
  Spends, Spends-weaken, Spends-bind, Spends-handle, Spends-if, Spends-create, Spends-pure,
  Spends-raise, Spends-wrapping,
}
use unbind_operator.Operator.{
  Discovery, Chart, create_once, has_kind, moco, altinity, chart_repository, chart_release,
  has_resource, is_operator_installed, install_chart, install_operator, ensure_operator_installed,
}
use unbind_operator.Builder.Database.{build_database_objects}
use unbind_operator.Controller.Secrets.Bounds.{redis-Spends, mongodb-Spends, clickhouse-Spends}
use unbind_operator.Controller.Runtime.{reconcile_runtime_objects}
use unbind_operator.Controller.Runtime.Bounds.{reconcile_runtime_objects-Spends}
use unbind_operator.Controller.Database.{
  Platform, ensure_operator, ensure_secret, reconcile_database,
}

module _ {C : Client} where
  module _ (D : Discovery C.Failure) where
    -- what follows from the resources of a group
    abbrev found : String → String → C.Failure ⊎ List String → Action C Bool
    found name kind r = elim r [
      | inl f ↦
          if D.is_group_discovery_failed f || C.is_not_found f
          then pure false
          else raise (wrap ("failed to check " <> name <> " operator installation") (failure f))
      | inr kinds ↦ pure (has_kind kind kinds)
    ]

    found-Spends :
        (name kind : String) (r : C.Failure ⊎ List String) → Spends 0 0 (found name kind r)
    found-Spends name kind (inl f) =
        Spends-if (D.is_group_discovery_failed f || C.is_not_found f) (Spends-pure false 0 0)
          (Spends-raise _ 0 0)
    found-Spends name kind (inr kinds) = Spends-pure (has_kind kind kinds) 0 0

    has_resource-Spends :
        (group kind name : String) → Spends {C = C} 0 0 (has_resource D group kind name)
    unfolding has_resource
    has_resource-Spends group kind name = found-Spends name kind (D.server_resources group)

    is_operator_installed-Spends :
        (type : String) → Spends {C = C} 0 0 (is_operator_installed D type)
    unfolding is_operator_installed
    is_operator_installed-Spends type =
        Spends-if (type == "mysql")
          (has_resource-Spends "moco.cybozu.com/v1beta2" "MySQLCluster" "MOCO")
          (Spends-if (type == "clickhouse")
            (has_resource-Spends "clickhouse.altinity.com/v1" "ClickHouseInstallation" "ClickHouse")
            (Spends-raise _ 0 0))

  create_once-Spends :
      (text : String) (creation : Action C (Unit {0}))
      → Spends 0 0 creation
      → Spends 0 0 (create_once text creation)
  create_once-Spends text creation h =
      Spends-handle h
        (λ e.
          Spends-if (is_already_exists C e) (Spends-pure tt 0 0)
            (Spends-raise (wrap ("failed to create " <> text) e) 0 0))
        (λ _. Spends-pure tt 0 0)

  install_chart-Spends :
      (c : Chart) (namespace : String) → Spends {C = C} 0 0 (install_chart c namespace)
  unfolding install_chart
  install_chart-Spends c namespace =
      Spends-bind
        (create_once-Spends "HelmRepository" _
          (Spends-create Kind.helm_repository (chart_repository c namespace)))
        (λ _.
          create_once-Spends "HelmRelease" _
            (Spends-create Kind.helm_release (chart_release c namespace)))

  install_operator-Spends :
      (type namespace : String) → Spends {C = C} 0 0 (install_operator type namespace)
  unfolding install_operator
  install_operator-Spends type namespace =
      Spends-if (type == "mysql") (install_chart-Spends moco namespace) (
        Spends-if (type == "clickhouse") (install_chart-Spends altinity namespace)
          (Spends-raise _ 0 0))

  module _ (P : Platform C) (service : Service) where
    ensure_operator-Spends : Spends 0 0 (ensure_operator P service)
    unfolding ensure_operator ensure_operator_installed
    ensure_operator-Spends =
        Spends-if _
          (Spends-bind
            (Spends-wrapping _ _
              (is_operator_installed-Spends P.discovery service.spec.config.database.type))
            (λ installed.
              Spends-if installed (Spends-pure tt 0 0)
                (install_operator-Spends service.spec.config.database.type P.pod_namespace)))
          (Spends-pure tt 0 0)

    ensure_secret-Spends : Spends 20 2 (ensure_secret P service)
    unfolding ensure_secret
    ensure_secret-Spends =
        let type = service.spec.config.database.type in
        Spends-if (type == "redis")
          (Spends-if (service.spec.kubernetes_secret == "") (Spends-pure tt 20 2)
            (Spends-weaken 20 2 (redis-Spends service) (omega arith) (omega arith)))
          (Spends-if (type == "mongodb") (mongodb-Spends service)
            (Spends-if (type == "clickhouse") (clickhouse-Spends service) (Spends-pure tt 20 2)))

    abbrev reconcile_built : Outcome C.Failure (List RuntimeObject) → Action C (Unit {0})
    reconcile_built r =
        wrapping "failed to build database objects" (lift r)
        >>= (λ objects. reconcile_runtime_objects P.converter objects service)

    reconcile_built-Spends :
        (n : ℕ) (r : Outcome C.Failure (List RuntimeObject))
        → ((objects : List RuntimeObject) → r ≡ ok objects → length objects ≤ n)
        → Spends (51 * n) (6 * n) (reconcile_built r)
    unfolding wrapping ◌>>=◌
    reconcile_built-Spends n (ok objects) h =
        let s = reconcile_runtime_objects-Spends P.converter objects service in
        let le = h objects refl in
        record {
          time = λ w. omega (arith, s.time w, le);
          count = λ w. omega (arith, s.count w, le);
          quiet = λ w. s.quiet w;
        }
    reconcile_built-Spends n (err e) h = record {
      time = λ w. omega arith;
      count = λ w. omega arith;
      quiet = λ w. refl;
    }
    reconcile_built-Spends n panic h = record {
      time = λ w. omega arith;
      count = λ w. omega arith;
      quiet = λ w. refl;
    }

    -- When a database has at most `n` objects, one run over the database sleeps at most 20 seconds and
    -- 51 more for each object, sends at most two updates and six more for each object, and leaves the
    -- status alone, whatever the server and the discovery client answer.
    pub reconcile_database-Spends :
        (n : ℕ)
        → ((objects : List RuntimeObject)
            → build_database_objects P.databases service ≡ ok objects
            → length objects ≤ n)
        → Spends (20 + 51 * n) (2 + 6 * n) (reconcile_database P service)
    unfolding reconcile_database
    reconcile_database-Spends n h = Spends-if (P.pod_namespace == "") (Spends-raise _ _ _) (
        Spends-weaken _ _
          (Spends-bind ensure_operator-Spends (λ _.
            Spends-bind ensure_secret-Spends
              (λ _. reconcile_built-Spends n (build_database_objects P.databases service) h)))
          (omega arith) (omega arith))
