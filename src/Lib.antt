-- ===== src/Lib.antt =====
-- unbind-operator, a Kubernetes operator in Go. It watches the custom resource Service
-- (api/v1/service_types.go) and keeps the objects of each service as the resource describes them:
-- a deployment, core services and an ingress on the generic path, and the objects of a rendered
-- database definition, with their secrets, on the database path.
--
-- The parts and the files that model them:
--   * api/v1/service_types.go: the resource and `AsMap`. Api, Api/Database.
--   * internal/resourcebuilder: `ResourceBuilder` computes the wanted objects from a service, without
--     calls. Builder/Labels (resourcebuilder.go), Builder/Command, Builder/Probes,
--     Builder/Resources and Builder/Deployment (deployment.go), Builder/Services (service.go),
--     Builder/Ingress (ingress.go), Builder/Database (database.go).
--   * internal/operator/manager.go: `OperatorManager` installs the operators of MySQL and ClickHouse.
--     Operator.
--   * internal/controller/service_controller.go: `ServiceReconciler`. Controller/Reconcile
--     (`Reconcile`), Controller/Finalize, Controller/Deployment, Controller/Services,
--     Controller/Ingress with the retry loop that they share in Controller/Retry,
--     Controller/Database (`reconcileDatabase`), Controller/Secrets and Controller/Password
--     (generated secrets), Controller/Custom (`reconcilePostgresql` and the others),
--     Controller/Copy and Controller/Credentials (`copyMySQLCredentials` and the others),
--     Controller/Job, Controller/Runtime (`reconcileRuntimeObjects`), Controller/Dynamic (the
--     comparison and update of objects of any type).
--   * Kube: the Kubernetes objects with the fields that the operator sets or reads; `extra` stands
--     for the other fields, those of a container included. Base: strings, maps, integers and outcomes.
--
-- How the code corresponds to the model. A method of the reconciler is an `Action` (Client/Monad): a
-- function of the state of the cluster and the log of the calls so far, that gives an outcome (a
-- value, an error or a panic), a new state and a new log. A call takes effect when it is made, and
-- stays when a later one fails. The API server, controller-runtime, the random source and the passing
-- of time are the record `Client`, a parameter of every definition, with any state and any answers:
-- other actors may change objects between two calls. The conversions of apimachinery (`Converter`),
-- the discovery client (`Discovery`), the database definitions of unbind-api (`Databases`) and the
-- functions on finalizers (`Platform`) are parameters too. Tests/Server has one concrete server, on
-- which most theorems are applied.
--
-- The abstract specification of the generic path. Client/View is what the server holds of
-- services, deployments, core services and ingresses, by namespace and name; `Matches`
-- (Controller/Reconcile/Converges) is the view that a service asks for. Theorems about the whole path
-- assume a server, in three steps: `Stores` (Client/Stores: a successful call has its effect, a failed
-- update has none, a lookup tells what is there, and no one else writes these objects meanwhile; an
-- empty map or slice of a deployment is left out when it is sent and read back as nil, Client/Reading,
-- so `Matches` compares the specification of a deployment up to nil and empty),
-- `Answers` (Client/Quiet: a lookup only fails on what is missing) and `Accepts` (Client/Runs: no
-- write is refused and no object belongs to another controller). So defaults that a server fills in,
-- stale caches and conflicts with other writers are outside these theorems, but not outside the
-- others. Client/Triples, Client/Stored, Client/Quiet, Client/Rewrites and Client/Runs have one rule for each way to
-- build an action; the files Ends, Idle and Runs of Controller/Retry, Controller/Deployment,
-- Controller/Services (Cleanup and Progress as well) and Controller/Ingress apply them.
-- Tests/Cluster is such a server.
-- Bounds on time and updates need no such server: Client/Spends and Client/Costs have their rules, and
-- the files Bounds and Controller/Retry/Costs apply them.
--
-- Bounds and fuel. Loops over lists are structural. The retry loop counts its rounds as the code does
-- (5), the wait for a secret counts 10, and the wait for the deletion of a job counts 10, so no
-- definition needs other fuel. int64 wraps round modulo 2 ^ 64 in Builder/Resources.
--
-- Maps keyed by strings are association lists in ascending order of the keys, so that equal maps are
-- equal lists. Maps and slices that `reflect.DeepEqual` can find nil on one side and empty on the
-- other in what the operator compares are an `Option`, with `none` for nil: the pod annotations, the
-- pull secrets, and the ports and mounts of a container. A quantity is its value: the forms in which
-- `resource.Quantity` keeps equal values are not told apart, so the code may find a difference of
-- resources where the model has none. `strings.ToLower` is modelled for ASCII letters, and the 15
-- bytes that a cluster name keeps of a reference are 15 characters: the names are those of the code
-- where the specification's name and reference are ASCII. The client sees the finalizers of a
-- service and whether it has a deletion timestamp.
--
-- Not modelled: logging and metrics, cmd/main.go, registration and generated code, mocks and tests,
-- the YAML under config and dist, `SetupWithManager`, and internal/utils/converter.go, which nothing
-- uses.
pub mod Base
pub mod Api
pub mod Kube
pub mod Client
pub mod Builder
pub mod Operator
pub mod Controller
pub mod Tests
