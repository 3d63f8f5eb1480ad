-- ===== src/Operator.antt =====
-- internal/operator/manager.go: the operators of MySQL and ClickHouse are installed when they are
-- missing.
pub mod Repeated
use unbind_operator.Base.{
  ◌<>◌, String, Bool, true, false, ◌||◌, ◌⊎◌, inl, inr, List, [], ◌∷◌, ◌==◌, pos, if◌then◌else◌,
}
use unbind_operator.Base.Text.{equal_fold}
use unbind_operator.Base.Outcome.{failure, wrap, message}
use unbind_operator.Kube.{Kind, Custom}
use unbind_operator.Kube.Dynamic.{Value, obj, str, int, null, end, field, arr, nil, cons, bool}
use unbind_operator.Client.{Client}
use unbind_operator.Client.Monad.{
  Action, pure, raise, handle, wrapping, done, ◌>>=◌, is_already_exists, create,
}

-- The discovery client: the kinds of a group and version
pub record Discovery (F : Type 0) : Type 0 where
  pub server_resources : String → F ⊎ List String
  pub is_group_discovery_failed : F → Bool

-- Some resource has this kind, whatever the case of its letters.
unfoldable pub has_kind : String → List String → Bool
has_kind kind [] = false
has_kind kind (k ∷ kinds) = equal_fold k kind || has_kind kind kinds

-- The names that an installation uses
pub record Chart : Type 0 where
  pub name : String
  pub url : String
  pub chart : String
  pub version : String
  pub values : Value

abbrev resources : Value
resources =
    obj (field "requests" (obj (field "cpu" (str "10m") (field "memory" (str "20Mi") end))) end)

abbrev pub moco : Chart
moco = record {
  name = "moco-operator";
  url = "https://cybozu-go.github.io/moco/";
  chart = "moco";
  version = "0.17.0";
  values = obj (field "replicaCount" (int (pos 1)) (field "resources" resources end));
}

abbrev clickhouse_values : Value
clickhouse_values = obj (
    field "metrics" (obj (field "enabled" (bool false) end)) (
      field "operator"
        (obj (
          field "env"
            (arr (
              cons (obj (field "name" (str "WATCH_NAMESPACES") (field "value" (str ".*") end)))
                nil))
            (field "image"
              (obj (
                field "pullPolicy" (str "IfNotPresent")
                  (field "repository" (str "altinity/clickhouse-operator") end)))
              (field "resources" resources end))))
        (field "rbac" (obj (field "create" (bool true) end)) (
          field "secret"
            (obj (
              field "create" (bool true) (
                field "password" (str "clickhouse_operator_password")
                  (field "username" (str "clickhouse_operator") end))))
            (field "serviceAccount" (obj (field "create" (bool true) end)) end)))))

abbrev pub altinity : Chart
altinity = record {
  name = "clickhouse-operator";
  url = "https://docs.altinity.com/clickhouse-operator/";
  chart = "altinity-clickhouse-operator";
  version = "0.25.0";
  values = clickhouse_values;
}

-- One hour, in nanoseconds
abbrev interval : Value
interval = int (pos 3600000000000)

abbrev custom : String → String → Value → Custom
custom name namespace spec = record {
  meta = record {
    name = name;
    namespace = namespace;
    labels = [];
    annotations = [];
    owner_references = [];
  };
  spec = spec;
  status = null;
}

unfoldable pub chart_repository : Chart → String → Custom
chart_repository c namespace =
    custom c.name namespace (obj (field "interval" interval (field "url" (str c.url) end)))

unfoldable pub chart_release : Chart → String → Custom
chart_release c namespace =
    let source = obj (
      field "kind" (str "HelmRepository")
        (field "name" (str c.name) (field "namespace" (str namespace) end))) in
    let spec = obj (
      field "chart" (str c.chart)
        (field "sourceRef" source (field "version" (str c.version) end))) in
    custom c.name namespace (
      obj (
        field "chart" (obj (field "spec" spec end))
          (field "interval" interval (field "values" c.values end))))

module _ {C : Client} (D : Discovery C.Failure) where
  -- The search for a kind of a group; a group that cannot be found has not the kind.
  unfoldable pub has_resource : String → String → String → Action C Bool
  unfolding has_kind
  has_resource group kind name = elim (D.server_resources group) [
    | inl f ↦
        if D.is_group_discovery_failed f || C.is_not_found f
        then pure false
        else raise (wrap ("failed to check " <> name <> " operator installation") (failure f))
    | inr kinds ↦ pure (has_kind kind kinds)
  ]

  unfoldable pub is_operator_installed : String → Action C Bool
  unfolding has_resource
  is_operator_installed operator_type =
      if operator_type == "mysql"
      then has_resource "moco.cybozu.com/v1beta2" "MySQLCluster" "MOCO"
      else if operator_type == "clickhouse"
      then has_resource "clickhouse.altinity.com/v1" "ClickHouseInstallation" "ClickHouse"
      else raise (message ("unsupported operator type: " <> operator_type))

module _ {C : Client} where
  -- `if err := Create(o); err != nil && !errors.IsAlreadyExists(err) { return … }`
  abbrev pub create_once : String → Action C (Unit {0}) → Action C (Unit {0})
  create_once text creation =
      handle creation
        (λ e. if is_already_exists C e then done else raise (wrap ("failed to create " <> text) e))
        (λ _. done)

  -- `installMySQLOperator` and `installClickHouseOperator`
  unfoldable pub install_chart : Chart → String → Action C (Unit {0})
  unfolding handle ◌>>=◌ chart_repository chart_release
  install_chart c namespace =
      create_once "HelmRepository" (create Kind.helm_repository (chart_repository c namespace))
      >>= (λ _. create_once "HelmRelease" (create Kind.helm_release (chart_release c namespace)))

  unfoldable pub install_operator : String → String → Action C (Unit {0})
  unfolding install_chart
  install_operator operator_type namespace =
      if operator_type == "mysql"
      then install_chart moco namespace
      else if operator_type == "clickhouse"
      then install_chart altinity namespace
      else raise (message ("unsupported operator type: " <> operator_type))

  unfoldable pub ensure_operator_installed :
      Discovery C.Failure → String → String → Action C (Unit {0})
  unfolding wrapping ◌>>=◌ is_operator_installed install_operator
  ensure_operator_installed D operator_type namespace =
      wrapping "failed to check if operator is installed" (is_operator_installed D operator_type)
      >>= (λ installed. if installed then done else install_operator operator_type namespace)
