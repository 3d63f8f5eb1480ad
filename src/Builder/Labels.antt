-- ===== src/Builder/Labels.antt =====
-- internal/resourcebuilder/resourcebuilder.go: labels, annotations and object metadata.
pub mod Selectors
use unbind_operator.Base.{String, ◌<>◌, [], ◌==◌, if◌then◌else◌}
use unbind_operator.Base.Dict.{Dict, insert}
use unbind_operator.Api.{Service}
use unbind_operator.Kube.{ObjectMeta}

-- `getLabelSelectors`
unfoldable pub get_label_selectors : Service → Dict String
get_label_selectors service = insert "app.kubernetes.io/name" service.name (
    insert "app.kubernetes.io/instance" service.name
      (insert "app.kubernetes.io/managed-by" "unbind-operator" []))

-- `getCommonLabels`
unfoldable pub get_common_labels : Service → Dict String
get_common_labels service =
    let labels = insert "unbind-deployment" service.spec.deployment_ref (
      insert "unbind-environment" service.spec.environment_ref (
        insert "unbind-service" service.spec.service_ref (
          insert "unbind-project" service.spec.project_ref
            (insert "unbind-team" service.spec.team_ref (get_label_selectors service))))) in
    let with_provider =
      if service.spec.provider == ""
      then labels
      else insert "unbind-provider" service.spec.provider labels in
    if service.spec.framework == ""
    then with_provider
    else insert "unbind-framework" service.spec.framework with_provider

-- `buildObjectMeta`
unfoldable pub build_object_meta : Service → ObjectMeta
build_object_meta service = record {
  name = service.name;
  namespace = service.namespace;
  labels = get_common_labels service;
  annotations = [];
  owner_references = [];
}

-- `buildPodAnnotations`
unfoldable pub build_pod_annotations : Service → Dict String
build_pod_annotations service = []

-- `buildIngressAnnotations`
unfoldable pub build_ingress_annotations : Service → Dict String
build_ingress_annotations service = insert "kubernetes.io/tls-acme" "true" (
    insert "nginx.ingress.kubernetes.io/eventsource" "true" (
      insert "nginx.ingress.kubernetes.io/add-base-url" "true" (
        insert "nginx.ingress.kubernetes.io/ssl-redirect" "true" (
          insert "nginx.ingress.kubernetes.io/websocket-services" (service.name <> "-service") (
            insert "nginx.ingress.kubernetes.io/proxy-send-timeout" "1800" (
              insert "nginx.ingress.kubernetes.io/proxy-read-timeout" "21600" (
                insert "nginx.ingress.kubernetes.io/proxy-body-size" "10m" (
                  insert "nginx.ingress.kubernetes.io/upstream-hash-by" "$realip_remote_addr" (
                    insert "nginx.ingress.kubernetes.io/affinity" "cookie" (
                      insert "nginx.ingress.kubernetes.io/session-cookie-name"
                        (service.name <> "-session")
                        (insert "nginx.ingress.kubernetes.io/session-cookie-expires" "172800" (
                          insert "nginx.ingress.kubernetes.io/session-cookie-max-age" "172800"
                            []))))))))))))
