-- ===== src/Builder/Probes.antt =====
-- The probes of internal/resourcebuilder/deployment.go. The outer `Option` of a result is a panic
-- of `parseCommand`, the inner one the nil probe.
use unbind_operator.Base.{
  String, ℤ, pos, Option, none, some, List, [], ◌∷◌, ◌==◌, if◌then◌else◌, deref_or, is_empty,
}
use unbind_operator.Api.{Service, HealthCheckSpec, PortSpec}
use unbind_operator.Kube.{Probe}
use unbind_operator.Builder.Command.{parse_command}

-- The port of an HTTP probe: the one of the health check, else the first of the service.
abbrev pub probe_port : Option ℤ → List PortSpec → Option ℤ
probe_port (some port) _ = some port
probe_port none [] = none
probe_port none (p ∷ _) = some p.port

abbrev http_probe : Probe → String → Option ℤ → Option Probe
http_probe probe path none = none
http_probe probe path (some port) =
    some (record probe { http_get = some ((if path == "" then "/health" else path), port) })

abbrev exec_probe : Probe → Option (List String) → Option (Option Probe)
exec_probe probe none = none
exec_probe probe (some command) =
    some (if is_empty command then none else some (record probe { exec = some command }))

-- `buildProbe`
unfoldable pub build_probe : Service → HealthCheckSpec → ℤ → ℤ → ℤ → Option (Option Probe)
build_probe service health_check failure_threshold period_seconds timeout_seconds =
    let probe : Probe = record {
      period_seconds = period_seconds;
      timeout_seconds = timeout_seconds;
      failure_threshold = failure_threshold;
      http_get = none;
      exec = none;
    } in
    if health_check.type == "http"
    then some (
        http_probe probe health_check.path (probe_port health_check.port service.spec.config.ports))
    else if health_check.type == "exec"
    then (if health_check.command == ""
        then some none
        else exec_probe probe (parse_command health_check.command))
    else some none

module _ (service : Service) where
  abbrev when_checked : (HealthCheckSpec → Option (Option Probe)) → Option (Option Probe)
  when_checked build = elim service.spec.config.health_check [ none ↦ some none | some h ↦ build h ]

  -- `buildLivenessProbe`
  unfoldable pub build_liveness_probe : Option (Option Probe)
  build_liveness_probe = when_checked λ h.
      build_probe service h (deref_or h.health_failure_threshold (pos 3))
        (deref_or h.health_period_seconds (pos 10)) (deref_or h.health_timeout_seconds (pos 5))

  -- `buildReadinessProbe`
  unfoldable pub build_readiness_probe : Option (Option Probe)
  build_readiness_probe = when_checked λ h.
      build_probe service h (deref_or h.health_failure_threshold (pos 3))
        (deref_or h.health_period_seconds (pos 10)) (deref_or h.health_timeout_seconds (pos 5))

  -- `buildStartupProbe`
  unfoldable pub build_startup_probe : Option (Option Probe)
  build_startup_probe = when_checked λ h.
      build_probe service h (deref_or h.startup_failure_threshold (pos 30))
        (deref_or h.startup_period_seconds (pos 3)) (deref_or h.startup_timeout_seconds (pos 5))
