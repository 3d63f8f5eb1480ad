-- ===== src/Builder/Ingress/Rules.antt =====
-- The rules of `BuildIngress`.
use unbind_operator.Base.{
  ℤ, String, true, List, [], ◌∷◌, ◌≡◌, ◌≢◌, refl, map, All, arith, deref_or, eq_iff,
}
use unbind_operator.Base.Outcome.{ok}
use unbind_operator.Api.{Service, HostSpec, PortSpec}
use unbind_operator.Kube.{IngressRule, Ingress}
use unbind_operator.Builder.Ingress.{
  build_ingress, ingress_rule, with_first_port, tls_host, ingress_of,
}

abbrev pub rule_host : IngressRule → String
rule_host r = r.host

-- A rule leads to the service of the same name, and its path is not empty.
abbrev pub IsServed : Service → IngressRule → Type 0
IsServed service r = (r.backend_name ≡ service.name) × (r.path ≢ "")

-- The port of a host, or the first port of the service
abbrev pub backend_port : PortSpec → HostSpec → ℤ
backend_port first host = deref_or host.port first.port

abbrev pub rule_port : IngressRule → ℤ
rule_port r = r.backend_port

rules-host :
    (service : Service) (p : ℤ) (hosts : List HostSpec)
    → map rule_host (map (ingress_rule service p) hosts) ≡ map tls_host hosts
unfolding ingress_rule
rules-host service p [] = refl
rules-host service p (h ∷ hosts) = cc (rules-host service p hosts)

rules-port :
    (service : Service) (first : PortSpec) (hosts : List HostSpec)
    → map rule_port (map (ingress_rule service first.port) hosts) ≡ map (backend_port first) hosts
unfolding ingress_rule
rules-port service first [] = refl
rules-port service first (h ∷ hosts) = cc (rules-port service first hosts)

rule-IsServed :
    (service : Service) (p : ℤ) (h : HostSpec) → IsServed service (ingress_rule service p h)
unfolding ingress_rule
rule-IsServed service p h = (refl, ground (arith, eq_iff h.path "", eq_iff "/" ""))

rules-IsServed :
    (service : Service) (p : ℤ) (hosts : List HostSpec)
    → All (IsServed service) (map (ingress_rule service p) hosts)
rules-IsServed service p [] = tt
rules-IsServed service p (h ∷ hosts) = (rule-IsServed service p h, rules-IsServed service p hosts)

-- What a built ingress holds, for the first port of the service
pub record Serves (service : Service) (first : PortSpec) (i : Ingress) : Type 0 where
  pub hosts : map rule_host i.spec.rules ≡ map tls_host service.spec.config.hosts
  pub tls : i.spec.tls_hosts ≡ map tls_host service.spec.config.hosts
  pub ports : map rule_port i.spec.rules ≡ map (backend_port first) service.spec.config.hosts
  pub served : All (IsServed service) i.spec.rules

ingress_of-Serves :
    (service : Service) (first : PortSpec) → Serves service first (ingress_of service first.port)
ingress_of-Serves service first = record {
  hosts = rules-host service first.port service.spec.config.hosts;
  tls = refl;
  ports = rules-port service first service.spec.config.hosts;
  served = rules-IsServed service first.port service.spec.config.hosts;
}

-- If `BuildIngress` succeeds, the service is public and has a host and a first port, and the ingress
-- has, in the order of the hosts, one rule and one TLS host for each host; the rule leads to the
-- service at the host's port, or at the first port of the service if the host has none, under a path
-- that is not empty.
pub build_ingress-Serves :
    {F : Type 0} (service : Service) (i : Ingress)
    → build_ingress {F = F} service ≡ ok i
    → (first : PortSpec) × (rest : List PortSpec) × (service.spec.config.ports ≡ first ∷ rest)
      × (service.spec.config.public ≡ true)
      × (service.spec.config.hosts ≢ [])
      × Serves service first i
unfolding build_ingress
build_ingress-Serves {F} service i h = go service.spec.config.ports refl h
  where
    go :
        (ports : List PortSpec)
        → service.spec.config.ports ≡ ports
        → with_first_port {F = F} service ports ≡ ok i
        → (first : PortSpec) × (rest : List PortSpec) × (service.spec.config.ports ≡ first ∷ rest)
          × (service.spec.config.public ≡ true)
          × (service.spec.config.hosts ≢ [])
          × Serves service first i
    go [] e h = cc
    go (first ∷ rest) e h =
        let same : ingress_of service first.port ≡ i = ground arith in
        (first, rest, e, ground arith, ground arith, rw same at (ingress_of-Serves service first))
