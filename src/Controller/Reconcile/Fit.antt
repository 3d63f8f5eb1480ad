-- ===== src/Controller/Reconcile/Fit.antt =====
-- The services of `BuildServices`, as `reconcileServices` needs them.
use text.Mathlib.TextLemmas.{append_cancel_left, append-nil, cons≢nil}
use unbind_operator.Base.{
  ◌≡◌, refl, sym, ◌∙◌, inl, inr, ◌<>◌, ◌==◌, eq_iff, Bool-cases, false, ℤ, pos, int_eq, Option,
  none, some, List, [], ◌∷◌, ◌++◌, All, arith, is_empty,
}
use unbind_operator.Base.Outcome.{ok}
use unbind_operator.Api.{Service, PortSpec}
use unbind_operator.Kube.{ServicePort}
use unbind_operator.Builder.Labels.{build_object_meta}
use unbind_operator.Builder.Services.{
  Groups, group_port, group_ports, node_port_services, cluster_ip_services, build_services,
}
use unbind_operator.Controller.Services.Settled.{IsExplicit}
use unbind_operator.Controller.Services.Desired.{AreFit}

-- A node port that the specification asks for is not 0.
abbrev IsRequested : Option ℤ → Type 0
IsRequested none = Unit
IsRequested (some n) = int_eq n (pos 0) ≡ false

abbrev pub HasRequestedPort : PortSpec → Type 0
HasRequestedPort p = IsRequested p.node_port

All-append :
    (ps qs : List ServicePort) → All IsExplicit ps → All IsExplicit qs → All IsExplicit (ps ++ qs)
All-append [] qs h h' = h'
All-append (p ∷ ps) qs (e, h) h' = (e, All-append ps qs h h')

module _ (service : Service) where
  group_port-IsExplicit :
      (p : PortSpec) (n : Option ℤ) (g : Groups)
      → IsRequested n
      → All IsExplicit g.0
      → All IsExplicit (group_port service p n g).0
  group_port-IsExplicit p none (a, b) r h = h
  group_port-IsExplicit p (some n) (a, b) r h = All-append a _ h (r, tt)

  group_ports-IsExplicit :
      (ports : List PortSpec) (g : Groups)
      → All HasRequestedPort ports
      → All IsExplicit g.0
      → All IsExplicit (group_ports service ports g).0
  unfolding group_ports
  group_ports-IsExplicit [] g r h = h
  group_ports-IsExplicit (p ∷ ports) g (r, rs) h =
      group_ports-IsExplicit ports (group_port service p p.node_port g) rs
        (group_port-IsExplicit p p.node_port g r h)

  other_name : (service.name == (service.name <> "-nodeport")) ≡ false
  other_name = elim (Bool-cases (service.name == (service.name <> "-nodeport"))) [
    | inl same ↦
        let e : service.name <> "-nodeport" ≡ service.name <> "" =
          sym ((eq_iff service.name (service.name <> "-nodeport")).0 same)
          ∙ sym (append-nil service.name) in
        absurd (cons≢nil (append_cancel_left service.name "-nodeport" "" e))
    | inr other ↦ other
  ]

  built-AreFit :
      (F : Type 0) (ps qs : List ServicePort)
      → All IsExplicit ps
      → AreFit {F = F} (ok (node_port_services service ps ++ cluster_ip_services service qs))
  unfolding build_object_meta
  built-AreFit F [] [] h = (tt, tt)
  built-AreFit F [] (q ∷ qs) h = ((inl refl, tt), (tt, tt))
  built-AreFit F (p ∷ ps) [] h = ((inr h, tt), (tt, tt))
  built-AreFit F (p ∷ ps) (q ∷ qs) h =
      ((inr h, (inl refl, tt)), (((ground (arith, other_name), tt)), (tt, tt)))

  -- With the node ports that are asked for not 0, the built services are fit.
  pub build_services-AreFit :
      (F : Type 0)
      → All HasRequestedPort service.spec.config.ports
      → AreFit {F = F} (build_services service)
  unfolding build_services
  build_services-AreFit F h =
      let g = group_ports service service.spec.config.ports ([], []) in
      elim (Bool-cases (is_empty service.spec.config.ports)) [
        | inl none_asked ↦ rw none_asked tt
        | inr some_asked ↦ rw some_asked (
            built-AreFit F g.0 g.1 (group_ports-IsExplicit service.spec.config.ports ([], []) h tt))
      ]
