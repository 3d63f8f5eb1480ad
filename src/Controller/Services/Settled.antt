-- ===== src/Controller/Services/Settled.antt =====
-- `reconcileServices` on a service that exists.
use unbind_operator.Base.{
  ◌≡◌, refl, false, inr, inl, ◌⊎◌, ◌∷◌, [], List, arith, pos, int_eq, All, ◌==◌, Bool-cases,
}
use text.Mathlib.TextPositions.{eq_refl}
use unbind_operator.Base.Equal.{deep_equal_self}
use unbind_operator.Base.Outcome.{ok}
use unbind_operator.Api.{Service}
use unbind_operator.Kube.{
  Kind, CoreService, ServicePort, ObjectMeta, ports_discrete, labels_discrete,
}
use unbind_operator.Client.{Client, getting}
use unbind_operator.Client.Monad.{World, get, handle, ◌>>=◌}
use unbind_operator.Controller.Retry.{retry}
use unbind_operator.Controller.Services.{
  copy_node_ports, adopt, service_differs, service_round, apply_service,
}
use unbind_operator.Controller.Services.NodePorts.{copy_node_port-set}

-- A port whose node port is set
abbrev pub IsExplicit : ServicePort → Type 0
IsExplicit p = int_eq p.node_port (pos 0) ≡ false

copy_node_ports-explicit :
    (desired existing : List ServicePort)
    → All IsExplicit desired
    → copy_node_ports desired existing ≡ desired
unfolding copy_node_ports
copy_node_ports-explicit [] existing h = refl
copy_node_ports-explicit (p ∷ desired) existing (h, hs) =
    rw (copy_node_port-set p existing h, copy_node_ports-explicit desired existing hs) refl

-- The service that an update sends
abbrev pub sent : ObjectMeta → CoreService → CoreService → CoreService
sent meta existing desired = record { meta = meta; spec = (adopt existing desired).spec }

-- Where no node port is to be copied, only the cluster IP is.
pub adopt-plain :
    (existing desired : CoreService)
    → ((desired.spec.type == "NodePort") ≡ false) ⊎ All IsExplicit desired.spec.ports
    → adopt existing desired
      ≡ record desired { spec = record desired.spec { cluster_ip = existing.spec.cluster_ip } }
unfolding adopt
adopt-plain existing desired (inl other) = rw other refl
adopt-plain existing desired (inr explicit) = elim (Bool-cases (desired.spec.type == "NodePort")) [
  | inl node_port ↦
      rw (node_port, copy_node_ports-explicit desired.spec.ports existing.spec.ports explicit) refl
  | inr other ↦ rw other refl
]

sent-same :
    (meta : ObjectMeta) (existing desired : CoreService)
    → ((desired.spec.type == "NodePort") ≡ false) ⊎ All IsExplicit desired.spec.ports
    → service_differs (sent meta existing desired) (adopt (sent meta existing desired) desired)
      ≡ false
unfolding service_differs
sent-same meta existing desired h =
    rw (adopt-plain (sent meta existing desired) desired h, adopt-plain existing desired h)
      (simp (deep_equal_self ports_discrete, deep_equal_self labels_discrete, eq_refl) refl)

module _ {C : Client} where
  -- A desired service without node ports to copy: it is of another type, or all its node ports are
  -- set. When the server answers with what an update of such a service has sent, then the method
  -- makes one call, the lookup, and succeeds.
  pub apply_service-settled :
      (service : Service) (existing desired : CoreService) (meta : ObjectMeta) (w : World C)
      → ((desired.spec.type == "NodePort") ≡ false) ⊎ All IsExplicit desired.spec.ports
      → (C.get Kind.core_service desired.meta.namespace desired.meta.name w.state).0
        ≡ inr (sent meta existing desired)
      → ((apply_service service desired w).0 ≡ ok tt)
        × ((apply_service service desired w).1.log
            ≡ getting Kind.core_service desired.meta.namespace desired.meta.name ∷ w.log)
  unfolding apply_service retry service_round handle ◌>>=◌ get
  apply_service-settled service existing desired meta w h found =
      let same = sent-same meta existing desired h in (ground arith, ground arith)
