-- ===== src/Controller/Ingress/Settled.antt =====
-- `reconcileIngress` on an ingress that exists.
use unbind_operator.Base.{◌≡◌, refl, false, inr, ◌∷◌, arith}
use unbind_operator.Base.Equal.{deep_equal_self}
use unbind_operator.Base.Outcome.{ok}
use unbind_operator.Api.{Service}
use unbind_operator.Kube.{Kind, Ingress, ObjectMeta, IngressSpec-discrete}
use unbind_operator.Client.{Client, getting}
use unbind_operator.Client.Monad.{World, get, handle, ◌>>=◌}
use unbind_operator.Controller.Retry.{retry}
use unbind_operator.Controller.Ingress.{ingress_differs, ingress_round, apply_ingress}

same_spec :
    (meta : ObjectMeta) (desired : Ingress)
    → ingress_differs (record { meta = meta; spec = desired.spec }) desired ≡ false
unfolding ingress_differs
same_spec meta desired = rw (deep_equal_self IngressSpec-discrete desired.spec) refl

module _ {C : Client} where
  -- When the server answers with the desired specification under any metadata, then the loop makes
  -- one call, the lookup, and succeeds.
  pub apply_ingress-settled :
      (service : Service) (desired : Ingress) (meta : ObjectMeta) (w : World C)
      → (C.get Kind.ingress desired.meta.namespace desired.meta.name w.state).0
        ≡ inr (record { meta = meta; spec = desired.spec })
      → ((apply_ingress service desired w).0 ≡ ok tt)
        × ((apply_ingress service desired w).1.log
            ≡ getting Kind.ingress desired.meta.namespace desired.meta.name ∷ w.log)
  unfolding apply_ingress retry ingress_round handle ◌>>=◌ get
  apply_ingress-settled service desired meta w found =
      let same = same_spec meta desired in (ground arith, ground arith)
