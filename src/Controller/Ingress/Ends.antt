-- ===== src/Controller/Ingress/Ends.antt =====
-- What `reconcileIngress` leaves on the server when it succeeds.
use unbind_operator.Base.{◌≡◌, ◌∙◌, inl, inr, refl, false, none, some, arith}
use unbind_operator.Base.Equal.{deep_equal_iff}
use unbind_operator.Base.Outcome.{
  Outcome, ok, err, panic, failure, wrap, message, deployment_not_needed, service_not_needed,
  ingress_not_needed,
}
use unbind_operator.Api.{Service}
use unbind_operator.Kube.{Ingress, ObjectMeta, IngressSpec-discrete}
use unbind_operator.Client.{Client}
use unbind_operator.Client.View.{Tracked, View, put, look-key, look-put, look-assign_same}
use unbind_operator.Client.Frames.{IsStable, Framed, Framed-put, Framed-remove}
use unbind_operator.Client.Stores.{Stores}
use unbind_operator.Client.Triples.{
  Triple, Triple-bind, Triple-get, Triple-create, Triple-update, Triple-delete, Triple-pure,
  Triple-raise, Triple-crash, Triple-wrapping, Triple-if, Triple-own, Triple-weaken,
}
use unbind_operator.Client.Monad.{is_not_found, is_conflict}
use unbind_operator.Controller.Retry.{ResourceBuilder}
use unbind_operator.Controller.Retry.Ends.{AfterRound, retry-Triple}
use unbind_operator.Controller.Ingress.{
  ingress_differs, remove_ingress, ingress_round, apply_ingress, on_build, reconcile_ingress,
}

-- The server has the ingress with the desired specification.
pub record HasIngress (d : Ingress) (v : View) : Type 0 where
  pub stored : Ingress
  pub is_stored : v.ingresses d.meta.namespace d.meta.name ≡ some stored
  pub same_spec : stored.spec ≡ d.spec

-- The server has what the builder made, or nothing if none is needed.
abbrev pub IngressMatches : {F : Type 0} → Service → Outcome F Ingress → View → Type 0
IngressMatches service (ok d) v = HasIngress d v
IngressMatches service (err e) v =
    (e ≡ ingress_not_needed) × (v.ingresses service.namespace service.name ≡ none)
IngressMatches service panic v = ⊥

same_ingress : (existing d : Ingress) → ingress_differs existing d ≡ false → existing.spec ≡ d.spec
unfolding ingress_differs
same_ingress existing d h = ground (arith, deep_equal_iff IngressSpec-discrete existing.spec d.spec)

abbrev with_spec : ObjectMeta → Ingress → Ingress
with_spec meta d = record { meta = meta; spec = d.spec }

has_sent :
    (meta : ObjectMeta) (d : Ingress) (v : View)
    → meta.namespace ≡ d.meta.namespace
    → meta.name ≡ d.meta.name
    → HasIngress d (put Tracked.ingress (with_spec meta d) v)
has_sent meta d v e e' = record {
  stored = with_spec meta d;
  is_stored = look-put Tracked.ingress (with_spec meta d) d.meta.namespace d.meta.name v e e';
  same_spec = refl;
}

module _ {C : Client} (S : Stores C) (R : View → Type 0) (stable : IsStable Tracked.ingress R) where
  round-Triple :
      (service : Service) (d : Ingress) (x : Unit {0})
      → Triple S
          (Framed R)
          (ingress_round service d x)
          (AfterRound (λ _. Unit) (Framed R) (λ _ v. Framed R v × HasIngress d v))
  unfolding ingress_round
  round-Triple service d x =
      Triple-get S Tracked.ingress d.meta.namespace d.meta.name
        (λ e missing.
          Triple-if S (is_not_found C e) _ _
            (λ _. Triple-bind S (Triple-wrapping S _ _ (Triple-own S service d.meta)) (λ meta.
              Triple-bind S
                (Triple-create S Tracked.ingress (record d { meta = meta })
                  {Q = λ _ v. Framed R v × HasIngress d v}
                  (λ v ((f, _), m). (
                    Framed-put Tracked.ingress R stable (record d { meta = meta }) v f,
                    has_sent meta d v m.same_namespace m.same_name,
                  )))
                (λ _. Triple-pure S (inr tt) (λ v h. h))))
            (λ h. absurd (ground arith)))
        (λ e other.
          Triple-if S (is_not_found C e) _ _ (λ h. absurd (ground arith)) (λ _. Triple-raise S _))
        (λ existing.
          Triple-if S (ingress_differs existing d) _ _
            (λ differs.
              Triple-bind S (Triple-wrapping S _ _ (Triple-own S service existing.meta)) (λ meta.
                Triple-update S Tracked.ingress (with_spec meta d)
                  {P' = λ v. Framed R v × HasIngress d v}
                  (λ v ((f, found), m). (
                    Framed-put Tracked.ingress R stable (with_spec meta d) v f,
                    (let (e, e') = look-key Tracked.ingress _ _ existing v f.0 found in
                        has_sent meta d v (m.same_namespace ∙ e) (m.same_name ∙ e')),
                  ))
                  (λ e.
                    Triple-if S (is_conflict C e) _ _
                      (λ _. Triple-pure S (inl tt) (λ v ((f, found), m). (tt, f)))
                      (λ _. Triple-raise S _))
                  (λ _. Triple-pure S (inr tt) (λ v h. h))))
            (λ same.
              let e = same_ingress existing d same in
              Triple-pure S (inr tt) (λ v (f, found).
                (f, record { stored = existing; is_stored = found; same_spec = e }))))

  apply_ingress-Triple :
      (service : Service) (d : Ingress)
      → Triple S (Framed R) (apply_ingress service d) (λ _ v. Framed R v × HasIngress d v)
  unfolding apply_ingress
  apply_ingress-Triple service d =
      retry-Triple S (ingress_round service d) _ (λ _. Unit) (λ _. Unit) (Framed R)
        (λ _ v. Framed R v × HasIngress d v) (λ x _. round-Triple service d x) (λ x _. tt)
        (λ x _. Triple-raise S _) 4 1 tt tt

  remove_ingress-Triple :
      (service : Service)
      → Triple S
          (Framed R)
          (remove_ingress service)
          (λ _ v. Framed R v × (v.ingresses service.namespace service.name ≡ none))
  unfolding remove_ingress
  remove_ingress-Triple service =
      Triple-get S Tracked.ingress service.namespace service.name
        (λ e missing.
          Triple-if S (is_not_found C e) _ _ (λ _. Triple-pure S tt (λ v h. h))
            (λ h. absurd (ground arith)))
        (λ e other.
          Triple-if S (is_not_found C e) _ _ (λ h. absurd (ground arith)) (λ _. Triple-raise S _))
        (λ existing. Triple-wrapping S _ _ (
          Triple-delete S Tracked.ingress existing.meta.namespace existing.meta.name
            (λ v (f, found). (
              Framed-remove Tracked.ingress R stable existing.meta.namespace existing.meta.name v f,
              (let (e, e') = look-key Tracked.ingress _ _ existing v f.0 found in
                  rw (← e, ← e')
                    (look-assign_same Tracked.ingress existing.meta.namespace existing.meta.name
                      none v)),
            ))))

  on_build-Triple :
      (service : Service) (r : Outcome C.Failure Ingress)
      → Triple S (Framed R) (on_build service r) (λ _ v. Framed R v × IngressMatches service r v)
  on_build-Triple service (ok d) = apply_ingress-Triple service d
  on_build-Triple service (err deployment_not_needed) = Triple-raise S _
  on_build-Triple service (err service_not_needed) = Triple-raise S _
  on_build-Triple service (err ingress_not_needed) =
      Triple-weaken S (λ v f. f) (λ _ v (f, gone). (f, (refl, gone)))
        (remove_ingress-Triple service)
  on_build-Triple service (err (failure f)) = Triple-raise S _
  on_build-Triple service (err (wrap m e)) = Triple-raise S _
  on_build-Triple service (err (message m)) = Triple-raise S _
  on_build-Triple service panic = Triple-crash S

  pub reconcile_ingress-Triple :
      (rb : ResourceBuilder C.Failure) (service : Service)
      → Triple S
          (Framed R)
          (reconcile_ingress rb service)
          (λ _ v. Framed R v × IngressMatches service rb.build_ingress v)
  unfolding reconcile_ingress
  reconcile_ingress-Triple rb service = on_build-Triple service rb.build_ingress
