-- ===== src/Controller/Services/Ends.antt =====
-- What `reconcileServices` leaves on the server for one service, when it succeeds.
use unbind_operator.Base.{
  ap, sym, ◌≡◌, ◌∙◌, ◌⊎◌, inl, inr, refl, false, Option, none, some, arith, String, ◌==◌, All,
  eq_iff,
}
use unbind_operator.Base.Equal.{deep_equal_iff}
use unbind_operator.Base.Outcome.{Error}
use unbind_operator.Api.{Service}
use mathlib.Core.Path.{subst}
use unbind_operator.Kube.{CoreService, ObjectMeta, ports_discrete, labels_discrete}
use unbind_operator.Client.{Client}
use unbind_operator.Client.View.{Tracked, View, put, look-key, look-put}
use unbind_operator.Client.Frames.{IsStableAt, Framed, Framed-put_at}
use unbind_operator.Client.Stores.{Stores}
use unbind_operator.Client.Triples.{
  Triple, Triple-bind, Triple-get, Triple-create, Triple-update, Triple-pure, Triple-raise,
  Triple-wrapping, Triple-if, Triple-own,
}
use unbind_operator.Client.Monad.{pure, is_not_found, is_conflict}
use unbind_operator.Controller.Retry.Ends.{AfterRound, retry-Triple}
use unbind_operator.Controller.Services.{
  Vars, adopt, service_differs, service_round, check_error, apply_service,
}
use unbind_operator.Controller.Services.Settled.{IsExplicit, adopt-plain}

-- The server has the service with the desired ports, selector and type.
pub record HasService (d : CoreService) (v : View) : Type 0 where
  pub stored : CoreService
  pub is_stored : v.core_services d.meta.namespace d.meta.name ≡ some stored
  pub same_ports : stored.spec.ports ≡ d.spec.ports
  pub same_selector : stored.spec.selector ≡ d.spec.selector
  pub same_type : stored.spec.type ≡ d.spec.type

-- No node port is left for the server to choose.
abbrev pub IsPlain : CoreService → Type 0
IsPlain d = ((d.spec.type == "NodePort") ≡ false) ⊎ All IsExplicit d.spec.ports

same_service :
    (existing d : CoreService)
    → service_differs existing d ≡ false
    → (existing.spec.ports ≡ d.spec.ports)
      × (existing.spec.selector ≡ d.spec.selector)
      × (existing.spec.type ≡ d.spec.type)
unfolding service_differs
same_service existing d h = (
  ground (arith, deep_equal_iff ports_discrete existing.spec.ports d.spec.ports),
  ground (arith, deep_equal_iff labels_discrete existing.spec.selector d.spec.selector),
  ground (arith, eq_iff existing.spec.type d.spec.type),
)

-- `d` with another cluster IP
abbrev pub with_ip : CoreService → String → CoreService
with_ip d ip = record d { spec = record d.spec { cluster_ip = ip } }

abbrev sent_service : ObjectMeta → CoreService → CoreService
sent_service meta c = record { meta = meta; spec = c.spec }

has_sent :
    (meta : ObjectMeta) (d c : CoreService) (ip : String) (v : View)
    → c ≡ with_ip d ip
    → meta.namespace ≡ d.meta.namespace
    → meta.name ≡ d.meta.name
    → HasService d (put Tracked.core_service (sent_service meta c) v)
has_sent meta d c ip v same e e' = record {
  stored = sent_service meta c;
  is_stored =
      look-put Tracked.core_service (sent_service meta c) d.meta.namespace d.meta.name v e e';
  same_ports = ap (λ (x : CoreService). x.spec.ports) same;
  same_selector = ap (λ (x : CoreService). x.spec.selector) same;
  same_type = ap (λ (x : CoreService). x.spec.type) same;
}

has_found :
    (existing d c : CoreService) (ip : String) (v : View)
    → c ≡ with_ip d ip
    → v.core_services d.meta.namespace d.meta.name ≡ some existing
    → service_differs existing c ≡ false
    → HasService d v
has_found existing d c ip v same found h =
    let (e, e', e'') = same_service existing c h in
    record {
      stored = existing;
      is_stored = found;
      same_ports = e ∙ ap (λ (x : CoreService). x.spec.ports) same;
      same_selector = e' ∙ ap (λ (x : CoreService). x.spec.selector) same;
      same_type = e'' ∙ ap (λ (x : CoreService). x.spec.type) same;
    }

module _ {C : Client} (S : Stores C) (service : Service) (R : View → Type 0) (d : CoreService)
    (stable : IsStableAt Tracked.core_service R d.meta.namespace d.meta.name)
    (plain : IsPlain d) where
  -- The first variable is the desired service, but for its cluster IP.
  abbrev Copies : Vars C → Type 0
  Copies (c, e) = (ip : String) × (c ≡ with_ip d ip)

  abbrev Failed : Vars C → Type 0
  Failed (c, e) = ((ip : String) × (c ≡ with_ip d ip)) × ((x : Error C.Failure) × (e ≡ some x))

  -- The loop is left with no error only if the server has the service.
  abbrev Left : Option (Error C.Failure) → View → Type 0
  Left none v = Framed R v × HasService d v
  Left (some e) v = Unit

  plain_round :
      (ip : String) (old : Option (Error C.Failure))
      → Triple S
          (Framed R)
          (service_round service (with_ip d ip, old))
          (AfterRound Failed (Framed R) Left)
  unfolding service_round
  plain_round ip old =
      Triple-get S Tracked.core_service d.meta.namespace d.meta.name
        (λ e missing.
          Triple-if S (is_not_found C e) _ _
            (λ _. Triple-bind S (Triple-wrapping S _ _ (Triple-own S service d.meta)) (λ meta.
              Triple-bind S
                (Triple-wrapping S _ _ (
                  Triple-create S Tracked.core_service (sent_service meta (with_ip d ip))
                    {Q = λ _ v. Unit} (λ v h. tt)))
                (λ _. Triple-pure S (inr (some e)) (λ v h. tt))))
            (λ h. absurd (ground arith)))
        (λ e other.
          Triple-if S (is_not_found C e) _ _ (λ h. absurd (ground arith)) (λ _. Triple-raise S _))
        (λ existing.
          let c = adopt existing (with_ip d ip) in
          let same = adopt-plain existing (with_ip d ip) plain in
          Triple-if S (service_differs existing c) _ _
            (λ differs.
              Triple-bind S (Triple-wrapping S _ _ (Triple-own S service existing.meta)) (λ meta.
                Triple-update S Tracked.core_service (sent_service meta c)
                  {P' = λ v. Framed R v × HasService d v}
                  (λ v ((f, found), m).
                    let (e, e') = look-key Tracked.core_service _ _ existing v f.0 found in
                    (
                      Framed-put_at Tracked.core_service R d.meta.namespace d.meta.name stable
                          (sent_service meta c) v (m.same_namespace ∙ e) (m.same_name ∙ e') f,
                      has_sent meta d c existing.spec.cluster_ip v same (m.same_namespace ∙ e)
                          (m.same_name ∙ e'),
                    ))
                  (λ e.
                    Triple-if S (is_conflict C e) _ _
                      (λ _.
                        Triple-pure S (inl (c, some e))
                          (λ v ((f, found), m). (((existing.spec.cluster_ip, same), (e, refl)), f)))
                      (λ _. Triple-raise S _))
                  (λ _. Triple-pure S (inr none) (λ v h. h))))
            (λ h. Triple-pure S (inr none) (λ v (f, found).
              (f, has_found existing d c existing.spec.cluster_ip v same found h))))

  each_round :
      (x : Vars C)
      → Copies x
      → Triple S (Framed R) (service_round service x) (AfterRound Failed (Framed R) Left)
  each_round (c, old) (ip, same) =
      subst
        (λ c'.
          Triple S (Framed R) (service_round service (c', old)) (AfterRound Failed (Framed R) Left))
        (sym same) (plain_round ip old)

  check_error-Triple :
      (name : String) (r : Option (Error C.Failure))
      → Triple S (Left r) (check_error service name r) (λ _ v. Framed R v × HasService d v)
  check_error-Triple name none = Triple-pure S tt (λ v h. h)
  check_error-Triple name (some e) = Triple-raise S _

  last_round : (x : Vars C) → Failed x → Triple S (Framed R) (pure x.1) Left
  last_round (c, old) (same, (e, failed)) =
      Triple-pure S old (λ v h. subst (λ r. Left r v) (sym failed) tt)

  pub apply_service-Triple :
      Triple S (Framed R) (apply_service service d) (λ _ v. Framed R v × HasService d v)
  unfolding apply_service
  apply_service-Triple =
      Triple-bind S
        (retry-Triple S (service_round service) (λ v. pure v.1) Copies Failed (Framed R) Left
          each_round (λ x failed. failed.0) last_round 4 1 (d, none) (d.spec.cluster_ip, refl))
        (λ r. check_error-Triple d.meta.name r)
