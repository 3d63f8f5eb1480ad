-- ===== src/Controller/Services/Cleanup.antt =====
-- What `reconcileServices` leaves on the server for all services, when it succeeds.
use unbind_operator.Base.{
  if◌then◌else◌, ◌≡◌, inl, inr, refl, false, none, arith, String, All, eq_iff, List, [], ◌∷◌,
}
use unbind_operator.Base.Outcome.{
  Outcome, ok, err, panic, failure, wrap, message, deployment_not_needed, service_not_needed,
  ingress_not_needed,
}
use unbind_operator.Api.{Service}
use unbind_operator.Kube.{Kind, CoreService}
use unbind_operator.Client.{Client}
use unbind_operator.Client.View.{Tracked, View, look-key, look-assign_same, look-remove_missing}
use unbind_operator.Client.Frames.{IsStable, IsStableAt, IsKept, Framed, Framed-remove_at}
use unbind_operator.Client.Stores.{Stores}
use unbind_operator.Client.Triples.{
  Triple, Triple-bind, Triple-get, Triple-delete, Triple-pure, Triple-raise, Triple-crash,
  Triple-wrapping, Triple-if, Triple-weaken,
}
use unbind_operator.Client.Monad.{raise, handle, wrapping, is_not_found, done, get, delete}
use unbind_operator.Controller.Retry.{ResourceBuilder}
use unbind_operator.Controller.Services.{
  is_desired, services_to_check, apply_services, remove_services, clean_up, on_build,
  reconcile_services,
}
use unbind_operator.Controller.Services.Desired.{
  IsApart, AreApart, HasService-assign, IsAbsent, IsCleaned, ServicesMatch, AreFit,
}
use unbind_operator.Controller.Services.Ends.{HasService, IsPlain, apply_service-Triple}

module _ {C : Client} (S : Stores C) (service : Service) where
  AllStable : (View → Type 0) → CoreService → Type 0
  AllStable R d = IsStableAt Tracked.core_service R d.meta.namespace d.meta.name

  stable-rest :
      (R : View → Type 0) (d : CoreService) (ds : List CoreService)
      → All (AllStable R) ds
      → All (IsApart d) ds
      → All (AllStable (λ v. R v × HasService d v)) ds
  unfolding AllStable
  stable-rest R d [] h h' = tt
  stable-rest R d (d' ∷ ds) (s, h) (apart, h') = (
    λ entry v (r, has).
        (s entry v r, HasService-assign d d'.meta.namespace d'.meta.name entry v apart has),
    stable-rest R d ds h h',
  )

  apply_services-Triple :
      (R : View → Type 0) (ds : List CoreService)
      → All (AllStable R) ds
      → All IsPlain ds
      → AreApart ds
      → Triple S
          (Framed R)
          (apply_services service ds)
          (λ _ v. Framed R v × All (λ d. HasService d v) ds)
  unfolding apply_services AllStable
  apply_services-Triple R [] h p a = Triple-pure S tt (λ v f. (f, tt))
  apply_services-Triple R (d ∷ ds) (s, h) (p, ps) (apart, a) =
      Triple-bind S (apply_service-Triple S service R d s p) (λ _.
        Triple-weaken S (λ v ((keyed, r), has). (keyed, (r, has)))
          (λ _ v ((keyed, (r, has)), all). ((keyed, r), (has, all)))
          (apply_services-Triple (λ v. R v × HasService d v) ds (stable-rest R d ds h apart) ps a))

  -- One deletion, if there is something to delete
  IsAbsent-Triple :
      (R : View → Type 0) (name text text' : String)
      → IsKept Tracked.core_service R service.namespace name
      → Triple S
          (Framed R)
          (handle
            (get Kind.core_service service.namespace name)
            (λ e. if is_not_found C e then done else raise (wrap text e))
            (λ old. wrapping text' (delete Kind.core_service old.meta.namespace old.meta.name)))
          (λ _ v. Framed R v × IsAbsent service v name)
  IsAbsent-Triple R name text text' kept =
      Triple-get S Tracked.core_service service.namespace name
        (λ e missing.
          Triple-if S (is_not_found C e) _ _ (λ _. Triple-pure S tt (λ v h. h))
            (λ h. absurd (ground arith)))
        (λ e other.
          Triple-if S (is_not_found C e) _ _ (λ h. absurd (ground arith)) (λ _. Triple-raise S _))
        (λ old. Triple-wrapping S _ _ (
          Triple-delete S Tracked.core_service old.meta.namespace old.meta.name (λ v (f, found).
            let (e, e') = look-key Tracked.core_service _ _ old v f.0 found in
            rw (e, e')
              (
                Framed-remove_at Tracked.core_service R service.namespace name kept v f,
                look-assign_same Tracked.core_service service.namespace name none v,
              ))))

  remove_services-Triple :
      (R : View → Type 0) (names : List String)
      → ((name : String) → IsKept Tracked.core_service R service.namespace name)
      → Triple S
          (Framed R)
          (remove_services service names)
          (λ _ v. Framed R v × All (IsAbsent service v) names)
  unfolding remove_services
  remove_services-Triple R [] kept = Triple-pure S tt (λ v f. (f, tt))
  remove_services-Triple R (name ∷ names) kept =
      Triple-bind S (IsAbsent-Triple R name _ _ (kept name)) (λ _.
        Triple-weaken S (λ v ((keyed, r), gone). (keyed, (r, gone)))
          (λ _ v ((keyed, (r, gone)), all). ((keyed, r), (gone, all)))
          (remove_services-Triple (λ v. R v × IsAbsent service v name) names
            (λ other v (r, gone). (
              kept other v r,
              look-remove_missing Tracked.core_service service.namespace other service.namespace
                  name v gone,
            ))))

  clean_up-Triple :
      (R : View → Type 0) (ds : List CoreService) (names : List String)
      → ((name : String)
          → is_desired ds name ≡ false
          → IsKept Tracked.core_service R service.namespace name)
      → Triple S
          (Framed R)
          (clean_up service ds names)
          (λ _ v. Framed R v × All (IsCleaned service ds v) names)
  unfolding clean_up
  clean_up-Triple R ds [] kept = Triple-pure S tt (λ v f. (f, tt))
  clean_up-Triple R ds (name ∷ names) kept =
      Triple-bind S {Q = λ _ v. Framed R v × IsCleaned service ds v name}
        (Triple-if S (is_desired ds name) _ _
          (λ desired. Triple-pure S tt (λ v f. (f, inl desired)))
          (λ other.
            Triple-weaken S (λ v f. f) (λ _ v (f, gone). (f, inr gone))
              (IsAbsent-Triple R name _ _ (kept name other))))
        (λ _.
          Triple-weaken S (λ v ((keyed, r), gone). (keyed, (r, gone)))
            (λ _ v ((keyed, (r, gone)), all). ((keyed, r), (gone, all)))
            (clean_up-Triple (λ v. R v × IsCleaned service ds v name) ds names
              (λ other not_desired v (r, gone). (
                kept other not_desired v r,
                elim gone [
                  | inl desired ↦ inl desired
                  | inr absent ↦ inr (
                      look-remove_missing Tracked.core_service service.namespace other
                        service.namespace name v absent)
                ],
              ))))

  -- A deletion under a name that is not desired keeps the desired services.
  IsKept-desired :
      (ds : List CoreService) (name : String)
      → is_desired ds name ≡ false
      → IsKept Tracked.core_service (λ v. All (λ d. HasService d v) ds) service.namespace name
  unfolding is_desired
  IsKept-desired [] name h v all = tt
  IsKept-desired (d ∷ ds) name h v (has, all) = (
    HasService-assign d service.namespace name none v
        (ground (arith, eq_iff d.meta.name name, eq_iff name d.meta.name)) has,
    IsKept-desired ds name (ground arith) v all,
  )

  module _ (R : View → Type 0) (stable : IsStable Tracked.core_service R) where
    all-stable : (ds : List CoreService) → All (AllStable R) ds
    unfolding AllStable
    all-stable [] = tt
    all-stable (d ∷ ds) = (λ entry v r. stable _ _ entry v r, all-stable ds)

    on_build-Triple :
        (r : Outcome C.Failure (List CoreService))
        → AreFit r
        → Triple S (Framed R) (on_build service r) (λ _ v. Framed R v × ServicesMatch service r v)
    on_build-Triple (ok ds) (plain, apart) =
        Triple-bind S (apply_services-Triple R ds (all-stable ds) plain apart) (λ _.
          Triple-weaken S (λ v ((keyed, r), all). (keyed, (r, all)))
            (λ _ v ((keyed, (r, all)), cleaned). ((keyed, r), (all, cleaned)))
            (clean_up-Triple (λ v. R v × All (λ d. HasService d v) ds) ds
              (services_to_check service)
              (λ name other v (r, all).
                (stable service.namespace name none v r, IsKept-desired ds name other v all))))
    on_build-Triple (err service_not_needed) fit =
        Triple-weaken S (λ v f. f) (λ _ v (f, gone). (f, (refl, gone)))
          (remove_services-Triple R (services_to_check service)
            (λ name v r. stable service.namespace name none v r))
    on_build-Triple (err deployment_not_needed) fit = Triple-raise S _
    on_build-Triple (err ingress_not_needed) fit = Triple-raise S _
    on_build-Triple (err (failure f)) fit = Triple-raise S _
    on_build-Triple (err (wrap m e)) fit = Triple-raise S _
    on_build-Triple (err (message m)) fit = Triple-raise S _
    on_build-Triple panic fit = Triple-crash S

    pub reconcile_services-Triple :
        (rb : ResourceBuilder C.Failure)
        → AreFit rb.build_services
        → Triple S
            (Framed R)
            (reconcile_services rb service)
            (λ _ v. Framed R v × ServicesMatch service rb.build_services v)
    unfolding reconcile_services
    reconcile_services-Triple rb fit = on_build-Triple rb.build_services fit
