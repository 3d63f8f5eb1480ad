-- ===== src/Controller/Services/Runs.antt =====
-- `reconcileServices` on a server that refuses nothing, with its deletions.
use mathlib.Core.Path.{subst}
use unbind_operator.Base.{
  ℕ, zero, suc, ◌≡◌, ◌∙◌, sym, arith, false, none, if◌then◌else◌, All, List, [], ◌∷◌, String,
  eq_iff,
}
use unbind_operator.Base.Outcome.{Outcome, ok, err, panic, wrap, service_not_needed}
use unbind_operator.Api.{Service}
use unbind_operator.Kube.{Kind, CoreService}
use unbind_operator.Client.{Client}
use unbind_operator.Client.View.{
  Tracked, View, set-other, remove, IsKeyed-assign, look-key, look-at,
}
use unbind_operator.Client.Frames.{Framed}
use unbind_operator.Client.Stores.{Stores}
use unbind_operator.Client.Quiet.{Answers}
use unbind_operator.Client.Runs.{
  Accepts, Run, Run-pure, Run-if, Run-bind, Run-weaken, Run-get, Run-delete, Run-wrapping,
}
use unbind_operator.Client.Monad.{raise, handle, wrapping, is_not_found, done, get, delete}
use unbind_operator.Controller.Retry.{ResourceBuilder}
use unbind_operator.Controller.Retry.Runs.{IsBuilt}
use unbind_operator.Controller.Services.{
  is_desired, services_to_check, remove_services, clean_up, on_build, reconcile_services,
}
use unbind_operator.Controller.Services.Progress.{
  IsPresent, FirstPresent, Advanced, apply_services-Run,
}

-- The first `n` of the built services are there; one more of them is there.
abbrev pub FirstBuilt : {F : Type 0} → ℕ → Outcome F (List CoreService) → View → Type 0
FirstBuilt n (ok ds) v = FirstPresent n ds v
FirstBuilt n (err e) v = Unit
FirstBuilt n panic v = Unit

abbrev pub BuiltMore : {F : Type 0} → ℕ → Outcome F (List CoreService) → View → Type 0
BuiltMore n (ok ds) v = Advanced n ds v
BuiltMore n (err e) v = ⊥
BuiltMore n panic v = ⊥

All-FirstPresent :
    (n : ℕ) (ds : List CoreService) (v : View) → All (λ d. IsPresent d v) ds → FirstPresent n ds v
All-FirstPresent zero ds v h = tt
All-FirstPresent (suc n) [] v h = tt
All-FirstPresent (suc n) (d ∷ ds) v (h, hs) = (h, All-FirstPresent n ds v hs)

Advanced-FirstPresent :
    (n : ℕ) (ds : List CoreService) (v : View) → Advanced n ds v → FirstPresent (suc n) ds v
Advanced-FirstPresent n [] v h = absurd h
Advanced-FirstPresent zero (d ∷ ds) v h = (h, tt)
Advanced-FirstPresent (suc n) (d ∷ ds) v (h, hs) = (h, Advanced-FirstPresent n ds v hs)

pub BuiltMore-FirstBuilt :
    {F : Type 0} (n : ℕ) (r : Outcome F (List CoreService)) (v : View)
    → BuiltMore n r v
    → FirstBuilt (suc n) r v
BuiltMore-FirstBuilt n (ok ds) v h = Advanced-FirstPresent n ds v h
BuiltMore-FirstBuilt n (err e) v h = absurd h
BuiltMore-FirstBuilt n panic v h = absurd h

module _ {C : Client} (S : Stores C) (answers : Answers S) (accepts : Accepts S)
    (service : Service) where
  -- One deletion, if there is something to delete
  absent-Run :
      (P : View → Type 0) (name text text' : String)
      → ((v : View) → P v → P (remove Tracked.core_service service.namespace name v))
      → Run S
          (Framed P)
          (handle
            (get Kind.core_service service.namespace name)
            (λ e. if is_not_found C e then done else raise (wrap text e))
            (λ old. wrapping text' (delete Kind.core_service old.meta.namespace old.meta.name)))
          (λ _. Framed P)
          (λ _. ⊥)
  absent-Run P name text text' kept =
      Run-get S answers Tracked.core_service service.namespace name
        (λ e missing.
          Run-if S (is_not_found C e) _ _ (λ _. Run-pure S tt (λ v (f, absent). f))
            (λ other. absurd (ground arith)))
        (λ old. Run-wrapping S _ _ (
          Run-delete S accepts Tracked.core_service old.meta.namespace old.meta.name
            (λ v ((keyed, p), found).
              let (e, e') = look-key Tracked.core_service _ _ old v keyed found in
              (
                (old, look-at Tracked.core_service _ v _ _ _ _ e e' found),
                (
                  IsKeyed-assign Tracked.core_service old.meta.namespace old.meta.name none v keyed
                      tt,
                  subst (λ a. P (remove Tracked.core_service a old.meta.name v)) (sym e)
                      (subst (λ a. P (remove Tracked.core_service service.namespace a v)) (sym e')
                        (kept v p)),
                ),
              ))))

  remove_services-Run :
      (names : List String)
      → Run S
          (Framed (λ _. Unit))
          (remove_services service names)
          (λ _. Framed (λ _. Unit))
          (λ _. ⊥)
  unfolding remove_services
  remove_services-Run [] = Run-pure S tt (λ v f. f)
  remove_services-Run (name ∷ names) =
      Run-bind S (absent-Run (λ _. Unit) name _ _ (λ v p. tt)) (λ _. remove_services-Run names)

  -- A deletion under a name that is not desired keeps the desired services.
  kept-IsPresent :
      (ds : List CoreService) (name : String) (v : View)
      → is_desired ds name ≡ false
      → All (λ d. IsPresent d v) ds
      → All (λ d. IsPresent d (remove Tracked.core_service service.namespace name v)) ds
  unfolding is_desired
  kept-IsPresent [] name v other h = tt
  kept-IsPresent (d ∷ ds) name v other ((x, there), hs) = (
    (
      x,
      set-other service.namespace name d.meta.namespace d.meta.name none v.core_services
            (ground (arith, eq_iff d.meta.name name, eq_iff name d.meta.name))
          ∙ there,
    ),
    kept-IsPresent ds name v (ground arith) hs,
  )

  clean_up-Run :
      (ds : List CoreService) (names : List String)
      → Run S
          (Framed (λ v. All (λ d. IsPresent d v) ds))
          (clean_up service ds names)
          (λ _. Framed (λ v. All (λ d. IsPresent d v) ds))
          (λ _. ⊥)
  unfolding clean_up
  clean_up-Run ds [] = Run-pure S tt (λ v f. f)
  clean_up-Run ds (name ∷ names) =
      Run-bind S
        (Run-if S (is_desired ds name) _ _ (λ desired. Run-pure S tt (λ v f. f))
          (λ other.
            absent-Run (λ v. All (λ d. IsPresent d v) ds) name _ _
              (λ v h. kept-IsPresent ds name v other h)))
        (λ _. clean_up-Run ds names)

  on_build-Run :
      (n : ℕ) (r : Outcome C.Failure (List CoreService))
      → IsBuilt service_not_needed r
      → Run S
          (Framed (FirstBuilt n r))
          (on_build service r)
          (λ _. Framed (FirstBuilt (suc n) r))
          (Framed (BuiltMore n r))
  on_build-Run n (ok ds) built =
      Run-bind S
        (Run-weaken S (λ v (keyed, h). (keyed, (tt, h))) (λ _ v (keyed, (u, all)). (keyed, all))
          (λ v (keyed, (u, more)). (keyed, more))
          (apply_services-Run S answers accepts service (λ _. Unit) n ds (λ o v u. tt)))
        (λ _.
          Run-weaken S (λ v f. f) (λ _ v (keyed, all). (keyed, All-FirstPresent (suc n) ds v all))
            (λ v f. absurd f) (clean_up-Run ds (services_to_check service)))
  on_build-Run n (err e) same =
      subst
        (λ x.
          Run S (Framed (FirstBuilt n (err x))) (on_build service (err x))
            (λ _. Framed (FirstBuilt (suc n) (err x))) (Framed (BuiltMore n (err x))))
        (sym same)
        (Run-weaken S (λ v f. f) (λ _ v f. f) (λ v f. absurd f)
          (remove_services-Run (services_to_check service)))
  on_build-Run n panic built = absurd built

  -- A run that finds the first `n` services succeeds, or ends in an error with one more there.
  pub reconcile_services-Run :
      (n : ℕ) (rb : ResourceBuilder C.Failure)
      → IsBuilt service_not_needed rb.build_services
      → Run S
          (Framed (FirstBuilt n rb.build_services))
          (reconcile_services rb service)
          (λ _. Framed (FirstBuilt (suc n) rb.build_services))
          (Framed (BuiltMore n rb.build_services))
  unfolding reconcile_services
  reconcile_services-Run n rb built = on_build-Run n rb.build_services built
