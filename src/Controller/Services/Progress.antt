-- ===== src/Controller/Services/Progress.antt =====
-- `reconcileServices` on a server that refuses nothing: each run finds one more of the services.

use unbind_operator.Base.{
  ℕ, zero, suc, ◌≡◌, ◌∙◌, arith, inl, inr, Option, none, some, All, List, [], ◌∷◌, String,
  Bool-cases,
}
use unbind_operator.Base.Outcome.{Error}
use unbind_operator.Api.{Service}
use unbind_operator.Kube.{CoreService, ObjectMeta}
use unbind_operator.Client.{Client}
use unbind_operator.Client.View.{
  Tracked, View, set, is_at, put, IsKeyed-put, look-key, look-at, look-put,
}
use unbind_operator.Client.Frames.{Framed}
use unbind_operator.Client.Stores.{Stores}
use unbind_operator.Client.Quiet.{Answers}
use unbind_operator.Client.Runs.{
  Accepts, Run, Run-pure, Run-raise, Run-if, Run-bind, Run-weaken, Run-get, Run-create, Run-update,
  Run-wrapping, Run-own,
}
use unbind_operator.Client.Monad.{pure, is_not_found}
use unbind_operator.Controller.Retry.Runs.{Leaves, retry-Run}
use unbind_operator.Controller.Services.{
  adopt, service_differs, service_round, check_error, apply_service, apply_services,
}

-- The server has a service of this name.
abbrev pub IsPresent : CoreService → View → Type 0
IsPresent d v = (x : CoreService) × (v.core_services d.meta.namespace d.meta.name ≡ some x)

-- Writes do not undo it.
abbrev pub IsKeptByPuts : (View → Type 0) → Type 0
IsKeptByPuts P = (o : CoreService) (v : View) → P v → P (put Tracked.core_service o v)

IsPresent-put : (d : CoreService) → IsKeptByPuts (IsPresent d)
unfolding set
IsPresent-put d o v (x, there) =
    elim (Bool-cases (is_at o.meta.namespace o.meta.name d.meta.namespace d.meta.name)) [
      | inl here ↦ (o, ground arith)
      | inr other ↦ (x, ground arith)
    ]

-- The first `n` services are there.
abbrev pub FirstPresent : ℕ → List CoreService → View → Type 0
FirstPresent zero ds v = Unit
FirstPresent (suc n) [] v = Unit
FirstPresent (suc n) (d ∷ ds) v = IsPresent d v × FirstPresent n ds v

-- One more of them is there; there was one more to come.
abbrev pub Advanced : ℕ → List CoreService → View → Type 0
Advanced n [] v = ⊥
Advanced zero (d ∷ ds) v = IsPresent d v
Advanced (suc n) (d ∷ ds) v = IsPresent d v × Advanced n ds v

FirstPresent-put : (n : ℕ) (ds : List CoreService) → IsKeptByPuts (FirstPresent n ds)
FirstPresent-put zero ds o v h = tt
FirstPresent-put (suc n) [] o v h = tt
FirstPresent-put (suc n) (d ∷ ds) o v (h, hs) =
    (IsPresent-put d o v h, FirstPresent-put n ds o v hs)

abbrev sent : ObjectMeta → CoreService → CoreService
sent meta d = record { meta = meta; spec = d.spec }

module _ {C : Client} (S : Stores C) (answers : Answers S) (accepts : Accepts S)
    (service : Service) where
  module _ (P E : View → Type 0) (d : CoreService) (kept : IsKeptByPuts P)
      (created : (meta : ObjectMeta) (v : View)
        → Framed P v
        → v.core_services d.meta.namespace d.meta.name ≡ none
        → meta.namespace ≡ d.meta.namespace
        → meta.name ≡ d.meta.name
        → E (put Tracked.core_service (sent meta d) v)) where
    -- The loop is left with the error of the lookup when the service has been created.
    abbrev Left : Option (Error C.Failure) → View → Type 0
    Left none v = Framed P v × IsPresent d v
    Left (some e) v = E v

    round-Run : Run S (Framed P) (service_round service (d, none)) (Leaves Left) E
    unfolding service_round
    round-Run =
        Run-get S answers Tracked.core_service d.meta.namespace d.meta.name
          (λ e missing.
            Run-if S (is_not_found C e) _ _
              (λ _. Run-bind S (Run-wrapping S _ _ (Run-own S accepts service d.meta)) (λ meta.
                Run-bind S
                  (Run-wrapping S _ _ (
                    Run-create S accepts Tracked.core_service (sent meta d) {Q = λ _. E}
                      (λ v ((f, absent), m). (
                        look-at Tracked.core_service _ v _ _ _ _ m.same_namespace m.same_name
                            absent,
                        created meta v f absent m.same_namespace m.same_name,
                      ))))
                  (λ _. Run-pure S (inr (some e)) (λ v h. h))))
              (λ other. absurd (ground arith)))
          (λ existing.
            let c = adopt existing d in
            Run-if S (service_differs existing c) _ _
              (λ differs.
                Run-bind S (Run-wrapping S _ _ (Run-own S accepts service existing.meta)) (λ meta.
                  Run-update S accepts Tracked.core_service (sent meta c)
                    {P' = λ v. Framed P v × IsPresent d v} _ _
                    (λ v ((f, found), m).
                      let (e, e') = look-key Tracked.core_service _ _ existing v f.0 found in
                      (
                        (
                          existing,
                          look-at Tracked.core_service _ v _ _ _ _ (m.same_namespace ∙ e)
                              (m.same_name ∙ e') found,
                        ),
                        (
                          (
                            IsKeyed-put Tracked.core_service (sent meta c) v f.0,
                            kept (sent meta c) v f.1,
                          ),
                          IsPresent-put d (sent meta c) v (existing, found),
                        ),
                      ))
                    (Run-pure S (inr none) (λ v h. h))))
              (λ same. Run-pure S (inr none) (λ v (f, found). (f, (existing, found)))))

    check-Run :
        (name : String) (r : Option (Error C.Failure))
        → Run S (Left r) (check_error service name r) (λ _ v. Framed P v × IsPresent d v) E
    check-Run name none = Run-pure S tt (λ v h. h)
    check-Run name (some e) = Run-raise S _ (λ v h. h)

    apply_service-Run :
        Run S (Framed P) (apply_service service d) (λ _ v. Framed P v × IsPresent d v) E
    unfolding apply_service
    apply_service-Run =
        Run-bind S
          (retry-Run S (service_round service) (λ x. pure x.1) (Framed P) Left E 4 1 (d, none)
            round-Run)
          (λ r. check-Run d.meta.name r)

  -- A service that is there is brought up to date.
  IsPresent-Run :
      (P : View → Type 0) (d : CoreService)
      → IsKeptByPuts P
      → Run S
          (Framed (λ v. P v × IsPresent d v))
          (apply_service service d)
          (λ _. Framed (λ v. P v × IsPresent d v))
          (λ _. ⊥)
  IsPresent-Run P d kept =
      Run-weaken S (λ v f. f) (λ _ v (f, there). f) (λ v e. e)
        (apply_service-Run (λ v. P v × IsPresent d v) (λ _. ⊥) d
          (λ o v (p, there). (kept o v p, IsPresent-put d o v there))
          (λ meta v (keyed, (p, (x, there))) absent e e'. absurd (ground arith)))

  -- Any service is there afterwards, be it with an error.
  apply_service-Run_any :
      (P : View → Type 0) (d : CoreService)
      → IsKeptByPuts P
      → Run S
          (Framed P)
          (apply_service service d)
          (λ _. Framed (λ v. P v × IsPresent d v))
          (Framed (λ v. P v × IsPresent d v))
  apply_service-Run_any P d kept =
      Run-weaken S (λ v f. f) (λ _ v ((keyed, p), there). (keyed, (p, there))) (λ v f. f)
        (apply_service-Run P (Framed (λ v. P v × IsPresent d v)) d kept
          (λ meta v (keyed, p) absent e e'. (
            IsKeyed-put Tracked.core_service (sent meta d) v keyed,
            (
              kept (sent meta d) v p,
              (sent meta d, look-put Tracked.core_service (sent meta d) _ _ v e e'),
            ),
          )))

  -- A run that finds the first `n` services succeeds with all of them there, or ends in an error
  -- with one more.
  pub apply_services-Run :
      (P : View → Type 0) (n : ℕ) (ds : List CoreService)
      → IsKeptByPuts P
      → Run S
          (Framed (λ v. P v × FirstPresent n ds v))
          (apply_services service ds)
          (λ _. Framed (λ v. P v × All (λ d. IsPresent d v) ds))
          (Framed (λ v. P v × Advanced n ds v))
  unfolding apply_services
  apply_services-Run P n [] kept = Run-pure S tt (λ v (keyed, (p, h)). (keyed, (p, tt)))
  apply_services-Run P zero (d ∷ ds) kept =
      Run-bind S
        (Run-weaken S (λ v (keyed, (p, h)). (keyed, p)) (λ _ v f. f) (λ v f. f)
          (apply_service-Run_any P d kept))
        (λ _.
          Run-weaken S (λ v (keyed, (p, there)). (keyed, ((p, there), tt)))
            (λ _ v (keyed, ((p, there), all)). (keyed, (p, (there, all))))
            (λ v (keyed, ((p, there), a)). (keyed, (p, there)))
            (apply_services-Run (λ v. P v × IsPresent d v) zero ds
              (λ o v (p, there). (kept o v p, IsPresent-put d o v there))))
  apply_services-Run P (suc n) (d ∷ ds) kept =
      Run-bind S
        (Run-weaken S (λ v (keyed, (p, (there, h))). (keyed, ((p, h), there))) (λ _ v f. f)
          (λ v f. absurd f)
          (IsPresent-Run (λ v. P v × FirstPresent n ds v) d
            (λ o v (p, h). (kept o v p, FirstPresent-put n ds o v h))))
        (λ _.
          Run-weaken S (λ v (keyed, ((p, h), there)). (keyed, ((p, there), h)))
            (λ _ v (keyed, ((p, there), all)). (keyed, (p, (there, all))))
            (λ v (keyed, ((p, there), a)). (keyed, (p, (there, a))))
            (apply_services-Run (λ v. P v × IsPresent d v) n ds
              (λ o v (p, there). (kept o v p, IsPresent-put d o v there))))
