-- ===== src/Controller/Reconcile/Status.antt =====
-- The status update at the end of `Reconcile`.
use unbind_operator.Base.{
  ◌≡◌, ◌≢◌, refl, sym, true, false, inr, inl, ◌⊎◌, ◌∷◌, arith, ◌==◌, Bool-cases,
}
use mathlib.Core.Path.{subst}
use unbind_operator.Base.Equal.{deep_equal_self}
use unbind_operator.Base.Outcome.{Outcome, ok, err, panic}
use unbind_operator.Api.{Service}
use unbind_operator.Client.{Client, updating_status}
use unbind_operator.Client.Log.{status_updates}
use unbind_operator.Client.Monad.{World, ◌>>=◌, continue, update_status}
use unbind_operator.Controller.Database.{Platform}
use unbind_operator.Controller.Reconcile.{
  urls_discrete, new_urls, needs_status_update, ready_status, write_status, reconcile_generic,
  reconcile_live, reconcile_service, service_finalizer,
}
use unbind_operator.Controller.Reconcile.Bounds.{reconcile_generic-Spends}

-- The service with the status that a run writes
abbrev pub ready : Service → Service
ready service = record service { status = ready_status service }

-- The status that a run writes is up to date for the next one.
pub ready_again : (service : Service) → needs_status_update (ready service) ≡ false
unfolding needs_status_update new_urls
ready_again service = rw (deep_equal_self urls_discrete (new_urls service)) refl

-- A status that has been written is up to date for the next run.
pub write_status-settled :
    {C : Client} (service : Service) (w : World C) → write_status (ready service) w ≡ (ok tt, w)
unfolding write_status
write_status-settled service w = rw (ready_again service) refl

module _ {C : Client} (P : Platform C) (service : Service) where
  -- What becomes of the status, after the run `g` over the objects: it is written in the last call,
  -- or the run ends as `g` does, because `g` failed or because the status is up to date.
  abbrev pub StatusFollows :
      Outcome C.Failure (Unit {0}) × World C → Outcome C.Failure (Unit {0}) × World C → Type 0
  StatusFollows g live =
      ((g.0 ≡ ok tt)
        × (needs_status_update service ≡ true)
        × (live.1.log ≡ updating_status (ready service) ∷ g.1.log))
      ⊎ ((live ≡ g) × ((g.0 ≢ ok tt) ⊎ (needs_status_update service ≡ false)))

  follows :
      (r : Outcome C.Failure (Unit {0})) (w : World C)
      → StatusFollows (r, w) (continue r (λ _. write_status service) w)
  unfolding write_status update_status
  follows (ok tt) w = elim (Bool-cases (needs_status_update service)) [
    | inl needed ↦ inl (refl, needed, ground arith)
    | inr settled ↦ inr (rw settled refl, inr settled)
  ]
  follows (err e) w = inr (refl, inl (λ h. absurd (ground arith)))
  follows panic w = inr (refl, inl (λ h. absurd (ground arith)))

  -- A run over a service that is not a database, exists, is not being deleted and has the finalizer:
  -- the deployment, the services and the ingress are reconciled without a status update; if that
  -- fails, the run ends there with the same outcome; if it succeeds, the status is written by one
  -- more call exactly if it is not up to date.
  pub reconcile_service-status :
      (w : World C)
      → service.is_deleting ≡ false
      → P.contains_finalizer service.finalizers service_finalizer ≡ true
      → service.spec.type == "database" ≡ false
      → (status_updates (reconcile_generic service w).1.log ≡ status_updates w.log)
        × StatusFollows (reconcile_generic service w) (reconcile_service P service w)
  unfolding reconcile_service reconcile_live ◌>>=◌
  reconcile_service-status w live has generic =
      let taken : reconcile_service P service w
          ≡ continue (reconcile_generic service w).0 (λ _. write_status service)
              (reconcile_generic service w).1 =
        ground arith in
      (
        (reconcile_generic-Spends service).quiet w,
        subst (StatusFollows (reconcile_generic service w)) (sym taken)
            (follows (reconcile_generic service w).0 (reconcile_generic service w).1),
      )
