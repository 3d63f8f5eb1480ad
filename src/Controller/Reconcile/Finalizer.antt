-- ===== src/Controller/Reconcile/Finalizer.antt =====
-- The deletion of a service and its finalizer: `Reconcile` and `finalizeService`.
use unbind_operator.Base.{
  ℕ, ◌≤◌, String, true, false, List, [], ◌∷◌, ◌++◌, ◌≡◌, refl, sym, ◌⊎◌, inl, inr, arith,
  if◌then◌else◌, drop, Option-cases, Bool-cases,
}
use mathlib.Core.Path.{subst}
use unbind_operator.Base.Outcome.{Outcome, Error, ok, err, failure, wrap}
use unbind_operator.Api.{Service}
use unbind_operator.Kube.{Kind}
use unbind_operator.Client.{Client, Call, deleting, updating}
use unbind_operator.Client.Monad.{World, ◌>>=◌, wrapping, delete, update}
use unbind_operator.Controller.Finalize.{delete_if_exists, finalize_service}
use unbind_operator.Controller.Database.{Platform}
use unbind_operator.Controller.Reconcile.{service_finalizer, finalize, reconcile_service}

module _ {C : Client} (P : Platform C) (service : Service) where
  -- `service` without, and with, the finalizer
  abbrev pub released : Service
  released = record service { finalizers = P.remove_finalizer service.finalizers service_finalizer }

  abbrev pub held : Service
  held = record service { finalizers = P.add_finalizer service.finalizers service_finalizer }

  -- The calls of a complete finalization, the last one first
  abbrev pub finalization : List Call
  finalization =
      updating Kind.service released
      ∷ deleting Kind.ingress service.namespace service.name
      ∷ deleting Kind.core_service service.namespace service.name
      ∷ deleting Kind.deployment service.namespace service.name
      ∷ []

  -- The log of a run that has stopped `missing` calls before the end of a finalization
  abbrev pub Stopped : List Call → Outcome C.Failure (Unit {0}) × World C → Type 0
  Stopped log (r, w) =
      (missing : ℕ) × (w.log ≡ drop missing finalization ++ log)
      × (missing ≤ 3)
      × (r ≡ ok tt → missing ≡ 0)

  -- One deletion: what it logs, and how it ends
  one_delete :
      (text : String) (k : Kind) (w : World C)
      → ((delete_if_exists text k service w).1.log
          ≡ deleting k service.namespace service.name ∷ w.log)
        × (((delete_if_exists text k service w).0 ≡ ok tt)
            ⊎ ((e : Error C.Failure) × ((delete_if_exists text k service w).0 ≡ err e)))
  unfolding delete_if_exists delete
  one_delete text k w = elim (Option-cases (C.delete k service.namespace service.name w.state).0) [
    | inl gone ↦ (ground arith, inl (ground arith))
    | inr (f, failed) ↦ elim (Bool-cases (C.is_not_found f)) [
      | inl missing ↦ (ground arith, inl (ground arith))
      | inr other ↦ (ground arith, inr (wrap text (failure f), ground arith))
    ]
  ]

  finalize-Stopped :
      (w : World C)
      → P.contains_finalizer service.finalizers service_finalizer ≡ true
      → Stopped w.log (finalize P service w)
  unfolding finalize finalize_service ◌>>=◌ wrapping update
  finalize-Stopped w has =
      let a = one_delete "failed to delete deployment" Kind.deployment w in
      let w₁ = (delete_if_exists "failed to delete deployment" Kind.deployment service w).1 in
      let b = one_delete "failed to delete service" Kind.core_service w₁ in
      let w₂ = (delete_if_exists "failed to delete service" Kind.core_service service w₁).1 in
      let c = one_delete "failed to delete ingress" Kind.ingress w₂ in
      let w₃ = (delete_if_exists "failed to delete ingress" Kind.ingress service w₂).1 in
      elim a.1 [
        | inr (e, stopped) ↦ (3, ground arith, omega arith, λ h. absurd (ground arith))
        | inl deleted ↦ elim b.1 [
          | inr (e, stopped) ↦ (2, ground arith, omega arith, λ h. absurd (ground arith))
          | inl deleted' ↦ elim c.1 [
            | inr (e, stopped) ↦ (1, ground arith, omega arith, λ h. absurd (ground arith))
            | inl deleted'' ↦ (0, ground arith, omega arith, λ h. refl)
          ]
        ]
      ]

  -- A service that is being deleted and has the finalizer: the run deletes the deployment, the service
  -- and the ingress, in this order, and then writes the service without the finalizer; it may stop
  -- before the end with an error, and a run without an error has made all four calls.
  pub deleted-Stopped :
      (w : World C)
      → service.is_deleting ≡ true
      → P.contains_finalizer service.finalizers service_finalizer ≡ true
      → Stopped w.log (reconcile_service P service w)
  unfolding reconcile_service
  deleted-Stopped w gone has =
      let taken : reconcile_service P service w ≡ finalize P service w = ground arith in
      subst (Stopped w.log) (sym taken) (finalize-Stopped w has)

  -- A service that lacks the finalizer: a run calls nothing if the service is being deleted, and
  -- otherwise makes one call, which writes the service with the finalizer added; so no other object
  -- is created before the finalizer is set.
  pub unheld-log :
      (w : World C)
      → P.contains_finalizer service.finalizers service_finalizer ≡ false
      → (reconcile_service P service w).1.log
        ≡ (if service.is_deleting then w.log else updating Kind.service held ∷ w.log)
  unfolding reconcile_service finalize wrapping update
  unheld-log w lacks = ground arith
