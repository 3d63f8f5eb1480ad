-- ===== src/Client/Stored.antt =====
-- Rules of partial correctness for an object that the server is known to have, and for the update of
-- the status of a service.
use mathlib.Core.Path.{subst}
use unbind_operator.Base.{String, ◌≡◌, sym, arith, some, false}
use unbind_operator.Base.Outcome.{Error}
use unbind_operator.Api.{Service}
use unbind_operator.Kube.{Object}
use unbind_operator.Client.{Client}
use unbind_operator.Client.View.{Tracked, View, kind_of, look, put}
use unbind_operator.Client.Stores.{Stores}
use unbind_operator.Client.Triples.{Triple, Triple-get, completed-ok}
use unbind_operator.Client.Monad.{Action, handle, get, is_not_found, update_status}

module _ {C : Client} {B : Type 0} (S : Stores C) where
  -- A lookup of an object that is there finds it or fails for another reason.
  pub Triple-known :
      (t : Tracked) (namespace name : String) (x : Object (kind_of t)) {P : View → Type 0}
      {R : B → View → Type 0} (g : Error C.Failure → Action C B)
      (f : Object (kind_of t) → Action C B)
      → ((v : View) → P v → look t v namespace name ≡ some x)
      → ((e : Error C.Failure) → is_not_found C e ≡ false → Triple S P (g e) R)
      → Triple S P (f x) R
      → Triple S P (handle (get (kind_of t) namespace name) g f) R
  Triple-known t namespace name x {P} {R} g f known failed found =
      Triple-get S t namespace name {g = g} {f = f}
        (λ e missing. record {
          holds =
              λ w b (p, absent) h. let there = known (S.view w.state) p in absurd (ground arith);
        })
        failed
        (λ o. record {
          holds = λ w b (p, there) h.
              let known' = known (S.view w.state) p in
              let same : o ≡ x = ground arith in
              (subst (λ y. Triple S P (f y) R) (sym same) found).holds w b p h;
        })

module _ {C : Client} (S : Stores C) where
  pub Triple-update_status :
      (service x : Service) {P : View → Type 0} {Q : Unit {0} → View → Type 0}
      → ((v : View)
          → P v
          → (v.services service.namespace service.name ≡ some x)
            × Q tt (put Tracked.service (record x { status = service.status }) v))
      → Triple S P (update_status service) Q
  unfolding update_status
  Triple-update_status service x {P} {Q} written = record {
    holds = λ w a p e.
        let (there, q) = written (S.view w.state) p in
        subst (Q tt)
          (sym (
            S.status_done service x w.state there
              (completed-ok (C.update_status service w.state).0 e)))
          q;
  }
