-- ===== src/Controller/Services/Creation.antt =====
-- `reconcileServices` on a service that does not exist yet.
use unbind_operator.Base.{String, ◌<>◌, inl, inr, ◌≡◌, none, ◌∷◌, true, arith}
use unbind_operator.Base.Outcome.{Outcome, err, wrap, failure}
use unbind_operator.Api.{Service}
use unbind_operator.Kube.{Kind, CoreService, ObjectMeta}
use unbind_operator.Client.{Client, getting, creating}
use unbind_operator.Client.Monad.{
  World, get, create, handle, wrapping, ◌>>=◌, set_controller_reference,
}
use unbind_operator.Controller.Retry.{retry}
use unbind_operator.Controller.Services.{service_round, apply_service}

-- The error of a run that has created a service of this name: that of the `Get` before
abbrev pub creation_error : {F : Type 0} → String → F → Outcome F (Unit {0})
creation_error name f =
    err (wrap ("failed to update service " <> name <> " after 5 retries") (failure f))

module _ {C : Client} (service : Service) (desired : CoreService) where
  -- If the desired service does not exist, and the controller reference and the creation both
  -- succeed, then the service has been created and the method still returns an error: the one of
  -- the lookup, with a text about five retries of an update.
  pub apply_service-created :
      (w : World C) (f : C.Failure) (meta : ObjectMeta)
      → (C.get Kind.core_service desired.meta.namespace desired.meta.name w.state).0 ≡ inl f
      → C.is_not_found f ≡ true
      → C.set_controller_reference service desired.meta ≡ inr meta
      → (C.create Kind.core_service
          (record desired { meta = meta })
          (C.get Kind.core_service desired.meta.namespace desired.meta.name w.state).1).0
        ≡ none
      → ((apply_service service desired w).0 ≡ creation_error desired.meta.name f)
        × ((apply_service service desired w).1.log
            ≡ creating Kind.core_service (record desired { meta = meta })
              ∷ getting Kind.core_service desired.meta.namespace desired.meta.name
              ∷ w.log)
  unfolding apply_service retry service_round handle wrapping ◌>>=◌ get create
      set_controller_reference
  apply_service-created w f meta missing e owned made = (ground arith, ground arith)
