-- ===== src/Controller/Copy/Settled.antt =====
-- `copyMySQLCredentials` on secrets that exist.
use unbind_operator.Base.{◌<>◌, String, false, some, ◌≡◌, inr, ◌∷◌, arith}
use unbind_operator.Base.Dict.{Dict, lookup}
use unbind_operator.Base.Outcome.{ok}
use unbind_operator.Api.{Service}
use unbind_operator.Kube.{Kind, Secret}
use unbind_operator.Client.{Client, getting}
use unbind_operator.Client.Monad.{World, get, handle, ◌>>=◌}
use unbind_operator.Controller.Credentials.{needs_credentials, update_mysql_secret_data}
use unbind_operator.Controller.Credentials.Complete.{update_mysql_secret_data_complete}
use unbind_operator.Controller.Copy.{
  Filling, fill_existing, wait_for_secret, copy_credentials, copy_mysql_credentials,
}

module _ {C : Client} where
  copy_credentials-settled :
      (text name : String) (filling : Filling) (service : Service) (w : World C)
      (source target : Secret)
      → (C.get Kind.secret service.namespace name w.state).0 ≡ inr source
      → (C.get Kind.secret service.namespace service.spec.kubernetes_secret
          (C.get Kind.secret service.namespace name w.state).1).0
        ≡ inr target
      → needs_credentials target.contents ≡ false
      → ((copy_credentials text name filling service w).0 ≡ ok tt)
        × ((copy_credentials text name filling service w).1.log
            ≡ getting Kind.secret service.namespace service.spec.kubernetes_secret
              ∷ getting Kind.secret service.namespace name
              ∷ w.log)
  unfolding copy_credentials wait_for_secret fill_existing handle ◌>>=◌ get
  copy_credentials-settled text name filling service w source target h h' h'' =
      (ground arith, ground arith)

  -- When the server answers with a MySQL secret that has a password, and with a target secret that
  -- an earlier run has filled from any such secret, then the method succeeds and only reads.
  pub copy_mysql_credentials-settled :
      (service : Service) (w : World C) (source target : Secret) (before moco : Dict String)
      (p : String)
      → (C.get Kind.secret service.namespace ("moco-" <> service.name) w.state).0 ≡ inr source
      → (C.get Kind.secret service.namespace service.spec.kubernetes_secret
          (C.get Kind.secret service.namespace ("moco-" <> service.name) w.state).1).0
        ≡ inr target
      → lookup "WRITABLE_PASSWORD" moco ≡ some p
      → target.contents ≡ some (update_mysql_secret_data before moco service)
      → ((copy_mysql_credentials service w).0 ≡ ok tt)
        × ((copy_mysql_credentials service w).1.log
            ≡ getting Kind.secret service.namespace service.spec.kubernetes_secret
              ∷ getting Kind.secret service.namespace ("moco-" <> service.name)
              ∷ w.log)
  unfolding copy_mysql_credentials
  copy_mysql_credentials-settled service w source target before moco p h h' has filled =
      copy_credentials-settled "MOCO MySQL" ("moco-" <> service.name)
        (λ t s. update_mysql_secret_data t s service) service w source target h h'
        (rw filled (update_mysql_secret_data_complete before moco service p has))
