-- ===== src/Controller/Copy/Waits.antt =====
-- The wait of `copyMySQLCredentials` and its variants for the secret of a database.
use unbind_operator.Base.{
  ℕ, zero, suc, ◌+◌, ◌*◌, String, ◌<>◌, Option, none, some, ◌≡◌, refl, inl, true, sym, ◌∷◌, arith,
}
use unbind_operator.Base.Outcome.{Outcome, Error, err, wrap, failure}
use unbind_operator.Api.{Service}
use unbind_operator.Kube.{Kind, Secret}
use mathlib.Core.Path.{subst}
use unbind_operator.Client.{Client, sleeping, getting}
use unbind_operator.Client.Log.{slept}
use unbind_operator.Client.Monad.{World, get, handle, ◌>>=◌, sleep, is_not_found}
use unbind_operator.Client.Spends.{
  Spends, Spends-weaken, Spends-bind, Spends-handle, Spends-if, Spends-get, Spends-sleep,
  Spends-raise, Spends-pure, Spends-crash, Spends-wrapping, Spends-update, Spends-create,
}
use unbind_operator.Controller.Credentials.{needs_credentials}
use unbind_operator.Controller.Copy.{
  wait_for_secret, copy_credentials, Filling, fill_existing, fill_new,
}

module _ {C : Client} (text namespace name : String) where
  wait_for_secret-end :
      (last : Option (Error C.Failure))
      → Spends {C = C} 0 0 (wait_for_secret text namespace name 0 last)
  unfolding wait_for_secret
  wait_for_secret-end none = Spends-crash 0 0
  wait_for_secret-end (some e) = Spends-raise _ 0 0

  pub wait_for_secret-Spends :
      (rounds : ℕ) (last : Option (Error C.Failure))
      → Spends {C = C} (2 * rounds) 0 (wait_for_secret text namespace name rounds last)
  unfolding wait_for_secret
  wait_for_secret-Spends zero last = wait_for_secret-end last
  wait_for_secret-Spends (suc rounds) last =
      Spends-weaken (2 * suc rounds) 0
        (Spends-handle (Spends-get Kind.secret namespace name)
          (λ e.
            Spends-if (is_not_found C e)
              (Spends-bind (Spends-sleep 2) (λ _. wait_for_secret-Spends rounds (some e)))
              (Spends-raise _ _ _))
          (λ secret. Spends-pure secret _ _))
        (omega arith) (omega arith)

  -- The world after one round that does not find the secret
  abbrev waited : World C → World C
  waited w = record {
    state = C.sleep 2 (C.get Kind.secret namespace name w.state).1;
    log = sleeping 2 ∷ getting Kind.secret namespace name ∷ w.log;
  }

  -- An outcome after so many seconds, with the error of a secret that has not appeared
  abbrev GivesUp : C.Failure → ℕ → Outcome C.Failure Secret × World C → Type 0
  GivesUp f seconds (r, w) =
      (r ≡ err (wrap ("failed to get " <> text <> " secret after retries") (failure f)))
      × (slept w.log ≡ seconds)

  GivesUp-same :
      (f : C.Failure) (m n : ℕ) (x : Outcome C.Failure Secret × World C)
      → m ≡ n
      → GivesUp f m x
      → GivesUp f n x
  GivesUp-same f m n (r, w) e (a, b) = (a, omega (arith, e, b))

  module _ (f : C.Failure) (never : (s : C.State) → (C.get Kind.secret namespace name s).0 ≡ inl f)
      (missing : C.is_not_found f ≡ true) where
    one_round :
        (rounds : ℕ) (last : Option (Error C.Failure)) (w : World C)
        → wait_for_secret text namespace name (suc rounds) last w
          ≡ wait_for_secret text namespace name rounds (some (failure f)) (waited w)
    unfolding wait_for_secret handle ◌>>=◌ get sleep
    one_round rounds last w = ground (arith, never w.state)

    after_rounds :
        (rounds : ℕ) (w : World C)
        → GivesUp f
            (2 * rounds + slept w.log)
            (wait_for_secret text namespace name rounds (some (failure f)) w)
    unfolding wait_for_secret
    after_rounds zero w = (refl, omega arith)
    after_rounds (suc rounds) w =
        subst (GivesUp f (2 * suc rounds + slept w.log))
          (sym (one_round rounds (some (failure f)) w))
          (GivesUp-same f _ _
            (wait_for_secret text namespace name rounds (some (failure f)) (waited w)) (omega arith)
            (after_rounds rounds (waited w)))

    -- On a server where the secret never appears, ten rounds end after 20 seconds with the error
    -- that there is no such secret; the loop ends with an error, never without one.
    pub wait_for_secret-missing :
        (w : World C)
        → ((wait_for_secret text namespace name 10 none w).0
            ≡ err (wrap ("failed to get " <> text <> " secret after retries") (failure f)))
          × (slept (wait_for_secret text namespace name 10 none w).1.log ≡ 20 + slept w.log)
    wait_for_secret-missing w = subst (GivesUp f (20 + slept w.log)) (sym (one_round 9 none w)) (
        GivesUp-same f _ _ (wait_for_secret text namespace name 9 (some (failure f)) (waited w))
          (omega arith) (after_rounds 9 (waited w)))

module _ {C : Client} (text name : String) (filling : Filling) (service : Service) where
  -- The copying of credentials waits for at most 20 seconds, sends at most one update and leaves the
  -- status alone, whatever the server answers.
  pub copy_credentials-Spends : Spends {C = C} 20 1 (copy_credentials text name filling service)
  unfolding copy_credentials fill_existing fill_new
  copy_credentials-Spends =
      Spends-weaken 20 1
        (Spends-bind (wait_for_secret-Spends text service.namespace name 10 none) λ source.
          Spends-handle (Spends-get Kind.secret service.namespace service.spec.kubernetes_secret)
            (λ e.
              Spends-if (is_not_found C e)
                (Spends-wrapping _ _
                  (Spends-weaken 0 1 (Spends-create Kind.secret _) (omega arith) (omega arith)))
                (Spends-raise _ _ _))
            (λ target.
              Spends-if (needs_credentials target.contents)
                (Spends-wrapping _ _ (Spends-update Kind.secret _)) (Spends-pure tt _ _)))
        (omega arith) (omega arith)
