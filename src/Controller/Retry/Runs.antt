-- ===== src/Controller/Retry/Runs.antt =====
-- The retry loop of service_controller.go when the first round leaves it.
use unbind_operator.Base.{ℕ, suc, ◌*◌, ◌⊎◌, inl, inr, ◌≡◌}
use unbind_operator.Base.Outcome.{Outcome, Error, ok, err, panic}
use unbind_operator.Client.{Client}
use unbind_operator.Client.View.{View}
use unbind_operator.Client.Stores.{Stores}
use unbind_operator.Client.Runs.{Run, Run-bind, Run-pure}
use unbind_operator.Client.Monad.{Action, pure, sleep, ◌>>=◌}
use unbind_operator.Controller.Retry.{retry}

-- The builder has made an object, or reports that none is needed.
abbrev pub IsBuilt : {F A : Type 0} → Error F → Outcome F A → Type 0
IsBuilt not_needed (ok a) = Unit
IsBuilt not_needed (err e) = e ≡ not_needed
IsBuilt not_needed panic = ⊥

-- A round that leaves the loop with a view that satisfies `Q`
abbrev pub Leaves : {A T : Type 0} → (A → View → Type 0) → T ⊎ A → View → Type 0
Leaves Q (inl x) v = ⊥
Leaves Q (inr a) v = Q a v

module _ {C : Client} {T A : Type 0} (S : Stores C) (body : T → Action C (T ⊎ A))
    (exhausted : T → Action C A) (P : View → Type 0) (Q : A → View → Type 0)
    (E : View → Type 0) where
  after-Run :
      (rounds backoff : ℕ) (r : T ⊎ A)
      → Run S
          (Leaves Q r)
          (elim r [
            | inl x ↦ sleep backoff >>= λ _. retry body exhausted rounds (backoff * 2) x
            | inr a ↦ pure a
          ])
          Q
          E
  after-Run rounds backoff (inl x) = record { ends = λ w p. absurd p }
  after-Run rounds backoff (inr a) = Run-pure S a (λ v q. q)

  pub retry-Run :
      (rounds backoff : ℕ) (x : T)
      → Run S P (body x) (Leaves Q) E
      → Run S P (retry body exhausted (suc rounds) backoff x) Q E
  unfolding retry
  retry-Run rounds backoff x h = Run-bind S h (after-Run rounds backoff)
