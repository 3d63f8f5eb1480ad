-- ===== src/Controller/Retry/Ends.antt =====
-- What holds of the abstract state when the retry loop of service_controller.go succeeds.
use unbind_operator.Base.{ℕ, zero, suc, ◌*◌, ◌⊎◌, inl, inr}
use unbind_operator.Client.{Client}
use unbind_operator.Client.View.{View}
use unbind_operator.Client.Stores.{Stores}
use unbind_operator.Client.Triples.{Triple, Triple-bind, Triple-sleep, Triple-pure, Triple-given}
use unbind_operator.Client.Monad.{Action, ◌>>=◌, sleep, pure}
use unbind_operator.Controller.Retry.{retry}

-- The variables satisfy `I` before a round, and `J` after a conflict; the view satisfies `P` between
-- rounds, and `Q` after a round that leaves the loop.
abbrev pub AfterRound :
    {A T : Type 0} → (T → Type 0) → (View → Type 0) → (A → View → Type 0) → T ⊎ A → View → Type 0
AfterRound J P Q (inl x) v = J x × P v
AfterRound J P Q (inr a) v = Q a v

module _ {C : Client} {T A : Type 0} (S : Stores C) (body : T → Action C (T ⊎ A))
    (exhausted : T → Action C A) (I J : T → Type 0) (P : View → Type 0) (Q : A → View → Type 0)
    (round : (x : T) → I x → Triple S P (body x) (AfterRound J P Q)) (again : (x : T) → J x → I x)
    (last : (x : T) → J x → Triple S P (exhausted x) Q) where
  retry-after :
      (rounds backoff : ℕ)
      → ((x : T) → J x → Triple S P (retry body exhausted rounds (backoff * 2) x) Q)
      → (r : T ⊎ A)
      → Triple S
          (AfterRound J P Q r)
          (elim r [
            | inl x ↦ sleep backoff >>= λ _. retry body exhausted rounds (backoff * 2) x
            | inr a ↦ pure a
          ])
          Q
  retry-after rounds backoff ih (inl x) =
      Triple-given S (λ j. Triple-bind S (Triple-sleep S backoff) (λ _. ih x j))
  retry-after rounds backoff ih (inr a) = Triple-pure S a (λ v q. q)

  retry-rest :
      (rounds backoff : ℕ) (x : T) → J x → Triple S P (retry body exhausted rounds backoff x) Q
  unfolding retry
  retry-rest zero backoff x j = last x j
  retry-rest (suc rounds) backoff x j =
      Triple-bind S (round x (again x j))
        (retry-after rounds backoff (λ y j'. retry-rest rounds (backoff * 2) y j'))

  -- At least one round is made, from variables that satisfy `I`.
  pub retry-Triple :
      (rounds backoff : ℕ) (x : T)
      → I x
      → Triple S P (retry body exhausted (suc rounds) backoff x) Q
  unfolding retry
  retry-Triple rounds backoff x i =
      Triple-bind S (round x i)
        (retry-after rounds backoff (λ y j. retry-rest rounds (backoff * 2) y j))
