-- ===== src/Controller/Retry/Bounds.antt =====
-- The time and the updates of the retry loop of service_controller.go.
use unbind_operator.Base.{ℕ, zero, suc, ◌+◌, ◌*◌, ◌⊎◌, inl, inr, arith}
use unbind_operator.Client.{Client}
use unbind_operator.Client.Monad.{Action, ◌>>=◌, sleep, pure}
use unbind_operator.Client.Spends.{Spends, Spends-weaken, Spends-bind, Spends-sleep, Spends-pure}
use unbind_operator.Controller.Retry.{retry}

-- The sum of so many backoffs, each twice the one before
abbrev pub total_backoff : ℕ → ℕ → ℕ
total_backoff zero backoff = 0
total_backoff (suc rounds) backoff = backoff + total_backoff rounds (backoff * 2)

module _ {C : Client} {S A : Type 0} (body : S → Action C (S ⊎ A)) (exhausted : S → Action C A)
    (one : (s : S) → Spends 0 1 (body s)) (last : (s : S) → Spends 0 0 (exhausted s)) where
  abbrev next : ℕ → ℕ → S ⊎ A → Action C A
  next rounds backoff r = elim r [
    | inl s' ↦ sleep backoff >>= λ _. retry body exhausted rounds (backoff * 2) s'
    | inr a ↦ pure a
  ]

  -- With a body that updates at most once, does not sleep and leaves the status alone, so many rounds
  -- send at most so many updates, sleep at most the sum of their backoffs and leave the status alone.
  pub retry-Spends :
      (rounds backoff : ℕ) (s : S)
      → Spends (total_backoff rounds backoff) rounds (retry body exhausted rounds backoff s)
  unfolding retry
  retry-Spends zero backoff s = last s
  retry-Spends (suc rounds) backoff s =
      Spends-weaken _ _ (Spends-bind (one s) (after (retry-Spends rounds (backoff * 2))))
        (omega arith) (omega arith)
    where
      after :
          ((s : S)
            → Spends
                (total_backoff rounds (backoff * 2))
                rounds
                (retry body exhausted rounds (backoff * 2) s))
          → (r : S ⊎ A)
          → Spends
              (backoff + total_backoff rounds (backoff * 2))
              (0 + rounds)
              (next rounds backoff r)
      after ih (inl s') = Spends-bind (Spends-sleep backoff) (λ _. ih s')
      after ih (inr a) = Spends-pure a _ _
