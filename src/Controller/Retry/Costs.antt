-- ===== src/Controller/Retry/Costs.antt =====
-- The time and the updates of the retry loop of service_controller.go when a round that leaves the
-- loop may spend more than one that asks for another.
use unbind_operator.Base.{ℕ, zero, suc, ◌+◌, ◌*◌, ◌≤◌, ◌≡◌, ◌⊎◌, inl, inr, arith}
use unbind_operator.Base.Outcome.{Outcome, ok, err, panic}
use unbind_operator.Client.{Client}
use unbind_operator.Client.Log.{slept, updates, status_updates}
use unbind_operator.Client.Monad.{Action, World, ◌>>=◌, continue, sleep, pure}
use unbind_operator.Client.Spends.{Spends, Spends-weaken, Spends-bind, Spends-sleep}
use unbind_operator.Client.Costs.{Costs, unless_again}
use unbind_operator.Controller.Retry.{retry}
use unbind_operator.Controller.Retry.Bounds.{total_backoff}

module _ {C : Client} {S A : Type 0} (body : S → Action C (S ⊎ A)) (exhausted : S → Action C A)
    (t n : ℕ) (one : (s : S) → Costs (unless_again t) (λ r. 1 + unless_again n r) (body s))
    (last : (s : S) → Spends 0 0 (exhausted s)) where
  abbrev next : ℕ → ℕ → S ⊎ A → Action C A
  next rounds backoff r = elim r [
    | inl s' ↦ sleep backoff >>= λ _. retry body exhausted rounds (backoff * 2) s'
    | inr a ↦ pure a
  ]

  -- A round and what follows it, if another one spends so much
  module _ (rounds backoff : ℕ)
      (again : (s' : S)
        → Spends
            (backoff + (t + total_backoff rounds (backoff * 2)))
            (n + rounds)
            (next rounds backoff (inl s'))) where
    time_of :
        (r : Outcome C.Failure (S ⊎ A)) (w' w : World C)
        → slept w'.log ≤ slept w.log + unless_again t r
        → slept (continue r (next rounds backoff) w').1.log
          ≤ slept w.log + (t + total_backoff (suc rounds) backoff)
    time_of (ok (inl s')) w' w e = omega (arith, e, (again s').time w')
    time_of (ok (inr a)) w' w e = omega arith
    time_of (err x) w' w e = omega arith
    time_of panic w' w e = omega arith

    count_of :
        (r : Outcome C.Failure (S ⊎ A)) (w' w : World C)
        → updates w'.log ≤ updates w.log + (1 + unless_again n r)
        → updates (continue r (next rounds backoff) w').1.log ≤ updates w.log + (n + suc rounds)
    count_of (ok (inl s')) w' w e = omega (arith, e, (again s').count w')
    count_of (ok (inr a)) w' w e = omega arith
    count_of (err x) w' w e = omega arith
    count_of panic w' w e = omega arith

    quiet_of :
        (r : Outcome C.Failure (S ⊎ A)) (w' w : World C)
        → status_updates w'.log ≡ status_updates w.log
        → status_updates (continue r (next rounds backoff) w').1.log ≡ status_updates w.log
    quiet_of (ok (inl s')) w' w e = omega (arith, e, (again s').quiet w')
    quiet_of (ok (inr a)) w' w e = e
    quiet_of (err x) w' w e = e
    quiet_of panic w' w e = e

  -- So many rounds spend their backoffs and one update each, and once what the last one spends.
  pub retry-Costs :
      (rounds backoff : ℕ) (s : S)
      → Spends
          (t + total_backoff rounds backoff)
          (n + rounds)
          (retry body exhausted rounds backoff s)
  unfolding retry ◌>>=◌
  retry-Costs zero backoff s = Spends-weaken _ _ (last s) (omega arith) (omega arith)
  retry-Costs (suc rounds) backoff s =
      let again = λ (s' : S).
        Spends-weaken (backoff + (t + total_backoff rounds (backoff * 2))) (n + rounds)
          (Spends-bind (Spends-sleep backoff) (λ _. retry-Costs rounds (backoff * 2) s'))
          (omega arith) (omega arith) in
      record {
        time = λ w. time_of rounds backoff again (body s w).0 (body s w).1 w ((one s).time w);
        count = λ w. count_of rounds backoff again (body s w).0 (body s w).1 w ((one s).count w);
        quiet = λ w. quiet_of rounds backoff again (body s w).0 (body s w).1 w ((one s).quiet w);
      }
