-- ===== src/Client/Costs.antt =====
-- Bounds on what an action spends that depend on how it ends.
use unbind_operator.Base.{ℕ, ◌+◌, ◌≤◌, ◌≡◌, arith, Bool, true, false, ◌⊎◌, inl, inr, if◌then◌else◌}
use unbind_operator.Base.Outcome.{Outcome, Error, ok, err, panic}
use unbind_operator.Client.{Client}
use unbind_operator.Client.Log.{slept, updates, status_updates}
use unbind_operator.Client.Monad.{Action, World, pure, continue, handle_result, handle, ◌>>=◌}
use unbind_operator.Client.Spends.{Spends}

-- It sleeps and updates at most so much, by the outcome, and leaves the status alone.
pub record Costs {C : Client} {A : Type 0} (seconds times : Outcome C.Failure A → ℕ)
    (m : Action C A) : Type 0 where
  pub time : (w : World C) → slept (m w).1.log ≤ slept w.log + seconds (m w).0
  pub count : (w : World C) → updates (m w).1.log ≤ updates w.log + times (m w).0
  pub quiet : (w : World C) → status_updates (m w).1.log ≡ status_updates w.log

-- So much, unless the round of a loop asks for another one
abbrev pub unless_again : {F T A : Type 0} → ℕ → Outcome F (T ⊎ A) → ℕ
unless_again n (ok (inl x)) = 0
unless_again n (ok (inr a)) = n
unless_again n (err e) = n
unless_again n panic = n

module _ {C : Client} {A : Type 0} {s u : Outcome C.Failure A → ℕ} where
  pub Costs-Spends :
      {m : Action C A} {a b : ℕ}
      → Spends a b m
      → ((r : Outcome C.Failure A) → a ≤ s r)
      → ((r : Outcome C.Failure A) → b ≤ u r)
      → Costs s u m
  Costs-Spends {m} h p q = record {
    time = λ w. omega (arith, h.time w, p (m w).0);
    count = λ w. omega (arith, h.count w, q (m w).0);
    quiet = λ w. h.quiet w;
  }

  pub Costs-if :
      (t : Bool) {m n : Action C A} → Costs s u m → Costs s u n → Costs s u (if t then m else n)
  Costs-if true h h' = h
  Costs-if false h h' = h'

  pub Costs-weaken :
      {m : Action C A} (v : Outcome C.Failure A → ℕ)
      → ((r : Outcome C.Failure A) → u r ≤ v r)
      → Costs s u m
      → Costs s v m
  Costs-weaken {m} v p h = record {
    time = λ w. h.time w;
    count = λ w. omega (arith, h.count w, p (m w).0);
    quiet = λ w. h.quiet w;
  }

module _ {C : Client} {A B : Type 0} {s u : Outcome C.Failure B → ℕ} where
  -- A call that does not sleep, and what follows it
  pub Costs-handle :
      {m : Action C A} {g : Error C.Failure → Action C B} {f : A → Action C B} {n : ℕ}
      → Spends 0 n m
      → ((e : Error C.Failure) → Costs s u (g e))
      → ((x : A) → Costs s u (f x))
      → Costs s (λ r. n + u r) (handle m g f)
  unfolding handle
  Costs-handle {m} {g} {f} {n} h j k = record {
    time = λ w. time_of (m w).0 (m w).1 w (h.time w);
    count = λ w. count_of (m w).0 (m w).1 w (h.count w);
    quiet = λ w. quiet_of (m w).0 (m w).1 w (h.quiet w);
  }
    where
      time_of :
          (r : Outcome C.Failure A) (w' w : World C)
          → slept w'.log ≤ slept w.log + 0
          → slept (handle_result r g f w').1.log ≤ slept w.log + s (handle_result r g f w').0
      time_of (ok x) w' w e = omega (arith, (k x).time w')
      time_of (err x) w' w e = omega (arith, (j x).time w')
      time_of panic w' w e = omega arith

      count_of :
          (r : Outcome C.Failure A) (w' w : World C)
          → updates w'.log ≤ updates w.log + n
          → updates (handle_result r g f w').1.log
            ≤ updates w.log + (n + u (handle_result r g f w').0)
      count_of (ok x) w' w e = omega (arith, (k x).count w')
      count_of (err x) w' w e = omega (arith, (j x).count w')
      count_of panic w' w e = omega arith

      quiet_of :
          (r : Outcome C.Failure A) (w' w : World C)
          → status_updates w'.log ≡ status_updates w.log
          → status_updates (handle_result r g f w').1.log ≡ status_updates w.log
      quiet_of (ok x) w' w e = omega (arith, (k x).quiet w')
      quiet_of (err x) w' w e = omega (arith, (j x).quiet w')
      quiet_of panic w' w e = e

module _ {C : Client} {T A : Type 0} where
  abbrev leave : A → Unit {0} → Action C (T ⊎ A)
  leave a _ = pure (inr a)

  -- An action after which the loop is left
  pub Costs-then :
      {m : Action C (Unit {0})} {t n : ℕ} (a : A)
      → Spends t n m
      → Costs (unless_again t) (unless_again n) (m >>= leave a)
  unfolding ◌>>=◌
  Costs-then {m} {t} {n} a h = record {
    time = λ w. time_of (m w).0 (m w).1 w (h.time w);
    count = λ w. count_of (m w).0 (m w).1 w (h.count w);
    quiet = λ w. quiet_of (m w).0 (m w).1 w (h.quiet w);
  }
    where
      left : Outcome C.Failure (Unit {0}) → Action C (T ⊎ A)
      left r = continue r (leave a)

      time_of :
          (r : Outcome C.Failure (Unit {0})) (w' w : World C)
          → slept w'.log ≤ slept w.log + t
          → slept (left r w').1.log ≤ slept w.log + unless_again t (left r w').0
      time_of (ok x) w' w e = e
      time_of (err x) w' w e = e
      time_of panic w' w e = e

      count_of :
          (r : Outcome C.Failure (Unit {0})) (w' w : World C)
          → updates w'.log ≤ updates w.log + n
          → updates (left r w').1.log ≤ updates w.log + unless_again n (left r w').0
      count_of (ok x) w' w e = e
      count_of (err x) w' w e = e
      count_of panic w' w e = e

      quiet_of :
          (r : Outcome C.Failure (Unit {0})) (w' w : World C)
          → status_updates w'.log ≡ status_updates w.log
          → status_updates (left r w').1.log ≡ status_updates w.log
      quiet_of (ok x) w' w e = e
      quiet_of (err x) w' w e = e
      quiet_of panic w' w e = e
