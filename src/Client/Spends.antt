-- ===== src/Client/Spends.antt =====
-- Bounds on what an action spends: the seconds that it sleeps and the updates that it sends, however
-- the server answers. One rule for each way to build an action.
use unbind_operator.Base.{ℕ, ◌+◌, ◌≤◌, ◌≡◌, refl, arith, Bool, true, false, String, if◌then◌else◌}
use unbind_operator.Base.Outcome.{Outcome, Error, ok, err, panic}
use unbind_operator.Api.{Service}
use unbind_operator.Kube.{Kind, Object, ObjectMeta}
use unbind_operator.Client.{Client}
use unbind_operator.Client.Log.{slept, updates, status_updates}
use unbind_operator.Client.Monad.{
  Action, World, pure, raise, crash, continue, handle_result, handle, wrapping, ◌>>=◌, get, create,
  update, delete, sleep, set_controller_reference, read_random, lift,
}

-- It sleeps at most so many seconds, updates at most so many times and leaves the status alone.
pub record Spends {C : Client} {A : Type 0} (seconds times : ℕ) (m : Action C A) : Type 0 where
  pub time : (w : World C) → slept (m w).1.log ≤ slept w.log + seconds
  pub count : (w : World C) → updates (m w).1.log ≤ updates w.log + times
  pub quiet : (w : World C) → status_updates (m w).1.log ≡ status_updates w.log

module _ {C : Client} {A : Type 0} where
  pub Spends-weaken :
      {m : Action C A} {a b : ℕ} (c d : ℕ) → Spends a b m → a ≤ c → b ≤ d → Spends c d m
  Spends-weaken c d s p q = record {
    time = λ w. omega (arith, s.time w);
    count = λ w. omega (arith, s.count w);
    quiet = λ w. s.quiet w;
  }

  pub Spends-pure : (x : A) (a b : ℕ) → Spends {C = C} a b (pure x)
  Spends-pure x a b = record {
    time = λ w. omega arith;
    count = λ w. omega arith;
    quiet = λ w. refl;
  }

  pub Spends-raise : (e : Error C.Failure) (a b : ℕ) → Spends {C = C} {A = A} a b (raise e)
  Spends-raise e a b = record {
    time = λ w. omega arith;
    count = λ w. omega arith;
    quiet = λ w. refl;
  }

  pub Spends-crash : (a b : ℕ) → Spends {C = C} {A = A} a b crash
  Spends-crash a b = record { time = λ w. omega arith; count = λ w. omega arith; quiet = λ w. refl }

  pub Spends-wrapping :
      (text : String) (m : Action C A) {a b : ℕ} → Spends a b m → Spends a b (wrapping text m)
  unfolding wrapping
  Spends-wrapping text m s = record {
    time = λ w. s.time w;
    count = λ w. s.count w;
    quiet = λ w. s.quiet w;
  }

  pub Spends-if :
      (t : Bool) {m n : Action C A} {a b : ℕ}
      → Spends a b m
      → Spends a b n
      → Spends a b (if t then m else n)
  Spends-if true s s' = s
  Spends-if false s s' = s'

module _ {C : Client} {A B : Type 0} where
  pub Spends-bind :
      {m : Action C A} {f : A → Action C B} {a b c d : ℕ}
      → Spends a b m
      → ((x : A) → Spends c d (f x))
      → Spends (a + c) (b + d) (m >>= f)
  unfolding ◌>>=◌
  Spends-bind {m} {f} {a} {b} {c} {d} s k = record {
    time = λ w. time_of (m w).0 (m w).1 w (s.time w);
    count = λ w. count_of (m w).0 (m w).1 w (s.count w);
    quiet = λ w. quiet_of (m w).0 (m w).1 w (s.quiet w);
  }
    where
      time_of :
          (r : Outcome C.Failure A) (w' w : World C)
          → slept w'.log ≤ slept w.log + a
          → slept (continue r f w').1.log ≤ slept w.log + (a + c)
      time_of (ok x) w' w h = omega (arith, (k x).time w')
      time_of (err e) w' w h = omega arith
      time_of panic w' w h = omega arith

      count_of :
          (r : Outcome C.Failure A) (w' w : World C)
          → updates w'.log ≤ updates w.log + b
          → updates (continue r f w').1.log ≤ updates w.log + (b + d)
      count_of (ok x) w' w h = omega (arith, (k x).count w')
      count_of (err e) w' w h = omega arith
      count_of panic w' w h = omega arith

      quiet_of :
          (r : Outcome C.Failure A) (w' w : World C)
          → status_updates w'.log ≡ status_updates w.log
          → status_updates (continue r f w').1.log ≡ status_updates w.log
      quiet_of (ok x) w' w h = omega (arith, (k x).quiet w')
      quiet_of (err e) w' w h = h
      quiet_of panic w' w h = h

  pub Spends-handle :
      {m : Action C A} {g : Error C.Failure → Action C B} {f : A → Action C B} {a b c d : ℕ}
      → Spends a b m
      → ((e : Error C.Failure) → Spends c d (g e))
      → ((x : A) → Spends c d (f x))
      → Spends (a + c) (b + d) (handle m g f)
  unfolding handle
  Spends-handle {m} {g} {f} {a} {b} {c} {d} s j k = record {
    time = λ w. time_of (m w).0 (m w).1 w (s.time w);
    count = λ w. count_of (m w).0 (m w).1 w (s.count w);
    quiet = λ w. quiet_of (m w).0 (m w).1 w (s.quiet w);
  }
    where
      time_of :
          (r : Outcome C.Failure A) (w' w : World C)
          → slept w'.log ≤ slept w.log + a
          → slept (handle_result r g f w').1.log ≤ slept w.log + (a + c)
      time_of (ok x) w' w h = omega (arith, (k x).time w')
      time_of (err e) w' w h = omega (arith, (j e).time w')
      time_of panic w' w h = omega arith

      count_of :
          (r : Outcome C.Failure A) (w' w : World C)
          → updates w'.log ≤ updates w.log + b
          → updates (handle_result r g f w').1.log ≤ updates w.log + (b + d)
      count_of (ok x) w' w h = omega (arith, (k x).count w')
      count_of (err e) w' w h = omega (arith, (j e).count w')
      count_of panic w' w h = omega arith

      quiet_of :
          (r : Outcome C.Failure A) (w' w : World C)
          → status_updates w'.log ≡ status_updates w.log
          → status_updates (handle_result r g f w').1.log ≡ status_updates w.log
      quiet_of (ok x) w' w h = omega (arith, (k x).quiet w')
      quiet_of (err e) w' w h = omega (arith, (j e).quiet w')
      quiet_of panic w' w h = h

module _ {C : Client} where
  pub Spends-get : (k : Kind) (namespace name : String) → Spends {C = C} 0 0 (get k namespace name)
  unfolding get
  Spends-get k namespace name = record {
    time = λ w. omega arith;
    count = λ w. omega arith;
    quiet = λ w. refl;
  }

  pub Spends-create : (k : Kind) (o : Object k) → Spends {C = C} 0 0 (create k o)
  unfolding create
  Spends-create k o = record {
    time = λ w. omega arith;
    count = λ w. omega arith;
    quiet = λ w. refl;
  }

  pub Spends-update : (k : Kind) (o : Object k) → Spends {C = C} 0 1 (update k o)
  unfolding update
  Spends-update k o = record {
    time = λ w. omega arith;
    count = λ w. omega arith;
    quiet = λ w. refl;
  }

  pub Spends-delete :
      (k : Kind) (namespace name : String) → Spends {C = C} 0 0 (delete k namespace name)
  unfolding delete
  Spends-delete k namespace name = record {
    time = λ w. omega arith;
    count = λ w. omega arith;
    quiet = λ w. refl;
  }

  pub Spends-sleep : (n : ℕ) → Spends {C = C} n 0 (sleep n)
  unfolding sleep
  Spends-sleep n = record { time = λ w. omega arith; count = λ w. omega arith; quiet = λ w. refl }

  pub Spends-set_controller_reference :
      (owner : Service) (meta : ObjectMeta)
      → Spends {C = C} 0 0 (set_controller_reference owner meta)
  unfolding set_controller_reference
  Spends-set_controller_reference owner meta = record {
    time = λ w. omega arith;
    count = λ w. omega arith;
    quiet = λ w. refl;
  }

  pub Spends-read_random : (n : ℕ) → Spends {C = C} 0 0 (read_random n)
  unfolding read_random
  Spends-read_random n = record {
    time = λ w. omega arith;
    count = λ w. omega arith;
    quiet = λ w. refl;
  }

pub Spends-lift :
    {C : Client} {A : Type 0} (r : Outcome C.Failure A) (a b : ℕ) → Spends {C = C} a b (lift r)
Spends-lift r a b = record { time = λ w. omega arith; count = λ w. omega arith; quiet = λ w. refl }
