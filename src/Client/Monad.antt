-- ===== src/Client/Monad.antt =====
-- The reconciler's methods: actions on the state of the cluster and the log of calls, the last call
-- first, that end in an outcome. What a call has changed stays changed when a later one fails.
use unbind_operator.Base.{
  ℕ, String, Bool, Option, none, some, List, ◌∷◌, ◌⊎◌, inl, inr, if◌then◌else◌,
}
use unbind_operator.Base.Outcome.{Outcome, Error, ok, err, panic, failure, wrap, holds}
use unbind_operator.Api.{Service}
use unbind_operator.Kube.{Kind, Object, ObjectMeta}
use unbind_operator.Client.{
  Client, Call, getting, creating, updating, deleting, updating_status, sleeping,
}

pub record World (C : Client) : Type 0 where
  pub state : C.State
  pub log : List Call

abbrev pub Action : Client → Type 0 → Type 0
Action C A = World C → Outcome C.Failure A × World C

module _ {C : Client} {A : Type 0} where
  abbrev pub pure : A → Action C A
  pure a w = (ok a, w)

  abbrev pub raise : Error C.Failure → Action C A
  raise e w = (err e, w)

  abbrev pub crash : Action C A
  crash w = (panic, w)

  -- the result of a call that touches nothing
  abbrev pub lift : Outcome C.Failure A → Action C A
  lift r w = (r, w)

module _ {C : Client} {A B : Type 0} where
  abbrev pub continue : Outcome C.Failure A → (A → Action C B) → Action C B
  continue (ok a) f w = f a w
  continue (err e) f w = (err e, w)
  continue panic f w = (panic, w)

  -- `if err := m(); err != nil { … } else { … }`
  abbrev pub handle_result :
      Outcome C.Failure A → (Error C.Failure → Action C B) → (A → Action C B) → Action C B
  handle_result (ok a) on_error f w = f a w
  handle_result (err e) on_error f w = on_error e w
  handle_result panic on_error f w = (panic, w)

  unfoldable pub handle :
      Action C A → (Error C.Failure → Action C B) → (A → Action C B) → Action C B
  handle m on_error f w = let (r, w') = m w in handle_result r on_error f w'

  infixl 5 ◌>>=◌ ◌>>◌
  -- a step whose error is returned as it is
  unfoldable pub ◌>>=◌ : Action C A → (A → Action C B) → Action C B
  m >>= f = λ w. let (r, w') = m w in continue r f w'

  abbrev pub ◌>>◌ : Action C A → Action C B → Action C B
  m >> n = m >>= λ _. n

abbrev pub wrap_result : {F A : Type 0} → String → Outcome F A → Outcome F A
wrap_result m (ok a) = ok a
wrap_result m (err e) = err (wrap m e)
wrap_result m panic = panic

module _ {C : Client} {A : Type 0} where
  -- `if err := m(); err != nil { return fmt.Errorf(message + ": %w", err) }`
  unfoldable pub wrapping : String → Action C A → Action C A
  wrapping message m w = let (r, w') = m w in (wrap_result message r, w')

module _ {C : Client} where
  abbrev pub done : Action C (Unit {0})
  done = pure tt

  -- `if c { … }` before the rest
  abbrev pub when : Bool → Action C (Unit {0}) → Action C (Unit {0})
  when c m = if c then m else done

abbrev pub answer : {F A : Type 0} → F ⊎ A → Outcome F A
answer (inl f) = err (failure f)
answer (inr a) = ok a

abbrev pub completed : {F : Type 0} → Option F → Outcome F (Unit {0})
completed none = ok tt
completed (some f) = err (failure f)

-- `errors.IsNotFound(err)` and the like
abbrev pub is_not_found : (C : Client) → Error C.Failure → Bool
is_not_found C = holds C.is_not_found

abbrev pub is_conflict : (C : Client) → Error C.Failure → Bool
is_conflict C = holds C.is_conflict

abbrev pub is_already_exists : (C : Client) → Error C.Failure → Bool
is_already_exists C = holds C.is_already_exists

module _ {C : Client} where
  unfoldable pub get : (k : Kind) → String → String → Action C (Object k)
  get k namespace name w =
      let (r, s) = C.get k namespace name w.state in
      (answer r, record { state = s; log = getting k namespace name ∷ w.log })

  unfoldable pub create : (k : Kind) → Object k → Action C (Unit {0})
  create k o w =
      let (r, s) = C.create k o w.state in
      (completed r, record { state = s; log = creating k o ∷ w.log })

  unfoldable pub update : (k : Kind) → Object k → Action C (Unit {0})
  update k o w =
      let (r, s) = C.update k o w.state in
      (completed r, record { state = s; log = updating k o ∷ w.log })

  unfoldable pub delete : Kind → String → String → Action C (Unit {0})
  delete k namespace name w =
      let (r, s) = C.delete k namespace name w.state in
      (completed r, record { state = s; log = deleting k namespace name ∷ w.log })

  unfoldable pub update_status : Service → Action C (Unit {0})
  update_status service w =
      let (r, s) = C.update_status service w.state in
      (completed r, record { state = s; log = updating_status service ∷ w.log })

  unfoldable pub sleep : ℕ → Action C (Unit {0})
  sleep seconds w =
      (ok tt, record { state = C.sleep seconds w.state; log = sleeping seconds ∷ w.log })

  unfoldable pub set_controller_reference : Service → ObjectMeta → Action C ObjectMeta
  set_controller_reference owner meta w = (answer (C.set_controller_reference owner meta), w)

  unfoldable pub read_random : ℕ → Action C (List ℕ)
  read_random n w =
      let (r, s) = C.read_random n w.state in (answer r, record { state = s; log = w.log })
