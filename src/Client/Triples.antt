-- ===== src/Client/Triples.antt =====
-- Partial correctness on the abstract state: what holds of it when an action succeeds. One rule for
-- each way to build an action.
use unbind_operator.Base.{
  ℕ, ◌⊎◌, inl, inr, ◌≡◌, refl, sym, arith, Bool, true, false, Option, none, some, String,
  if◌then◌else◌, Bool-cases, ◌∷◌,
}
use mathlib.Core.Path.{subst}
use unbind_operator.Base.Outcome.{Outcome, Error, ok, err, panic, failure}
use unbind_operator.Api.{Service}
use unbind_operator.Kube.{Object, ObjectMeta}
use unbind_operator.Client.{Client, getting, updating}
use unbind_operator.Client.View.{Tracked, View, kind_of, look, put, remove}
use unbind_operator.Client.Stores.{Stores, IsSameObject}
use unbind_operator.Client.Monad.{
  Action, World, pure, raise, crash, continue, handle_result, handle, wrapping, wrap_result, ◌>>=◌,
  get, create, update, delete, sleep, set_controller_reference, is_not_found, answer, completed,
}

-- From a view with `P`, if the action succeeds with `a`, it leaves a view with `Q a`.
pub record Triple {C : Client} {A : Type 0} (S : Stores C) (P : View → Type 0) (m : Action C A)
    (Q : A → View → Type 0) : Type 0 where
  pub holds :
      (w : World C) (a : A) → P (S.view w.state) → (m w).0 ≡ ok a → Q a (S.view (m w).1.state)

pub completed-ok : {F : Type 0} (r : Option F) {a : Unit {0}} → completed r ≡ ok a → r ≡ none
completed-ok none h = refl
completed-ok (some x) h = absurd (ground arith)

answer-ok : {F A : Type 0} (r : F ⊎ A) (a : A) → answer r ≡ ok a → r ≡ inr a
answer-ok (inl x) a h = absurd (ground arith)
answer-ok (inr x) a h = ground arith

module _ {C : Client} {A : Type 0} (S : Stores C) where
  pub Triple-pure :
      {P : View → Type 0} {Q : A → View → Type 0} (x : A)
      → ((v : View) → P v → Q x v)
      → Triple S P (pure x) Q
  Triple-pure {P} {Q} x h = record {
    holds = λ w a p e.
        let same : x ≡ a = ground arith in
        subst (λ y. Q y (S.view w.state)) same (h (S.view w.state) p);
  }

  pub Triple-raise :
      {P : View → Type 0} {Q : A → View → Type 0} (e : Error C.Failure) → Triple S P (raise e) Q
  Triple-raise e = record { holds = λ w a p h. absurd (ground arith) }

  pub Triple-crash : {P : View → Type 0} {Q : A → View → Type 0} → Triple {C = C} S P crash Q
  Triple-crash = record { holds = λ w a p h. absurd (ground arith) }

  pub Triple-wrapping :
      {P : View → Type 0} {Q : A → View → Type 0} (text : String) (m : Action C A)
      → Triple S P m Q
      → Triple S P (wrapping text m) Q
  unfolding wrapping
  Triple-wrapping {P} {Q} text m s = record {
    holds = λ w a p h. s.holds w a p (unwrapped (m w).0 a h);
  }
    where
      unwrapped : (r : Outcome C.Failure A) (a : A) → wrap_result text r ≡ ok a → r ≡ ok a
      unwrapped (ok x) a h = h
      unwrapped (err e) a h = absurd (ground arith)
      unwrapped panic a h = absurd (ground arith)

  pub Triple-if :
      {P : View → Type 0} {Q : A → View → Type 0} (t : Bool) (m n : Action C A)
      → (t ≡ true → Triple S P m Q)
      → (t ≡ false → Triple S P n Q)
      → Triple S P (if t then m else n) Q
  Triple-if true m n s s' = s refl
  Triple-if false m n s s' = s' refl

  pub Triple-weaken :
      {P P' : View → Type 0} {Q Q' : A → View → Type 0} {m : Action C A}
      → ((v : View) → P v → P' v)
      → ((a : A) (v : View) → Q' a v → Q a v)
      → Triple S P' m Q'
      → Triple S P m Q
  Triple-weaken before after s = record {
    holds = λ w a p e. after a _ (s.holds w a (before _ p) e);
  }

  -- a fact about values in front
  pub Triple-given :
      {F : Type 0} {P : View → Type 0} {Q : A → View → Type 0} {m : Action C A}
      → (F → Triple S P m Q)
      → Triple S (λ v. F × P v) m Q
  Triple-given s = record { holds = λ w a (f, p) e. (s f).holds w a p e }

module _ {C : Client} {A B : Type 0} (S : Stores C) where
  pub Triple-bind :
      {P : View → Type 0} {Q : A → View → Type 0} {R : B → View → Type 0} {m : Action C A}
      {f : A → Action C B}
      → Triple S P m Q
      → ((x : A) → Triple S (Q x) (f x) R)
      → Triple S P (m >>= f) R
  unfolding ◌>>=◌
  Triple-bind {P} {Q} {R} {m} {f} s k = record {
    holds = λ w b p e. after (m w).0 (m w).1 b (λ a h. s.holds w a p h) e;
  }
    where
      after :
          (r : Outcome C.Failure A) (w' : World C) (b : B)
          → ((a : A) → r ≡ ok a → Q a (S.view w'.state))
          → (continue r f w').0 ≡ ok b
          → R b (S.view (continue r f w').1.state)
      after (ok x) w' b q e = (k x).holds w' b (q x refl) e
      after (err x) w' b q e = absurd (ground arith)
      after panic w' b q e = absurd (ground arith)

module _ {C : Client} {B : Type 0} (S : Stores C) where
  -- What a lookup tells of the view
  pub Triple-get :
      (t : Tracked) (namespace name : String) {P : View → Type 0} {R : B → View → Type 0}
      {g : Error C.Failure → Action C B} {f : Object (kind_of t) → Action C B}
      → ((e : Error C.Failure)
          → is_not_found C e ≡ true
          → Triple S (λ v. P v × (look t v namespace name ≡ none)) (g e) R)
      → ((e : Error C.Failure) → is_not_found C e ≡ false → Triple S P (g e) R)
      → ((o : Object (kind_of t))
          → Triple S (λ v. P v × (look t v namespace name ≡ some o)) (f o) R)
      → Triple S P (handle (get (kind_of t) namespace name) g f) R
  unfolding handle get
  Triple-get t namespace name {P} {R} {g} {f} missing failed found = record {
    holds = λ w b p e.
        let (r, s) = C.get (kind_of t) namespace name w.state in
        let same = S.get_view (kind_of t) namespace name w.state in
        answered r (record { state = s; log = getting (kind_of t) namespace name ∷ w.log }) b
          (subst P (sym same) p)
          (λ x h.
            subst (λ v. look t v namespace name ≡ some x) (sym same)
              (S.get_found t namespace name w.state x h))
          (λ x h h'.
            subst (λ v. look t v namespace name ≡ none) (sym same)
              (S.get_missing t namespace name w.state x h h'))
          e;
  }
    where
      answered :
          (r : C.Failure ⊎ Object (kind_of t)) (w : World C) (b : B)
          → P (S.view w.state)
          → ((o : Object (kind_of t)) → r ≡ inr o → look t (S.view w.state) namespace name ≡ some o)
          → ((x : C.Failure)
              → r ≡ inl x
              → C.is_not_found x ≡ true
              → look t (S.view w.state) namespace name ≡ none)
          → (handle_result (answer r) g f w).0 ≡ ok b
          → R b (S.view (handle_result (answer r) g f w).1.state)
      answered (inr o) w b p is_there is_missing e = (found o).holds w b (p, is_there o refl) e
      answered (inl x) w b p is_there is_missing e = elim (Bool-cases (C.is_not_found x)) [
        | inl yes' ↦ (missing (failure x) yes').holds w b (p, is_missing x refl yes') e
        | inr no' ↦ (failed (failure x) no').holds w b p e
      ]

  -- An update that fails leaves the view alone.
  pub Triple-update :
      (t : Tracked) (o : Object (kind_of t)) {P P' : View → Type 0} {R : B → View → Type 0}
      {g : Error C.Failure → Action C B} {f : Unit {0} → Action C B}
      → ((v : View) → P v → P' (put t o v))
      → ((e : Error C.Failure) → Triple S P (g e) R)
      → ((u : Unit {0}) → Triple S P' (f u) R)
      → Triple S P (handle (update (kind_of t) o) g f) R
  unfolding handle update
  Triple-update t o {P} {P'} {R} {g} {f} written failed after = record {
    holds = λ w b p e.
        let (r, s) = C.update (kind_of t) o w.state in
        answered r (record { state = s; log = updating (kind_of t) o ∷ w.log }) b
          (λ h. subst P' (sym (S.update_done t o w.state h)) (written (S.view w.state) p))
          (λ x h. subst P (sym (S.update_failed t o w.state x h)) p) e;
  }
    where
      answered :
          (r : Option C.Failure) (w : World C) (b : B)
          → (r ≡ none → P' (S.view w.state))
          → ((x : C.Failure) → r ≡ some x → P (S.view w.state))
          → (handle_result (completed r) g f w).0 ≡ ok b
          → R b (S.view (handle_result (completed r) g f w).1.state)
      answered none w b done' failed' e = (after tt).holds w b (done' refl) e
      answered (some x) w b done' failed' e = (failed (failure x)).holds w b (failed' x refl) e

module _ {C : Client} (S : Stores C) where
  pub Triple-create :
      (t : Tracked) (o : Object (kind_of t)) {P : View → Type 0} {Q : Unit {0} → View → Type 0}
      → ((v : View) → P v → Q tt (put t o v))
      → Triple S P (create (kind_of t) o) Q
  unfolding create
  Triple-create t o {P} {Q} written = record {
    holds = λ w a p e.
        subst (Q tt)
          (sym (S.create_done t o w.state (completed-ok (C.create (kind_of t) o w.state).0 e)))
          (written (S.view w.state) p);
  }

  pub Triple-delete :
      (t : Tracked) (namespace name : String) {P : View → Type 0} {Q : Unit {0} → View → Type 0}
      → ((v : View) → P v → Q tt (remove t namespace name v))
      → Triple S P (delete (kind_of t) namespace name) Q
  unfolding delete
  Triple-delete t namespace name {P} {Q} written = record {
    holds = λ w a p e.
        subst (Q tt)
          (sym (
            S.delete_done t namespace name w.state
              (completed-ok (C.delete (kind_of t) namespace name w.state).0 e)))
          (written (S.view w.state) p);
  }

  pub Triple-own :
      (owner : Service) (m : ObjectMeta) {P : View → Type 0}
      → Triple S P (set_controller_reference owner m) (λ m' v. P v × IsSameObject m m')
  unfolding set_controller_reference
  Triple-own owner m {P} = record {
    holds = λ w m' p e.
        (p, S.own_same owner m m' (answer-ok (C.set_controller_reference owner m) m' e));
  }

  pub Triple-sleep : (n : ℕ) {P : View → Type 0} → Triple S P (sleep n) (λ _ v. P v)
  unfolding sleep
  Triple-sleep n {P} = record { holds = λ w a p e. subst P (sym (S.sleep_view n w.state)) p }
