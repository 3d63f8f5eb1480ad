-- ===== src/Client/Runs.antt =====
-- Total correctness on the abstract state, on a server that refuses nothing: what holds when an
-- action ends, with a success or with an error. One rule for each way to build an action.
use unbind_operator.Base.{
  String, inl, inr, ◌≡◌, refl, sym, Bool, true, false, none, some, if◌then◌else◌, ◌∷◌, Option-cases,
}
use mathlib.Core.Path.{subst}
use unbind_operator.Base.Outcome.{Outcome, Error, ok, err, panic, failure}
use unbind_operator.Api.{Service}
use unbind_operator.Kube.{Object, ObjectMeta}
use unbind_operator.Client.{Client, getting, updating}
use unbind_operator.Client.View.{Tracked, View, kind_of, meta_of, look, put, remove}
use unbind_operator.Client.Stores.{Stores, IsSameObject}
use unbind_operator.Client.Quiet.{Answers}
use unbind_operator.Client.Monad.{
  Action, World, pure, raise, continue, handle, wrapping, wrap_result, ◌>>=◌, get, create, update,
  delete, set_controller_reference, is_not_found,
}

-- No call fails that has an object to work on, and no object belongs to another controller.
pub record Accepts {C : Client} (S : Stores C) : Type 0 where
  pub created :
      (t : Tracked) (o : Object (kind_of t)) (s : C.State)
      → look t (S.view s) (meta_of t o).namespace (meta_of t o).name ≡ none
      → (C.create (kind_of t) o s).0 ≡ none
  pub updated :
      (t : Tracked) (o x : Object (kind_of t)) (s : C.State)
      → look t (S.view s) (meta_of t o).namespace (meta_of t o).name ≡ some x
      → (C.update (kind_of t) o s).0 ≡ none
  pub deleted :
      (t : Tracked) (namespace name : String) (x : Object (kind_of t)) (s : C.State)
      → look t (S.view s) namespace name ≡ some x
      → (C.delete (kind_of t) namespace name s).0 ≡ none
  pub owned :
      (owner : Service) (m : ObjectMeta)
      → (m' : ObjectMeta) × (C.set_controller_reference owner m ≡ inr m')

-- The success leaves a view with `Q`, the error one with `E`; there is no panic.
abbrev pub Ends :
    {F A : Type 0} → (A → View → Type 0) → (View → Type 0) → Outcome F A → View → Type 0
Ends Q E (ok a) v = Q a v
Ends Q E (err e) v = E v
Ends Q E panic v = ⊥

pub record Run {C : Client} {A : Type 0} (S : Stores C) (P : View → Type 0) (m : Action C A)
    (Q : A → View → Type 0) (E : View → Type 0) : Type 0 where
  pub ends : (w : World C) → P (S.view w.state) → Ends Q E (m w).0 (S.view (m w).1.state)

module _ {C : Client} {A : Type 0} (S : Stores C) {P : View → Type 0} {Q : A → View → Type 0}
    {E : View → Type 0} where
  pub Run-pure : (a : A) → ((v : View) → P v → Q a v) → Run S P (pure a) Q E
  Run-pure a h = record { ends = λ w p. h (S.view w.state) p }

  pub Run-raise : (e : Error C.Failure) → ((v : View) → P v → E v) → Run S P (raise e) Q E
  Run-raise e h = record { ends = λ w p. h (S.view w.state) p }

  pub Run-if :
      (t : Bool) (m n : Action C A)
      → (t ≡ true → Run S P m Q E)
      → (t ≡ false → Run S P n Q E)
      → Run S P (if t then m else n) Q E
  Run-if true m n h h' = h refl
  Run-if false m n h h' = h' refl

  pub Run-wrapping :
      (text : String) (m : Action C A) → Run S P m Q E → Run S P (wrapping text m) Q E
  unfolding wrapping
  Run-wrapping text m h = record { ends = λ w p. wrapped (m w).0 _ (h.ends w p) }
    where
      wrapped :
          (r : Outcome C.Failure A) (v : View) → Ends Q E r v → Ends Q E (wrap_result text r) v
      wrapped (ok a) v q = q
      wrapped (err e) v q = q
      wrapped panic v q = q

  pub Run-weaken :
      {P' : View → Type 0} {Q' : A → View → Type 0} {E' : View → Type 0} {m : Action C A}
      → ((v : View) → P v → P' v)
      → ((a : A) (v : View) → Q' a v → Q a v)
      → ((v : View) → E' v → E v)
      → Run S P' m Q' E'
      → Run S P m Q E
  Run-weaken {P'} {Q'} {E'} {m} before after failed h = record {
    ends = λ w p. weakened (m w).0 _ (h.ends w (before _ p));
  }
    where
      weakened : (r : Outcome C.Failure A) (v : View) → Ends Q' E' r v → Ends Q E r v
      weakened (ok a) v q = after a v q
      weakened (err e) v q = failed v q
      weakened panic v q = absurd q

module _ {C : Client} {A B : Type 0} (S : Stores C) where
  pub Run-bind :
      {P : View → Type 0} {Q : A → View → Type 0} {R : B → View → Type 0} {E : View → Type 0}
      {m : Action C A} {f : A → Action C B}
      → Run S P m Q E
      → ((a : A) → Run S (Q a) (f a) R E)
      → Run S P (m >>= f) R E
  unfolding ◌>>=◌
  Run-bind {P} {Q} {R} {E} {m} {f} h k = record { ends = λ w p. after (m w).0 (m w).1 (h.ends w p) }
    where
      after :
          (r : Outcome C.Failure A) (w' : World C)
          → Ends Q E r (S.view w'.state)
          → Ends R E (continue r f w').0 (S.view (continue r f w').1.state)
      after (ok a) w' q = (k a).ends w' q
      after (err e) w' q = q
      after panic w' q = absurd q

module _ {C : Client} {B : Type 0} (S : Stores C) (answers : Answers S) where
  -- A lookup finds the object, or reports that it is missing.
  pub Run-get :
      (t : Tracked) (namespace name : String) {P : View → Type 0} {R : B → View → Type 0}
      {E : View → Type 0} {g : Error C.Failure → Action C B} {f : Object (kind_of t) → Action C B}
      → ((e : Error C.Failure)
          → is_not_found C e ≡ true
          → Run S (λ v. P v × (look t v namespace name ≡ none)) (g e) R E)
      → ((o : Object (kind_of t)) → Run S (λ v. P v × (look t v namespace name ≡ some o)) (f o) R E)
      → Run S P (handle (get (kind_of t) namespace name) g f) R E
  unfolding handle get
  Run-get t namespace name {P} {R} {E} {g} {f} missing found = record {
    ends = λ w p.
        let w' : World C = record {
          state = (C.get (kind_of t) namespace name w.state).1;
          log = getting (kind_of t) namespace name ∷ w.log;
        } in
        let same = sym (S.get_view (kind_of t) namespace name w.state) in
        elim (Option-cases (look t (S.view w.state) namespace name)) [
          | inl absent ↦
              let (x, answered, not_there) = answers.missing t namespace name w.state absent in
              rw answered (
                (missing (failure x) not_there).ends w'
                  (subst (λ v. P v × (look t v namespace name ≡ none)) same (p, absent)))
          | inr (o, there) ↦ rw (answers.found t namespace name w.state o there) (
              (found o).ends w'
                (subst (λ v. P v × (look t v namespace name ≡ some o)) same (p, there)))
        ];
  }

module _ {C : Client} (S : Stores C) (accepts : Accepts S) where
  pub Run-create :
      (t : Tracked) (o : Object (kind_of t)) {P : View → Type 0} {Q : Unit {0} → View → Type 0}
      {E : View → Type 0}
      → ((v : View)
          → P v
          → (look t v (meta_of t o).namespace (meta_of t o).name ≡ none) × Q tt (put t o v))
      → Run S P (create (kind_of t) o) Q E
  unfolding create
  Run-create t o {P} {Q} {E} h = record {
    ends = λ w p.
        let (absent, q) = h (S.view w.state) p in
        let accepted = accepts.created t o w.state absent in
        rw accepted (subst (Q tt) (sym (S.create_done t o w.state accepted)) q);
  }

  pub Run-delete :
      (t : Tracked) (namespace name : String) {P : View → Type 0} {Q : Unit {0} → View → Type 0}
      {E : View → Type 0}
      → ((v : View)
          → P v
          → ((x : Object (kind_of t)) × (look t v namespace name ≡ some x))
            × Q tt (remove t namespace name v))
      → Run S P (delete (kind_of t) namespace name) Q E
  unfolding delete
  Run-delete t namespace name {P} {Q} {E} h = record {
    ends = λ w p.
        let ((x, there), q) = h (S.view w.state) p in
        let accepted = accepts.deleted t namespace name x w.state there in
        rw accepted (subst (Q tt) (sym (S.delete_done t namespace name w.state accepted)) q);
  }

  pub Run-update :
      (t : Tracked) (o : Object (kind_of t)) {B : Type 0} {P P' : View → Type 0}
      {R : B → View → Type 0} {E : View → Type 0} (g : Error C.Failure → Action C B)
      (f : Unit {0} → Action C B)
      → ((v : View)
          → P v
          → ((x : Object (kind_of t)) × (look t v (meta_of t o).namespace (meta_of t o).name
                ≡ some x))
            × P' (put t o v))
      → Run S P' (f tt) R E
      → Run S P (handle (update (kind_of t) o) g f) R E
  unfolding handle update
  Run-update t o {B} {P} {P'} {R} {E} g f written after = record {
    ends = λ w p.
        let ((x, there), p') = written (S.view w.state) p in
        let accepted = accepts.updated t o x w.state there in
        rw accepted (
          after.ends
            (record {
              state = (C.update (kind_of t) o w.state).1;
              log = updating (kind_of t) o ∷ w.log;
            })
            (subst P' (sym (S.update_done t o w.state accepted)) p'));
  }

  pub Run-own :
      (owner : Service) (m : ObjectMeta) {P : View → Type 0} {E : View → Type 0}
      → Run S P (set_controller_reference owner m) (λ m' v. P v × IsSameObject m m') E
  unfolding set_controller_reference
  Run-own owner m {P} {E} = record {
    ends = λ w p.
        let (m', accepted) = accepts.owned owner m in
        rw accepted (p, S.own_same owner m m' accepted);
  }
