-- ===== src/Client/Quiet.antt =====
-- Actions that only look: on a server that answers lookups with what it holds, they end in a
-- success, leave the view alone and ask for no change.
use unbind_operator.Base.{
  String, inl, inr, ◌≡◌, ◌∙◌, refl, sym, Bool, true, false, none, some, if◌then◌else◌, ◌∷◌,
}
use mathlib.Core.Path.{subst}
use unbind_operator.Base.Outcome.{Error, ok, failure}
use unbind_operator.Kube.{Object}
use unbind_operator.Client.{Client, getting}
use unbind_operator.Client.Log.{writes}
use unbind_operator.Client.View.{Tracked, View, kind_of, look}
use unbind_operator.Client.Stores.{Stores}
use unbind_operator.Client.Monad.{Action, World, pure, handle, ◌>>=◌, get, is_not_found}

-- A lookup never fails for another reason than that the object is missing.
pub record Answers {C : Client} (S : Stores C) : Type 0 where
  pub found :
      (t : Tracked) (namespace name : String) (s : C.State) (o : Object (kind_of t))
      → look t (S.view s) namespace name ≡ some o
      → (C.get (kind_of t) namespace name s).0 ≡ inr o
  pub missing :
      (t : Tracked) (namespace name : String) (s : C.State)
      → look t (S.view s) namespace name ≡ none
      → (f : C.Failure) × ((C.get (kind_of t) namespace name s).0 ≡ inl f)
        × (C.is_not_found f ≡ true)

-- From the view `v`, the action succeeds with `a` and changes nothing.
pub record Quiet {C : Client} {A : Type 0} (S : Stores C) (v : View) (m : Action C A) (a : A)
    : Type 0 where
  pub ends :
      (w : World C)
      → S.view w.state ≡ v
      → ((m w).0 ≡ ok a) × (S.view (m w).1.state ≡ v) × (writes (m w).1.log ≡ writes w.log)

module _ {C : Client} {A : Type 0} (S : Stores C) (v : View) where
  pub Quiet-pure : (a : A) → Quiet S v (pure a) a
  Quiet-pure a = record { ends = λ w e. (refl, e, refl) }

  pub Quiet-if :
      (t : Bool) (m n : Action C A) (a : A)
      → (t ≡ true → Quiet S v m a)
      → (t ≡ false → Quiet S v n a)
      → Quiet S v (if t then m else n) a
  Quiet-if true m n a h h' = h refl
  Quiet-if false m n a h h' = h' refl

module _ {C : Client} {A B : Type 0} (S : Stores C) (v : View) where
  pub Quiet-bind :
      (m : Action C A) (f : A → Action C B) (a : A) (b : B)
      → Quiet S v m a
      → Quiet S v (f a) b
      → Quiet S v (m >>= f) b
  unfolding ◌>>=◌
  Quiet-bind m f a b h h' = record {
    ends = λ w e.
        let (done', same, no_write) = h.ends w e in
        let (done'', same', no_write') = h'.ends (m w).1 same in
        rw done' (done'', same', no_write' ∙ no_write);
  }

module _ {C : Client} {B : Type 0} (S : Stores C) (answers : Answers S) (v : View) where
  -- A lookup of what is there, and of what is missing
  pub Quiet-found :
      (t : Tracked) (namespace name : String) (o : Object (kind_of t))
      (g : Error C.Failure → Action C B) (f : Object (kind_of t) → Action C B) (b : B)
      → look t v namespace name ≡ some o
      → Quiet S v (f o) b
      → Quiet S v (handle (get (kind_of t) namespace name) g f) b
  unfolding handle get
  Quiet-found t namespace name o g f b there h = record {
    ends = λ w e.
        let answered =
          answers.found t namespace name w.state o
            (subst (λ v'. look t v' namespace name ≡ some o) (sym e) there) in
        rw answered (
          h.ends
            (record {
              state = (C.get (kind_of t) namespace name w.state).1;
              log = getting (kind_of t) namespace name ∷ w.log;
            })
            (S.get_view (kind_of t) namespace name w.state ∙ e));
  }

  pub Quiet-missing :
      (t : Tracked) (namespace name : String) (g : Error C.Failure → Action C B)
      (f : Object (kind_of t) → Action C B) (b : B)
      → look t v namespace name ≡ none
      → ((e : Error C.Failure) → is_not_found C e ≡ true → Quiet S v (g e) b)
      → Quiet S v (handle (get (kind_of t) namespace name) g f) b
  unfolding handle get
  Quiet-missing t namespace name g f b absent h = record {
    ends = λ w e.
        let (x, answered, not_there) =
          answers.missing t namespace name w.state
            (subst (λ v'. look t v' namespace name ≡ none) (sym e) absent) in
        rw answered (
          (h (failure x) not_there).ends
            (record {
              state = (C.get (kind_of t) namespace name w.state).1;
              log = getting (kind_of t) namespace name ∷ w.log;
            })
            (S.get_view (kind_of t) namespace name w.state ∙ e));
  }
