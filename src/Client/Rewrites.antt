-- ===== src/Client/Rewrites.antt =====
-- Actions that leave the view as it is and write `n` times: what they write is there already.
use mathlib.Core.Path.{subst}
use unbind_operator.Base.{
  ℕ, ◌+◌, String, ◌≡◌, ◌∙◌, refl, sym, arith, Bool, true, false, some, if◌then◌else◌, ◌∷◌,
}
use unbind_operator.Base.Outcome.{Error, ok}
use unbind_operator.Kube.{Object}
use unbind_operator.Client.{Client, getting}
use unbind_operator.Client.Log.{writes}
use unbind_operator.Client.View.{Tracked, View, kind_of, look}
use unbind_operator.Client.Stores.{Stores}
use unbind_operator.Client.Quiet.{Answers, Quiet}
use unbind_operator.Client.Monad.{Action, World, handle, ◌>>=◌, get}

-- From the view `v`, the action succeeds with `a`, writes `n` times and leaves the view alone.
pub record Rewrites {C : Client} {A : Type 0} (S : Stores C) (v : View) (n : ℕ) (m : Action C A)
    (a : A) : Type 0 where
  pub ends :
      (w : World C)
      → S.view w.state ≡ v
      → ((m w).0 ≡ ok a) × (S.view (m w).1.state ≡ v) × (writes (m w).1.log ≡ n + writes w.log)

module _ {C : Client} {A : Type 0} (S : Stores C) (v : View) where
  pub Rewrites-Quiet : (m : Action C A) (a : A) → Quiet S v m a → Rewrites S v 0 m a
  Rewrites-Quiet m a h = record {
    ends =
        λ w e. let (done', same, no_write) = h.ends w e in (done', same, omega (arith, no_write));
  }

  pub Rewrites-if :
      (n : ℕ) (t : Bool) (m m' : Action C A) (a : A)
      → (t ≡ true → Rewrites S v n m a)
      → (t ≡ false → Rewrites S v n m' a)
      → Rewrites S v n (if t then m else m') a
  Rewrites-if n true m m' a h h' = h refl
  Rewrites-if n false m m' a h h' = h' refl

module _ {C : Client} {A B : Type 0} (S : Stores C) (v : View) where
  -- Nothing is written after `m`.
  pub Rewrites-bind :
      (n : ℕ) (m : Action C A) (f : A → Action C B) (a : A) (b : B)
      → Rewrites S v n m a
      → Quiet S v (f a) b
      → Rewrites S v n (m >>= f) b
  unfolding ◌>>=◌
  Rewrites-bind n m f a b h h' = record {
    ends = λ w e.
        let (done', same, written) = h.ends w e in
        let (done'', same', no_write) = h'.ends (m w).1 same in
        rw done' (done'', same', no_write ∙ written);
  }

module _ {C : Client} {B : Type 0} (S : Stores C) (answers : Answers S) (v : View) where
  pub Rewrites-found :
      (n : ℕ) (t : Tracked) (namespace name : String) (o : Object (kind_of t))
      (g : Error C.Failure → Action C B) (f : Object (kind_of t) → Action C B) (b : B)
      → look t v namespace name ≡ some o
      → Rewrites S v n (f o) b
      → Rewrites S v n (handle (get (kind_of t) namespace name) g f) b
  unfolding handle get
  Rewrites-found n t namespace name o g f b there h = record {
    ends = λ w e.
        let answered =
          answers.found t namespace name w.state o
            (subst (λ v'. look t v' namespace name ≡ some o) (sym e) there) in
        rw answered (
          h.ends
            (record {
              state = (C.get (kind_of t) namespace name w.state).1;
              log = getting (kind_of t) namespace name ∷ w.log;
            })
            (S.get_view (kind_of t) namespace name w.state ∙ e));
  }
