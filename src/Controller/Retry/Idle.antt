-- ===== src/Controller/Retry/Idle.antt =====
-- The retry loop of service_controller.go when the first round changes nothing.
use unbind_operator.Base.{ℕ, suc, ◌⊎◌, inr}
use unbind_operator.Client.{Client}
use unbind_operator.Client.View.{View}
use unbind_operator.Client.Stores.{Stores}
use unbind_operator.Client.Quiet.{Quiet, Quiet-bind, Quiet-pure}
use unbind_operator.Client.Monad.{Action}
use unbind_operator.Controller.Retry.{retry}

pub retry-Quiet :
    {C : Client} {T A : Type 0} (S : Stores C) (v : View) (body : T → Action C (T ⊎ A))
    (exhausted : T → Action C A) (rounds backoff : ℕ) (x : T) (a : A)
    → Quiet S v (body x) (inr a)
    → Quiet S v (retry body exhausted (suc rounds) backoff x) a
unfolding retry
retry-Quiet S v body exhausted rounds backoff x a h =
    Quiet-bind S v (body x) _ (inr a) a h (Quiet-pure S v a)
