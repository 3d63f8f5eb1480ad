-- ===== src/Controller/Retry.antt =====
-- The retry loop that the reconciler's methods share, and the interface of the resource builder that
-- they are given.
pub mod Bounds
pub mod Ends
pub mod Idle
pub mod Costs
pub mod Runs
use unbind_operator.Base.{ℕ, zero, suc, ◌*◌, ◌⊎◌, inl, inr, List}
use unbind_operator.Base.Outcome.{Outcome}
use unbind_operator.Kube.{Deployment, CoreService, Ingress}
use unbind_operator.Client.{Client}
use unbind_operator.Client.Monad.{Action, pure, ◌>>=◌, sleep}

-- The methods of `ResourceBuilderInterface` that the generic path calls
pub record ResourceBuilder (F : Type 0) : Type 0 where
  pub build_deployment : Outcome F Deployment
  pub build_services : Outcome F (List CoreService)
  pub build_ingress : Outcome F Ingress

-- `maxRetries := 5`
abbrev pub max_retries : ℕ
max_retries = 5

module _ {C : Client} {S A : Type 0} (body : S → Action C (S ⊎ A))
    (exhausted : S → Action C A) where
  -- `for i := 0; i < maxRetries; i++ { … }`, with the rounds that are left and the next backoff in
  -- seconds. The body leaves the loop (`inr`), or met a conflict and goes round again (`inl`).
  unfoldable pub retry : ℕ → ℕ → S → Action C A
  retry zero backoff s = exhausted s
  retry (suc rounds) backoff s = body s >>= λ r. elim r [
    | inl s' ↦ sleep backoff >>= λ _. retry rounds (backoff * 2) s'
    | inr a ↦ pure a
  ]
