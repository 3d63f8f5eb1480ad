-- ===== src/Operator/Repeated.antt =====
-- `installMySQLOperator` and `installClickHouseOperator` where the Helm resources exist.
use unbind_operator.Base.{String, ◌≡◌, some, true, ◌∷◌, arith}
use unbind_operator.Base.Outcome.{ok}
use unbind_operator.Kube.{Kind}
use unbind_operator.Client.{Client, creating}
use unbind_operator.Client.Monad.{World, create, handle, ◌>>=◌}
use unbind_operator.Operator.{Chart, chart_repository, chart_release, install_chart}

module _ {C : Client} where
  -- If the server answers both creations with the error that the resource exists already, then the
  -- installation still asks for both, the repository first, and succeeds.
  pub install_chart-repeated :
      (c : Chart) (namespace : String) (w : World C) (f f' : C.Failure)
      → (C.create Kind.helm_repository (chart_repository c namespace) w.state).0 ≡ some f
      → C.is_already_exists f ≡ true
      → (C.create Kind.helm_release
          (chart_release c namespace)
          (C.create Kind.helm_repository (chart_repository c namespace) w.state).1).0
        ≡ some f'
      → C.is_already_exists f' ≡ true
      → ((install_chart c namespace w).0 ≡ ok tt)
        × ((install_chart c namespace w).1.log
            ≡ creating Kind.helm_release (chart_release c namespace)
              ∷ creating Kind.helm_repository (chart_repository c namespace)
              ∷ w.log)
  unfolding install_chart handle ◌>>=◌ create
  install_chart-repeated c namespace w f f' h e h' e' = (ground arith, ground arith)
