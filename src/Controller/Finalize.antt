-- ===== src/Controller/Finalize.antt =====
-- `finalizeService`
use unbind_operator.Base.{String, if◌then◌else◌}
use unbind_operator.Base.Outcome.{wrap}
use unbind_operator.Api.{Service}
use unbind_operator.Kube.{Kind}
use unbind_operator.Client.{Client}
use unbind_operator.Client.Monad.{Action, raise, handle, done, ◌>>=◌, is_not_found, delete}

module _ {C : Client} where
  -- `if err := r.Delete(ctx, o); client.IgnoreNotFound(err) != nil { return … }`
  unfoldable pub delete_if_exists : String → Kind → Service → Action C (Unit {0})
  unfolding handle
  delete_if_exists text k service =
      handle (delete k service.namespace service.name)
        (λ e. if is_not_found C e then done else raise (wrap text e)) (λ _. done)

  unfoldable pub finalize_service : Service → Action C (Unit {0})
  unfolding delete_if_exists ◌>>=◌
  finalize_service service =
      delete_if_exists "failed to delete deployment" Kind.deployment service >>= (λ _.
        delete_if_exists "failed to delete service" Kind.core_service service
        >>= (λ _. delete_if_exists "failed to delete ingress" Kind.ingress service))
