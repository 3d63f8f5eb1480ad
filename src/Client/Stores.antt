-- ===== src/Client/Stores.antt =====
-- What the reconciler relies on of the API server: a call that succeeds has its effect, one that
-- fails has none, a lookup answers what is there, and no one else writes these objects meanwhile. The
-- effect of a write is the object as it is read back (Client/Reading).
use unbind_operator.Base.{ℕ, String, true, ◌≡◌, inl, inr, none, some}
use unbind_operator.Api.{Service}
use unbind_operator.Kube.{Kind, Object, ObjectMeta}
use unbind_operator.Client.{Client}
use unbind_operator.Client.View.{Tracked, View, kind_of, look, put, remove}

-- The name and the labels are those of the other metadata.
pub record IsSameObject (m m' : ObjectMeta) : Type 0 where
  pub same_name : m'.name ≡ m.name
  pub same_namespace : m'.namespace ≡ m.namespace
  pub same_labels : m'.labels ≡ m.labels

pub record Stores (C : Client) : Type 0 where
  pub view : C.State → View
  pub get_view :
      (k : Kind) (namespace name : String) (s : C.State)
      → view (C.get k namespace name s).1 ≡ view s
  pub get_found :
      (t : Tracked) (namespace name : String) (s : C.State) (o : Object (kind_of t))
      → (C.get (kind_of t) namespace name s).0 ≡ inr o
      → look t (view s) namespace name ≡ some o
  pub get_missing :
      (t : Tracked) (namespace name : String) (s : C.State) (f : C.Failure)
      → (C.get (kind_of t) namespace name s).0 ≡ inl f
      → C.is_not_found f ≡ true
      → look t (view s) namespace name ≡ none
  pub create_done :
      (t : Tracked) (o : Object (kind_of t)) (s : C.State)
      → (C.create (kind_of t) o s).0 ≡ none
      → view (C.create (kind_of t) o s).1 ≡ put t o (view s)
  pub update_done :
      (t : Tracked) (o : Object (kind_of t)) (s : C.State)
      → (C.update (kind_of t) o s).0 ≡ none
      → view (C.update (kind_of t) o s).1 ≡ put t o (view s)
  pub update_failed :
      (t : Tracked) (o : Object (kind_of t)) (s : C.State) (f : C.Failure)
      → (C.update (kind_of t) o s).0 ≡ some f
      → view (C.update (kind_of t) o s).1 ≡ view s
  pub delete_done :
      (t : Tracked) (namespace name : String) (s : C.State)
      → (C.delete (kind_of t) namespace name s).0 ≡ none
      → view (C.delete (kind_of t) namespace name s).1 ≡ remove t namespace name (view s)
  -- An update of the status writes the status alone.
  pub status_done :
      (service x : Service) (s : C.State)
      → (view s).services service.namespace service.name ≡ some x
      → (C.update_status service s).0 ≡ none
      → view (C.update_status service s).1
        ≡ put Tracked.service (record x { status = service.status }) (view s)
  pub sleep_view : (seconds : ℕ) (s : C.State) → view (C.sleep seconds s) ≡ view s
  pub own_same :
      (owner : Service) (m m' : ObjectMeta)
      → C.set_controller_reference owner m ≡ inr m'
      → IsSameObject m m'
