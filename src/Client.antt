-- ===== src/Client.antt =====
-- What the reconciler uses of controller-runtime's client, of the API server behind it and of the
-- system: a parameter of the whole model. The state is anything, so that other actors may change
-- the objects between two calls.
pub mod Monad
pub mod Log
pub mod Spends
pub mod Costs
pub mod Reading
pub mod View
pub mod Frames
pub mod Stores
pub mod Triples
pub mod Stored
pub mod Quiet
pub mod Rewrites
pub mod Runs
use unbind_operator.Base.{ℕ, String, Bool, Option, List, ◌⊎◌}
use unbind_operator.Api.{Service}
use unbind_operator.Kube.{Kind, Object, ObjectMeta}

pub record Client : Type 1 where
  pub State : Type 0
  -- an error of the API server or of a library
  pub Failure : Type 0
  pub is_not_found : Failure → Bool
  pub is_conflict : Failure → Bool
  pub is_already_exists : Failure → Bool
  -- `Get`, by namespace and name
  pub get : (k : Kind) → String → String → State → (Failure ⊎ Object k) × State
  pub create : (k : Kind) → Object k → State → Option Failure × State
  pub update : (k : Kind) → Object k → State → Option Failure × State
  -- `Delete` goes by the kind, the namespace and the name of its object.
  pub delete : Kind → String → String → State → Option Failure × State
  -- `Status().Update`
  pub update_status : Service → State → Option Failure × State
  -- `controllerutil.SetControllerReference`
  pub set_controller_reference : Service → ObjectMeta → Failure ⊎ ObjectMeta
  -- `rand.Read` of so many bytes
  pub read_random : ℕ → State → (Failure ⊎ List ℕ) × State
  -- what happens elsewhere while the reconciler sleeps for so many seconds
  pub sleep : ℕ → State → State

-- The calls of the reconciler, as an observer would log them.
pub data Call : Type 0 where
  getting : Kind → String → String → Call
  creating updating : (k : Kind) → Object k → Call
  deleting : Kind → String → String → Call
  updating_status : Service → Call
  sleeping : ℕ → Call
