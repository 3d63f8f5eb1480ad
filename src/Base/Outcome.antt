-- ===== src/Base/Outcome.antt =====
-- How a Go call ends: with a value, with an error, or by a panic that unwinds the caller too.
-- `F` is the type of the failures that come from outside: the API server and the libraries.
use unbind_operator.Base.{String, Bool, false}

pub data Error (F : Type 0) : Type 0 where
  failure : F → Error F
  -- `fmt.Errorf("…: %w", err)`
  wrap : String → Error F → Error F
  message : String → Error F
  deployment_not_needed service_not_needed ingress_not_needed : Error F

pub data Outcome (F A : Type 0) : Type 0 where
  ok : A → Outcome F A
  err : Error F → Outcome F A
  panic : Outcome F A

-- A test of the failure at the bottom of a chain of wrapped errors, as `errors.As` finds it.
abbrev pub holds : {F : Type 0} → (F → Bool) → Error F → Bool
holds p (failure f) = p f
holds p (wrap m e) = holds p e
holds p _ = false
