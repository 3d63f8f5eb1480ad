-- ===== src/Base/Equal.antt =====
-- `reflect.DeepEqual` and `==`, as decisions.
use Prim.Native.String.{String}
use mathlib.Core.Path.{◌≡◌}
use mathlib.Core.Logic.{ite, dite, ◌↔◌}
use mathlib.Core.Bool.{Bool, true, false, Bool-discrete}
use native.Mathlib.Omega.{arith}
use text.Mathlib.Text.{◌==◌}
use text.Mathlib.TextEquality.{eq_iff}

unfoldable pub string_discrete : Discrete String
string_discrete s t =
    dite (Bool-discrete (s == t) true) (λ same. yes ((eq_iff s t).0 same))
      (λ differ. no (λ p. differ ((eq_iff s t).1 p)))

-- `reflect.DeepEqual(a, b)`
abbrev pub deep_equal : {A : Type 0} → Discrete A → A → A → Bool
deep_equal dec a b = ite (dec a b) true false

pub deep_equal_self : {A : Type 0} (dec : Discrete A) (a : A) → deep_equal dec a a ≡ true
deep_equal_self dec a = ground arith

pub deep_equal_iff :
    {A : Type 0} (dec : Discrete A) (a b : A) → (deep_equal dec a b ≡ true) ↔ (a ≡ b)
deep_equal_iff dec a b = ground arith
