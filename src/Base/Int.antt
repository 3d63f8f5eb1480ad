-- ===== src/Base/Int.antt =====
-- Signed integers over the native numbers; `negsuc n` is -(n + 1).
use Prim.Native.Nat.{ℕ, suc, zero, ◌/◌, ◌%◌, compare, Ordering}
use Prim.Native.String.{String, char_at, ◌++◌}
use mathlib.Core.Path.{◌≡◌, refl}
use mathlib.Core.Bool.{Bool, true, false}
use native.Mathlib.Decide.{ℕ_discrete}

pub data ℤ : Type 0 where
  pos : ℕ → ℤ
  negsuc : ℕ → ℤ

pub ℤ-discrete : Discrete ℤ
ℤ-discrete = hlevel ℕ_discrete

abbrev pub int_eq : ℤ → ℤ → Bool
int_eq (pos a) (pos b) = elim (compare a b) [ Ordering.eq ↦ true | _ ↦ false ]
int_eq (negsuc a) (negsuc b) = elim (compare a b) [ Ordering.eq ↦ true | _ ↦ false ]
int_eq _ _ = false

-- `x > 0`
abbrev pub is_positive : ℤ → Bool
is_positive (pos zero) = false
is_positive (pos (suc _)) = true
is_positive (negsuc _) = false

-- The decimal digits of a number, the last one first to be written; the fuel `n` is enough for `n`.
decimal_digits : ℕ → ℕ → String → String
decimal_digits zero n out = out
decimal_digits (suc fuel) n out =
    let out' : String = String.◌∷◌ (char_at "0123456789" (n % 10)) out in
    elim (n / 10) [ zero ↦ out' | suc m ↦ decimal_digits fuel (suc m) out' ]

-- `fmt.Sprintf("%d", n)` for a number that is not negative
unfoldable pub decimal : ℕ → String
unfolding decimal_digits
decimal n = decimal_digits (suc n) n String.[]

-- `fmt.Sprintf("%d", z)`
unfoldable pub format_int : ℤ → String
unfolding decimal
format_int (pos n) = decimal n
format_int (negsuc n) = "-" ++ decimal (suc n)

decimal_tests :
    (format_int (pos 0) ≡ "0") × (format_int (pos 8123) ≡ "8123") × (format_int (negsuc 41) ≡ "-42")
unfolding format_int
decimal_tests = (refl, refl, refl)
