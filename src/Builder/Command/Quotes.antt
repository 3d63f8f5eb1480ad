-- ===== src/Builder/Command/Quotes.antt =====
-- The quotes round the argument of a shell command in `parseCommand`.
use unbind_operator.Base.{◌≡◌, ◌↔◌, Bool, true, false, none, [], ◌∷◌, arith}
use unbind_operator.Base.Text.{has_prefix, has_suffix, runes}
use unbind_operator.Builder.Command.{Runes, is_quote, unquote}

-- One character, which is a quote
abbrev pub is_lone_quote : Runes → Bool
is_lone_quote (c ∷ []) = is_quote c
is_lone_quote _ = false

-- The quotes cannot be removed, which is a panic of the slice expression, exactly if the argument is
-- one quote character.
pub unquote-panics_iff : (arg : Runes) → (unquote arg ≡ none) ↔ (is_lone_quote arg ≡ true)
unfolding unquote has_prefix has_suffix runes
unquote-panics_iff [] = (λ h. absurd (ground arith), λ h. absurd (ground arith))
unquote-panics_iff (c ∷ []) = (λ h. ground arith, λ h. ground arith)
unquote-panics_iff (c ∷ d ∷ arg) = (λ h. absurd (ground arith), λ h. absurd (ground arith))
