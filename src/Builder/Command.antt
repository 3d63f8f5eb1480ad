-- ===== src/Builder/Command.antt =====
-- `parseCommand` of internal/resourcebuilder/deployment.go, over the runes of the command. `none` is
-- a run-time panic: the slice `shellArg[1 : len(shellArg)-1]` of a text of one character.
pub mod Words
pub mod Quotes
use mathlib.Core.Option
use unbind_operator.Base.{
  ◌≡◌, refl, ◌-◌, String, Char, code, Bool, true, false, ◌&&◌, ◌||◌, Option, none, some, List, [],
  ◌∷◌, ◌++◌, map, length, take, drop, is_empty, nat_eq, if◌then◌else◌, ltb,
}
use unbind_operator.Base.Text.{
  runes, to_text, char_eq, has_prefix, has_suffix, contains, split_first, trim, is_space,
}

abbrev pub Runes : Type 0
Runes = List Char

-- `r == '"' || r == '\''`
abbrev pub is_quote : Char → Bool
is_quote c = nat_eq (code c) 34 || nat_eq (code c) 39

abbrev double_quote : Runes
double_quote = runes "\""

abbrev single_quote : Runes
single_quote = runes "'"

-- `shellPrefixes`
unfoldable pub is_already_shell_command : Runes → Bool
is_already_shell_command cmd =
    has_prefix cmd (runes "sh -c ")
    || has_prefix cmd (runes "/bin/sh -c ")
    || has_prefix cmd (runes "bash -c ")

-- The operators that need a shell
unfoldable pub has_shell_operator : Runes → Bool
has_shell_operator cmd =
    contains cmd (runes "&&")
    || contains cmd (runes "||")
    || contains cmd (runes "|")
    || contains cmd (runes ">")
    || contains cmd (runes "<")

-- The quotes round the shell argument are removed.
unfoldable pub unquote : Runes → Option Runes
unquote shell_arg =
    if (has_prefix shell_arg double_quote && has_suffix shell_arg double_quote)
      || (has_prefix shell_arg single_quote && has_suffix shell_arg single_quote)
    then (if ltb (length shell_arg) 2
        then none
        else some (take (length shell_arg - 2) (drop 1 shell_arg)))
    else some shell_arg

-- The variables of the loop; `quote` is `quoteChar` while `inQuotes`.
pub record Scan : Type 0 where
  pub result : List Runes
  pub current : Runes
  pub quote : Option Char

abbrev pub start : Scan
start = record { result = []; current = []; quote = none }

abbrev on_quote : Option Char → Scan → Char → Scan
on_quote none s r = record s { quote = some r }
on_quote (some q) s r =
    if char_eq r q then record s { quote = none } else record s { current = s.current ++ (r ∷ []) }

-- The body of the loop
unfoldable pub scan_rune : Scan → Char → Scan
scan_rune s r =
    if is_quote r
    then on_quote s.quote s r
    else if nat_eq (code r) 32 && elim s.quote [ none ↦ true | some _ ↦ false ]
    then (if is_empty s.current
        then s
        else record s { result = s.result ++ (s.current ∷ []); current = [] })
    else record s { current = s.current ++ (r ∷ []) }

unfoldable pub scan_runes : Scan → Runes → Scan
scan_runes s [] = s
scan_runes s (r ∷ cmd) = scan_runes (scan_rune s r) cmd

-- Adds the last part if there is one.
abbrev pub finish : Scan → List Runes
finish s = if is_empty s.current then s.result else s.result ++ (s.current ∷ [])

-- The branch for commands without shell operators
unfoldable pub split_words : Runes → List Runes
unfolding scan_runes scan_rune
split_words cmd = map (trim is_quote) (finish (scan_runes start cmd))

-- Everything after the test for a shell command
unfoldable pub parse_plain : Runes → List Runes
unfolding has_shell_operator split_words
parse_plain cmd =
    if has_shell_operator cmd then runes "/bin/sh" ∷ runes "-c" ∷ cmd ∷ [] else split_words cmd

abbrev shell_parts : Runes → Option (Runes × Runes) → Option (List Runes)
shell_parts cmd none = some (parse_plain cmd)
shell_parts cmd (some (shell_cmd, rest)) =
    Option.map (λ shell_arg. trim is_space shell_cmd ∷ runes "-c" ∷ shell_arg ∷ [])
      (unquote (trim is_space rest))

unfoldable pub parse_runes : Runes → Option (List Runes)
unfolding parse_plain unquote is_already_shell_command
parse_runes cmd =
    if is_empty cmd
    then some []
    else if is_already_shell_command cmd
    then shell_parts cmd (split_first cmd (runes " -c "))
    else some (parse_plain cmd)

-- `parseCommand`
unfoldable pub parse_command : String → Option (List String)
unfolding parse_runes
parse_command cmd = Option.map (map to_text) (parse_runes (runes cmd))

parse_tests :
    (parse_command "npm run \"my script\"" ≡ some ("npm" ∷ "run" ∷ "my script" ∷ []))
    × (parse_command "a && b" ≡ some ("/bin/sh" ∷ "-c" ∷ "a && b" ∷ []))
    × (parse_command "sh -c 'a | b'" ≡ some ("sh" ∷ "-c" ∷ "a | b" ∷ []))
    × (parse_command "sh -c \"" ≡ none)
unfolding parse_command runes to_text contains has_prefix has_suffix split_first trim
parse_tests = (refl, refl, refl, refl)
