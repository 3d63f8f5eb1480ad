-- ===== src/Base/Text.antt =====
-- The functions of Go's `strings` package that the operator calls. They go over the characters of
-- a text; letters outside ASCII are left alone by `to_lower`.
use Prim.Native.Char.{Char, code}
use Prim.Native.Nat.{◌-◌}
use Prim.Native.String.{String, char_at}
use mathlib.Core.Path.{◌≡◌, refl}
use mathlib.Core.Bool.{Bool, true, false, ◌&&◌, ◌||◌}
use mathlib.Core.Option.{Option, none, some}
use mathlib.Core.List.{List, reverse}
use text.Mathlib.Text.{◌==◌}
use unbind_operator.Base.Tests.{nat_eq, leb, if◌then◌else◌}

-- The runes of a text, which `range` goes over.
unfoldable pub runes : String → List Char
runes String.[] = List.[]
runes (String.◌∷◌ c s) = List.◌∷◌ c (runes s)

unfoldable pub to_text : List Char → String
to_text List.[] = String.[]
to_text (List.◌∷◌ c s) = String.◌∷◌ c (to_text s)

pub to_text-runes : (s : String) → to_text (runes s) ≡ s
unfolding to_text runes
to_text-runes String.[] = refl
to_text-runes (String.◌∷◌ c s) = λ i. String.◌∷◌ c (to_text-runes s i)

pub runes-to_text : (s : List Char) → runes (to_text s) ≡ s
unfolding to_text runes
runes-to_text List.[] = refl
runes-to_text (List.◌∷◌ c s) = λ i. List.◌∷◌ c (runes-to_text s i)

abbrev pub char_eq : Char → Char → Bool
char_eq c d = nat_eq (code c) (code d)

-- `strings.HasPrefix(s, p)`
unfoldable pub has_prefix : List Char → List Char → Bool
has_prefix s List.[] = true
has_prefix List.[] (List.◌∷◌ _ _) = false
has_prefix (List.◌∷◌ c s) (List.◌∷◌ d p) = char_eq c d && has_prefix s p

-- `strings.HasSuffix(s, p)`
unfoldable pub has_suffix : List Char → List Char → Bool
unfolding has_prefix
has_suffix s p = has_prefix (reverse s) (reverse p)

-- `strings.Contains(s, p)`
unfoldable pub contains : List Char → List Char → Bool
unfolding has_prefix
contains List.[] p = has_prefix List.[] p
contains (List.◌∷◌ c s) p = has_prefix (List.◌∷◌ c s) p || contains s p

drop_prefix : List Char → List Char → List Char
drop_prefix s List.[] = s
drop_prefix List.[] (List.◌∷◌ _ _) = List.[]
drop_prefix (List.◌∷◌ _ s) (List.◌∷◌ _ p) = drop_prefix s p

abbrev push : Char → Option (List Char × List Char) → Option (List Char × List Char)
push c none = none
push c (some (a, b)) = some (List.◌∷◌ c a, b)

-- `strings.SplitN(s, sep, 2)`: the parts round the first `sep`, or `none` where there is one part.
unfoldable pub split_first : List Char → List Char → Option (List Char × List Char)
unfolding has_prefix drop_prefix
split_first List.[] sep = none
split_first (List.◌∷◌ c s) sep =
    let rest = split_first s sep in
    if has_prefix (List.◌∷◌ c s) sep
    then some (List.[], drop_prefix (List.◌∷◌ c s) sep)
    else push c rest

unfoldable pub trim_left : (Char → Bool) → List Char → List Char
trim_left p List.[] = List.[]
trim_left p (List.◌∷◌ c s) = let rest = trim_left p s in if p c then rest else List.◌∷◌ c s

-- `strings.TrimFunc(s, p)`
unfoldable pub trim : (Char → Bool) → List Char → List Char
unfolding trim_left
trim p s = reverse (trim_left p (reverse (trim_left p s)))

-- `unicode.IsSpace`
abbrev pub is_space : Char → Bool
is_space c =
    let n = code c in
    (leb 9 n && leb n 13)
    || nat_eq n 32
    || nat_eq n 0x85
    || nat_eq n 0xa0
    || nat_eq n 0x1680
    || (leb 0x2000 n && leb n 0x200a)
    || nat_eq n 0x2028
    || nat_eq n 0x2029
    || nat_eq n 0x202f
    || nat_eq n 0x205f
    || nat_eq n 0x3000

abbrev lower_rune : Char → Char
lower_rune c =
    if leb b'A' (code c) && leb (code c) b'Z'
    then char_at "abcdefghijklmnopqrstuvwxyz" (code c - b'A')
    else c

-- `strings.ToLower(s)`
unfoldable pub to_lower : String → String
to_lower String.[] = String.[]
to_lower (String.◌∷◌ c s) = String.◌∷◌ (lower_rune c) (to_lower s)

-- `strings.EqualFold(s, t)`
unfoldable pub equal_fold : String → String → Bool
unfolding to_lower
equal_fold s t = to_lower s == to_lower t

text_tests :
    (to_lower "MySQLCluster" ≡ "mysqlcluster")
    × (to_text (trim is_space (runes "  a b ")) ≡ "a b")
    × (contains (runes "a && b") (runes "&&") ≡ true)
    × (has_suffix (runes "abc") (runes "bc") ≡ true)
unfolding to_lower trim runes to_text contains has_suffix
text_tests = (refl, refl, refl, refl)
