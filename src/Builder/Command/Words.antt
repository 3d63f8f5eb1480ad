-- ===== src/Builder/Command/Words.antt =====
-- `parseCommand` on commands without quotes and shell operators.
use Prim.Native.String.{char_at}
use mathlib.Core.List.{append_assoc, append-nil, reverse-reverse, reverse-cons}
use unbind_operator.Base.{
  ◌≡◌, refl, ◌∙◌, ap, Char, code, false, none, List, [], ◌∷◌, ◌++◌, map, reverse, is_empty, nat_eq,
  All,
}
use unbind_operator.Base.Text.{trim, trim_left}
use unbind_operator.Builder.Command.{
  Runes, Scan, start, is_quote, scan_rune, scan_runes, finish, split_words,
}

-- A character that is neither a quote nor a blank
abbrev pub IsPlain : Char → Type 0
IsPlain c = (is_quote c ≡ false) × (nat_eq (code c) 32 ≡ false)

-- A word: at least one character, all of them plain
abbrev pub IsWord : Runes → Type 0
IsWord w = (is_empty w ≡ false) × All IsPlain w

abbrev blank : Char
blank = char_at " " 0

-- The words, each behind one blank
unfoldable pub spaced : List Runes → Runes
spaced [] = []
spaced (w ∷ words) = blank ∷ (w ++ spaced words)

scan_plain :
    (c : Char) (s : Scan) → IsPlain c → scan_rune s c ≡ record s { current = s.current ++ (c ∷ []) }
unfolding scan_rune
scan_plain c s (quote, other) = rw (quote, other) refl

scan_blank :
    (result : List Runes) (w : Runes)
    → is_empty w ≡ false
    → scan_rune (record { result = result; current = w; quote = none }) blank
      ≡ record { result = result ++ (w ∷ []); current = []; quote = none }
unfolding scan_rune
scan_blank result w e = rw e refl

scan_word :
    (w rest : Runes) (s : Scan)
    → All IsPlain w
    → scan_runes s (w ++ rest) ≡ scan_runes (record s { current = s.current ++ w }) rest
unfolding scan_runes
scan_word [] rest s h = rw (append-nil s.current) refl
scan_word (c ∷ w) rest s (plain, h) =
    ap (λ t. scan_runes t (w ++ rest)) (scan_plain c s plain)
    ∙ scan_word w rest (record s { current = s.current ++ (c ∷ []) }) h
    ∙ ap (λ current. scan_runes (record s { current = current }) rest)
        (append_assoc s.current (c ∷ []) w)

scan_spaced :
    (result : List Runes) (w : Runes) (words : List Runes)
    → is_empty w ≡ false
    → All IsWord words
    → finish (scan_runes (record { result = result; current = w; quote = none }) (spaced words))
      ≡ result ++ (w ∷ words)
unfolding scan_runes spaced
scan_spaced result w [] e h = rw e refl
scan_spaced result w (v ∷ words) e ((ne, plain), h) =
    ap (λ t. finish (scan_runes t (v ++ spaced words))) (scan_blank result w e)
    ∙ ap finish (
        scan_word v (spaced words)
          (record { result = result ++ (w ∷ []); current = []; quote = none }) plain)
    ∙ scan_spaced (result ++ (w ∷ [])) v words ne h
    ∙ append_assoc result (w ∷ []) (v ∷ words)

-- Nothing is trimmed from a word.
trim_left-plain : (w : Runes) → All IsPlain w → trim_left is_quote w ≡ w
unfolding trim_left
trim_left-plain [] h = refl
trim_left-plain (c ∷ w) ((quote, other), h) = rw quote refl

All-append : (w v : Runes) → All IsPlain w → All IsPlain v → All IsPlain (w ++ v)
All-append [] v h h' = h'
All-append (c ∷ w) v (p, h) h' = (p, All-append w v h h')

All-reverse : (w : Runes) → All IsPlain w → All IsPlain (reverse w)
All-reverse [] h = tt
All-reverse (c ∷ w) (p, h) =
    rw (reverse-cons c w) (All-append (reverse w) (c ∷ []) (All-reverse w h) (p, tt))

trim-plain : (w : Runes) → All IsPlain w → trim is_quote w ≡ w
unfolding trim
trim-plain w h =
    ap (λ v. reverse (trim_left is_quote (reverse v))) (trim_left-plain w h)
    ∙ ap reverse (trim_left-plain (reverse w) (All-reverse w h))
    ∙ reverse-reverse w

trim-words : (words : List Runes) → All IsWord words → map (trim is_quote) words ≡ words
trim-words [] h = refl
trim-words (w ∷ words) ((ne, plain), h) = cc (trim-plain w plain, trim-words words h)

-- A command of words without quotes and blanks, written with one blank before each word but the
-- first, is split into exactly these words.
pub split_words-spaced :
    (w : Runes) (words : List Runes)
    → IsWord w
    → All IsWord words
    → split_words (w ++ spaced words) ≡ w ∷ words
unfolding split_words
split_words-spaced w words (ne, plain) h =
    ap (λ s. map (trim is_quote) (finish s)) (scan_word w (spaced words) start plain)
    ∙ ap (map (trim is_quote)) (scan_spaced [] w words ne h)
    ∙ trim-words (w ∷ words) ((ne, plain), h)
