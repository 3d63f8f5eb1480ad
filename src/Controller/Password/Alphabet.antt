-- ===== src/Controller/Password/Alphabet.antt =====
-- The characters of `generateSecurePassword`.
use unbind_operator.Base.{
  ℕ, zero, suc, ◌≤◌, ◌<◌, ◌+◌, ◌*◌, ◌/◌, ◌%◌, Char, List, [], ◌∷◌, ◌≡◌, refl, arith, take, length,
  All,
}
use unbind_operator.Controller.Password.{url_digit, url_encode, password_of}

abbrev pub IsUrlDigit : Char → Type 0
IsUrlDigit c = (d : ℕ) × (d < 64) × (c ≡ url_digit d)

abbrev pub IsByte : ℕ → Type 0
IsByte b = b < 256

digit : (d : ℕ) → d < 64 → IsUrlDigit (url_digit d)
digit d h = (d, h, refl)

-- The first characters are digits, as many as there are bytes.
first_digits :
    (n : ℕ) (bytes : List ℕ)
    → All IsByte bytes
    → n ≤ length bytes
    → (length (take n (url_encode bytes)) ≡ n) × All IsUrlDigit (take n (url_encode bytes))
unfolding url_encode
first_digits zero bytes h le = (refl, tt)
first_digits (suc n) [] h le = absurd (omega arith)
first_digits (suc zero) (a ∷ []) (ha, _) le = (refl, (digit (a / 4) (omega arith), tt))
first_digits (suc (suc n)) (a ∷ []) h le = absurd (omega arith)
first_digits (suc zero) (a ∷ b ∷ []) (ha, (hb, _)) le = (refl, (digit (a / 4) (omega arith), tt))
first_digits (suc (suc zero)) (a ∷ b ∷ []) (ha, (hb, _)) le =
    (refl, (digit (a / 4) (omega arith), (digit (a % 4 * 16 + b / 16) (omega arith), tt)))
first_digits (suc (suc (suc n))) (a ∷ b ∷ []) h le = absurd (omega arith)
first_digits (suc zero) (a ∷ b ∷ c ∷ bytes) (ha, (hb, (hc, _))) le =
    (refl, (digit (a / 4) (omega arith), tt))
first_digits (suc (suc zero)) (a ∷ b ∷ c ∷ bytes) (ha, (hb, (hc, _))) le =
    (refl, (digit (a / 4) (omega arith), (digit (a % 4 * 16 + b / 16) (omega arith), tt)))
first_digits (suc (suc (suc zero))) (a ∷ b ∷ c ∷ bytes) (ha, (hb, (hc, _))) le = (
  refl,
  (
    digit (a / 4) (omega arith),
    (digit (a % 4 * 16 + b / 16) (omega arith), (digit (b % 16 * 4 + c / 64) (omega arith), tt)),
  ),
)
first_digits (suc (suc (suc (suc n)))) (a ∷ b ∷ c ∷ bytes) (ha, (hb, (hc, hs))) le =
    let (len, all) = first_digits n bytes hs (omega arith) in
    (
      omega (arith, len),
      (
        digit (a / 4) (omega arith),
        (
          digit (a % 4 * 16 + b / 16) (omega arith),
          (digit (b % 16 * 4 + c / 64) (omega arith), (digit (c % 64) (omega arith), all)),
        ),
      ),
    )

-- A password of n characters from at least n bytes has n characters, each a digit of the URL-safe
-- alphabet: no padding is among them.
pub password_of-digits :
    (n : ℕ) (bytes : List ℕ)
    → All IsByte bytes
    → n ≤ length bytes
    → (length (password_of n bytes) ≡ n) × All IsUrlDigit (password_of n bytes)
unfolding password_of
password_of-digits n bytes h le = first_digits n bytes h le
