-- ===== src/Controller/Password.antt =====
-- `generateSecurePassword`, with the URL-safe base 64 of `encoding/base64`.
pub mod Alphabet
use Prim.Native.String.{char_at}
use unbind_operator.Base.{ℕ, ◌≡◌, refl, ◌+◌, ◌*◌, ◌/◌, ◌%◌, Char, List, [], ◌∷◌, String, take}
use unbind_operator.Base.Text.{to_text}
use unbind_operator.Client.{Client}
use unbind_operator.Client.Monad.{Action, pure, ◌>>=◌, read_random}

-- the digit of a number below 64
unfoldable pub url_digit : ℕ → Char
url_digit n = char_at "ABCDEFGHIJKLMNOPQRSTUVWXYZabcdefghijklmnopqrstuvwxyz0123456789-_" n

abbrev padding : Char
padding = char_at "=" 0

-- `base64.URLEncoding.EncodeToString`: three bytes make four digits, and the last group is padded.
unfoldable pub url_encode : List ℕ → List Char
unfolding url_digit
url_encode [] = []
url_encode (a ∷ []) = url_digit (a / 4) ∷ url_digit (a % 4 * 16) ∷ padding ∷ padding ∷ []
url_encode (a ∷ b ∷ []) =
    url_digit (a / 4) ∷ url_digit (a % 4 * 16 + b / 16) ∷ url_digit (b % 16 * 4) ∷ padding ∷ []
url_encode (a ∷ b ∷ c ∷ bytes) =
    url_digit (a / 4)
    ∷ url_digit (a % 4 * 16 + b / 16)
    ∷ url_digit (b % 16 * 4 + c / 64)
    ∷ url_digit (c % 64)
    ∷ url_encode bytes

-- The text of the password from the random bytes
unfoldable pub password_of : ℕ → List ℕ → List Char
unfolding url_encode
password_of n bytes = take n (url_encode bytes)

module _ {C : Client} where
  -- `generateSecurePassword`
  unfoldable pub generate_secure_password : ℕ → Action C String
  unfolding ◌>>=◌ password_of
  generate_secure_password n = read_random n >>= (λ bytes. pure (to_text (password_of n bytes)))

encode_test : to_text (url_encode (77 ∷ 97 ∷ 110 ∷ 255 ∷ 254 ∷ [])) ≡ "TWFu__4="
unfolding url_encode to_text
encode_test = refl
