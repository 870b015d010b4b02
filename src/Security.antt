-- ===== src/Security.antt =====
-- trackr_app/security.py: the hash, the cipher and the tokens that the other parts use. SHA-256 and
-- Fernet are not code of the program, so their results are a parameter.
use summer_intern.Prelude.{ℕ, ◌+◌, String, Option, some, ◌≡◌}
use summer_intern.Model.{Time, minutes}

-- `decrypt` is `none` where Fernet raises InvalidToken.
pub record Crypto : Type 0 where
  pub token_hash : String → String
  pub encrypt : String → String
  pub decrypt : String → Option String

-- Fernet's documented behaviour: what was encrypted under the key decrypts to itself.
abbrev pub Decrypts : Crypto → Type 0
Decrypts crypto = (s : String) → crypto.decrypt (crypto.encrypt s) ≡ some s

-- `expires_in(minutes)`.
unfoldable pub expires_in : Time → ℕ → Time
expires_in now n = now + minutes n
