-- ===== src/Users/Crypto.antt =====
-- What the users service takes from argon2, node:crypto and jsonwebtoken.
use tickethub_backend.Common.{ℕ, String, Bool, true, ◌≡◌}
use tickethub_backend.World.People.{Role}

-- `hash` takes what was drawn for its salt, `random_token` what was drawn for it; `sign` takes the
-- time of issue, and knows the secret and the life of an access token.
pub record Crypto : Type 0 where
  pub hash : ℕ → String → String
  pub verify : String → String → Bool
  pub sha256 : String → String
  pub random_token : ℕ → String
  pub sign : ℕ → String → Role → String

-- A password verifies against its own hash, whatever the salt.
pub record IsSalted (c : Crypto) : Type 0 where
  pub verify-hash : (salt : ℕ) (password : String) → c.verify (c.hash salt password) password ≡ true
