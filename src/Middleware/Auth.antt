-- ===== src/Middleware/Auth.antt =====
-- src/middleware/auth.rs. The crate jsonwebtoken, with the keys of the secret, is an argument; the
-- time is in seconds.
pub mod Lifetime
use multithreaded.Base.{ℕ, ◌+◌, ◌≡◌, ◌≤◌, ◌<◌, Bool, true, false, Option, none, some}
use multithreaded.Base.Text.{Str, bytes, strip_prefix}

-- TOKEN_TTL_SECS
abbrev pub token_ttl_secs : ℕ
token_ttl_secs = 3600

pub record Claims : Type 0 where
  pub sub : Str
  pub exp : ℕ

-- The library's default leeway for clocks that differ.
abbrev pub leeway : ℕ
leeway = 60

-- `encode` may fail. `decode`, under the default validation of HS256, checks the signature and the
-- expiry against the clock.
pub record JwtLib : Type 0 where
  pub encode : Claims → Option Str
  pub decode : ℕ → Str → Option Claims
  pub decode_valid :
      (claims : Claims) (token : Str) (now : ℕ)
      → encode claims ≡ some token
      → now ≤ claims.exp
      → decode now token ≡ some claims
  pub decode_expired :
      (claims : Claims) (token : Str) (now : ℕ)
      → encode claims ≡ some token
      → claims.exp + leeway < now
      → decode now token ≡ none

module _ ⦃jwt : JwtLib⦄ where
  unfoldable pub create_token : Str → ℕ → Option Str
  create_token username now = jwt.encode (record { sub = username; exp = now + token_ttl_secs })

  unfoldable pub verify_token : Str → ℕ → Option Claims
  verify_token token now = jwt.decode now token

unfoldable pub extract_bearer : Option Str → Option Str
extract_bearer none = none
extract_bearer (some header) = strip_prefix (bytes "Bearer ") header
