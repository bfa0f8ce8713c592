-- ===== src/Server/Api/Tokens.antt =====
-- How long a token that was issued opens the routes that change items.
use multithreaded.Base.{ℕ, ◌+◌, ◌≡◌, refl, ◌∙◌, ap, ◌≤◌, ◌<◌, ◌++◌, none, some}
use multithreaded.Base.Text.{Str, bytes}
use multithreaded.Http.Request.{HttpRequest}
use multithreaded.Http.Response.{HttpLib}
use multithreaded.Middleware.Auth.{token_ttl_secs, leeway, JwtLib, create_token, extract_bearer}
use multithreaded.Middleware.Auth.Lifetime.{create_token-verify_token}
use multithreaded.Server.Api.{JsonLib, error_response, rejected}

module _ ⦃http : HttpLib⦄ ⦃jwt : JwtLib⦄ ⦃serde : JsonLib⦄ where
  -- A request that sends back, after `Bearer `, a token that the server has made is let through for
  -- an hour after the making; later than the hour and the leeway of a minute it is refused with 401.
  pub create_token-rejected :
      (username token : Str) (made early late : ℕ) (req : HttpRequest)
      → create_token username made ≡ some token
      → req.headers (bytes "authorization") ≡ some (bytes "Bearer " ++ token)
      → early ≤ made + token_ttl_secs
      → made + token_ttl_secs + leeway < late
      → (rejected req early ≡ none)
        × (rejected req late ≡ some (error_response 401 (bytes "invalid or expired token")))
  unfolding rejected
  create_token-rejected username token made early late req h sent in_time expired =
      let (found, _, gone) = create_token-verify_token username token made late h in
      let (_, valid, _) = create_token-verify_token username token made early h in
      let carried = ap extract_bearer sent ∙ found in
      (
        rw (carried, rejected) (rw (valid in_time) refl),
        rw (carried, rejected) (rw (gone expired) refl),
      )
