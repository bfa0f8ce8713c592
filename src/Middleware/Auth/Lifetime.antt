-- ===== src/Middleware/Auth/Lifetime.antt =====
-- How long a token is accepted.
use multithreaded.Base.{ℕ, ◌+◌, ◌≡◌, ◌≤◌, ◌<◌, ◌++◌, none, some}
use multithreaded.Base.Text.{Str, bytes, strip_prefix-append}
use multithreaded.Middleware.Auth.{
  token_ttl_secs, Claims, leeway, JwtLib, create_token, verify_token, extract_bearer,
}

module _ ⦃jwt : JwtLib⦄ where
  -- A token that is sent back in an `Authorization` header is found there. For an hour after it was
  -- made it verifies, and yields the name that it was made for; after the hour and the leeway of a
  -- minute it does not verify.
  pub create_token-verify_token :
      (username token : Str) (made now : ℕ)
      → create_token username made ≡ some token
      → (extract_bearer (some (bytes "Bearer " ++ token)) ≡ some token)
        × (now ≤ made + token_ttl_secs
            → verify_token token now
              ≡ some (record { sub = username; exp = made + token_ttl_secs }))
        × (made + token_ttl_secs + leeway < now → verify_token token now ≡ none)
  unfolding create_token verify_token extract_bearer
  create_token-verify_token username token made now h =
      let claims : Claims = record { sub = username; exp = made + token_ttl_secs } in
      (
        strip_prefix-append (bytes "Bearer ") token,
        jwt.decode_valid claims token now h,
        jwt.decode_expired claims token now h,
      )
