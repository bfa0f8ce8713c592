-- ===== src/Server/Api/Guarded.antt =====
-- The routes that change items ask for a valid token.
use multithreaded.Base.{ℕ, ◌≡◌, refl, Option, none, some, Option-cases, inl, inr, ◌⊎◌}
use multithreaded.Base.Text.{Str, bytes}
use multithreaded.Database.Items.{ItemsTable}
use multithreaded.Http.Request.{HttpRequest}
use multithreaded.Http.Response.{HttpResponse, HttpLib}
use multithreaded.Middleware.Auth.{JwtLib, Claims, extract_bearer, verify_token}
use multithreaded.Server.Api.{JsonLib, error_response, rejected, post_item, delete_one}

module _ ⦃http : HttpLib⦄ ⦃jwt : JwtLib⦄ ⦃serde : JsonLib⦄ where
  -- The request carries a bearer token that verifies.
  pub record IsAuthorized (req : HttpRequest) (now : ℕ) : Type 0 where
    pub token : Str
    pub claims : Claims
    pub carried : extract_bearer (req.headers (bytes "authorization")) ≡ some token
    pub verifies : verify_token token now ≡ some claims

  -- One of the two refusals.
  abbrev pub IsRefusal : HttpResponse → Type 0
  IsRefusal response =
      (response ≡ error_response 401 (bytes "missing Bearer token"))
      ⊎ (response ≡ error_response 401 (bytes "invalid or expired token"))

  pub data Checked (req : HttpRequest) (now : ℕ) : Option HttpResponse → Type 0 where
    accepted : {o : Option HttpResponse} → IsAuthorized req now → o ≡ none → Checked req now o
    refused :
        {o : Option HttpResponse} (r : HttpResponse) → IsRefusal r → o ≡ some r → Checked req now o

  pub rejected-Checked : (req : HttpRequest) (now : ℕ) → Checked req now (rejected req now)
  unfolding rejected
  rejected-Checked req now =
      elim (Option-cases (extract_bearer (req.headers (bytes "authorization")))) [
        | inl e ↦ rw (e, rejected) (refused _ (inl refl) refl)
        | inr (token, e) ↦ elim (Option-cases (verify_token token now)) [
          | inl v ↦ refused _ (inr refl) (rw (e, rejected) (rw v refl))
          | inr (claims, v) ↦
              accepted (record { token = token; claims = claims; carried = e; verifies = v })
                (rw (e, rejected) (rw v refl))
        ]
      ]

  pub authorized_passes :
      (req : HttpRequest) (now : ℕ) → IsAuthorized req now → rejected req now ≡ none
  unfolding rejected
  authorized_passes req now a = rw (a.carried, rejected) (rw (a.verifies) refl)

  -- The answer of a request that is refused, or that is authorized.
  abbrev pub Guards :
      (db : ItemsTable) → HttpRequest → ℕ → db.Table → HttpResponse × db.Table → Type 0
  Guards db req now t r = IsAuthorized req now ⊎ (IsRefusal r.0 × (r.1 ≡ t))

  -- Of the two handlers that change items, each either was sent a bearer token that verifies, or
  -- answers one of the two refusals with status 401 and leaves the database as it was.
  pub admin-Guards :
      (db : ItemsTable) (id : Str) (now : ℕ) (req : HttpRequest) (t : db.Table)
      → Guards db req now t (post_item db id now req t)
        × Guards db req now t (delete_one db now req t)
  unfolding post_item delete_one
  admin-Guards db id now req t = guard (rejected-Checked req now)
    where
      guard :
          Checked req now (rejected req now)
          → Guards db req now t (post_item db id now req t)
            × Guards db req now t (delete_one db now req t)
      guard (accepted a e) = (inl a, inl a)
      guard (refused r h e) =
          (inr (rw (e, post_item) (h, refl)), inr (rw (e, delete_one) (h, refl)))
