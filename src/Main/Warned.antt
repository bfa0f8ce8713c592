-- ===== src/Main/Warned.antt =====
-- When the program warns about its secrets.
use multithreaded.Base.{
  ◌≡◌, refl, sym, ◌∙◌, ap, ◌↔◌, Bool, true, false, Option, none, some, List, [], ◌∷◌, any, is_some,
  not, ◌&&◌, ◌++◌, if◌then◌else◌, arith,
}
use multithreaded.Base.Text.{Str, bytes, str_eq, str_eq-eq, str_eq_self}
use multithreaded.Config as Config
use multithreaded.Config.{ServerConfig, Env, from_env, or_default}
use multithreaded.Config.Loaded.{from_env-IsFrom}
use multithreaded.Main.{
  Warning, default_jwt_secret, default_password, warnings, World, Outside, configured, main,
}
use multithreaded.Server.Application.{Platform}

abbrev same : Warning → Warning → Bool
same default_jwt_secret default_jwt_secret = true
same default_jwt_secret default_password = false
same default_password default_jwt_secret = false
same default_password default_password = true

-- Whether a warning is among those logged.
abbrev pub is_logged : Warning → List Warning → Bool
is_logged w logged = any (same w) logged

is_none : (o : Option Str) → is_some o ≡ false → o ≡ none
is_none none h = refl
is_none (some v) h = absurd (ground (arith, h))

abbrev listed : Bool → Bool → List Warning
listed a b =
    (if a then default_jwt_secret ∷ [] else []) ++ (if b then default_password ∷ [] else [])

jwt_secret-listed : (a b : Bool) → is_logged default_jwt_secret (listed a b) ≡ a
jwt_secret-listed true b = refl
jwt_secret-listed false true = refl
jwt_secret-listed false false = refl

password-listed : (a b : Bool) → is_logged default_password (listed a b) ≡ b
password-listed true true = refl
password-listed true false = refl
password-listed false true = refl
password-listed false false = refl

module _ {Addr : Type 0} (env : Env) (c : ServerConfig Addr) where
  jwt_secret-logged :
      (is_logged default_jwt_secret (warnings env c) ≡ true)
      ↔ (c.jwt_secret ≡ bytes "change-me-in-production")
  unfolding warnings
  jwt_secret-logged =
      let same = jwt_secret-listed (str_eq c.jwt_secret (bytes "change-me-in-production")) _ in
      (
        (λ h. str_eq-eq c.jwt_secret _ (sym same ∙ h)),
        (λ e. same ∙ rw e (str_eq_self (bytes "change-me-in-production"))),
      )

  -- The account is the default one, and no hash replaces its password.
  abbrev pub IsDefaultAccount : Type 0
  IsDefaultAccount =
      (c.auth_username ≡ bytes "admin")
      × (c.auth_password ≡ bytes "secret")
      × (env (bytes "AUTH_PASSWORD_HASH") ≡ none)

  defaults :
      (u w : Bool) (hash : Option Str)
      → str_eq c.auth_username (bytes "admin") ≡ u
      → str_eq c.auth_password (bytes "secret") ≡ w
      → (u && (w && not (is_some hash))) ≡ true
      → (c.auth_username ≡ bytes "admin") × (c.auth_password ≡ bytes "secret") × (hash ≡ none)
  defaults true true none eu ew h =
      (str_eq-eq c.auth_username _ eu, str_eq-eq c.auth_password _ ew, refl)
  defaults true true (some v) eu ew h = absurd (ground (arith, h))
  defaults true false hash eu ew h = absurd (ground (arith, h))
  defaults false w hash eu ew h = absurd (ground (arith, h))

  password-logged : (is_logged default_password (warnings env c) ≡ true) ↔ IsDefaultAccount
  unfolding warnings
  password-logged =
      let same = password-listed (str_eq c.jwt_secret (bytes "change-me-in-production")) (
        str_eq c.auth_username (bytes "admin")
        && (str_eq c.auth_password (bytes "secret")
            && not (is_some (env (bytes "AUTH_PASSWORD_HASH"))))) in
      (
        (λ h. defaults _ _ _ refl refl (sym same ∙ h)),
        (λ (u, w, n).
            same
            ∙ rw u (
                rw w (
                  rw n
                    (rw (str_eq_self (bytes "admin")) (rw (str_eq_self (bytes "secret")) refl))))),
      )

module _ (p : Platform) (world : World p) (outside : Outside p world) where
  open outside use {env}
  open world use {host}

  -- With a configuration that loads, the program warns about the JWT secret exactly if JWT_SECRET is
  -- unset or set to the default, and about the administrator exactly if AUTH_PASSWORD_HASH is unset,
  -- and each of AUTH_USERNAME and AUTH_PASSWORD is unset or set to its default.
  pub main-warnings :
      (c : ServerConfig host.Addr)
      → from_env host env ≡ Config.ok c
      → ((is_logged default_jwt_secret (main p world outside).0 ≡ true) ↔ (
          or_default (env (bytes "JWT_SECRET")) (bytes "change-me-in-production")
          ≡ bytes "change-me-in-production"))
        × ((is_logged default_password (main p world outside).0 ≡ true) ↔ (
            (or_default (env (bytes "AUTH_USERNAME")) (bytes "admin") ≡ bytes "admin")
            × (or_default (env (bytes "AUTH_PASSWORD")) (bytes "secret") ≡ bytes "secret")
            × (env (bytes "AUTH_PASSWORD_HASH") ≡ none)))
  unfolding main configured
  main-warnings c e =
      let from = from_env-IsFrom host env c e in
      let logged = ap (λ r. (configured p world outside r).0) e in
      rw (sym from.jwt_secret) (
        rw (sym from.auth_username) (
          rw (sym from.auth_password) (rw logged (jwt_secret-logged env c, password-logged env c))))
