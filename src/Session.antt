-- ===== src/Session.antt =====
-- src/session/mod.rs: sessions in the table `sessions` of the database.
pub mod Refinement
pub mod Expiry
pub mod Activity
use multithreaded.Base.{
  ℕ, ◌+◌, ◌≡◌, Bool, true, false, Option, none, some, List, [], ◌∷◌, if◌then◌else◌, ltb,
}
use multithreaded.Base.Text.{Str, bytes, str_eq, split, trim, strip_prefix, find_map}

-- SESSION_TTL_SECS
abbrev pub session_ttl_secs : ℕ
session_ttl_secs = 3600

pub record Session : Type 0 where
  pub username : Str
  pub csrf_token : Str

-- A row without its key `token`: the session and `expires_at`.
abbrev pub Row : Type 0
Row = Session × ℕ

abbrev pub Rows : Type 0
Rows = Str → Option Row

-- `WHERE expires_at > now` on a row.
unfoldable pub live : ℕ → Option Row → Option Session
live now none = none
live now (some (session, expires_at)) = if ltb now expires_at then some session else none

abbrev pub put : Str → Option Row → Rows → Rows
put token r rows = λ key. if str_eq token key then r else rows key

abbrev pub with_expiry : ℕ → Option Row → Option Row
with_expiry expires_at none = none
with_expiry expires_at (some (session, old)) = some (session, expires_at)

-- The four statements, executed by the database: each may fail, and then changes no row. The text
-- of a statement says what it does where it succeeds.
pub record SessionsTable : Type 1 where
  pub Table : Type 0
  pub rows : Table → Rows
  -- INSERT INTO sessions (token, username, csrf_token, expires_at) VALUES ($1, $2, $3, $4)
  pub insert : Str → Session → ℕ → Table → Bool × Table
  -- SELECT username, csrf_token FROM sessions WHERE token = $1 AND expires_at > $2
  pub select : Str → ℕ → Table → Option (Option Session) × Table
  -- DELETE FROM sessions WHERE token = $1
  pub delete : Str → Table → Bool × Table
  -- UPDATE sessions SET expires_at = $1 WHERE token = $2
  pub update : ℕ → Str → Table → Bool × Table
  pub insert_ok :
      (token : Str) (session : Session) (expires_at : ℕ) (t : Table)
      → (insert token session expires_at t).0 ≡ true
      → rows (insert token session expires_at t).1 ≡ put token (some (session, expires_at)) (rows t)
  pub insert_error :
      (token : Str) (session : Session) (expires_at : ℕ) (t : Table)
      → (insert token session expires_at t).0 ≡ false
      → rows (insert token session expires_at t).1 ≡ rows t
  pub select_ok :
      (token : Str) (now : ℕ) (t : Table) (o : Option Session)
      → (select token now t).0 ≡ some o
      → o ≡ live now (rows t token)
  pub select_rows : (token : Str) (now : ℕ) (t : Table) → rows (select token now t).1 ≡ rows t
  pub delete_ok :
      (token : Str) (t : Table)
      → (delete token t).0 ≡ true
      → rows (delete token t).1 ≡ put token none (rows t)
  pub delete_error :
      (token : Str) (t : Table) → (delete token t).0 ≡ false → rows (delete token t).1 ≡ rows t
  pub update_ok :
      (expires_at : ℕ) (token : Str) (t : Table)
      → (update expires_at token t).0 ≡ true
      → rows (update expires_at token t).1
        ≡ put token (with_expiry expires_at (rows t token)) (rows t)
  pub update_error :
      (expires_at : ℕ) (token : Str) (t : Table)
      → (update expires_at token t).0 ≡ false
      → rows (update expires_at token t).1 ≡ rows t

module _ (db : SessionsTable) where
  open db use {Table, insert, select, delete, update}

  -- `create` with the two random tokens and the clock's time; `none` is an error.
  unfoldable pub create : Str → Str → Str → ℕ → Table → Option Str × Table
  create token csrf_token username now t =
      let session : Session = record { username = username; csrf_token = csrf_token } in
      let (ok, t') = insert token session (now + session_ttl_secs) t in
      if ok then (some token, t') else (none, t')

  -- After the `SELECT`.
  unfoldable pub get_selected :
      Str → ℕ → Option (Option Session) → Table → Option (Option Session) × Table
  get_selected token now none t = (none, t)
  get_selected token now (some none) t =
      let (ok, t') = delete token t in if ok then (some none, t') else (none, t')
  get_selected token now (some (some session)) t =
      let (ok, t') = update (now + session_ttl_secs) token t in
      if ok then (some (some session), t') else (none, t')

  unfoldable pub get : Str → ℕ → Table → Option (Option Session) × Table
  unfolding get_selected
  get token now t = let (selected, t') = select token now t in get_selected token now selected t'

  unfoldable pub remove : Str → Table → Bool × Table
  remove token t = delete token t

unfoldable pub extract_session_cookie : Option Str → Option Str
extract_session_cookie none = none
extract_session_cookie (some header) =
    find_map (λ part. strip_prefix (bytes "session=") (trim part)) (split b';' header)
