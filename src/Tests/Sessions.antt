-- ===== src/Tests/Sessions.antt =====
-- src/session/mod.rs over a table in memory, whose INSERT fails where the token has a row.
use multithreaded.Base.{◌≡◌, refl, Bool, true, false, Option, none, some, List, [], ◌∷◌, ◌⊎◌, arith}
use multithreaded.Base.Text.{Str, bytes, split, trim, strip_prefix, find_map, trim_start}
use multithreaded.Session.{
  Session, Row, Rows, live, put, with_expiry, SessionsTable, extract_session_cookie,
}
use multithreaded.Session.Refinement.{
  Call, create_session, get_session, remove_session, session, sql_error, History, step, run,
  run-History,
}
use multithreaded.Session.Expiry.{idle_session_gone}

abbrev insert_row : Str → Row → Option Row → Rows → Bool × Rows
insert_row token row none t = (true, put token (some row) t)
insert_row token row (some old) t = (false, t)

pub insert_row-ok :
    (token : Str) (row : Row) (old : Option Row) (t : Rows)
    → (insert_row token row old t).0 ≡ true
    → (insert_row token row old t).1 ≡ put token (some row) t
insert_row-ok token row none t h = refl
insert_row-ok token row (some old) t h = absurd (ground (arith, h))

pub insert_row-error :
    (token : Str) (row : Row) (old : Option Row) (t : Rows)
    → (insert_row token row old t).0 ≡ false
    → (insert_row token row old t).1 ≡ t
insert_row-error token row none t h = absurd (ground (arith, h))
insert_row-error token row (some old) t h = refl

pub some_eq : (a b : Option Session) → some a ≡ some b → b ≡ a
some_eq a b h = ground (arith, h)

pub never : {A : Type 0} → true ≡ false → A
never h = absurd (ground (arith, h))

abbrev pub memory : SessionsTable
memory = record {
  Table = Rows;
  rows = λ t. t;
  insert = λ token s expires_at t. insert_row token (s, expires_at) (t token) t;
  select = λ token now t. (some (live now (t token)), t);
  delete = λ token t. (true, put token none t);
  update = λ expires_at token t. (true, put token (with_expiry expires_at (t token)) t);
  insert_ok = λ token s expires_at t h. insert_row-ok token (s, expires_at) (t token) t h;
  insert_error = λ token s expires_at t h. insert_row-error token (s, expires_at) (t token) t h;
  select_ok = λ token now t o h. some_eq _ _ h;
  select_rows = λ token now t. refl;
  delete_ok = λ token t h. refl;
  delete_error = λ token t h. never h;
  update_ok = λ expires_at token t h. refl;
  update_error = λ expires_at token t h. never h;
}

abbrev pub alice : Session
alice = record { username = bytes "alice"; csrf_token = bytes "c" }

abbrev calls : List Call
calls =
    create_session (bytes "t") (bytes "c") (bytes "alice") 100
    ∷ get_session (bytes "t") 3000
    ∷ remove_session (bytes "u")
    ∷ []

abbrev pub empty : Rows
empty = λ token. none

run-History_example : History calls empty (run memory calls empty).0 (run memory calls empty).1
run-History_example = run-History memory calls empty

idle_session_gone_example :
    let a = (step memory (get_session (bytes "t") 6600) (run memory calls empty).1).0 in
    (a ≡ session none) ⊎ (a ≡ sql_error)
idle_session_gone_example =
    idle_session_gone memory (bytes "t") 3000 6600 calls empty refl
      (λ h. omega arith, (λ h. omega arith, (tt, tt))) (omega arith)

abbrev pub logged_in : Rows
logged_in = put (bytes "t") (some (alice, 3700)) empty

cookie_found :
    extract_session_cookie (some (bytes "theme=dark; session=abc123; lang=en"))
    ≡ some (bytes "abc123")
unfolding extract_session_cookie bytes split trim trim_start strip_prefix find_map
cookie_found = refl
