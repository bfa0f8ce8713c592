-- ===== src/Tests/Accounts.antt =====
-- src/db/models.rs over a table in memory, with a hash function that leaves passwords as they are.
use multithreaded.Base.{◌≡◌, refl, sym, Bool, true, false, Option, none, some, arith}
use multithreaded.Base.Text.{Str, bytes, str_eq, str_eq_self}
use multithreaded.Database.Users.{Rows, put, UsersTable, Argon2Lib, create_user_if_missing}

abbrev insert_row : Str → Str → Option Str → Rows → Bool × Rows
insert_row username hash none t = (true, put username hash t)
insert_row username hash (some old) t = (false, t)

pub insert_row-ok :
    (username hash : Str) (old : Option Str) (t : Rows)
    → (insert_row username hash old t).0 ≡ true
    → (insert_row username hash old t).1 ≡ put username hash t
insert_row-ok username hash none t h = refl
insert_row-ok username hash (some old) t h = absurd (ground (arith, h))

pub insert_row-error :
    (username hash : Str) (old : Option Str) (t : Rows)
    → (insert_row username hash old t).0 ≡ false
    → (insert_row username hash old t).1 ≡ t
insert_row-error username hash none t h = absurd (ground (arith, h))
insert_row-error username hash (some old) t h = refl

pub some_eq {ℓ} : {A : Type ℓ} (a b : A) → some a ≡ some b → b ≡ a
some_eq a b h = ground (arith, h)

abbrev pub memory : UsersTable
memory = record {
  Table = Rows;
  rows = λ t. t;
  select = λ username t. (some (t username), t);
  insert = λ username hash t. insert_row username hash (t username) t;
  select_ok = λ username t o h. some_eq _ _ h;
  select_rows = λ username t. refl;
  insert_ok = λ username hash t h. insert_row-ok username hash (t username) t h;
  insert_error = λ username hash t h. insert_row-error username hash (t username) t h;
}

abbrev pub plain : Argon2Lib
plain = record {
  Salt = Unit;
  hash_password = λ password salt. some password;
  parses = λ hash. true;
  verify_password = str_eq;
  hash_parses = λ password salt hash h. refl;
  hash_verifies = λ password salt hash h. rw (sym (some_eq password hash h)) (str_eq_self hash);
}

abbrev pub no_users : Rows
no_users = λ key. none

created :
    (create_user_if_missing plain memory (bytes "admin") (bytes "secret") tt no_users).0 ≡ true
unfolding create_user_if_missing
created = refl
