-- ===== src/Database/Users/Accounts.antt =====
-- What the bootstrap does to the accounts, and who is let in after it.
use multithreaded.Base.{
  ◌≡◌, refl, sym, ◌∙◌, ap, true, Option, none, some, if◌then◌else◌, Bool-cases, Option-cases, inl,
  inr, ◌⊎◌, arith,
}
use multithreaded.Base.Text.{Str, str_eq_self}
use multithreaded.Database.Users.{
  Rows, put, UsersTable, Argon2Lib, insert_missing, create_user_with_hash_if_missing,
  create_user_if_missing, verify_stored, verify_user,
}

-- The accounts with one more, unless the name is taken.
unfoldable pub ensure : Str → Str → Rows → Rows
ensure username hash rows = elim (rows username) [ none ↦ put username hash rows | some _ ↦ rows ]

module _ (argon2 : Argon2Lib) (db : UsersTable) where
  open argon2 use {Salt, hash_password, parses, verify_password}
  open db use {Table, select, insert}

  insert_missing-rows :
      (username hash : Str) (rows : Rows) (o : Option (Option Str)) (t : Table)
      → db.rows t ≡ rows
      → ((found : Option Str) → o ≡ some found → found ≡ rows username)
      → db.rows (insert_missing argon2 db username hash o t).1 ≡ (
          if (insert_missing argon2 db username hash o t).0
          then ensure username hash rows
          else rows)
  unfolding insert_missing ensure
  insert_missing-rows username hash rows none t e h = e
  insert_missing-rows username hash rows (some (some old)) t e h =
      rw (sym (h (some old) refl), ensure) e
  insert_missing-rows username hash rows (some none) t e h =
      elim (Bool-cases ((insert username hash t).0)) [
        | inl ok ↦
            rw (ok, sym (h none refl), ensure)
              (db.insert_ok username hash t ok ∙ ap (put username hash) e)
        | inr ok ↦ rw ok (db.insert_error username hash t ok ∙ e)
      ]

  -- The bootstrap never touches an existing account: where it succeeds, the rows are the old ones,
  -- with one for the account if it had none; where it fails, they are the old ones.
  pub create_user-rows :
      (username hash : Str) (t : Table)
      → db.rows (create_user_with_hash_if_missing argon2 db username hash t).1 ≡ (
          if (create_user_with_hash_if_missing argon2 db username hash t).0
          then ensure username hash (db.rows t)
          else db.rows t)
  unfolding create_user_with_hash_if_missing
  create_user-rows username hash t = elim (Bool-cases (parses hash)) [
    | inl p ↦
        rw (p, create_user_with_hash_if_missing)
          (insert_missing-rows username hash (db.rows t) ((select username t).0)
            ((select username t).1) (db.select_rows username t) (db.select_ok username t))
    | inr p ↦ rw (p, create_user_with_hash_if_missing) refl
  ]

  ensured :
      (username hash : Str) (rows : Rows)
      → rows username ≡ none
      → ensure username hash rows username ≡ some hash
  unfolding ensure
  ensured username hash rows e = rw (e, ensure) (rw (str_eq_self username) refl)

  with_hash-row :
      (username hash : Str) (t : Table)
      → db.rows t username ≡ none
      → (create_user_with_hash_if_missing argon2 db username hash t).0 ≡ true
      → db.rows (create_user_with_hash_if_missing argon2 db username hash t).1 username ≡ some hash
  with_hash-row username hash t e h =
      ap (λ (r : Rows). r username)
        (create_user-rows username hash t
          ∙ ap (λ b. if b then ensure username hash (db.rows t) else db.rows t) h)
      ∙ ensured username hash (db.rows t) e

  verified :
      (username password hash : Str) (t : Table)
      → db.rows t username ≡ some hash
      → parses hash ≡ true
      → verify_password password hash ≡ true
      → ((verify_user argon2 db username password t).0 ≡ none)
        ⊎ ((verify_user argon2 db username password t).0 ≡ some true)
  unfolding verify_user verify_stored
  verified username password hash t e p v = elim (Option-cases ((select username t).0)) [
    | inl q ↦ inl (rw (q, verify_user) refl)
    | inr (o, q) ↦
        inr (rw (q, db.select_ok username t o q, e, verify_user, verify_stored) (rw (p, v) refl))
  ]

  -- An account that is created from a hash of its password.
  pub hash_verifies :
      (username password hash : Str) (salt : Salt) (t : Table)
      → db.rows t username ≡ none
      → hash_password password salt ≡ some hash
      → (create_user_with_hash_if_missing argon2 db username hash t).0 ≡ true
      → let t' = (create_user_with_hash_if_missing argon2 db username hash t).1 in
        ((verify_user argon2 db username password t').0 ≡ none)
        ⊎ ((verify_user argon2 db username password t').0 ≡ some true)
  hash_verifies username password hash salt t e q h =
      verified username password hash _ (with_hash-row username hash t e h)
        (argon2.hash_parses password salt hash q) (argon2.hash_verifies password salt hash q)

  -- On an account that did not exist: after a successful bootstrap its password is accepted, unless
  -- the lookup fails.
  pub bootstrap_verifies :
      (username password : Str) (salt : Salt) (t : Table)
      → db.rows t username ≡ none
      → (create_user_if_missing argon2 db username password salt t).0 ≡ true
      → let t' = (create_user_if_missing argon2 db username password salt t).1 in
        ((verify_user argon2 db username password t').0 ≡ none)
        ⊎ ((verify_user argon2 db username password t').0 ≡ some true)
  unfolding create_user_if_missing
  bootstrap_verifies username password salt t e h =
      elim (Option-cases (hash_password password salt)) [
        | inl q ↦ absurd (ground (arith, rw (q, create_user_if_missing) at h))
        | inr (hash, q) ↦
            rw (q, create_user_if_missing)
              (hash_verifies username password hash salt t e q
                (rw (q, create_user_if_missing) at h))
      ]
