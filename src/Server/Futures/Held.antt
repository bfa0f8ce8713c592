-- ===== src/Server/Futures/Held.antt =====
-- A session in use, and the operations that may meet it.
pub mod Handlers
pub mod Pages
pub mod Routes
use multithreaded.Base.{
  ℕ, ◌+◌, ◌≤◌, ◌<◌, ◌≡◌, ◌≢◌, refl, sym, ◌∙◌, ap, subst, Option, none, some, true, false, Bool,
  Bool-cases, Option-cases, inl, inr, ◌⊎◌, arith,
}
use multithreaded.Base.Text.{Str, str_eq, str_eq-eq, str_eq_self}
use multithreaded.Server.Application.{Platform, App}
use multithreaded.Server.Futures.{create, get, get_selected, remove}
use multithreaded.Server.Futures.Handlers.{current_session}
use multithreaded.Server.Pages.{flatten}
use multithreaded.Server.Program.{done, ◌>>=◌}
use multithreaded.Server.Program.Rely.{Yields, done-Yields, Yields->>=}
use multithreaded.Session.{Session, session_ttl_secs, Rows, Row, put, with_expiry, live}
use multithreaded.Session.Activity.{IsHeld, live-held}

module _ (p : Platform) (token : Str) (start : ℕ) (session : Session) where
  -- The row of the token holds the session, for an hour from `start` at least.
  abbrev pub Held : App p → Type 0
  Held s = IsHeld (start + session_ttl_secs) session (p.sessions.rows s.sessions token)

  abbrev HeldIn : Rows → Type 0
  HeldIn rows = IsHeld (start + session_ttl_secs) session (rows token)

  -- A clock within that hour.
  abbrev pub InTime : ℕ → Type 0
  InTime now = (start ≤ now) × (now < start + session_ttl_secs)

  Held-rows : {r r' : Rows} → r' ≡ r → HeldIn r → HeldIn r'
  Held-rows e h = subst HeldIn (sym e) h

  Held-put :
      (key : Str) (row : Option Row) (rows : Rows)
      → str_eq key token ≡ false
      → HeldIn rows
      → HeldIn (put key row rows)
  Held-put key row rows e h = rw e h

  different : (key : Str) → token ≢ key → str_eq key token ≡ false
  different key ne = elim (Bool-cases (str_eq key token)) [
    | inl e ↦ absurd (ne (sym (str_eq-eq key token e)))
    | inr e ↦ e
  ]

  delete-Held :
      (key : Str) (s : App p)
      → str_eq key token ≡ false
      → Held s
      → Held (record s { sessions = (p.sessions.delete key s.sessions).1 })
  delete-Held key s ne h = elim (Bool-cases ((p.sessions.delete key s.sessions).0)) [
    | inl e ↦
        Held-rows (p.sessions.delete_ok key s.sessions e)
          (Held-put key none (p.sessions.rows s.sessions) ne h)
    | inr e ↦ Held-rows (p.sessions.delete_error key s.sessions e) h
  ]

  renewed :
      (key : Str) (now : ℕ) (rows : Rows)
      → InTime now
      → HeldIn rows
      → HeldIn (put key (with_expiry (now + session_ttl_secs) (rows key)) rows)
  renewed key now rows time (expires_at, (row, late)) = elim (Bool-cases (str_eq key token)) [
    | inr e ↦ Held-put key _ rows e (expires_at, (row, late))
    | inl e ↦ rw e (
        rw (str_eq-eq key token e) (
          now + session_ttl_secs,
          (ap (with_expiry (now + session_ttl_secs)) row, omega (arith, time.0)),
        ))
  ]

  update-Held :
      (key : Str) (now : ℕ) (s : App p)
      → InTime now
      → Held s
      → Held (record s { sessions = (p.sessions.update (now + session_ttl_secs) key s.sessions).1 })
  update-Held key now s time h =
      elim (Bool-cases ((p.sessions.update (now + session_ttl_secs) key s.sessions).0)) [
        | inl e ↦
            Held-rows (p.sessions.update_ok _ key s.sessions e)
              (renewed key now (p.sessions.rows s.sessions) time h)
        | inr e ↦ Held-rows (p.sessions.update_error _ key s.sessions e) h
      ]

  insert-Held :
      (key : Str) (other : Session) (expires_at : ℕ) (s : App p)
      → str_eq key token ≡ false
      → Held s
      → Held (record s { sessions = (p.sessions.insert key other expires_at s.sessions).1 })
  insert-Held key other expires_at s ne h =
      elim (Bool-cases ((p.sessions.insert key other expires_at s.sessions).0)) [
        | inl e ↦
            Held-rows (p.sessions.insert_ok key other expires_at s.sessions e)
              (Held-put key _ (p.sessions.rows s.sessions) ne h)
        | inr e ↦ Held-rows (p.sessions.insert_error key other expires_at s.sessions e) h
      ]

  -- A lookup of the token gives the session, or nothing where a statement fails.
  abbrev pub Found : Str → Option Session → Type 0
  Found key found = str_eq key token ≡ true → (found ≡ none) ⊎ (found ≡ some session)

  get_selected-Yields :
      (key : Str) (now : ℕ) (o : Option (Option Session))
      → InTime now
      → (str_eq key token ≡ true → (o ≡ none) ⊎ (o ≡ some (some session)))
      → Yields Held (λ found. Found key (flatten found)) (get_selected p key now o)
  unfolding get_selected Yields
  get_selected-Yields key now none time h = λ e. inl refl
  get_selected-Yields key now (some none) time h = λ s held. (
    elim (Bool-cases (str_eq key token)) [
      | inr ne ↦ delete-Held key s ne held
      | inl e ↦ elim (h e) [
        | inl q ↦ absurd (ground (arith, q))
        | inr q ↦ absurd (ground (arith, q))
      ]
    ],
    λ e. elim (Bool-cases ((p.sessions.delete key s.sessions).0)) [
      | inl q ↦ inl (rw q refl)
      | inr q ↦ inl (rw q refl)
    ],
  )
  get_selected-Yields key now (some (some found)) time h = λ s held. (
    update-Held key now s time held,
    λ e. elim (Bool-cases ((p.sessions.update (now + session_ttl_secs) key s.sessions).0)) [
      | inr q ↦ inl (rw q refl)
      | inl q ↦ elim (h e) [
        | inl z ↦ absurd (ground (arith, z))
        | inr z ↦ inr (rw q (ap flatten z))
      ]
    ],
  )

  get-Yields :
      (key : Str) (now : ℕ)
      → InTime now
      → Yields Held (λ found. Found key (flatten found)) (get p key now)
  unfolding get Yields
  get-Yields key now time = λ s held. (
    Held-rows (p.sessions.select_rows key now s.sessions) held,
    get_selected-Yields key now _ time (λ e. selected s held e _ refl),
  )
    where
      selected :
          (s : App p)
          → Held s
          → str_eq key token ≡ true
          → (o : Option (Option Session)) → (p.sessions.select key now s.sessions).0 ≡ o
          → (o ≡ none) ⊎ (o ≡ some (some session))
      selected s held e none q = inl refl
      selected s held e (some found) q = inr (
          ap some (
            p.sessions.select_ok key now s.sessions found q
            ∙ (ap (λ k. live now (p.sessions.rows s.sessions k)) (str_eq-eq key token e)
                ∙ live-held now _ session _ held time.1)))

  -- The cookie of the token, or another.
  abbrev pub FoundBy : Option Str → Option Session → Type 0
  FoundBy cookie found = cookie ≡ some token → (found ≡ none) ⊎ (found ≡ some session)

  pub current_session-Yields :
      (cookie : Option Str) (now : ℕ)
      → InTime now
      → Yields Held (FoundBy cookie) (current_session p cookie now)
  unfolding current_session
  current_session-Yields none now time = done-Yields Held (FoundBy none) none (λ e. inl refl)
  current_session-Yields (some key) now time =
      Yields->>= Held (λ found. Found key (flatten found)) (FoundBy (some key)) (get p key now)
        (λ found. done (flatten found)) (get-Yields key now time)
        (λ found h. done-Yields Held (FoundBy (some key)) (flatten found) (λ e. h (same key e)))
    where
      some_injective : (a b : Str) → some a ≡ some b → a ≡ b
      some_injective a b e = ground (arith, e)

      same : (key : Str) → some key ≡ some token → str_eq key token ≡ true
      same key e = rw (some_injective key token e) (str_eq_self token)

  pub create-Yields :
      (key csrf_token username : Str) (now : ℕ)
      → token ≢ key
      → Yields Held (λ o. Unit) (create p key csrf_token username now)
  unfolding create Yields
  create-Yields key csrf_token username now ne =
      λ s held. (insert-Held key _ (now + session_ttl_secs) s (different key ne) held, tt)

  pub remove-Yields :
      (key : Str) → str_eq key token ≡ false → Yields Held (λ o. Unit) (remove p key)
  unfolding remove Yields
  remove-Yields key ne = λ s held. (delete-Held key s ne held, tt)
