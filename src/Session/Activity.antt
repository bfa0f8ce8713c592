-- ===== src/Session/Activity.antt =====
-- A session in use stays.
use multithreaded.Base.{
  ℕ, ◌+◌, ◌≤◌, ◌<◌, ◌≡◌, refl, sym, ◌∙◌, ap, subst, true, false, Option, some, List, All,
  Bool-cases, Option-cases, inl, inr, ◌⊎◌, arith,
}
use multithreaded.Base.Text.{Str, str_eq, str_eq_iff}
use multithreaded.Session.{Session, Row, Rows, live, with_expiry, session_ttl_secs, SessionsTable}
use multithreaded.Session.Refinement.{
  Call, create_session, get_session, remove_session, Answer, session, sql_error, serve, Outcome,
  served, failed, History, history_nil, history_cons, step, step-Outcome, run, run-History,
}

-- Other than looking it up in time, the call leaves the token alone.
abbrev pub IsKeeping : Str → ℕ → Call → Type 0
IsKeeping token start (create_session key csrf_token username now) = str_eq key token ≡ false
IsKeeping token start (get_session key now) =
    str_eq key token ≡ true → (start ≤ now) × (now < start + session_ttl_secs)
IsKeeping token start (remove_session key) = str_eq key token ≡ false

-- The row holds the session, until `deadline` at least.
abbrev pub IsHeld : ℕ → Session → Option Row → Type 0
IsHeld deadline s r = (expires_at : ℕ) × ((r ≡ some (s, expires_at)) × (deadline ≤ expires_at))

pub live-held :
    (now deadline : ℕ) (s : Session) (r : Option Row)
    → IsHeld deadline s r
    → now < deadline
    → live now r ≡ some s
unfolding live
live-held now deadline s r (expires_at, (e, h)) k = rw (e, live) (ground arith)

serve-IsHeld :
    (token : Str) (start : ℕ) (s : Session) (c : Call) (rows : Rows)
    → IsKeeping token start c
    → IsHeld (start + session_ttl_secs) s (rows token)
    → IsHeld (start + session_ttl_secs) s ((serve c rows).1 token)
unfolding serve
serve-IsHeld token start s (create_session key csrf_token username now) rows h e = rw h e
serve-IsHeld token start s (remove_session key) rows h e = rw h e
serve-IsHeld token start s (get_session key now) rows h e = elim (Bool-cases (str_eq key token)) [
  | inl k ↦
      let same : key ≡ token = (str_eq_iff key token).0 k in
      let held : IsHeld (start + session_ttl_secs) s (rows key) =
        subst (λ j. IsHeld (start + session_ttl_secs) s (rows j)) (sym same) e in
      rw (live-held now (start + session_ttl_secs) s (rows key) held (h k).1, serve)
        (rw k (
          now + session_ttl_secs,
          (ap (with_expiry (now + session_ttl_secs)) held.1.0, omega (arith, (h k).0)),
        ))
  | inr k ↦ elim (Option-cases (live now (rows key))) [
    | inl l ↦ rw (l, serve) (rw k e)
    | inr (found, l) ↦ rw (l, serve) (rw k e)
  ]
]

History-IsHeld :
    (token : Str) (start : ℕ) (s : Session) {cs : List Call} {answers : List Answer}
    {rows rows' : Rows}
    → History cs rows answers rows'
    → All (IsKeeping token start) cs
    → IsHeld (start + session_ttl_secs) s (rows token)
    → IsHeld (start + session_ttl_secs) s (rows' token)
History-IsHeld token start s history_nil h e = e
History-IsHeld token start s (history_cons (served _ k) hs) h e =
    History-IsHeld token start s hs h.1 (
      subst (λ (r : Rows). IsHeld (start + session_ttl_secs) s (r token)) (sym k)
        (serve-IsHeld token start s _ _ h.0 e))
History-IsHeld token start s (history_cons (failed _ k) hs) h e =
    History-IsHeld token start s hs h.1
      (subst (λ (r : Rows). IsHeld (start + session_ttl_secs) s (r token)) (sym k) e)

module _ (db : SessionsTable) where
  -- A session in use stays: from a row that holds a session for an hour from `start`, whatever calls
  -- are made and whichever statements fail, if none creates or removes the token and each lookup of
  -- it falls in that hour, a further lookup in that hour answers the session, or an error.
  pub active_session_kept :
      (token : Str) (start now : ℕ) (s : Session) (cs : List Call) (t : db.Table)
      → IsHeld (start + session_ttl_secs) s (db.rows t token)
      → All (IsKeeping token start) cs
      → now < start + session_ttl_secs
      → let a = (step db (get_session token now) (run db cs t).1).0 in
        (a ≡ session (some s)) ⊎ (a ≡ sql_error)
  unfolding serve
  active_session_kept token start now s cs t e h k =
      in_time (step-Outcome db (get_session token now) (run db cs t).1) (
        live-held now (start + session_ttl_secs) s _
          (History-IsHeld token start s (run-History db cs t) h e) k)
    where
      in_time :
          {rows rows' : Rows} {a : Answer}
          → Outcome (get_session token now) rows a rows'
          → live now (rows token) ≡ some s
          → (a ≡ session (some s)) ⊎ (a ≡ sql_error)
      in_time (failed e k) l = inr e
      in_time (served e k) l = inl (e ∙ rw (l, serve) refl)
