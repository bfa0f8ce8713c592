-- ===== src/Session/Expiry.antt =====
-- How long a session lives.
use multithreaded.Base.{
  ℕ, ◌+◌, ◌≤◌, ◌≡◌, refl, sym, ◌∙◌, subst, Bool, true, Option, none, some, List, All, ltb,
  Bool-cases, Option-cases, inl, inr, ◌⊎◌, arith,
}
use multithreaded.Base.Text.{Str, str_eq}
use multithreaded.Session.{Row, Rows, live, with_expiry, session_ttl_secs, SessionsTable}
use multithreaded.Session.Refinement.{
  Call, create_session, get_session, remove_session, Answer, session, sql_error, serve, Outcome,
  served, failed, History, history_nil, history_cons, step, step-Outcome, run, run-History,
}

-- The time of a call that concerns the token is at most `last`.
abbrev pub IsBefore : Str → ℕ → Call → Type 0
IsBefore token last (create_session key csrf_token username now) =
    str_eq key token ≡ true → now ≤ last
IsBefore token last (get_session key now) = str_eq key token ≡ true → now ≤ last
IsBefore token last (remove_session key) = Unit

abbrev pub expires_by : ℕ → Option Row → Bool
expires_by deadline none = true
expires_by deadline (some (_, expires_at)) = ltb expires_at (deadline + 1)

with_expiry-expires_by :
    (deadline expires_at : ℕ) (r : Option Row)
    → expires_at ≤ deadline
    → expires_by deadline (with_expiry expires_at r) ≡ true
with_expiry-expires_by deadline expires_at none h = refl
with_expiry-expires_by deadline expires_at (some r) h = ground arith

serve-expires_by :
    (token : Str) (last : ℕ) (c : Call) (rows : Rows)
    → IsBefore token last c
    → expires_by (last + session_ttl_secs) (rows token) ≡ true
    → expires_by (last + session_ttl_secs) ((serve c rows).1 token) ≡ true
unfolding serve
serve-expires_by token last (create_session key csrf_token username now) rows h e =
    elim (Bool-cases (str_eq key token)) [ inl k ↦ rw k (ground (arith, h k)) | inr k ↦ rw k e ]
serve-expires_by token last (remove_session key) rows h e = elim (Bool-cases (str_eq key token)) [
  | inl k ↦ rw k refl
  | inr k ↦ rw k e
]
serve-expires_by token last (get_session key now) rows h e =
    elim (Option-cases (live now (rows key))) [
      | inl l ↦
          rw (l, serve)
            (elim (Bool-cases (str_eq key token)) [ inl k ↦ rw k refl | inr k ↦ rw k e ])
      | inr (s, l) ↦
          rw (l, serve)
            (elim (Bool-cases (str_eq key token)) [
              | inl k ↦ rw k (
                  with_expiry-expires_by (last + session_ttl_secs) (now + session_ttl_secs)
                    (rows key) (omega (arith, h k)))
              | inr k ↦ rw k e
            ])
    ]

History-expires_by :
    (token : Str) (last : ℕ) {cs : List Call} {answers : List Answer} {rows rows' : Rows}
    → History cs rows answers rows'
    → All (IsBefore token last) cs
    → expires_by (last + session_ttl_secs) (rows token) ≡ true
    → expires_by (last + session_ttl_secs) (rows' token) ≡ true
History-expires_by token last history_nil h e = e
History-expires_by token last (history_cons (served _ k) hs) h e =
    History-expires_by token last hs h.1 (
      subst (λ (r : Rows). expires_by (last + session_ttl_secs) (r token) ≡ true) (sym k)
        (serve-expires_by token last _ _ h.0 e))
History-expires_by token last (history_cons (failed _ k) hs) h e =
    History-expires_by token last hs h.1
      (subst (λ (r : Rows). expires_by (last + session_ttl_secs) (r token) ≡ true) (sym k) e)

live_late :
    (now deadline : ℕ) (r : Option Row)
    → expires_by deadline r ≡ true
    → deadline ≤ now
    → live now r ≡ none
unfolding live
live_late now deadline none e h = refl
live_late now deadline (some (s, expires_at)) e h = ground arith

module _ (db : SessionsTable) where
  -- A session that no call has concerned for an hour is gone: whatever calls were made, if none of
  -- them that created or looked up the token was later than `last`, and the token had no row at
  -- first, then a lookup an hour after `last` or later finds none, or answers an error.
  pub idle_session_gone :
      (token : Str) (last now : ℕ) (cs : List Call) (t : db.Table)
      → db.rows t token ≡ none
      → All (IsBefore token last) cs
      → last + session_ttl_secs ≤ now
      → let a = (step db (get_session token now) (run db cs t).1).0 in
        (a ≡ session none) ⊎ (a ≡ sql_error)
  unfolding serve
  idle_session_gone token last now cs t e h k =
      late (step-Outcome db (get_session token now) (run db cs t).1) (
        live_late now (last + session_ttl_secs) _
          (History-expires_by token last (run-History db cs t) h (rw e refl)) k)
    where
      late :
          {rows rows' : Rows} {a : Answer}
          → Outcome (get_session token now) rows a rows'
          → live now (rows token) ≡ none
          → (a ≡ session none) ⊎ (a ≡ sql_error)
      late (failed e k) l = inr e
      late (served e k) l = inl (e ∙ rw (l, serve) refl)
