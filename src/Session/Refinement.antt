-- ===== src/Session/Refinement.antt =====
-- The store against a map of tokens to sessions with a deadline.
use multithreaded.Base.{
  ℕ, ◌+◌, ◌≡◌, refl, sym, ◌∙◌, ap, Option, none, some, List, [], ◌∷◌, if◌then◌else◌, Bool-cases,
  inl, inr,
}
use multithreaded.Base.Text.{Str}
use multithreaded.Session.{
  Session, Row, Rows, live, put, with_expiry, session_ttl_secs, SessionsTable, create, get_selected,
  get, remove,
}

-- The calls, each with what it reads from outside: random tokens and the time.
pub data Call : Type 0 where
  create_session : (token csrf_token username : Str) → ℕ → Call
  get_session : Str → ℕ → Call
  remove_session : Str → Call

pub data Answer : Type 0 where
  created : Str → Answer
  session : Option Session → Answer
  removed : Answer
  sql_error : Answer

-- What a call does to the map of sessions: a session that is looked up in time lives on for another
-- hour, one that is looked up too late is gone.
unfoldable pub serve : Call → Rows → Answer × Rows
serve (create_session token csrf_token username now) rows =
    let row : Option Row =
      some (record { username = username; csrf_token = csrf_token }, now + session_ttl_secs) in
    (created token, put token row rows)
serve (get_session token now) rows = elim (live now (rows token)) [
  | none ↦ (session none, put token none rows)
  | some found ↦
      (session (some found), put token (with_expiry (now + session_ttl_secs) (rows token)) rows)
]
serve (remove_session token) rows = (removed, put token none rows)

unfoldable pub answered : Option (Option Session) → Answer
answered none = sql_error
answered (some found) = session found

-- A call was served by the map, or failed and changed nothing.
pub data Outcome (c : Call) (rows : Rows) (a : Answer) (rows' : Rows) : Type 0 where
  served : a ≡ (serve c rows).0 → rows' ≡ (serve c rows).1 → Outcome c rows a rows'
  failed : a ≡ sql_error → rows' ≡ rows → Outcome c rows a rows'

pub data History : List Call → Rows → List Answer → Rows → Type 0 where
  history_nil : {rows : Rows} → History [] rows [] rows
  history_cons :
      {c : Call} {cs : List Call} {a : Answer} {answers : List Answer} {rows rows' rows'' : Rows}
      → Outcome c rows a rows'
      → History cs rows' answers rows''
      → History (c ∷ cs) rows (a ∷ answers) rows''

module _ (db : SessionsTable) where
  open db use {Table, insert, select, delete, update}

  unfoldable pub step : Call → Table → Answer × Table
  step (create_session token csrf_token username now) t =
      let (o, t') = create db token csrf_token username now t in
      (elim o [ none ↦ sql_error | some k ↦ created k ], t')
  step (get_session token now) t = let (o, t') = get db token now t in (answered o, t')
  step (remove_session token) t =
      let (ok, t') = remove db token t in (if ok then removed else sql_error, t')

  get_selected-Outcome :
      (token : Str) (now : ℕ) (rows : Rows) (o : Option (Option Session)) (t : Table)
      → db.rows t ≡ rows
      → ((found : Option Session) → o ≡ some found → found ≡ live now (rows token))
      → Outcome
          (get_session token now)
          rows
          (answered (get_selected db token now o t).0)
          (db.rows (get_selected db token now o t).1)
  unfolding get_selected answered serve
  get_selected-Outcome token now rows none t e h = failed refl e
  get_selected-Outcome token now rows (some none) t e h = elim (Bool-cases ((delete token t).0)) [
    | inl ok ↦
        let l : live now (rows token) ≡ none = sym (h none refl) in
        rw (ok, get_selected)
          (served (rw (l, serve) refl)
            (db.delete_ok token t ok ∙ ap (put token none) e ∙ rw (l, serve) refl))
    | inr ok ↦ rw (ok, get_selected) (failed refl (db.delete_error token t ok ∙ e))
  ]
  get_selected-Outcome token now rows (some (some s)) t e h =
      elim (Bool-cases ((update (now + session_ttl_secs) token t).0)) [
        | inl ok ↦
            let l : live now (rows token) ≡ some s = sym (h (some s) refl) in
            let later = now + session_ttl_secs in
            rw (ok, get_selected)
              (served (rw (l, serve) refl) (
                db.update_ok later token t ok
                ∙ ap (λ (r : Rows). put token (with_expiry later (r token)) r) e
                ∙ rw (l, serve) refl))
        | inr ok ↦
            rw (ok, get_selected)
              (failed refl (db.update_error (now + session_ttl_secs) token t ok ∙ e))
      ]

  create-Outcome :
      (token csrf_token username : Str) (now : ℕ) (t : Table)
      → let c = create_session token csrf_token username now in
        Outcome c (db.rows t) (step c t).0 (db.rows (step c t).1)
  unfolding step create serve
  create-Outcome token csrf_token username now t =
      let s : Session = record { username = username; csrf_token = csrf_token } in
      let later = now + session_ttl_secs in
      elim (Bool-cases ((insert token s later t).0)) [
        | inl ok ↦ rw (ok, step) (served refl (db.insert_ok token s later t ok))
        | inr ok ↦ rw (ok, step) (failed refl (db.insert_error token s later t ok))
      ]

  remove-Outcome :
      (token : Str) (t : Table)
      → Outcome
          (remove_session token)
          (db.rows t)
          (step (remove_session token) t).0
          (db.rows (step (remove_session token) t).1)
  unfolding step remove serve
  remove-Outcome token t = elim (Bool-cases ((delete token t).0)) [
    | inl ok ↦ rw (ok, step) (served refl (db.delete_ok token t ok))
    | inr ok ↦ rw (ok, step) (failed refl (db.delete_error token t ok))
  ]

  pub step-Outcome :
      (c : Call) (t : Table) → Outcome c (db.rows t) (step c t).0 (db.rows (step c t).1)
  unfolding step get
  step-Outcome (create_session token csrf_token username now) t =
      create-Outcome token csrf_token username now t
  step-Outcome (get_session token now) t =
      get_selected-Outcome token now (db.rows t) ((select token now t).0) ((select token now t).1)
        (db.select_rows token now t) (db.select_ok token now t)
  step-Outcome (remove_session token) t = remove-Outcome token t

  unfoldable pub run : List Call → Table → List Answer × Table
  unfolding step
  run [] t = ([], t)
  run (c ∷ cs) t = let (a, t') = step c t in let (answers, t'') = run cs t' in (a ∷ answers, t'')

  -- Whatever calls are made, and whichever statements fail: the answers and the rows are those of
  -- the map of sessions with deadlines, in which each call that answers an error did nothing.
  pub run-History :
      (cs : List Call) (t : Table) → History cs (db.rows t) (run cs t).0 (db.rows (run cs t).1)
  unfolding run
  run-History [] t = history_nil
  run-History (c ∷ cs) t = history_cons (step-Outcome c t) (run-History cs (step c t).1)
