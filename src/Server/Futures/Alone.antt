-- ===== src/Server/Futures/Alone.antt =====
-- What a future comes to with nothing in between: the operations of the store of sessions.
pub mod Handlers
pub mod Routes
use multithreaded.Base.{ℕ, ◌+◌, ◌≡◌, refl, Option, none, some, Bool-cases, inl, inr}
use multithreaded.Base.Text.{Str}
use multithreaded.Server.Application.{Platform, App}
use multithreaded.Server.Futures.{create, get, get_selected}
use multithreaded.Server.Futures.Handlers.{current_session}
use multithreaded.Server.Pages as Pages
use multithreaded.Server.Pages.{flatten}
use multithreaded.Server.Program.{Program, done, run, ◌>>=◌}
use multithreaded.Server.Program.Laws.{run-then}
use multithreaded.Session.{Session, session_ttl_secs}
use multithreaded.Session as Session

module _ (p : Platform) where
  -- The answer of an operation on the sessions, in the state that they are part of.
  abbrev pub with_sessions : {A : Type 0} → App p → A × p.sessions.Table → A × App p
  with_sessions s (a, t) = (a, record s { sessions = t })

  run-get_selected :
      (token : Str) (now : ℕ) (o : Option (Option Session)) (s : App p)
      → run (get_selected p token now o) s
        ≡ with_sessions s (Session.get_selected p.sessions token now o s.sessions)
  unfolding run get_selected Session.get_selected
  run-get_selected token now none s = refl
  run-get_selected token now (some none) s =
      elim (Bool-cases ((p.sessions.delete token s.sessions).0)) [
        | inl e ↦ rw e refl
        | inr e ↦ rw e refl
      ]
  run-get_selected token now (some (some session)) s =
      elim (Bool-cases ((p.sessions.update (now + session_ttl_secs) token s.sessions).0)) [
        | inl e ↦ rw e refl
        | inr e ↦ rw e refl
      ]

  pub run-get :
      (token : Str) (now : ℕ) (s : App p)
      → run (get p token now) s ≡ with_sessions s (Session.get p.sessions token now s.sessions)
  unfolding run get Session.get
  run-get token now s =
      let (o, t) = p.sessions.select token now s.sessions in
      run-get_selected token now o (record s { sessions = t })

  pub run-create :
      (token csrf_token username : Str) (now : ℕ) (s : App p)
      → run (create p token csrf_token username now) s
        ≡ with_sessions s (Session.create p.sessions token csrf_token username now s.sessions)
  unfolding run create Session.create
  run-create token csrf_token username now s =
      let session : Session = record { username = username; csrf_token = csrf_token } in
      elim (Bool-cases ((p.sessions.insert token session (now + session_ttl_secs) s.sessions).0)) [
        | inl e ↦ rw e refl
        | inr e ↦ rw e refl
      ]

  pub run-current_session :
      (token : Option Str) (now : ℕ) (s : App p)
      → run (current_session p token now) s ≡ Pages.current_session p token now s
  unfolding run current_session Pages.current_session
  run-current_session none now s = refl
  run-current_session (some token) now s =
      run-then (get p token now) (λ found. done (flatten found)) s _ (run-get token now s)
