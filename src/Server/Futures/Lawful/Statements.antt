-- ===== src/Server/Futures/Lawful/Statements.antt =====
-- The statements on the three tables, and the operations that execute them.
use multithreaded.Base.{ℕ, ◌+◌, refl, Option, none, some, Bool-cases, inl, inr}
use multithreaded.Base.Text.{Str}
use multithreaded.Server.Application.{Platform, App}
use multithreaded.Server.Futures.{
  create, get, get_selected, remove, verify_user, list_items, get_item, create_item, delete_item,
}
use multithreaded.Server.Futures.Handlers.{current_session}
use multithreaded.Server.Futures.Lawful.{Proper, Quiet}
use multithreaded.Server.Futures.Lawful.Sessions.{
  rows-SameSession, delete-SameSession, update-SameSession, insert-SameSession,
}
use multithreaded.Server.Pages.{flatten}
use multithreaded.Server.Program.{done}
use multithreaded.Server.Program.Laws.{Always, Always->>=, Within, Within->>=}
use multithreaded.Session.{Session, session_ttl_secs}

module _ (p : Platform) where
  -- The statements on sessions.
  delete-Quiet :
      (own token : Str) (s : App p)
      → Quiet p own s (record s { sessions = (p.sessions.delete token s.sessions).1 })
  delete-Quiet own token s = (
    (
      refl,
      λ other ne. elim (Bool-cases ((p.sessions.delete token s.sessions).0)) [
        | inl e ↦
            rows-SameSession other _ (p.sessions.delete_ok token s.sessions e)
              (delete-SameSession token other (p.sessions.rows s.sessions))
        | inr e ↦ rows-SameSession other _ (p.sessions.delete_error token s.sessions e) (inr refl)
      ],
    ),
    refl,
  )

  update-Quiet :
      (own token : Str) (expires_at : ℕ) (s : App p)
      → Quiet p own s (record s { sessions = (p.sessions.update expires_at token s.sessions).1 })
  update-Quiet own token expires_at s = (
    (
      refl,
      λ other ne. elim (Bool-cases ((p.sessions.update expires_at token s.sessions).0)) [
        | inl e ↦
            rows-SameSession other _ (p.sessions.update_ok expires_at token s.sessions e)
              (update-SameSession token other expires_at (p.sessions.rows s.sessions))
        | inr e ↦
            rows-SameSession other _ (p.sessions.update_error expires_at token s.sessions e)
              (inr refl)
      ],
    ),
    refl,
  )

  select-Quiet :
      (own token : Str) (now : ℕ) (s : App p)
      → Quiet p own s (record s { sessions = (p.sessions.select token now s.sessions).1 })
  select-Quiet own token now s = (
    (
      refl,
      λ other ne. rows-SameSession other _ (p.sessions.select_rows token now s.sessions) (inr refl),
    ),
    refl,
  )

  get_selected-Quiet :
      (own token : Str) (now : ℕ) (o : Option (Option Session))
      → Always (Quiet p own) (get_selected p token now o)
  unfolding get_selected Always
  get_selected-Quiet own token now none = tt
  get_selected-Quiet own token now (some none) = λ s. (delete-Quiet own token s, tt)
  get_selected-Quiet own token now (some (some session)) =
      λ s. (update-Quiet own token (now + session_ttl_secs) s, tt)

  get-Quiet : (own token : Str) (now : ℕ) → Always (Quiet p own) (get p token now)
  unfolding get Always
  get-Quiet own token now = λ s. (select-Quiet own token now s, get_selected-Quiet own token now _)

  -- It is its own token that a creation gives a session.
  pub create-Quiet :
      (token csrf_token username : Str) (now : ℕ)
      → Always (Quiet p token) (create p token csrf_token username now)
  unfolding create Always
  create-Quiet token csrf_token username now =
      let session : Session = record { username = username; csrf_token = csrf_token } in
      λ s. (
        (
          (
            refl,
            λ other ne.
                elim (Bool-cases
                  ((p.sessions.insert token session (now + session_ttl_secs) s.sessions).0)) [
                    | inl e ↦
                        rows-SameSession other _ (p.sessions.insert_ok token session _ s.sessions e)
                          (insert-SameSession token other _ (p.sessions.rows s.sessions) ne)
                    | inr e ↦
                        rows-SameSession other _
                          (p.sessions.insert_error token session _ s.sessions e) (inr refl)
                  ],
          ),
          refl,
        ),
        tt,
      )

  pub remove-Quiet : (own token : Str) → Always (Quiet p own) (remove p token)
  unfolding remove Always
  remove-Quiet own token = λ s. (delete-Quiet own token s, tt)

  pub verify_user-Quiet :
      (own username password : Str) → Always (Quiet p own) (verify_user p username password)
  unfolding verify_user Always
  verify_user-Quiet own username password =
      λ s. (((p.users.select_rows username s.users, λ other ne. inr refl), refl), tt)

  -- The statements on items.
  pub list_items-Quiet : (own : Str) → Always (Quiet p own) (list_items p)
  unfolding list_items Always
  list_items-Quiet own = λ s. (((refl, λ other ne. inr refl), p.items.select_all_rows s.items), tt)

  pub get_item-Quiet : (own id : Str) → Always (Quiet p own) (get_item p id)
  unfolding get_item Always
  get_item-Quiet own id = λ s. (((refl, λ other ne. inr refl), p.items.select_rows id s.items), tt)

  pub create_item-Proper :
      (own id name description : Str) → Always (Proper p own) (create_item p id name description)
  unfolding create_item Always
  create_item-Proper own id name description = λ s. ((refl, λ other ne. inr refl), tt)

  pub delete_item-Proper : (own id : Str) → Always (Proper p own) (delete_item p id)
  unfolding delete_item Always
  delete_item-Proper own id = λ s. ((refl, λ other ne. inr refl), tt)

  pub current_session-Quiet :
      (own : Str) (token : Option Str) (now : ℕ)
      → Always (Quiet p own) (current_session p token now)
  unfolding current_session Always
  current_session-Quiet own none now = tt
  current_session-Quiet own (some token) now =
      Always->>= (Quiet p own) (get p token now) (λ found. done (flatten found))
        (get-Quiet own token now) (λ found. tt)

  get-Within : (token : Str) (now : ℕ) → Within 2 (get p token now)
  unfolding get get_selected Within
  get-Within token now = λ s. by ((p.sessions.select token now s.sessions).0)
    where
      by : (o : Option (Option Session)) → Within 1 (get_selected p token now o)
      by none = tt
      by (some none) = λ s. tt
      by (some (some session)) = λ s. tt

  pub current_session-Within :
      (token : Option Str) (now : ℕ) → Within 2 (current_session p token now)
  unfolding current_session Within
  current_session-Within none now = tt
  current_session-Within (some token) now =
      Within->>= 2 0 (get p token now) (λ found. done (flatten found)) (get-Within token now)
        (λ found. tt)
