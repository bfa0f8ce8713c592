-- ===== src/Server/Futures/Lawful/Sessions.antt =====
-- What each statement on the table of sessions does to the row of a token.
use multithreaded.Base.{
  ℕ, ◌≡◌, refl, sym, ◌∙◌, ap, subst, ◌≢◌, Option, none, some, Bool-cases, inl, inr, arith,
}
use multithreaded.Base.Text.{Str, str_eq, str_eq-eq}
use multithreaded.Server.Futures.Lawful.{SameSession, session_of}
use multithreaded.Session.{Rows, Row, put, with_expiry}

pub rows-SameSession :
    (key : Str) (row : Option Row) {r r' : Rows}
    → r' ≡ r
    → SameSession row (r key)
    → SameSession row (r' key)
rows-SameSession key row e h = subst (λ (q : Rows). SameSession row (q key)) (sym e) h

pub delete-SameSession :
    (token key : Str) (rows : Rows) → SameSession (rows key) (put token none rows key)
delete-SameSession token key rows = elim (Bool-cases (str_eq token key)) [
  | inl e ↦ rw e (inl refl)
  | inr e ↦ rw e (inr refl)
]

with_expiry-SameSession :
    (expires_at : ℕ) (row : Option Row) → SameSession row (with_expiry expires_at row)
with_expiry-SameSession expires_at none = inl refl
with_expiry-SameSession expires_at (some (session, old)) = inr refl

pub update-SameSession :
    (token key : Str) (expires_at : ℕ) (rows : Rows)
    → SameSession (rows key) (put token (with_expiry expires_at (rows token)) rows key)
update-SameSession token key expires_at rows = elim (Bool-cases (str_eq token key)) [
  | inl e ↦ rw e (rw (str_eq-eq token key e) (with_expiry-SameSession expires_at (rows key)))
  | inr e ↦ rw e (inr refl)
]

pub insert-SameSession :
    (token key : Str) (row : Option Row) (rows : Rows)
    → key ≢ token
    → SameSession (rows key) (put token row rows key)
insert-SameSession token key row rows ne = elim (Bool-cases (str_eq token key)) [
  | inl e ↦ absurd (ne (sym (str_eq-eq token key e)))
  | inr e ↦ rw e (inr refl)
]

gone : (row : Option Row) → session_of row ≡ none → row ≡ none
gone none h = refl
gone (some (session, expires_at)) h = absurd (ground (arith, h))

-- A session that was there is the same after two steps, or gone.
pub SameSession-trans :
    (row row' row'' : Option Row)
    → SameSession row row'
    → SameSession row' row''
    → SameSession row row''
SameSession-trans row row' row'' h (inl e) = inl e
SameSession-trans row row' row'' (inr h) (inr e) = inr (e ∙ h)
SameSession-trans row row' row'' (inl h) (inr e) = inl (gone row'' (e ∙ ap session_of h))

-- A token without a session gets none.
pub SameSession-none : (row row' : Option Row) → SameSession row row' → row ≡ none → row' ≡ none
SameSession-none row row' (inl h) e = h
SameSession-none row row' (inr h) e = gone row' (h ∙ ap session_of e)
