-- ===== src/Server/Interleaving/Cautious.antt =====
-- What it takes for a statement to change the items.
use multithreaded.Base.{ℕ, zero, suc, ◌≡◌, refl, some, get_elem?, ◌⊎◌, inl, inr, List, [], ◌∷◌, All}
use multithreaded.Http.Request.{HttpRequest, Utf8Lib}
use multithreaded.Http.Response.{HttpResponse, HttpLib}
use multithreaded.Metrics.{Metrics}
use multithreaded.Middleware.Auth.{JwtLib}
use multithreaded.Server.Api.{JsonLib}
use multithreaded.Server.Application.{Platform, Inputs, App}
use multithreaded.Server.Futures.{Future, Async}
use multithreaded.Server.Futures.Lawful.{IsPrivileged}
use multithreaded.Server.Interleaving.{
  Task, Event, arrive, advance, cancel, System, executed, poll, polled, dropped, happen,
  interleaved, WasPrivileged, IsByPrivileged,
}
use multithreaded.Server.Pages.Kept.{ItemsKept}
use multithreaded.Server.Program.{done, step}
use multithreaded.Server.Program.Laws.{Until}

module _ ⦃http : HttpLib⦄ ⦃utf8 : Utf8Lib⦄ ⦃serde : JsonLib⦄ ⦃jwt : JwtLib⦄ (p : Platform) where
  -- The task has been privileged, or nothing that is left of it changes an item before it is.
  abbrev Cautious : Task p → Type 0
  Cautious t = WasPrivileged p t ⊎ Until (IsPrivileged p t.request t.inputs) (ItemsKept p) t.future

  executed-Cautious :
      (t : Task p) (future : Future p HttpResponse) (s : App p)
      → t.future ≡ future
      → Cautious t
      → Cautious (executed p t future s).0
        × (ItemsKept p s (executed p t future s).1 ⊎ WasPrivileged p (executed p t future s).0)
  unfolding executed Until
  executed-Cautious t (done response) s e h = (h, inl refl)
  executed-Cautious t (step f next) s e (inl was) = (inl (inr was), inr (inr was))
  executed-Cautious t (step f next) s e (inr h) = elim ((rw e at h) s) [
    | inl now ↦ (inl (inl now), inr (inl now))
    | inr (kept, rest) ↦ (inr rest, inl kept)
  ]

  polled-Cautious :
      (k : ℕ) (tasks : List (Task p)) (s : App p)
      → All Cautious tasks
      → let (tasks', s') = polled p k tasks s in
        All Cautious tasks'
        × (ItemsKept p s s' ⊎ ((t : Task p) × (get_elem? tasks' k ≡ some t) × WasPrivileged p t))
  unfolding polled poll
  polled-Cautious k [] s h = (tt, inl refl)
  polled-Cautious zero (t ∷ tasks) s (h, hs) =
      let (rest, kept) = executed-Cautious t t.future s refl h in
      ((rest, hs), elim kept [ inl same ↦ inl same | inr was ↦ inr (_, refl, was) ])
  polled-Cautious (suc k) (t ∷ tasks) s (h, hs) =
      let (rest, kept) = polled-Cautious k tasks s hs in
      ((h, rest), elim kept [ inl same ↦ inl same | inr (t', e, was) ↦ inr (t', e, was) ])

  dropped-Cautious :
      (k : ℕ) (tasks : List (Task p)) → All Cautious tasks → All Cautious (dropped p k tasks)
  unfolding dropped
  dropped-Cautious k [] h = tt
  dropped-Cautious zero (t ∷ tasks) (h, hs) = hs
  dropped-Cautious (suc k) (t ∷ tasks) (h, hs) = (h, dropped-Cautious k tasks hs)

  module _ (serve : Async p)
      (law : (req : HttpRequest) (i : Inputs) (m : Metrics)
        → Until (IsPrivileged p req i) (ItemsKept p) (serve req i m)) where
    pub happen-Cautious :
        (e : Event) (y : System p)
        → All Cautious y.tasks
        → let y' = happen p serve e y in
          All Cautious y'.tasks × (ItemsKept p y.app y'.app ⊎ IsByPrivileged p e y')
    unfolding happen
    happen-Cautious (arrive req i m) y h = ((inr (law req i m), h), inl refl)
    happen-Cautious (cancel k) y h = (dropped-Cautious k y.tasks h, inl refl)
    happen-Cautious (advance k) y h =
        let (rest, kept) = polled-Cautious k y.tasks y.app h in
        (
          rest,
          elim kept [
            | inl same ↦ inl same
            | inr (t, there, was) ↦
                inr
                  (record { index = k; task = t; advances = refl; there = there; privileged = was })
          ],
        )

    pub interleaved-Cautious :
        (events : List Event) (y : System p)
        → All Cautious y.tasks
        → All Cautious (interleaved p serve events y).tasks
    unfolding interleaved
    interleaved-Cautious [] y h = h
    interleaved-Cautious (e ∷ events) y h =
        interleaved-Cautious events (happen p serve e y) (happen-Cautious e y h).0
