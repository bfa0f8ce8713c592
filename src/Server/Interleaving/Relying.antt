-- ===== src/Server/Interleaving/Relying.antt =====
-- A state that every task keeps as long as the others do, an interleaving of them keeps.
use multithreaded.Base.{ℕ, zero, suc, List, [], ◌∷◌, All}
use multithreaded.Http.Request.{HttpRequest}
use multithreaded.Http.Response.{HttpResponse}
use multithreaded.Metrics.{Metrics}
use multithreaded.Server.Application.{Platform, Inputs, App}
use multithreaded.Server.Futures.{Future, Async}
use multithreaded.Server.Interleaving.{
  Task, Event, arrive, advance, cancel, System, executed, poll, polled, dropped, happen,
  interleaved,
}
use multithreaded.Server.Interleaving.Steady.{Arrivals}
use multithreaded.Server.Program.{done, step}
use multithreaded.Server.Program.Rely.{Yields}

module _ (p : Platform) (I : App p → Type 0) where
  abbrev Relying : Task p → Type 0
  Relying t = Yields I (λ r. Unit) t.future

  executed-Relying :
      (t : Task p) (future : Future p HttpResponse) (s : App p)
      → Relying t
      → Yields I (λ r. Unit) future
      → I s
      → Relying (executed p t future s).0 × I (executed p t future s).1
  unfolding executed Yields
  executed-Relying t (done response) s ht h i = (ht, i)
  executed-Relying t (step f next) s ht h i = let (kept, rest) = h s i in (rest, kept)

  polled-Relying :
      (k : ℕ) (tasks : List (Task p)) (s : App p)
      → All Relying tasks
      → I s
      → All Relying (polled p k tasks s).0 × I (polled p k tasks s).1
  unfolding polled poll
  polled-Relying k [] s h i = (tt, i)
  polled-Relying zero (t ∷ tasks) s (h, hs) i =
      let (rest, kept) = executed-Relying t t.future s h h i in ((rest, hs), kept)
  polled-Relying (suc k) (t ∷ tasks) s (h, hs) i =
      let (rest, kept) = polled-Relying k tasks s hs i in ((h, rest), kept)

  dropped-Relying :
      (k : ℕ) (tasks : List (Task p)) → All Relying tasks → All Relying (dropped p k tasks)
  unfolding dropped
  dropped-Relying k [] h = tt
  dropped-Relying zero (t ∷ tasks) (h, hs) = hs
  dropped-Relying (suc k) (t ∷ tasks) (h, hs) = (h, dropped-Relying k tasks hs)

  pub interleaved-Relying :
      (serve : Async p) (Q : HttpRequest → Inputs → Type 0)
      → ((req : HttpRequest) (i : Inputs) (m : Metrics)
          → Q req i
          → Yields I (λ r. Unit) (serve req i m))
      → (events : List Event) (y : System p) → Arrivals Q events
      → All Relying y.tasks
      → I y.app
      → I (interleaved p serve events y).app
  unfolding interleaved happen Arrivals
  interleaved-Relying serve Q law [] y q h i = i
  interleaved-Relying serve Q law (arrive req i m ∷ events) y (q, qs) h held =
      interleaved-Relying serve Q law events _ qs (law req i m q, h) held
  interleaved-Relying serve Q law (advance k ∷ events) y q h held =
      let (rest, kept) = polled-Relying k y.tasks y.app h held in
      interleaved-Relying serve Q law events _ q rest kept
  interleaved-Relying serve Q law (cancel k ∷ events) y q h held =
      interleaved-Relying serve Q law events _ q (dropped-Relying k y.tasks h) held
