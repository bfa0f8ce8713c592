-- ===== src/Server/Interleaving/Steady.antt =====
-- What each statement of each task keeps, an interleaving of them keeps.
use multithreaded.Base.{ℕ, zero, suc, List, [], ◌∷◌, All}
use multithreaded.Http.Request.{HttpRequest}
use multithreaded.Http.Response.{HttpResponse}
use multithreaded.Metrics.{Metrics}
use multithreaded.Server.Application.{Platform, Inputs, App}
use multithreaded.Server.Futures.{Future, Async}
use multithreaded.Server.Futures.Routes.{serve}
use multithreaded.Server.Interleaving.{
  Task, Event, arrive, advance, cancel, System, executed, poll, polled, dropped, happen,
  interleaved,
}
use multithreaded.Server.Program.{done, step}
use multithreaded.Server.Program.Laws.{Always}

-- The events whose requests and inputs have `Q`.
unfoldable pub Arrivals : (HttpRequest → Inputs → Type 0) → List Event → Type 0
Arrivals Q [] = Unit
Arrivals Q (arrive req i m ∷ events) = Q req i × Arrivals Q events
Arrivals Q (advance k ∷ events) = Arrivals Q events
Arrivals Q (cancel k ∷ events) = Arrivals Q events

-- What each statement of each task is, if its request has inputs with `Q`, is a step of the run.
module _ (p : Platform) (T : App p → App p → Type 0) where
  abbrev pub Steady : Task p → Type 0
  Steady t = Always T t.future

  -- The others may have come in between: `T` is kept by any number of steps.
  module _ (same : (s : App p) → T s s)
      (then : (s s' s'' : App p) → T s s' → T s' s'' → T s s'') where
    executed-Steady :
        (t : Task p) (future : Future p HttpResponse) (s : App p)
        → Steady t
        → Always T future
        → Steady (executed p t future s).0 × T s (executed p t future s).1
    unfolding executed Always
    executed-Steady t (done response) s ht h = (ht, same s)
    executed-Steady t (step f next) s ht h = let (kept, rest) = h s in (rest, kept)

    polled-Steady :
        (k : ℕ) (tasks : List (Task p)) (s : App p)
        → All Steady tasks
        → All Steady (polled p k tasks s).0 × T s (polled p k tasks s).1
    unfolding polled poll
    polled-Steady k [] s h = (tt, same s)
    polled-Steady zero (t ∷ tasks) s (h, hs) =
        let (rest, kept) = executed-Steady t t.future s h h in ((rest, hs), kept)
    polled-Steady (suc k) (t ∷ tasks) s (h, hs) =
        let (rest, kept) = polled-Steady k tasks s hs in ((h, rest), kept)

    dropped-Steady :
        (k : ℕ) (tasks : List (Task p)) → All Steady tasks → All Steady (dropped p k tasks)
    unfolding dropped
    dropped-Steady k [] h = tt
    dropped-Steady zero (t ∷ tasks) (h, hs) = hs
    dropped-Steady (suc k) (t ∷ tasks) (h, hs) = (h, dropped-Steady k tasks hs)

    pub interleaved-Steady :
        (serve : Async p) (Q : HttpRequest → Inputs → Type 0)
        → ((req : HttpRequest) (i : Inputs) (m : Metrics) → Q req i → Always T (serve req i m))
        → (events : List Event) (y : System p) → Arrivals Q events
        → All Steady y.tasks
        → let y' = interleaved p serve events y in All Steady y'.tasks × T y.app y'.app
    unfolding interleaved happen Arrivals
    interleaved-Steady serve Q law [] y q h = (h, same y.app)
    interleaved-Steady serve Q law (arrive req i m ∷ events) y (q, qs) h =
        interleaved-Steady serve Q law events _ qs (law req i m q, h)
    interleaved-Steady serve Q law (advance k ∷ events) y q h =
        let (rest, kept) = polled-Steady k y.tasks y.app h in
        let (left, later) = interleaved-Steady serve Q law events _ q rest in
        (left, then _ _ _ kept later)
    interleaved-Steady serve Q law (cancel k ∷ events) y q h =
        interleaved-Steady serve Q law events _ q (dropped-Steady k y.tasks h)
