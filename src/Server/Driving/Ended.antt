-- ===== src/Server/Driving/Ended.antt =====
-- What can end a connection, and what a shutdown does to it.
use multithreaded.Base.{
  ℕ, suc, ◌≡◌, refl, ap, Bool, true, false, Option, none, some, List, [], ◌∷◌, ◌++◌, All,
}
use multithreaded.Server.Driving.{
  Closed, Ready, polled, Drive, running, closed, timed_out, Loop, start, poll_rest, poll, step, run,
}

-- The connection has not ended.
pub data IsOpen : Ready → Type 0 where
  open_round : {changed : Option Bool} {ka_timeout : Bool} → IsOpen (polled none changed ka_timeout)

-- Nothing happens: the channel has changed to no shutdown, or nothing is ready.
pub data IsIdle : Ready → Type 0 where
  unshut : {ka_timeout : Bool} → IsIdle (polled none (some false) ka_timeout)
  idle : IsIdle (polled none none false)

-- What the rounds of the loop have come to.
pub data Ends (rounds : List Ready) : Drive → ℕ → Type 0 where
  waits : All IsIdle rounds → Ends rounds (running false) 0
  times_out :
      (before after : List Ready)
      → rounds ≡ before ++ polled none none true ∷ after
      → All IsIdle before
      → Ends rounds timed_out 0
  closes :
      (before after : List Ready) (end : Closed) (changed : Option Bool) (ka_timeout : Bool)
      → rounds ≡ before ++ polled (some end) changed ka_timeout ∷ after
      → All IsIdle before
      → Ends rounds (closed end) 0
  drains :
      (before after : List Ready) (ka_timeout : Bool)
      → rounds ≡ before ++ polled none (some true) ka_timeout ∷ after
      → All IsIdle before
      → All IsOpen after
      → Ends rounds (running true) 1
  drained :
      (before between after : List Ready) (end : Closed) (changed : Option Bool)
      (rang ka_timeout : Bool)
      → rounds
        ≡ before
          ++ polled none (some true) rang
            ∷ (between ++ polled (some end) changed ka_timeout ∷ after)
      → All IsIdle before
      → All IsOpen between
      → Ends rounds (closed end) 1

-- After a `break` nothing changes.
run-closed :
    (end : Closed) (n : ℕ) (rounds : List Ready)
    → run (record { drive = closed end; shutdowns = n }) rounds
      ≡ record { drive = closed end; shutdowns = n }
unfolding run step
run-closed end n [] = refl
run-closed end n (ready ∷ rounds) = run-closed end n rounds

run-timed_out :
    (n : ℕ) (rounds : List Ready)
    → run (record { drive = timed_out; shutdowns = n }) rounds
      ≡ record { drive = timed_out; shutdowns = n }
unfolding run step
run-timed_out n [] = refl
run-timed_out n (ready ∷ rounds) = run-timed_out n rounds

Ends-idle :
    (ready : Ready) (rounds : List Ready) {d : Drive} {n : ℕ}
    → IsIdle ready
    → Ends rounds d n
    → Ends (ready ∷ rounds) d n
Ends-idle ready rounds h (waits hs) = waits (h, hs)
Ends-idle ready rounds h (times_out before after e hs) =
    times_out (ready ∷ before) after (ap (λ l. ready ∷ l) e) (h, hs)
Ends-idle ready rounds h (closes before after end c t e hs) =
    closes (ready ∷ before) after end c t (ap (λ l. ready ∷ l) e) (h, hs)
Ends-idle ready rounds h (drains before after t e hs os) =
    drains (ready ∷ before) after t (ap (λ l. ready ∷ l) e) (h, hs) os
Ends-idle ready rounds h (drained before between after end c t t' e hs os) =
    drained (ready ∷ before) between after end c t t' (ap (λ l. ready ∷ l) e) (h, hs) os

-- After the announcement only the connection's own end counts.
data Rest (rounds : List Ready) : Drive → ℕ → Type 0 where
  still_open : All IsOpen rounds → Rest rounds (running true) 1
  ends :
      (between after : List Ready) (end : Closed) (changed : Option Bool) (ka_timeout : Bool)
      → rounds ≡ between ++ polled (some end) changed ka_timeout ∷ after
      → All IsOpen between
      → Rest rounds (closed end) 1

Rest-open :
    (ready : Ready) (rounds : List Ready) {d : Drive} {n : ℕ}
    → IsOpen ready
    → Rest rounds d n
    → Rest (ready ∷ rounds) d n
Rest-open ready rounds h (still_open hs) = still_open (h, hs)
Rest-open ready rounds h (ends between after end c t e hs) =
    ends (ready ∷ between) after end c t (ap (λ l. ready ∷ l) e) (h, hs)

module _ (Q : Drive → ℕ → Type 0) where
  abbrev Reaches : Loop → Type 0
  Reaches l = Q l.drive l.shutdowns

run-Rest :
    (rounds : List Ready)
    → Reaches (Rest rounds) (run (record { drive = running true; shutdowns = 1 }) rounds)
unfolding run step poll
run-Rest [] = still_open tt
run-Rest (polled (some end) c t ∷ rounds) =
    rw (run-closed end 1 rounds) (ends [] rounds end c t refl tt)
run-Rest (polled none c t ∷ rounds) = Rest-open _ rounds open_round (run-Rest rounds)

Rest-Ends :
    (ka_timeout : Bool) (rounds : List Ready) {d : Drive} {n : ℕ}
    → Rest rounds d n
    → Ends (polled none (some true) ka_timeout ∷ rounds) d n
Rest-Ends ka_timeout rounds (still_open hs) = drains [] rounds ka_timeout refl tt hs
Rest-Ends ka_timeout rounds (ends between after end c t e hs) =
    drained [] between after end c ka_timeout t (ap (λ l. polled none (some true) ka_timeout ∷ l) e)
      tt hs

-- Whatever is ready in each round, the loop leaves with the end of the connection in the first
-- round in which it has ended. Until a shutdown is announced the keep-alive timer can end it too,
-- and only then: the first announcement calls `graceful_shutdown`, once, and from then on the loop
-- waits for the end of the connection, the timer and the channel ignored.
pub run-Ends : (rounds : List Ready) → Reaches (Ends rounds) (run start rounds)
unfolding start run step poll poll_rest
run-Ends [] = waits tt
run-Ends (polled (some end) c t ∷ rounds) =
    rw (run-closed end 0 rounds) (closes [] rounds end c t refl tt)
run-Ends (polled none (some true) t ∷ rounds) = Rest-Ends t rounds (run-Rest rounds)
run-Ends (polled none (some false) t ∷ rounds) = Ends-idle _ rounds unshut (run-Ends rounds)
run-Ends (polled none none true ∷ rounds) =
    rw (run-timed_out 0 rounds) (times_out [] rounds refl tt)
run-Ends (polled none none false ∷ rounds) = Ends-idle _ rounds idle (run-Ends rounds)

-- A `break` has left the loop.
pub data IsLeft : Drive → Type 0 where
  by_close : {end : Closed} → IsLeft (closed end)
  by_timer : IsLeft timed_out

IsLeft-from :
    (graceful : Bool) (n : ℕ) (before after : List Ready) (end : Closed) (changed : Option Bool)
    (ka_timeout : Bool)
    → IsLeft
        (run
          (record { drive = running graceful; shutdowns = n })
          (before ++ polled (some end) changed ka_timeout ∷ after)).drive
unfolding run step poll poll_rest
IsLeft-from g n [] after end c t = rw (run-closed end n after) by_close
IsLeft-from g n (polled (some e) c' t' ∷ before) after end c t =
    rw (run-closed e n (before ++ polled (some end) c t ∷ after)) by_close
IsLeft-from true n (polled none c' t' ∷ before) after end c t =
    IsLeft-from true n before after end c t
IsLeft-from false n (polled none (some true) t' ∷ before) after end c t =
    IsLeft-from true (suc n) before after end c t
IsLeft-from false n (polled none (some false) t' ∷ before) after end c t =
    IsLeft-from false n before after end c t
IsLeft-from false n (polled none none true ∷ before) after end c t =
    rw (run-timed_out n (before ++ polled (some end) c t ∷ after)) by_timer
IsLeft-from false n (polled none none false ∷ before) after end c t =
    IsLeft-from false n before after end c t

-- Whatever came before, and whatever is ready with it or after it: once the connection has ended,
-- the loop is left.
pub run-IsLeft :
    (before after : List Ready) (end : Closed) (changed : Option Bool) (ka_timeout : Bool)
    → IsLeft (run start (before ++ polled (some end) changed ka_timeout ∷ after)).drive
unfolding start
run-IsLeft before after end changed ka_timeout =
    IsLeft-from false 0 before after end changed ka_timeout
