-- ===== src/Server/Redirect/Listening.antt =====
-- src/server/mod.rs: the accept loop of the redirect server, `run_http_redirect`.
use multithreaded.Base.{
  ℕ, suc, ◌+◌, ◌≡◌, refl, ◌∙◌, ap, Bool, true, false, Option, none, some, List, [], ◌∷◌, ◌++◌,
  arith,
}

-- What is ready when `select!` polls: the shutdown channel with its value, and the listener with a
-- connection (`true`) or an error.
pub data Ready : Type 0 where
  polled : Option Bool → Option Bool → Ready

-- Whether the loop runs, and how many connections have been given a task.
pub record Listening : Type 0 where
  pub running : Bool
  pub spawned : ℕ

-- The branch on the channel comes first.
unfoldable pub poll : Ready → ℕ → Listening
poll (polled (some true) accepted) n = record { running = false; spawned = n }
poll (polled (some false) accepted) n = record { running = true; spawned = n }
poll (polled none (some true)) n = record { running = true; spawned = suc n }
poll (polled none (some false)) n = record { running = true; spawned = n }
poll (polled none none) n = record { running = true; spawned = n }

unfoldable pub rounds_from : Bool → ℕ → List Ready → Listening
unfolding poll
rounds_from running n [] = record { running = running; spawned = n }
rounds_from false n (ready ∷ rounds) = rounds_from false n rounds
rounds_from true n (ready ∷ rounds) =
    rounds_from (poll ready n).running (poll ready n).spawned rounds

-- An error of `bind` ends it before the loop.
unfoldable pub run_http_redirect : Bool → List Ready → Listening
unfolding rounds_from
run_http_redirect true rounds = rounds_from true 0 rounds
run_http_redirect false rounds = record { running = false; spawned = 0 }

-- The round takes a connection, or does nothing to the loop.
pub data IsRound : Ready → ℕ → Type 0 where
  connection : IsRound (polled none (some true)) 1
  nothing : IsRound (polled none none) 0
  accept_error : IsRound (polled none (some false)) 0
  unshut : {accepted : Option Bool} → IsRound (polled (some false) accepted) 0

-- Rounds, with the connections that they take.
pub data AreRounds : List Ready → ℕ → Type 0 where
  start : AreRounds [] 0
  next :
      {ready : Ready} {rounds : List Ready} {k n : ℕ}
      → IsRound ready k
      → AreRounds rounds n
      → AreRounds (ready ∷ rounds) (k + n)

rounds_from-stopped :
    (n : ℕ) (rounds : List Ready)
    → rounds_from false n rounds ≡ record { running = false; spawned = n }
unfolding rounds_from
rounds_from-stopped n [] = refl
rounds_from-stopped n (ready ∷ rounds) = rounds_from-stopped n rounds

stops_at :
    {a b : ℕ}
    → a ≡ b
    → ◌≡◌ {A = Listening}
        (record { running = false; spawned = a })
        (record { running = false; spawned = b })
stops_at e = ap (λ n. record { running = false; spawned = n }) e

rounds_from-shutdown :
    (m n : ℕ) (before after : List Ready) (accepted : Option Bool)
    → AreRounds before n
    → rounds_from true m (before ++ polled (some true) accepted ∷ after)
      ≡ record { running = false; spawned = m + n }
unfolding rounds_from poll
rounds_from-shutdown m _ [] after accepted start =
    rounds_from-stopped m after ∙ stops_at (omega arith)
rounds_from-shutdown m _ (_ ∷ before) after accepted (next {n = n} connection h) =
    rounds_from-shutdown (suc m) n before after accepted h ∙ stops_at (omega arith)
rounds_from-shutdown m _ (_ ∷ before) after accepted (next {n = n} nothing h) =
    rounds_from-shutdown m n before after accepted h ∙ stops_at (omega arith)
rounds_from-shutdown m _ (_ ∷ before) after accepted (next {n = n} accept_error h) =
    rounds_from-shutdown m n before after accepted h ∙ stops_at (omega arith)
rounds_from-shutdown m _ (_ ∷ before) after accepted (next {n = n} unshut h) =
    rounds_from-shutdown m n before after accepted h ∙ stops_at (omega arith)

-- Once the listener is bound, every connection that is accepted before the shutdown gets its task,
-- the shutdown ends the loop even if a connection is waiting in the same round, and none is accepted
-- after it.
pub run_http_redirect-shutdown :
    (n : ℕ) (before after : List Ready) (accepted : Option Bool)
    → AreRounds before n
    → run_http_redirect true (before ++ polled (some true) accepted ∷ after)
      ≡ record { running = false; spawned = n }
unfolding run_http_redirect
run_http_redirect-shutdown n before after accepted h =
    rounds_from-shutdown 0 n before after accepted h ∙ stops_at (omega arith)
