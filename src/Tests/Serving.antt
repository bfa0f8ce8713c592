-- ===== src/Tests/Serving.antt =====
-- src/server/connection.rs at concrete requests.
use multithreaded.Base.{ℕ, ◌+◌, ◌%◌, ◌≡◌, refl, true, none, some, List, [], ◌∷◌}
use multithreaded.Base.Text.{bytes}
use multithreaded.Http.Request.{HttpRequest}
use multithreaded.Http.Response.{HttpLib, text, ok}
use multithreaded.Metrics.{Metrics}
use multithreaded.Metrics as Metrics
use multithreaded.Server.Connection.{Timed, inner}
use multithreaded.Server.Connection.Effect.{
  Event, start, refuse, abandon, answer, apply_all, Ends, inner-Ends,
}
use multithreaded.Server.Connection.Accounting.{
  Accounts, starts, refusals, abandoned, answered, modulus, apply_all-Accounts,
  requests_active_leaks,
}

instance abbrev lenient : HttpLib
lenient = record { accepts = λ _. true }

-- The dispatch counts its calls.
abbrev echo : Timed ℕ
echo req m calls = (some (text ok req.body), calls + 1)

abbrev request : HttpRequest
request = record {
  method = bytes "POST";
  path = bytes "/echo";
  query = none;
  headers = λ name. none;
  entries = [];
  body = [];
  path_params = [];
}

inner-Ends_example :
    Ends 10 echo
      (some (bytes "hello"))
      request
      Metrics.new
      0
      (inner 10 echo (some (bytes "hello")) request Metrics.new 0)
inner-Ends_example = inner-Ends 10 echo (some (bytes "hello")) request Metrics.new 0

abbrev events : List Event
events =
    start ∷ start ∷ start ∷ refuse ∷ abandon ∷ answer (some (text ok [])) ∷ start ∷ answer none ∷ []

apply_all-Accounts_example :
    Accounts Metrics.new (apply_all Metrics.new events) (starts events) (answered events)
apply_all-Accounts_example = apply_all-Accounts Metrics.new events

requests_active_leaks_example :
    (apply_all Metrics.new events).requests_active % modulus
    ≡ (refusals events + abandoned events) % modulus
requests_active_leaks_example = requests_active_leaks events refl
