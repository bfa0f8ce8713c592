-- ===== src/Metrics.antt =====
-- src/metrics.rs. The counters are u64 and wrap.
use multithreaded.Base.{ℕ, ◌+◌, ◌-◌, ◌%◌, ◌^◌, ◌++◌}
use multithreaded.Base.Text.{Str, bytes}
use multithreaded.Base.Decimal.{to_string}

pub record Metrics : Type 0 where
  pub requests_total : ℕ
  pub requests_active : ℕ
  pub responses_2xx : ℕ
  pub responses_4xx : ℕ
  pub responses_5xx : ℕ
  pub rate_limited : ℕ
  pub concurrency_limited : ℕ
  pub timed_out : ℕ
  pub connections_accepted : ℕ
  pub connections_rejected_ip : ℕ

abbrev pub new : Metrics
new = record {
  requests_total = 0;
  requests_active = 0;
  responses_2xx = 0;
  responses_4xx = 0;
  responses_5xx = 0;
  rate_limited = 0;
  concurrency_limited = 0;
  timed_out = 0;
  connections_accepted = 0;
  connections_rejected_ip = 0;
}

-- `fetch_add(1)` and `fetch_sub(1)`.
abbrev pub up : ℕ → ℕ
up n = (n + 1) % 2 ^ 64

abbrev pub down : ℕ → ℕ
down n = (n + (2 ^ 64 - 1)) % 2 ^ 64

-- What is written before the value: the two comment lines and the name.
gauge : Str → Str → ℕ → Str
gauge name help value =
    bytes "# HELP "
    ++ (name
        ++ (bytes " "
            ++ (help
                ++ (bytes "\n# TYPE "
                    ++ (name
                        ++ (bytes " gauge\n"
                            ++ (name ++ (bytes " " ++ (to_string value ++ bytes "\n")))))))))

counter : Str → Str → ℕ → Str
counter name help value =
    bytes "# HELP "
    ++ (name
        ++ (bytes " "
            ++ (help
                ++ (bytes "\n# TYPE "
                    ++ (name
                        ++ (bytes " counter\n"
                            ++ (name ++ (bytes "_total " ++ (to_string value ++ bytes "\n")))))))))

unfoldable pub render : Metrics → Str
unfolding gauge counter
render m =
    counter (bytes "requests") (bytes "Total HTTP requests received.") m.requests_total
    ++ (gauge (bytes "requests_active") (bytes "HTTP requests currently in-flight.")
          m.requests_active
        ++ (counter (bytes "responses_2xx") (bytes "Responses with a 2xx status code.")
              m.responses_2xx
            ++ (counter (bytes "responses_4xx") (bytes "Responses with a 4xx status code.")
                  m.responses_4xx
                ++ (counter (bytes "responses_5xx") (bytes "Responses with a 5xx status code.")
                      m.responses_5xx
                    ++ (counter (bytes "rate_limited")
                          (bytes "Requests rejected by the rate limiter (429).") m.rate_limited
                        ++ (counter (bytes "concurrency_limited")
                              (bytes "Requests rejected by the concurrency limiter (503).")
                              m.concurrency_limited
                            ++ (counter (bytes "timed_out")
                                  (bytes
                                    "Requests that exceeded the per-request processing timeout.")
                                  m.timed_out
                                ++ (counter (bytes "connections_accepted")
                                      (bytes "Total TCP connections accepted.")
                                      m.connections_accepted
                                    ++ counter (bytes "connections_rejected_ip")
                                        (bytes "Connections dropped by the IP filter.")
                                        m.connections_rejected_ip))))))))
