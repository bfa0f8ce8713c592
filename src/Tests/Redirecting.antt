-- ===== src/Tests/Redirecting.antt =====
-- The redirect server of src/server/mod.rs at concrete headers.
use multithreaded.Base.{◌≡◌, refl, true, false, none, some, ◌++◌, [], ◌∷◌}
use multithreaded.Base.Text.{bytes}
use multithreaded.Base.Decimal.{to_string}
use multithreaded.Server.Redirect.Listening.{polled, run_http_redirect}
use multithreaded.Server.Redirect.{
  ipv6, IsHost, print_host, port_suffix, redirect, bare_host, redirect-same_host, through_first,
  before_last,
}

brackets : bare_host (bytes "[::1]:8080") ≡ bytes "[::1]"
unfolding bare_host through_first bytes
brackets = refl

plain : bare_host (bytes "127.0.0.1:80") ≡ bytes "127.0.0.1"
unfolding bare_host before_last bytes
plain = refl

localhost : IsHost (ipv6 (bytes "::1"))
unfolding bytes
localhost = (refl, (refl, (refl, tt)))

redirect-same_host_example :
    redirect 8443
      (some (print_host (ipv6 (bytes "::1")) ++ port_suffix (some [])))
      (some (bytes "/a?b"))
    ≡ record {
      status = 308;
      location =
          bytes "https://"
          ++ ((print_host (ipv6 (bytes "::1")) ++ (b':' ∷ to_string 8443)) ++ bytes "/a?b");
      content_length = bytes "0";
    }
redirect-same_host_example =
    redirect-same_host 8443 (ipv6 (bytes "::1")) (some []) (bytes "/a?b") localhost tt

-- The connection that waits when the shutdown comes is not taken.
stops :
    run_http_redirect true (
      polled none (some true)
      ∷ polled none (some false)
      ∷ polled (some true) (some true)
      ∷ polled none (some true)
      ∷ [])
    ≡ record { running = false; spawned = 1 }
unfolding run_http_redirect
stops = refl
