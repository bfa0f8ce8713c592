-- ===== src/Server/Redirect.antt =====
-- src/server/mod.rs: the answer of the redirect server, `serve_redirect_connection`.
pub mod Listening
use multithreaded.Base.{
  ℕ, ◌≡◌, refl, Bool, false, Option, none, some, [], ◌∷◌, ◌++◌, if◌then◌else◌, ◌==◌, arith,
  Bool-cases, inl, inr, append_assoc, append-nil,
}
use multithreaded.Base.Text.{Str, bytes, Avoids}
use multithreaded.Base.Decimal.{to_string}

-- `find(c)`, and the text up to that character and with it.
unfoldable pub through_first : ℕ → Str → Option Str
through_first c [] = none
through_first c (x ∷ s) =
    let rest = through_first c s in
    if x == c then some (x ∷ []) else elim rest [ none ↦ none | some p ↦ some (x ∷ p) ]

-- `rfind(c)`, and the text before that character.
unfoldable pub before_last : ℕ → Str → Option Str
before_last c [] = none
before_last c (x ∷ s) =
    let rest = before_last c s in
    elim rest [ some p ↦ some (x ∷ p) | none ↦ if x == c then some [] else none ]

abbrev pub starts_with : ℕ → Str → Bool
starts_with c [] = false
starts_with c (x ∷ s) = x == c

abbrev unwrap_or : Option Str → Str → Str
unwrap_or none d = d
unwrap_or (some s) d = s

unfoldable pub bare_host : Str → Str
unfolding through_first before_last
bare_host host =
    if starts_with b'[' host
    then unwrap_or (through_first b']' host) host
    else unwrap_or (before_last b':' host) host

unfoldable pub location : ℕ → Str → Str → Str
location https_port bare path_and_query =
    if https_port == 443
    then bytes "https://" ++ (bare ++ path_and_query)
    else bytes "https://" ++ (bare ++ (bytes ":" ++ (to_string https_port ++ path_and_query)))

-- The status, the `Location` and the `Content-Length`.
pub record Redirect : Type 0 where
  pub status : ℕ
  pub location : Str
  pub content_length : Str

-- `host` is the value of the header where it is text.
unfoldable pub redirect : ℕ → Option Str → Option Str → Redirect
unfolding bare_host location
redirect https_port host path_and_query = record {
  status = 308;
  location =
      location https_port (bare_host (unwrap_or host (bytes "localhost")))
        (unwrap_or path_and_query (bytes "/"));
  content_length = bytes "0";
}

-- A host as a client writes it: a name or an IPv4 address, or an IPv6 literal in brackets.
pub data Host : Type 0 where
  name ipv6 : Str → Host

unfoldable pub print_host : Host → Str
print_host (name s) = s
print_host (ipv6 s) = b'[' ∷ (s ++ b']' ∷ [])

abbrev pub IsHost : Host → Type 0
IsHost (name s) = Avoids b':' s × (starts_with b'[' s ≡ false)
IsHost (ipv6 s) = Avoids b']' s

-- The port behind it, if there is one, is not read by the code.
abbrev pub port_suffix : Option Str → Str
port_suffix none = []
port_suffix (some port) = b':' ∷ port

abbrev pub IsPort : Option Str → Type 0
IsPort none = Unit
IsPort (some port) = Avoids b':' port

through_first-append :
    (c : ℕ) (s rest : Str) → Avoids c s → through_first c (s ++ (c ∷ rest)) ≡ some (s ++ c ∷ [])
unfolding through_first
through_first-append c [] rest h = ground arith
through_first-append c (x ∷ s) rest h = rw (through_first-append c s rest h.1, h.0) refl

before_last-none : (c : ℕ) (s : Str) → Avoids c s → before_last c s ≡ none
unfolding before_last
before_last-none c [] h = refl
before_last-none c (x ∷ s) h = rw (before_last-none c s h.1, h.0) refl

before_last-append :
    (c : ℕ) (s port : Str) → Avoids c port → before_last c (s ++ (c ∷ port)) ≡ some s
unfolding before_last
before_last-append c [] port h = ground (arith, before_last-none c port h)
before_last-append c (x ∷ s) port h = rw (before_last-append c s port h) refl

starts-append :
    (s : Str) (port : Str)
    → starts_with b'[' s ≡ false
    → starts_with b'[' (s ++ (b':' ∷ port)) ≡ false
starts-append [] port h = refl
starts-append (x ∷ s) port h = h

bare_host-print_host :
    (h : Host) (port : Option Str)
    → IsHost h
    → IsPort port
    → bare_host (print_host h ++ port_suffix port) ≡ print_host h
unfolding bare_host print_host
bare_host-print_host (name s) none (a, b) p =
    rw (append-nil s, b, before_last-none b':' s a, bare_host) refl
bare_host-print_host (name s) (some port) (a, b) p =
    rw (starts-append s port b, before_last-append b':' s port p, bare_host) refl
bare_host-print_host (ipv6 s) port a p =
    rw
      (
        append_assoc s (b']' ∷ []) (port_suffix port),
        through_first-append b']' s (port_suffix port) a,
      )
      refl

-- Whatever port the `Host` header names, if any, a request is sent on to the same host and the same
-- path and query over https, with the https port written out unless it is 443.
pub redirect-same_host :
    (https_port : ℕ) (h : Host) (port : Option Str) (path_and_query : Str)
    → IsHost h
    → IsPort port
    → let authority =
        if https_port == 443 then print_host h else print_host h ++ (b':' ∷ to_string https_port) in
      redirect https_port (some (print_host h ++ port_suffix port)) (some path_and_query) ≡ record {
        status = 308;
        location = bytes "https://" ++ (authority ++ path_and_query);
        content_length = bytes "0";
      }
unfolding redirect location bytes
redirect-same_host https_port h port path_and_query a p =
    rw (bare_host-print_host h port a p) (elim (Bool-cases (https_port == 443)) [
      | inl e ↦ rw e refl
      | inr e ↦
          rw (e, append_assoc (print_host h) (b':' ∷ to_string https_port) path_and_query) refl
    ])
