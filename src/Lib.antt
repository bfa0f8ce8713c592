-- ===== src/Lib.antt =====
-- A model of the web server, with the theorems that its parts rest on. All paths are from the
-- repository's root; the code is under src/.
--
-- A connection that the accept loop admits is served by a stack of services: logging, the rate
-- limiter, the concurrency limiter, and innermost the service that collects the body, dispatches
-- to a route's handler under a timeout and keeps the counters. Handlers build their answers with
-- the response builder. On shutdown the accept loop stops and drains the connections.
--
--   Base: texts as lists of UTF-8 bytes, association lists, decimal numbers, Boolean tests.
--   Http/Request, Http/Response, Http/Router: src/http/request.rs (`HttpRequest`,
--     `percent_decode` and the parameters), src/http/response.rs (`ResponseBuilder`),
--     src/http/router.rs (`Router`, `RouteEntry::match_path`, `parse_pattern`).
--   Middleware/RateLimiter: src/middleware/rate_limiter.rs (`TokenBucket`, `RateLimiter`,
--     `RateLimiterService::call`). Middleware/Concurrency: src/middleware/concurrency.rs.
--   Config: src/config.rs (`ServerConfig::from_env` and the IP filter). Metrics: src/metrics.rs.
--   Server/Accept, Server/Drain: `Server::accept_loop` in src/server/mod.rs, its loop and what
--     follows it. Server/Connection: the service `inner` of `handle_connection` in
--     src/server/connection.rs. Server/Fibonacci: `fib` there. Server/Redirect:
--     `run_http_redirect` and `serve_redirect_connection` in src/server/mod.rs. Server/Startup:
--     `Server::run` there, up to the loop, with Tls: src/tls/acceptor.rs; Server/Run: the future
--     of the shutdown, and the start, the loop and the drain together.
--   Main: src/main.rs, over Config, Server/Run and Templates, and src/bin/password_hash.rs.
--   StaticFiles: src/static_files/mod.rs (`serve_file`, `sanitize_path`); StaticFiles/Path: the
--     paths of the standard library; StaticFiles/Mime: src/static_files/mime.rs.
--   Session: src/session/mod.rs (`SessionStore`, `extract_session_cookie`).
--   Database/Pool: src/db/pool.rs. Database/Users, Database/Items: the accounts and the items of
--     src/db/models.rs. Server/Api: the JSON routes on items of `build_router` in
--     src/server/connection.rs, with Middleware/Auth: src/middleware/auth.rs.
--   Server/Application, Server/Routes, Server/Pages: `AppState`, the handlers and the table of
--     routes of `build_router` in src/server/connection.rs; Server/Task: src/server/task.rs.
--     Server/Stack: the services that `handle_connection` composes there; Server/Driving: the
--     loop that follows.
--   Server/Program: what a handler awaits, as steps on the shared state. Server/Futures: the
--     handlers and the operations of the session store and the tables once more, with one step
--     for each SQL statement. Server/Interleaving: any number of requests that take turns at
--     their statements, with a request dropped by its timeout or the end of its connection.
--   Middleware/Logging: src/middleware/logging.rs. Templates: src/templates/mod.rs. Proxy:
--     src/proxy/mod.rs.
--   Tests: runs, and instances of the theorems, at concrete inputs.
--
-- State is passed explicitly. What runs concurrently is a list of steps, in any order: the
-- arrivals and ends of requests (Concurrency), the connections and ends of tasks (Accept), the
-- entry and the end of requests (Connection), the arrivals, statements and cancellations of
-- requests (Interleaving). The modules of Server/Pages, Server/Api and Server/Routes run a
-- handler to its end at once; those of Server/Futures statement by statement. A request reads the
-- clock and the metrics once, and a handler that executes no statement is one step. A step may
-- move several atomic counters, which the code moves one after the other; no code reads two of
-- them to decide.
--
-- Code outside the repository is a parameter: tokio's semaphore (Middleware/Semaphore) and notify
-- (Server/Notify) with their documented behaviour as laws, the verdict of the http crate on a
-- list of headers (`HttpLib` of Http/Response), the address parsers and the CPU count of the
-- standard library (`Host` of Config), its UTF-8 (`Utf8Lib` of Http/Request) and its `f64`
-- (`F64Lib` of Base/Float, with laws of IEEE 754), the file system (`FileSystem` of StaticFiles),
-- the four SQL statements on the table of sessions (`SessionsTable` of Session) and those on the
-- tables of users and items (`UsersTable` of Database/Users, `ItemsTable` of Database/Items),
-- each of which may fail, argon2 (`Argon2Lib` of Database/Users), jsonwebtoken (`JwtLib` of
-- Middleware/Auth), the JSON texts of serde_json (`JsonLib` of Server/Api), tera (`TeraLib` and
-- `TemplateLib` of Templates), the builder of tokio's runtime (`RuntimeLib` of Main),
-- percent_encoding (`PercentLib` of Server/Pages/Forms), reqwest and the upstream (`ProxyLib` of
-- Proxy, `builds_client` of Server/Startup), which texts are header values (`HeaderValueLib` of
-- Middleware/Logging), the files and rustls (`TlsLib` of Tls), and the pools of sqlx (`SqlLib` of
-- Database/Pool). New identifiers, the clock, and how a closure ends on the blocking pool are
-- arguments.
--
-- Counters of 64 bits wrap: `% 2 ^ 64` is written out. A limit on connections is a usize, which
-- the theorems on the accept loop ask of it. `to_string` runs on fuel `n + 1`, which suffices
-- since every round divides the number by 10. In the drain the number of tasks that end in each
-- phase is an argument, so that each run is finite; no other loop needs fuel.
--
-- Not modelled: logging output, the TLS handshake, the sockets, and module lists and re-exports.
mod Base
pub mod Http
pub mod Middleware
pub mod Config
pub mod Metrics
pub mod Server
pub mod StaticFiles
pub mod Session
pub mod Database
pub mod Templates
pub mod Proxy
pub mod Tls
pub mod Main
mod Tests
