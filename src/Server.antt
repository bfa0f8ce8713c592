-- ===== src/Server.antt =====
-- src/server: the accept loop, the connections and the handlers.
pub mod Notify
pub mod Accept
pub mod Drain
pub mod Connection
pub mod Fibonacci
pub mod Redirect
pub mod Api
pub mod Task
pub mod Application
pub mod Stack
pub mod Driving
pub mod Startup
pub mod Run
pub mod Routes
pub mod Program
pub mod Futures
pub mod Interleaving
pub mod Pages
