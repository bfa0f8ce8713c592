-- ===== src/Tests.antt =====
-- Runs at concrete inputs, and an instance of each theorem where its hypotheses hold.
mod Routing
mod Limits
mod Running
mod Serving
mod Loading
mod Files
mod Parsing
mod Sessions
mod Redirecting
mod Accounts
mod Administration
mod Application
mod Driving
mod Starting
mod Login
mod Interleaving
mod Programs
