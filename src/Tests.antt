-- ===== src/Tests.antt =====
-- Runs of the definitions at concrete inputs, and the theorems applied there.
mod Strings
mod Configs
mod Requests
mod Answers
mod Transfers
mod Parts
mod Users
mod Proxied
mod Commands
mod Sessions
mod Failures
mod Listings
mod Serving
mod Startup
mod Threads
mod Clients
