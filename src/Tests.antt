-- ===== src/Tests.antt =====
-- The samples, and each theorem at one of them.
mod Samples
mod Locks
mod Stores
mod Bundles
mod Engines
mod Entries
mod Servers
mod Requests
mod Endpoints
