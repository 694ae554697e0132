-- ===== src/Client.antt =====
-- The client library, pyhypervec/pyhypervec.
pub mod Calls
pub mod Rest
pub mod Paths
pub mod Sent
pub mod Routing
pub mod Stub
pub mod Agreement
pub mod Downloads
pub mod Reach
pub mod Url
pub mod Uri
pub mod Schema
pub mod Target
pub mod Http2
