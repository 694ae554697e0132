-- ===== src/Engine.antt =====
-- src/python/hypervec_server_engine.py: the collections of a server.
pub mod Server
pub mod Schema
pub mod IndexConfig
pub mod State
pub mod Lifecycle
pub mod Insert
pub mod Flush
pub mod Filter
pub mod Search
pub mod Upload
pub mod Export
pub mod Import
pub mod Recover
pub mod Purge
pub mod Answer
