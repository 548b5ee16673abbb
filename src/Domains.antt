-- ===== src/Domains.antt =====
-- domains/: the clients of the broker's services, and what they share.
pub mod Routes
pub mod Link
pub mod Queue
pub mod Subscriptions
pub mod Kv
pub mod Schedule
pub mod Lease
pub mod Rpc
pub mod Stream
pub mod Notice
