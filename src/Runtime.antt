-- ===== src/Runtime.antt =====
-- _runtime.py: the bounded primitives that the connection and the domains share.
pub mod Gate
pub mod Subscription
pub mod Dispatcher
pub mod Lazy
