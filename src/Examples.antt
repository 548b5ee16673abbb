-- ===== src/Examples.antt =====
-- The theorems at concrete inputs.
mod Wire
mod Gates
mod Requests
mod Clients
mod Sessions
mod Services
mod Leases
mod Calls
