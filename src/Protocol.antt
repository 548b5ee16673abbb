-- ===== src/Protocol.antt =====
-- The wire protocol: the files of protocol/.
pub mod Buffer
pub mod Frame
pub mod Response
pub mod Extensions
pub mod Messages
