-- ===== src/Signatures.antt =====
-- The signature formats of signatures/.
pub mod Messages
pub mod V2
pub mod V1
pub mod Lms
