-- ===== src/Stream.antt =====
-- protocols/stream.py: the streaming envelope (format v3).
pub mod RoundTrip
pub mod HybridKeys
pub mod PlainKeys
pub mod Integrity
pub mod Format
pub mod Cipher
pub mod Generator
pub mod Reader
pub mod Seal
pub mod Open
