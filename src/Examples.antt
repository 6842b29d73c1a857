-- ===== src/Examples.antt =====
-- The theorems at concrete inputs, with small functions in the place of the third-party code.
mod Functions
mod Codec
mod Trees
mod Streams
mod Kems
mod KeyFiles
mod Signing
mod Migrations
mod Lms
mod PlainKems
mod Envelopes
mod HybridSigning
