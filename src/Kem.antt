-- ===== src/Kem.antt =====
-- The key encapsulation layer: kem/algorithms.py, kem/hybrid.py, types/kem.py.
pub mod Algorithms
pub mod Types
pub mod Hybrid
pub mod XWing
pub mod Core
