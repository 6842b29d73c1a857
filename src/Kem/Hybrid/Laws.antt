-- ===== src/Kem/Hybrid/Laws.antt =====
-- What the hybrid KEM relies on in the third-party code.
use quantum_safe_py.Prelude.{ℕ, ◌+◌, ◌*◌, ◌^◌, ◌≤◌, ◌<◌, ◌≡◌, true, some, Bytes, length, take, drop}
use quantum_safe_py.Outcome.{ok}
use quantum_safe_py.Wire.{be}
use quantum_safe_py.Kem.Hybrid.{X25519, Curve, KemBackend, first_is}

-- What X25519 of the `cryptography` package guarantees: 32-byte keys, and one secret for both sides.
pub record IsX25519 (x : X25519) : Type 0 where
  pub length_private : (a : Bytes) → length (x.private a) ≡ 32
  pub length_public : (a : Bytes) → length (x.public a) ≡ 32
  pub agrees :
      (a b : Bytes)
      → (s : Bytes) × (x.exchange (x.private a) (x.public b) ≡ some s)
        × (x.exchange (x.private b) (x.public a) ≡ some s)

-- The same for ECDH on a curve with coordinates of `coord` bytes: a point is 0x04 and two
-- coordinates, and the secret is not shorter than a coordinate.
pub record IsCurve (coord : ℕ) (c : Curve) : Type 0 where
  pub length_private : (a : Bytes) → length (c.private a) < 2 ^ 16
  pub length_point : (a : Bytes) → length (c.point a) ≡ 1 + 2 * coord
  pub tag : (a : Bytes) → first_is 0x04 (c.point a) ≡ true
  pub agrees :
      (a b : Bytes)
      → (s : Bytes) × (c.exchange
            (c.private a)
            (be (take coord (drop 1 (c.point b))))
            (be (drop (1 + coord) (c.point b)))
          ≡ some s)
        × (c.exchange
              (c.private b)
              (be (take coord (drop 1 (c.point a))))
              (be (drop (1 + coord) (c.point a)))
            ≡ some s)
        × (coord ≤ length s)

-- A backend's KEM is correct: what it encapsulates to a key of its own is decapsulated to the same.
pub record IsBackend (b : KemBackend) (name : Bytes) : Type 0 where
  pub agrees :
      (s t : Bytes)
      → (ct : Bytes) × (ss : Bytes) × (b.encapsulate name t (b.keygen name s).0 ≡ ok (ct, ss))
        × (b.decapsulate name (b.keygen name s).1 ct ≡ ok ss)
        × (0 < length ct)
