-- ===== src/Signatures/V1/Pairs.antt =====
-- signatures/hybrid.py: the key pairs of the halves, and `_verify_classical` on what `_sign_classical`
-- gives.
use quantum_safe_py.Prelude.{
  ℕ, ◌*◌, ◌≡◌, ◌≤◌, true, not, ◌∷◌, ◌++◌, Bytes, text, bytes_eq, length, take, drop, ltb, arith,
}
use quantum_safe_py.Outcome.{ok}
use quantum_safe_py.Wire.{be}
use quantum_safe_py.Signatures.V1.{
  DerEcdsa, SignatureEnv, msg_with_ctx, verify_der, sign_classical, verify_classical,
}

-- An elliptic-curve key pair of the `cryptography` package, the public key by its coordinates.
pub record IsDerPair (e : DerEcdsa) (coord : ℕ) (secret public : Bytes) : Type 0 where
  pub size : length public ≡ 2 * coord
  pub signs :
      (m : Bytes)
      → (sig : Bytes) × (e.sign secret m ≡ ok sig)
        × (e.verify (be (take coord public)) (be (drop coord public)) sig m ≡ true)
        × (length sig ≤ 65535)

pub record IsEd25519Pair (env : SignatureEnv) (secret public : Bytes) : Type 0 where
  pub signs :
      (m : Bytes)
      → (sig : Bytes) × (env.ed25519_sign secret m ≡ ok sig)
        × (env.ed25519_verify public sig m ≡ true)
        × (length sig ≤ 65535)

-- A classical key pair, of one of the three kinds.
pub data ClassicalPair (env : SignatureEnv) (classical secret public : Bytes) : Type 0 where
  ed25519 :
      classical ≡ text "Ed25519"
      → IsEd25519Pair env secret public
      → ClassicalPair env classical secret public
  p256 :
      classical ≡ text "P-256"
      → IsDerPair env.p256 32 secret public
      → ClassicalPair env classical secret public
  p384 :
      classical ≡ text "P-384"
      → IsDerPair env.p384 48 secret public
      → ClassicalPair env classical secret public

-- What the backend guarantees of a key pair, for contexts of 255 bytes at most.
pub record IsBackendPair (env : SignatureEnv) (name secret public : Bytes) : Type 0 where
  pub signs :
      (m context : Bytes)
      → length context ≤ 255
      → (sig : Bytes) × (env.backend.sign name secret m context ≡ ok sig)
        × (env.backend.verify name public m sig context ≡ ok true)
        × (length sig ≤ 65535)

der_verified :
    (e : DerEcdsa) (coord : ℕ) (public sig m : Bytes)
    → length public ≡ 2 * coord
    → e.verify (be (take coord public)) (be (drop coord public)) sig m ≡ true
    → verify_der e coord public sig m ≡ true
unfolding verify_der
der_verified e coord public sig m size valid = ground arith

module _ (env : SignatureEnv) where
  -- A classical half is made, and is verified.
  pub classical_signs :
      (classical secret public message context : Bytes)
      → ClassicalPair env classical secret public
      → length context ≤ 255
      → (sig : Bytes) × (sign_classical env classical secret message context ≡ ok sig)
        × (verify_classical env classical public message sig context ≡ ok true)
        × (length sig ≤ 65535)
  unfolding sign_classical verify_classical msg_with_ctx bytes_eq
  classical_signs classical secret public message context (ed25519 e pair) short =
      let (sig, signed, verified, len) = pair.signs (length context ∷ (context ++ message)) in
      let fits : not (ltb 255 (length context)) ≡ true = ground arith in
      (sig, rw (e, fits, signed), rw (e, fits, verified), len)
  classical_signs classical secret public message context (p256 e pair) short =
      let (sig, signed, verified, len) = pair.signs (length context ∷ (context ++ message)) in
      let fits : not (ltb 255 (length context)) ≡ true = ground arith in
      let valid = der_verified env.p256 32 public sig _ pair.size verified in
      (sig, rw (e, fits, signed), rw (e, fits, valid), len)
  classical_signs classical secret public message context (p384 e pair) short =
      let (sig, signed, verified, len) = pair.signs (length context ∷ (context ++ message)) in
      let fits : not (ltb 255 (length context)) ≡ true = ground arith in
      let valid = der_verified env.p384 48 public sig _ pair.size verified in
      (sig, rw (e, fits, signed), rw (e, fits, valid), len)
