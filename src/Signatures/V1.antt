-- ===== src/Signatures/V1.antt =====
-- signatures/hybrid.py: `HybridSign.sign` and `HybridSign.verify` in the original format and in format
-- v2; signatures/core.py: what they use of `Sign`. The `cryptography` package, cbor2 and the backend are
-- parameters, and random bytes and the time are arguments. Warnings change no result, and are left out.
pub mod Accepted
pub mod Pairs
pub mod Signing
use quantum_safe_py.Prelude.{
  ℕ, ◌*◌, Bool, true, false, not, Option, none, some, [], ◌∷◌, ◌++◌, Bytes, text, bytes_eq, length,
  take, drop, ltb, ◌==◌, ◌&&◌, if◌then◌else◌,
}
use quantum_safe_py.Outcome.{
  Result, ok, err, value_error, unsupported_algorithm, verification_error, ◌>>=◌, ◌>>◌, require,
  or_raise,
}
use quantum_safe_py.Wire.{be}
use quantum_safe_py.Cbor.{Cbor2}
use quantum_safe_py.Keys.{PublicKey, SecretKey}
use quantum_safe_py.Signatures.Messages.{
  SignedMessage, signed_message, hybrid_to_bytes, hybrid_from_bytes,
}
use quantum_safe_py.Signatures.V2.{Signer, MlDsa, unpack_components}
use quantum_safe_py.Signatures.V2

-- `Sign._pack_sig_blob`
unfoldable pub pack_sig_blob : Bytes → Bytes → Result Bytes
pack_sig_blob prefix sig = do
  require (not (ltb 255 (length prefix))) value_error
  ok (length prefix ∷ (prefix ++ sig))

-- `Sign._unpack_sig_blob`
unfoldable pub unpack_sig_blob : Bytes → ℕ → Result (Bytes × Bytes)
unpack_sig_blob [] expected = err verification_error
unpack_sig_blob (n ∷ rest) expected = do
  require (n == expected && not (ltb (length rest) n)) verification_error
  ok (take n rest, drop n rest)

-- ECDSA of the `cryptography` package with one curve and hash, on a PEM key, with a DER signature.
-- Verifying is false where the package raises.
pub record DerEcdsa : Type 0 where
  pub sign : Bytes → Bytes → Result Bytes
  pub verify : ℕ → ℕ → Bytes → Bytes → Bool

-- The third-party code: `sign` and `verify` of the signature backend take the algorithm, the key, the
-- message, the signature when verifying, and the context.
pub record SignatureEnv : Type 0 where
  pub cbor : Cbor2
  pub ed25519_sign : Bytes → Bytes → Result Bytes
  pub ed25519_verify : Bytes → Bytes → Bytes → Bool
  pub p256 : DerEcdsa
  pub p384 : DerEcdsa
  pub backend : MlDsa
  pub v2_signer : Signer
  pub v2_backend : MlDsa

-- The attributes of `HybridSign`; `is_v2` is `_v2`.
pub record HybridSign : Type 0 where
  pub classical : Bytes
  pub pqc : Bytes
  pub algorithm : Bytes
  pub hedged : Bool
  pub is_v2 : Bool

abbrev pub hedged_randomness_bytes : ℕ
hedged_randomness_bytes = 32

-- `bytes([len(context)]) + context + message`
unfoldable pub msg_with_ctx : Bytes → Bytes → Result Bytes
msg_with_ctx context message = do
  require (not (ltb 255 (length context))) value_error
  ok (length context ∷ (context ++ message))

-- `_unpack_components`
unfoldable pub split_key : Bytes → Result (Bytes × Bytes)
split_key d = or_raise (unpack_components d) verification_error

-- `_verify_classical` for an elliptic curve.
unfoldable pub verify_der : DerEcdsa → ℕ → Bytes → Bytes → Bytes → Bool
verify_der e coord public sig d =
    if not (length public == 2 * coord)
    then false
    else e.verify (be (take coord public)) (be (drop coord public)) sig d

-- `check_expected_context`
unfoldable pub check_expected_context : Bytes → Option Bytes → Result (Unit {0})
check_expected_context context none = require (bytes_eq context []) verification_error
check_expected_context context (some expected) =
    require (bytes_eq context expected) verification_error

module _ (env : SignatureEnv) where
  -- `_sign_classical`
  unfoldable pub sign_classical : Bytes → Bytes → Bytes → Bytes → Result Bytes
  sign_classical classical secret message context =
      if bytes_eq classical (text "Ed25519")
      then (do m ← msg_with_ctx context message; env.ed25519_sign secret m)
      else if bytes_eq classical (text "P-256")
      then (do m ← msg_with_ctx context message; env.p256.sign secret m)
      else if bytes_eq classical (text "P-384")
      then (do m ← msg_with_ctx context message; env.p384.sign secret m)
      else err unsupported_algorithm

  -- `_verify_classical`
  unfoldable pub verify_classical : Bytes → Bytes → Bytes → Bytes → Bytes → Result Bool
  verify_classical classical public message sig context = do
    m ← msg_with_ctx context message
    ok (
        if bytes_eq classical (text "Ed25519")
        then env.ed25519_verify public sig m
        else if bytes_eq classical (text "P-256")
        then verify_der env.p256 32 public sig m
        else if bytes_eq classical (text "P-384")
        then verify_der env.p384 48 public sig m
        else false)

  -- The signature that `sign` makes in the original format; `draw` is what `os.urandom` gives.
  unfoldable pub sign_v1 : HybridSign → Bytes → Bytes → Bytes → Bytes → Result Bytes
  sign_v1 h draw secret message context = do
    (c_sec, p_sec) ← split_key secret
    let prefix = if h.hedged then draw else []
    classical_sig ← sign_classical h.classical c_sec (prefix ++ message) context
    pqc_sig ← env.backend.sign h.pqc p_sec (prefix ++ message) context
    pack_sig_blob prefix (
        hybrid_to_bytes env.cbor (record {
          classical_sig = classical_sig;
          pqc_sig = pqc_sig;
          classical_algo = h.classical;
          pqc_algo = h.pqc;
        }))

  -- `HybridSign.sign`
  unfoldable pub sign_message :
      HybridSign → Bytes → Bytes → Bytes → SecretKey → Bytes → Result SignedMessage
  sign_message h draw now message sk context = do
    require (bytes_eq sk.algorithm h.algorithm) unsupported_algorithm
    require (not (ltb 255 (length context))) value_error
    blob ←
        if h.is_v2
        then V2.sign env.v2_signer env.v2_backend h.algorithm sk.raw message context
        else sign_v1 h draw sk.raw message context
    signed_message (record {
      message = message;
      signature = blob;
      algorithm = h.algorithm;
      context = context;
      signer_fingerprint = [];
      signed_at = now;
      is_hybrid = true;
    })

  -- What `verify` does in the original format: both halves are checked before the result is combined.
  unfoldable pub verify_v1 : HybridSign → Bytes → Bytes → Bytes → Bytes → Result (Unit {0})
  verify_v1 h public message blob context = do
    (c_pub, p_pub) ← split_key public
    (prefix, payload) ← unpack_sig_blob blob (if h.hedged then hedged_randomness_bytes else 0)
    hs ← or_raise (hybrid_from_bytes env.cbor payload) verification_error
    require (bytes_eq hs.classical_algo h.classical && bytes_eq hs.pqc_algo h.pqc)
        verification_error
    classical_ok ← verify_classical h.classical c_pub (prefix ++ message) hs.classical_sig context
    pqc_ok ← env.backend.verify h.pqc p_pub (prefix ++ message) hs.pqc_sig context
    require (classical_ok && pqc_ok) verification_error

  -- `HybridSign.verify`; `expected` is its argument `context`.
  unfoldable pub verify_message :
      HybridSign → SignedMessage → PublicKey → Option Bytes → Result (Unit {0})
  verify_message h m pk expected = do
    check_expected_context m.context expected
    require (bytes_eq m.algorithm h.algorithm) unsupported_algorithm
    require (bytes_eq pk.algorithm h.algorithm) unsupported_algorithm
    if h.is_v2
        then V2.verify env.v2_signer env.v2_backend h.algorithm pk.raw m.message m.signature
            m.context
        else verify_v1 h pk.raw m.message m.signature m.context
