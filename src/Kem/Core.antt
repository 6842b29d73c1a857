-- ===== src/Kem/Core.antt =====
-- kem/core.py: the class `KEM`, one post-quantum algorithm over a backend. The warnings of a `KEM`
-- that is not strict change no result, and are left out, and so is the choice of the backend.
pub mod Agreement
use quantum_safe_py.Prelude.{ℕ, Bool, true, false, not, Bytes, bytes_eq, take, ltb, ◌||◌, ◌&&◌}
use quantum_safe_py.Outcome.{
  Result, ok, err, unsupported_algorithm, insecure_operation, ◌>>=◌, ◌>>◌, require,
}
use quantum_safe_py.Keys.{PublicKey, SecretKey, pqc_only, public_key, secret_key}
use quantum_safe_py.Keys.Serialization.{KeyPair, key_pair}
use quantum_safe_py.Kem.Algorithms.{KemAlgorithmSpec, get_algorithm_spec}
use quantum_safe_py.Kem.Types.{SharedSecret, shared_secret, CipherText, cipher_text}
use quantum_safe_py.Kem.Hybrid.{KemBackend}

abbrev pub minimum_nist_level : ℕ
minimum_nist_level = 1

pub record PlainKem : Type 0 where
  pub algorithm : Bytes
  pub strict : Bool
  pub spec : KemAlgorithmSpec

-- `KEM(algorithm, strict=strict)`
unfoldable pub plain_kem : Bytes → Bool → Result PlainKem
plain_kem algorithm strict = do
  spec ← get_algorithm_spec algorithm
  require (not (ltb spec.nist_level minimum_nist_level) || not strict) insecure_operation
  require (spec.is_nist_standard || not strict) insecure_operation
  ok (record { algorithm = algorithm; strict = strict; spec = spec })

module _ (b : KemBackend) where
  unfoldable pub generate_plain : PlainKem → Bytes → Result KeyPair
  generate_plain k seed = do
    public ← public_key (b.keygen k.algorithm seed).0 k.algorithm pqc_only b.name
    secret ← secret_key (b.keygen k.algorithm seed).1 k.algorithm pqc_only b.name
    key_pair public secret

  unfoldable pub encapsulate_plain :
      PlainKem → Bytes → PublicKey → Result (CipherText × SharedSecret)
  encapsulate_plain k seed public = do
    require (bytes_eq public.algorithm k.algorithm) unsupported_algorithm
    (ct_bytes, ss_bytes) ← b.encapsulate k.algorithm seed public.raw
    ct ← cipher_text ct_bytes k.algorithm
    ss ← shared_secret (take 32 ss_bytes) k.algorithm false
    ok (ct, ss)

  unfoldable pub decapsulate_plain : PlainKem → SecretKey → CipherText → Result SharedSecret
  decapsulate_plain k secret ciphertext = do
    require (bytes_eq secret.algorithm k.algorithm) unsupported_algorithm
    ss_bytes ← b.decapsulate k.algorithm secret.raw ciphertext.content
    shared_secret (take 32 ss_bytes) k.algorithm false
