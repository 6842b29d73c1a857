-- ===== src/Kem/XWing.antt =====
-- kem/xwing.py: X-Wing, ML-KEM-768 with X25519 under a SHA3-256 combiner. SHAKE-256, SHA3-256 and
-- X25519 are third-party code: the record `XWingPrimitives`; the post-quantum backend is `KemBackend`.
-- Where the code draws random bytes the model takes them as an argument.
pub mod Agreement
use quantum_safe_py.Prelude.{
  ℕ, zero, suc, Bool, true, false, Option, none, some, [], ◌∷◌, ◌++◌, Bytes, text, bytes_eq, length,
  take, drop, ◌==◌,
}
use quantum_safe_py.Outcome.{
  Result, ok, err, value_error, unsupported_algorithm, ◌>>=◌, ◌>>◌, require,
}
use quantum_safe_py.Keys.{PublicKey, SecretKey, hybrid_transition, public_key, secret_key}
use quantum_safe_py.Keys.Serialization.{KeyPair, key_pair}
use quantum_safe_py.Kem.Types.{SharedSecret, shared_secret, CipherText, cipher_text}
use quantum_safe_py.Kem.Hybrid.{KemBackend}

-- `x25519_generate` is the private key for a seed. `x25519_public` and `x25519_exchange` are what the
-- package gives for a private key in bytes, and `x25519_exchange` is `none` where it raises `ValueError`.
pub record XWingPrimitives : Type 0 where
  pub shake_256 : Bytes → ℕ → Bytes
  pub sha3_256 : Bytes → Bytes
  pub x25519_generate : Bytes → Bytes
  pub x25519_public : Bytes → Result Bytes
  pub x25519_exchange : Bytes → Bytes → Option Bytes
  pub backend : KemBackend

abbrev pub xwing : Bytes
xwing = text "X-Wing"

abbrev pub public_key_bytes : ℕ
public_key_bytes = 1216

abbrev pub secret_key_bytes : ℕ
secret_key_bytes = 32

abbrev pub ciphertext_bytes : ℕ
ciphertext_bytes = 1120

abbrev pub mlkem : Bytes
mlkem = text "ML-KEM-768"

abbrev pub mlkem_pk : ℕ
mlkem_pk = 1184

abbrev pub mlkem_ct : ℕ
mlkem_ct = 1088

abbrev pub xwing_label : Bytes
xwing_label = 0x5C ∷ 0x2E ∷ 0x2F ∷ 0x2F ∷ 0x5E ∷ 0x5C ∷ []

-- `bytes(n)`
unfoldable pub zero_bytes : ℕ → Bytes
zero_bytes zero = []
zero_bytes (suc n) = 0 ∷ zero_bytes n

abbrev pub or_zeros : Option Bytes → Bytes
or_zeros none = zero_bytes 32
or_zeros (some s) = s

module _ (p : XWingPrimitives) where
  unfoldable pub expand : Bytes → Bytes × Bytes
  expand seed = (take 64 (p.shake_256 seed 96), take 32 (drop 64 (p.shake_256 seed 96)))

  unfoldable pub exchange_or_zeros : Bytes → Bytes → Bytes
  exchange_or_zeros secret peer_public = or_zeros (p.x25519_exchange secret peer_public)

  unfoldable pub combine : Bytes → Bytes → Bytes → Bytes → Bytes
  combine ss_m ss_x ct_x pk_x = p.sha3_256 (ss_m ++ (ss_x ++ (ct_x ++ (pk_x ++ xwing_label))))

  unfoldable pub keypair_from_seed : Bytes → Result KeyPair
  keypair_from_seed seed = do
    require (length seed == secret_key_bytes) value_error
    (pk_m, sk_m) ← p.backend.keygen_from_seed mlkem (expand seed).0
    pk_x ← p.x25519_public (expand seed).1
    public ← public_key (pk_m ++ pk_x) xwing hybrid_transition p.backend.name
    secret ← secret_key seed xwing hybrid_transition p.backend.name
    key_pair public secret

  -- `generate_keypair`, with the bytes of `os.urandom`.
  unfoldable pub generate_xwing : Bytes → Result KeyPair
  unfolding keypair_from_seed
  generate_xwing drawn = keypair_from_seed drawn

  unfoldable pub encapsulate_xwing : Bytes → Bytes → PublicKey → Result (CipherText × SharedSecret)
  unfolding exchange_or_zeros combine
  encapsulate_xwing pqc_seed seed public = do
    require (bytes_eq public.algorithm xwing) unsupported_algorithm
    require (length public.raw == public_key_bytes) value_error
    (ct_m, ss_m) ← p.backend.encapsulate mlkem pqc_seed (take mlkem_pk public.raw)
    let ephemeral = p.x25519_generate seed
    ct_x ← p.x25519_public ephemeral
    let pk_x = drop mlkem_pk public.raw
    ct ← cipher_text (ct_m ++ ct_x) xwing
    ss ← shared_secret (combine ss_m (exchange_or_zeros ephemeral pk_x) ct_x pk_x) xwing true
    ok (ct, ss)

  unfoldable pub decapsulate_xwing : SecretKey → CipherText → Result SharedSecret
  unfolding exchange_or_zeros combine
  decapsulate_xwing secret ciphertext = do
    require (bytes_eq secret.algorithm xwing) unsupported_algorithm
    require (length secret.raw == secret_key_bytes) value_error
    require (length ciphertext.content == ciphertext_bytes) value_error
    (pk_m, sk_m) ← p.backend.keygen_from_seed mlkem (expand secret.raw).0
    ss_m ← p.backend.decapsulate mlkem sk_m (take mlkem_ct ciphertext.content)
    let ct_x = drop mlkem_ct ciphertext.content
    let sk_x = (expand secret.raw).1
    pk_x ← p.x25519_public sk_x
    shared_secret (combine ss_m (exchange_or_zeros sk_x ct_x) ct_x pk_x) xwing true
