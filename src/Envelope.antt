-- ===== src/Envelope.antt =====
-- protocols/envelope.py: `SealedMessage` and `Envelope`. AES-GCM, HKDF, cbor2 and the KEM backends are
-- parameters, and random bytes are arguments. Warnings change no result, and are left out; so are the
-- hexadecimal forms. The version of a message is a decoded `int`: `nat n`, or `neg n` if negative.
pub mod Opening
pub mod Agreement
pub mod RoundTrip
use quantum_safe_py.Prelude.{
  ℕ, Bool, true, false, not, Option, none, some, [], ◌∷◌, ◌++◌, Bytes, text, bytes_eq, has,
  is_ascii, length, ltb, ◌==◌, if◌then◌else◌,
}
use quantum_safe_py.Outcome.{
  Result, ok, err, value_error, unicode_error, key_parse_error, unsupported_algorithm,
  decapsulation_error, invalid_tag, ◌>>=◌, ◌>>◌, require, or_raise,
}
use quantum_safe_py.Cbor.{
  Value, Cbor2, nat, neg, string, bytes, dict, end, field, get, written, loads,
}
use quantum_safe_py.Keys.{PublicKey, SecretKey}
use quantum_safe_py.Keys.Serialization.{as_dict, text_field, bytes_field}
use quantum_safe_py.Kem.Algorithms.{parse_hybrid_name}
use quantum_safe_py.Kem.Types.{
  Kdf, Hash, sha256, sha384, SharedSecret, derive_key, cipher_text, to_bytes, from_bytes,
}
use quantum_safe_py.Kem.Hybrid.{Primitives, HybridKem, hybrid_kem, encapsulate, decapsulate}
use quantum_safe_py.Kem.Core.{plain_kem, encapsulate_plain, decapsulate_plain}
use quantum_safe_py.Stream.Cipher.{Aead}

abbrev pub envelope_version : ℕ
envelope_version = 1

abbrev pub envelope_version_cnsa2 : ℕ
envelope_version_cnsa2 = 2

abbrev pub cnsa2_envelope_algorithm : Bytes
cnsa2_envelope_algorithm = text "ML-KEM-1024"

abbrev pub ml_kem_1024_ct_len : ℕ
ml_kem_1024_ct_len = 1568

abbrev pub nonce_len : ℕ
nonce_len = 12

abbrev pub key_len : ℕ
key_len = 32

abbrev pub enc_key_info : Bytes
enc_key_info = text "qs-envelope-enc-v1"

abbrev pub enc_key_info_v2 : Bytes
enc_key_info_v2 = text "qs-envelope-enc-v2-cnsa2"

pub record SealedMessage : Type 0 where
  pub version : Value
  pub algorithm : Bytes
  pub kem_ct : Bytes
  pub nonce : Bytes
  pub ciphertext : Bytes
  pub aad : Bytes

-- `SealedMessage(...)`
unfoldable pub sealed_message : SealedMessage → Result SealedMessage
sealed_message m = do require (length m.nonce == nonce_len) value_error; ok m

-- `SealedMessage.to_bytes`
unfoldable pub sealed_to_bytes : Cbor2 → SealedMessage → Bytes
sealed_to_bytes c m = written c (
    dict (
      field (string (text "v")) m.version (
        field (string (text "algo")) (string m.algorithm) (
          field (string (text "kct")) (bytes m.kem_ct) (
            field (string (text "n")) (bytes m.nonce) (
              field (string (text "ct")) (bytes m.ciphertext)
                (field (string (text "aad")) (bytes m.aad) end)))))))

int_field : Option Value → Result Value
int_field (some (nat n)) = ok (nat n)
int_field (some (neg n)) = ok (neg n)
int_field _ = err key_parse_error

-- `d.get("aad", b"")`
aad_field : Option Value → Result Bytes
aad_field none = ok []
aad_field (some v) = bytes_field (some v)

-- `SealedMessage.from_bytes`
unfoldable pub sealed_from_bytes : Cbor2 → Bytes → Result SealedMessage
unfolding int_field aad_field
sealed_from_bytes c d = do
  v ← or_raise (loads c d) key_parse_error
  f ← as_dict v key_parse_error
  version ← int_field (get (text "v") f)
  algorithm ← text_field (get (text "algo") f)
  kem_ct ← bytes_field (get (text "kct") f)
  nonce ← bytes_field (get (text "n") f)
  ciphertext ← bytes_field (get (text "ct") f)
  aad ← aad_field (get (text "aad") f)
  sealed_message (record {
    version = version;
    algorithm = algorithm;
    kem_ct = kem_ct;
    nonce = nonce;
    ciphertext = ciphertext;
    aad = aad;
  })

unfoldable pub version_for : Bytes → Result ℕ
version_for algorithm =
    if has b'+' algorithm
    then ok envelope_version
    else if bytes_eq algorithm cnsa2_envelope_algorithm
    then ok envelope_version_cnsa2
    else err unsupported_algorithm

-- `_build_aad`
unfoldable pub built_aad : ℕ → Bytes → Bytes → Result Bytes
built_aad version algorithm extra = do
  require (is_ascii algorithm) unicode_error
  require (not (ltb 255 (length algorithm))) value_error
  ok (version ∷ length algorithm ∷ (algorithm ++ extra))

-- The third-party code.
pub record EnvelopeEnv : Type 0 where
  pub aead : Aead
  pub primitives : Primitives

-- The random bytes that `seal` takes.
pub record SealDraws : Type 0 where
  pub nonce : Bytes
  pub seed : Bytes
  pub pqc_seed : Bytes

abbrev pub is_none {ℓ} : {A : Type ℓ} → Option A → Bool
is_none none = true
is_none (some a) = false

-- `sealed.version != expected_version`, negated.
abbrev pub is_version : Value → ℕ → Bool
is_version (nat n) m = n == m
is_version _ m = false

-- `expected_aad`, where one is given.
abbrev pub check_aad : Option Bytes → Bytes → Result (Unit {0})
check_aad none aad = ok tt
check_aad (some expected) aad = require (bytes_eq aad expected) invalid_tag

abbrev pub or_invalid : Option Bytes → Result Bytes
or_invalid none = err invalid_tag
or_invalid (some p) = ok p

abbrev pub or_own : Option Bytes → Bytes → Bytes
or_own none own = own
or_own (some b) own = b

module _ (env : EnvelopeEnv) where
  unfoldable pub kem_for_algorithm : Bytes → Result HybridKem
  kem_for_algorithm algorithm = do
    (classical, pqc) ← or_raise (parse_hybrid_name algorithm) unsupported_algorithm
    hybrid_kem env.primitives classical pqc true

  abbrev pub given_kem : Option HybridKem → Bytes → Result HybridKem
  given_kem none algorithm = kem_for_algorithm algorithm
  given_kem (some k) algorithm = ok k

  -- The KEM ciphertext and the key of `seal`, for each version.
  unfoldable pub seal_key : ℕ → SealDraws → PublicKey → Option HybridKem → Result (Bytes × Bytes)
  seal_key version draws key kem =
      if version == envelope_version_cnsa2
      then (do
        require (is_none kem) value_error
        k ← plain_kem cnsa2_envelope_algorithm false
        (ct, ss) ← encapsulate_plain env.primitives.backend k draws.seed key
        ok (ct.content, derive_key env.primitives.kdf ss key_len none enc_key_info_v2 sha384))
      else do
        k ← given_kem kem key.algorithm
        (ct, ss) ← encapsulate env.primitives k draws.seed draws.pqc_seed key
        b ← to_bytes ct
        ok (b, derive_key env.primitives.kdf ss key_len none enc_key_info sha256)

  unfoldable pub seal_envelope :
      SealDraws → Bytes → PublicKey → Bytes → Option HybridKem → Result SealedMessage
  seal_envelope draws plaintext key aad kem = do
    version ← version_for key.algorithm
    (kem_ct, enc_key) ← seal_key version draws key kem
    full ← built_aad version key.algorithm aad
    sealed_message (record {
      version = nat version;
      algorithm = key.algorithm;
      kem_ct = kem_ct;
      nonce = draws.nonce;
      ciphertext = env.aead.encrypt enc_key draws.nonce plaintext full;
      aad = aad;
    })

  -- The key of `open`, for each version.
  unfoldable pub open_key : ℕ → SealedMessage → SecretKey → Option HybridKem → Result Bytes
  open_key version m secret kem =
      if version == envelope_version_cnsa2
      then (do
        require (is_none kem) value_error
        require (length m.kem_ct == ml_kem_1024_ct_len) decapsulation_error
        k ← plain_kem cnsa2_envelope_algorithm false
        ct ← cipher_text m.kem_ct cnsa2_envelope_algorithm
        ss ← decapsulate_plain env.primitives.backend k secret ct
        ok (derive_key env.primitives.kdf ss key_len none enc_key_info_v2 sha384))
      else do
        k ← given_kem kem m.algorithm
        ct ← or_raise (from_bytes m.kem_ct m.algorithm) decapsulation_error
        ss ← decapsulate env.primitives k secret ct
        ok (derive_key env.primitives.kdf ss key_len none enc_key_info sha256)

  unfoldable pub open_envelope :
      SealedMessage → SecretKey → Option HybridKem → Option Bytes → Result Bytes
  open_envelope m secret kem expected_aad = do
    check_aad expected_aad m.aad
    version ← version_for m.algorithm
    require (is_version m.version version) unsupported_algorithm
    enc_key ← open_key version m secret kem
    full ← built_aad version m.algorithm m.aad
    or_invalid (env.aead.decrypt enc_key m.nonce m.ciphertext full)

  unfoldable pub rewrap :
      SealDraws
      → SealedMessage
      → SecretKey
      → PublicKey
      → Option Bytes
      → Option Bytes
      → Result SealedMessage
  rewrap draws m old_secret new_public expected_aad aad = do
    plaintext ← open_envelope m old_secret none (some (or_own expected_aad m.aad))
    seal_envelope draws plaintext new_public (or_own aad m.aad) none
