-- ===== src/Kem/Types.antt =====
-- types/kem.py: shared secrets, ciphertexts, the wire form of a hybrid ciphertext, and the combiner.
-- HKDF and the hashes are third-party code: the record `Kdf`. The warning of `CipherText` about an
-- unexpected size changes no result, and is left out.
pub mod Framing
use quantum_safe_py.Prelude.{
  ℕ, ◌+◌, ◌≡◌, Bool, true, false, not, Option, none, some, List, [], ◌∷◌, ◌++◌, Bytes, text, length,
  take, drop, ltb, ◌==◌, is_ascii, if◌then◌else◌,
}
use quantum_safe_py.Outcome.{
  Result, ok, err, value_error, unicode_error, decapsulation_error, ◌>>=◌, ◌>>◌, require,
}
use quantum_safe_py.Wire.{pack_u16, unpack_u16}

pub data Hash : Type 0 where
  sha256 sha384 sha512 : Hash

pub record Kdf : Type 0 where
  pub digest : Hash → Bytes → Bytes
  -- `HKDF(hash, length, salt, info).derive(ikm)`
  pub hkdf : Hash → ℕ → Option Bytes → Bytes → Bytes → Bytes

-- HKDF gives as many bytes as it is asked for.
pub record IsKdf (k : Kdf) : Type 0 where
  pub length_hkdf :
      (h : Hash) (n : ℕ) (salt : Option Bytes) (info ikm : Bytes)
      → length (k.hkdf h n salt info ikm) ≡ n

pub record SharedSecret : Type 0 where
  pub secret : Bytes
  pub algorithm : Bytes
  pub is_hybrid : Bool

-- `SharedSecret(data, algorithm, is_hybrid)`
unfoldable pub shared_secret : Bytes → Bytes → Bool → Result SharedSecret
shared_secret d algorithm hybrid = do
  require (length d == 32) value_error
  ok (record { secret = d; algorithm = algorithm; is_hybrid = hybrid })

-- `SharedSecret.derive_key`; the name of the hash is one of the three that the method knows.
unfoldable pub derive_key : Kdf → SharedSecret → ℕ → Option Bytes → Bytes → Hash → Bytes
derive_key k s n salt info h = k.hkdf h n salt info s.secret

pub record CipherText : Type 0 where
  pub content : Bytes
  pub algorithm : Bytes

-- `CipherText(data, algorithm)`
unfoldable pub cipher_text : Bytes → Bytes → Result CipherText
cipher_text d algorithm = do
  require (not (length d == 0)) value_error
  ok (record { content = d; algorithm = algorithm })

pub record HybridCipherText : Type 0 where
  pub classical_ct : Bytes
  pub pqc_ct : Bytes
  pub algorithm : Bytes

-- `HybridCipherText(classical_ct, pqc_ct, algorithm)`
unfoldable pub hybrid_cipher_text : Bytes → Bytes → Bytes → Result HybridCipherText
hybrid_cipher_text classical pqc algorithm = do
  require (not (length classical == 0)) value_error
  require (not (length pqc == 0)) value_error
  ok (record { classical_ct = classical; pqc_ct = pqc; algorithm = algorithm })

unfoldable pub to_bytes : HybridCipherText → Result Bytes
to_bytes h = do
  prefix ← pack_u16 (length h.classical_ct)
  ok (prefix ++ (h.classical_ct ++ h.pqc_ct))

unfoldable pub from_bytes : Bytes → Bytes → Result HybridCipherText
from_bytes d algorithm = do
  require (not (ltb (length d) 2)) decapsulation_error
  n ← unpack_u16 (take 2 d)
  require (not (ltb (length d) (2 + n))) decapsulation_error
  require (not (length (drop (2 + n) d) == 0)) decapsulation_error
  hybrid_cipher_text (take n (drop 2 d)) (drop (2 + n) d) algorithm

abbrev pub combiner_info : Bytes
combiner_info = text "quantum-safe hybrid KEM v1"

unfoldable pub combine_shared_secrets :
    Kdf → Bytes → Bytes → Bytes → Bytes → Bytes → Result SharedSecret
combine_shared_secrets k classical_ss pqc_ss algorithm classical_ct pqc_ct = do
  require (is_ascii algorithm) unicode_error
  shared_secret
      (k.hkdf sha256 32 (some (classical_ct ++ pqc_ct)) (combiner_info ++ (0 ∷ algorithm))
        (classical_ss ++ pqc_ss))
      algorithm true
