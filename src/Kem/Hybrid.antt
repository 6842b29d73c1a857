-- ===== src/Kem/Hybrid.antt =====
-- kem/hybrid.py: the framing of hybrid keys, and the class `HybridKEM`.
-- The elliptic-curve code of the `cryptography` package and the post-quantum backend are third-party
-- code: the records `X25519`, `Curve` and `KemBackend`. Where the code draws random bytes the model
-- takes them as an argument, one for each key pair that is generated.
pub mod Agreement
pub mod Halves
pub mod Packing
pub mod Laws
use quantum_safe_py.Prelude.{
  ℕ, ◌+◌, ◌*◌, Bool, true, false, not, Option, none, some, List, [], ◌∷◌, ◌++◌, Bytes, text,
  bytes_eq, one_of, length, take, drop, ltb, ◌==◌, ◌||◌, ◌&&◌, if◌then◌else◌,
}
use quantum_safe_py.Outcome.{
  Result, ok, err, value_error, unsupported_algorithm, decapsulation_error, ◌>>=◌, ◌>>◌, require,
  or_raise,
}
use quantum_safe_py.Wire.{be, pack_u16, unpack_u16}
use quantum_safe_py.Keys.{PublicKey, SecretKey, hybrid_transition, public_key, secret_key}
use quantum_safe_py.Keys.Serialization.{KeyPair, key_pair}
use quantum_safe_py.Kem.Algorithms.{canonical_hybrid_name, validate_hybrid_combination}
use quantum_safe_py.Kem.Types.{
  Kdf, SharedSecret, HybridCipherText, hybrid_cipher_text, combine_shared_secrets,
}

unfoldable pub pack_components : Bytes → Bytes → Result Bytes
pack_components a b = do prefix ← pack_u16 (length a); ok (prefix ++ (a ++ b))

unfoldable pub unpack_components : Bytes → Result (Bytes × Bytes)
unpack_components d = do
  require (not (ltb (length d) 2)) decapsulation_error
  n ← unpack_u16 (take 2 d)
  require (not (ltb (length d) (2 + n))) decapsulation_error
  ok (take n (drop 2 d), drop (2 + n) d)

-- X25519 on raw keys; `none` where the package raises.
pub record X25519 : Type 0 where
  pub private : Bytes → Bytes
  pub public : Bytes → Bytes
  pub exchange : Bytes → Bytes → Option Bytes

-- A NIST curve: `private` is the PKCS8 PEM form of a key drawn from a seed, `point` its uncompressed
-- public point, and `exchange` is ECDH of a private key with a point given by its coordinates.
pub record Curve : Type 0 where
  pub private : Bytes → Bytes
  pub point : Bytes → Bytes
  pub exchange : Bytes → ℕ → ℕ → Option Bytes

-- backends/base.py `AbstractKEMBackend`
pub record KemBackend : Type 0 where
  pub name : Bytes
  pub is_available : Bool
  pub supported : List Bytes
  pub keygen : Bytes → Bytes → Bytes × Bytes
  pub keygen_from_seed : Bytes → Bytes → Result (Bytes × Bytes)
  pub encapsulate : Bytes → Bytes → Bytes → Result (Bytes × Bytes)
  pub decapsulate : Bytes → Bytes → Bytes → Result Bytes

pub record Primitives : Type 0 where
  pub x25519 : X25519
  pub p256 : Curve
  pub p384 : Curve
  pub backend : KemBackend
  pub kdf : Kdf

pub record HybridKem : Type 0 where
  pub classical : Bytes
  pub pqc : Bytes
  pub algorithm : Bytes

abbrev pub first_is : ℕ → Bytes → Bool
first_is c [] = false
first_is c (b ∷ bs) = b == c

-- `(curve, coord)` of `_EC_CURVES`
unfoldable pub ec_curve : Primitives → Bytes → Option (Curve × ℕ)
ec_curve p classical =
    if bytes_eq classical (text "P-256")
    then some (p.p256, 32)
    else if bytes_eq classical (text "P-384")
    then some (p.p384, 48)
    else none

abbrev pub or_error {ℓ} : {A : Type ℓ} → Option A → Result A → Result A
or_error none e = e
or_error (some a) e = ok a

unfoldable pub gen_on_curve : Bytes → Option (Curve × ℕ) → Result (Bytes × Bytes)
gen_on_curve seed none = err unsupported_algorithm
gen_on_curve seed (some (c, coord)) = ok (c.private seed, c.point seed)

-- The two components are checked as an uncompressed point, and read as its coordinates.
unfoldable pub ecdh : Curve → ℕ → Bytes → Bytes → Result Bytes → Result Bytes
ecdh c coord private peer failed = do
  require (length peer == 1 + 2 * coord && first_is 0x04 peer) decapsulation_error
  shared ←
      or_error (c.exchange private (be (take coord (drop 1 peer))) (be (drop (1 + coord) peer)))
        failed
  require (not (ltb (length shared) coord)) decapsulation_error
  ok (take coord shared)

unfoldable pub encapsulate_on_curve : Bytes → Bytes → Option (Curve × ℕ) → Result (Bytes × Bytes)
encapsulate_on_curve seed peer none = err unsupported_algorithm
encapsulate_on_curve seed peer (some (c, coord)) = do
  shared ← ecdh c coord (c.private seed) peer (err value_error)
  ok (c.point seed, shared)

unfoldable pub decapsulate_on_curve : Bytes → Bytes → Option (Curve × ℕ) → Result Bytes
decapsulate_on_curve secret ct none = err unsupported_algorithm
decapsulate_on_curve secret ct (some (c, coord)) = ecdh c coord secret ct (err decapsulation_error)

module _ (p : Primitives) where
  -- `HybridKEM(classical, pqc, backend, validate)`
  unfoldable pub hybrid_kem : Bytes → Bytes → Bool → Result HybridKem
  hybrid_kem classical pqc validate = do
    if validate then validate_hybrid_combination classical pqc else ok tt
    require (one_of pqc p.backend.supported || not p.backend.is_available) unsupported_algorithm
    ok (record {
      classical = classical;
      pqc = pqc;
      algorithm = canonical_hybrid_name classical pqc;
    })

  unfoldable pub gen_classical_keypair : HybridKem → Bytes → Result (Bytes × Bytes)
  gen_classical_keypair k seed =
      if bytes_eq k.classical (text "X25519")
      then ok (p.x25519.private seed, p.x25519.public seed)
      else gen_on_curve seed (ec_curve p k.classical)

  unfoldable pub encapsulate_classical : HybridKem → Bytes → Bytes → Result (Bytes × Bytes)
  encapsulate_classical k seed peer =
      if bytes_eq k.classical (text "X25519")
      then (do
        shared ← or_error (p.x25519.exchange (p.x25519.private seed) peer) (err value_error)
        ok (p.x25519.public seed, shared))
      else encapsulate_on_curve seed peer (ec_curve p k.classical)

  unfoldable pub decapsulate_classical : HybridKem → Bytes → Bytes → Result Bytes
  decapsulate_classical k secret ct =
      if bytes_eq k.classical (text "X25519")
      then or_error (p.x25519.exchange secret ct) (err decapsulation_error)
      else decapsulate_on_curve secret ct (ec_curve p k.classical)

  unfoldable pub generate_keypair : HybridKem → Bytes → Bytes → Result KeyPair
  generate_keypair k seed pqc_seed = do
    (classical_priv, classical_pub) ← gen_classical_keypair k seed
    let (pqc_pub, pqc_sec) = p.backend.keygen k.pqc pqc_seed
    combined_pub ← pack_components classical_pub pqc_pub
    combined_sec ← pack_components classical_priv pqc_sec
    public ← public_key combined_pub k.algorithm hybrid_transition p.backend.name
    secret ← secret_key combined_sec k.algorithm hybrid_transition p.backend.name
    key_pair public secret

  unfoldable pub encapsulate :
      HybridKem → Bytes → Bytes → PublicKey → Result (HybridCipherText × SharedSecret)
  encapsulate k seed pqc_seed public = do
    require (bytes_eq public.algorithm k.algorithm) unsupported_algorithm
    (classical_pub, pqc_pub) ← unpack_components public.raw
    (classical_ct, classical_ss) ← encapsulate_classical k seed classical_pub
    (pqc_ct, pqc_ss) ← p.backend.encapsulate k.pqc pqc_seed pqc_pub
    hct ← hybrid_cipher_text classical_ct pqc_ct k.algorithm
    ss ← combine_shared_secrets p.kdf classical_ss (take 32 pqc_ss) k.algorithm classical_ct pqc_ct
    ok (hct, ss)

  unfoldable pub decapsulate : HybridKem → SecretKey → HybridCipherText → Result SharedSecret
  decapsulate k secret ct = do
    require (bytes_eq secret.algorithm k.algorithm) unsupported_algorithm
    (classical_sec, pqc_sec) ← unpack_components secret.raw
    classical_ss ← decapsulate_classical k classical_sec ct.classical_ct
    pqc_ss ← p.backend.decapsulate k.pqc pqc_sec ct.pqc_ct
    combine_shared_secrets p.kdf classical_ss (take 32 pqc_ss) k.algorithm ct.classical_ct ct.pqc_ct
