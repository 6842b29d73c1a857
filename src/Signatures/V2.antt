-- ===== src/Signatures/V2.antt =====
-- signatures/_v2.py: the signature format v2. The `cryptography` package and the ML-DSA backend are
-- third-party code: the records `Signer` and `MlDsa`.
pub mod Names
pub mod Classical
pub mod Malleability
pub mod Signing
use quantum_safe_py.Prelude.{
  ℕ, zero, suc, ◌+◌, ◌*◌, ◌-◌, ◌/◌, ◌%◌, ◌^◌, Bool, true, false, not, Option, none, some, List, [],
  ◌∷◌, ◌++◌, Bytes, text, bytes_eq, has, one_of, before, after, ends_with, drop_last, is_ascii,
  length, take, drop, map, ltb, ◌==◌, ◌&&◌, ◌||◌, if◌then◌else◌,
}
use quantum_safe_py.Outcome.{
  Result, ok, err, value_error, unsupported_algorithm, unicode_error, verification_error, key_error,
  overflow_error, ◌>>=◌, ◌>>◌, require, or_raise,
}
use quantum_safe_py.Wire.{pack_u16, unpack_u16, be, to_big_endian}

abbrev pub suffix : Bytes
suffix = text "-v2"

abbrev pub label : Bytes
label = text "quantum-safe-sig-v2"

unfoldable pub v2_ml_dsa : List Bytes
v2_ml_dsa = text "ML-DSA-44" ∷ text "ML-DSA-65" ∷ text "ML-DSA-87" ∷ []

unfoldable pub v2_hybrids : List (Bytes × List Bytes)
v2_hybrids =
    (text "Ed25519", text "ML-DSA-44" ∷ text "ML-DSA-65" ∷ text "ML-DSA-87" ∷ [])
    ∷ (text "P-256", text "ML-DSA-44" ∷ text "ML-DSA-65" ∷ [])
    ∷ (text "P-384", text "ML-DSA-87" ∷ [])
    ∷ []

-- `V2_HYBRIDS.get(classical, ())`
unfoldable pub partners : Bytes → List (Bytes × List Bytes) → List Bytes
partners classical [] = []
partners classical ((c, ps) ∷ rest) = if bytes_eq classical c then ps else partners classical rest

unfoldable pub is_v2 : Bytes → Bool
is_v2 algorithm = ends_with algorithm suffix

unfoldable pub base_of : Bytes → Option Bytes
unfolding is_v2
base_of algorithm =
    let base = drop_last 3 algorithm in
    if not (is_v2 algorithm)
    then none
    else if one_of base v2_ml_dsa
    then some base
    else if has b'+' base && one_of (after b'+' base) (partners (before b'+' base) v2_hybrids)
    then some base
    else none

or_unsupported : Option Bytes → Result Bytes
or_unsupported none = err unsupported_algorithm
or_unsupported (some b) = ok b

unfoldable pub require_base : Bytes → Result Bytes
unfolding or_unsupported
require_base algorithm = or_unsupported (base_of algorithm)

hybrid_identifiers : List (Bytes × List Bytes) → List Bytes
hybrid_identifiers [] = []
hybrid_identifiers ((c, ps) ∷ rest) =
    map (λ p. c ++ (b'+' ∷ (p ++ suffix))) ps ++ hybrid_identifiers rest

unfoldable pub all_identifiers : List Bytes
unfolding hybrid_identifiers
all_identifiers = map (λ p. p ++ suffix) v2_ml_dsa ++ hybrid_identifiers v2_hybrids

unfoldable pub signed_input : Bytes → Bytes → Bytes → Result Bytes
signed_input algorithm context message = do
  require (is_ascii algorithm) unicode_error
  require (not (ltb 255 (length algorithm) || ltb 255 (length context))) value_error
  ok (length algorithm ∷ (algorithm ++ (length context ∷ (context ++ message))))

unfoldable pub classical_input : Bytes → Bytes
classical_input m2 = label ++ (0 ∷ m2)

unfoldable pub pack_components : Bytes → Bytes → Result Bytes
pack_components a b = do n ← pack_u16 (length a); ok (n ++ (a ++ b))

unfoldable pub unpack_components : Bytes → Result (Bytes × Bytes)
unpack_components d = do
  require (not (ltb (length d) 2)) value_error
  n ← unpack_u16 (take 2 d)
  require (not (ltb (length d) (2 + n))) value_error
  ok (take n (drop 2 d), drop (2 + n) d)

-- `load_pem_private_key`: an elliptic-curve key, or a key of another kind.
pub data PemKey : Type 0 where
  ec other_key : Bytes → PemKey

-- ECDSA with one hash: signing gives `(r, s)`; verifying takes the coordinates of the public key, and
-- is false where the `cryptography` package raises.
pub record Ecdsa : Type 0 where
  pub sign : Bytes → Bytes → Result (ℕ × ℕ)
  pub verify : ℕ → ℕ → Bytes → ℕ → ℕ → Bool

pub record Signer : Type 0 where
  pub ed25519_sign : Bytes → Bytes → Result Bytes
  pub ed25519_verify : Bytes → Bytes → Bytes → Bool
  pub load_pem : Bytes → Result PemKey
  pub p256 : Ecdsa
  pub p384 : Ecdsa

-- `sign_native_context` and `verify_native_context` of the signature backend. Arguments: algorithm,
-- key, message, signature when verifying, context.
pub record MlDsa : Type 0 where
  pub sign : Bytes → Bytes → Bytes → Bytes → Result Bytes
  pub verify : Bytes → Bytes → Bytes → Bytes → Bytes → Result Bool

abbrev pub p256_order : ℕ
p256_order = 0xFFFFFFFF00000000FFFFFFFFFFFFFFFFBCE6FAADA7179E84F3B9CAC2FC632551

abbrev pub p384_order : ℕ
p384_order =
    0xFFFFFFFFFFFFFFFFFFFFFFFFFFFFFFFFFFFFFFFFFFFFFFFFC7634D81F4372DDF581A0DB248B0A77AECEC196ACCC52973

pub record CurveSpec : Type 0 where
  pub order : ℕ
  pub size : ℕ
  pub ecdsa : Ecdsa

-- `_curve` and `_curve_class`: P-384, or P-256 for any other name.
unfoldable pub curve : Signer → Bytes → CurveSpec
curve s classical =
    if bytes_eq classical (text "P-384")
    then record { order = p384_order; size = 48; ecdsa = s.p384 }
    else record { order = p256_order; size = 32; ecdsa = s.p256 }

-- `classical in ("P-256", "P-384")`
unfoldable pub is_ecdsa : Bytes → Bool
is_ecdsa classical = one_of classical (text "P-256" ∷ text "P-384" ∷ [])

unfoldable pub ec_key : PemKey → Result Bytes
ec_key (ec k) = ok k
ec_key (other_key k) = err value_error

-- ECDSA as raw low-S `r || s`.
unfoldable pub ecdsa_sign : Signer → CurveSpec → Bytes → Bytes → Result Bytes
ecdsa_sign signer c secret d = do
  pem ← signer.load_pem secret
  key ← ec_key pem
  (r, s) ← c.ecdsa.sign key d
  let low = if ltb (c.order / 2) s then c.order - s else s
  a ← to_big_endian c.size r
  b ← to_big_endian c.size low
  ok (a ++ b)

unfoldable pub classical_sign : Signer → Bytes → Bytes → Bytes → Result Bytes
classical_sign signer classical secret d =
    if bytes_eq classical (text "Ed25519")
    then signer.ed25519_sign secret d
    else if is_ecdsa classical
    then ecdsa_sign signer (curve signer classical) secret d
    else err unsupported_algorithm

-- Both lengths are checked, and the high-S twin is refused.
unfoldable pub ecdsa_verify : CurveSpec → Bytes → Bytes → Bytes → Bool
ecdsa_verify c public d sig =
    let r = be (take c.size sig) in
    let s = be (drop c.size sig) in
    if not (length public == 2 * c.size) || not (length sig == 2 * c.size)
    then false
    else if ltb (c.order / 2) s
    then false
    else c.ecdsa.verify (be (take c.size public)) (be (drop c.size public)) d r s

unfoldable pub classical_verify : Signer → Bytes → Bytes → Bytes → Bytes → Bool
classical_verify signer classical public d sig =
    if bytes_eq classical (text "Ed25519")
    then signer.ed25519_verify public sig d
    else if is_ecdsa classical
    then ecdsa_verify (curve signer classical) public d sig
    else false

-- `_CLASSICAL_LEN[classical]`
unfoldable pub classical_len : Bytes → Result ℕ
classical_len classical =
    if one_of classical (text "Ed25519" ∷ text "P-256" ∷ [])
    then ok 64
    else if bytes_eq classical (text "P-384")
    then ok 96
    else err key_error

module _ (signer : Signer) (backend : MlDsa) where
  -- The part of `sign` for a hybrid.
  unfoldable pub sign_hybrid : Bytes → Bytes → Bytes → Result Bytes
  sign_hybrid base secret m2 = do
    (c_sec, p_sec) ← unpack_components secret
    c_sig ← classical_sign signer (before b'+' base) c_sec (classical_input m2)
    p_sig ← backend.sign (after b'+' base) p_sec m2 label
    ok (c_sig ++ p_sig)

  unfoldable pub sign : Bytes → Bytes → Bytes → Bytes → Result Bytes
  sign algorithm secret message context = do
    base ← require_base algorithm
    m2 ← signed_input algorithm context message
    if has b'+' base then sign_hybrid base secret m2 else backend.sign base secret m2 label

  -- The part of `verify` for a hybrid: both halves are checked before the result is combined.
  unfoldable pub verify_hybrid : Bytes → Bytes → Bytes → Bytes → Result (Unit {0})
  verify_hybrid base public m2 blob = do
    (c_pub, p_pub) ← or_raise (unpack_components public) verification_error
    n ← classical_len (before b'+' base)
    require (ltb n (length blob)) verification_error
    let classical_ok =
        classical_verify signer (before b'+' base) c_pub (classical_input m2) (take n blob)
    pqc_ok ← backend.verify (after b'+' base) p_pub m2 (drop n blob) label
    require (classical_ok && pqc_ok) verification_error

  unfoldable pub verify : Bytes → Bytes → Bytes → Bytes → Bytes → Result (Unit {0})
  verify algorithm public message blob context = do
    base ← require_base algorithm
    require (not (ltb 255 (length context)) && not (length message == 0)) verification_error
    m2 ← signed_input algorithm context message
    if has b'+' base
        then verify_hybrid base public m2 blob
        else do valid ← backend.verify base public m2 blob label; require valid verification_error
