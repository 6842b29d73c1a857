-- ===== src/Examples/Signing.antt =====
-- The theorems of Signatures at a concrete suite, with small signers.
use quantum_safe_py.Prelude.{
  ℕ, ◌≡◌, ◌⊎◌, ◌↔◌, ◌-◌, refl, Bool, true, false, [], ◌∷◌, ◌++◌, Bytes, text, bytes_eq,
  bytes_eq_refl, one_of, ◌==◌, arith,
}
use quantum_safe_py.Outcome.{ok, err, value_error, unsupported_algorithm, verification_error}
use quantum_safe_py.Signatures.V2.{
  Signer, MlDsa, CurveSpec, curve, is_ecdsa, require_base, v2_ml_dsa, all_identifiers, signed_input,
  classical_verify, sign, verify, label, p256_order,
}
use quantum_safe_py.Signatures.V2.Names.{require_base_iff, signed_input_injective}
use quantum_safe_py.Signatures.V2.Classical.{IsEd25519Pair, raw_signature}
use quantum_safe_py.Signatures.V2.Malleability.{classical_verify_twin}
use quantum_safe_py.Signatures.V2.Signing.{
  IsMlDsaPair, ed25519, SigningPair, hybrid, packed, verify-sign, verify_errors,
}
use quantum_safe_py.Examples.Functions.{zeros}

-- A signature is 64 zeros, or the key with a 1 in front; `r` of ECDSA is 1.
unfoldable signer : Signer
signer = record {
  ed25519_sign = λ k d. ok (zeros 64);
  ed25519_verify = λ k s d. bytes_eq s (zeros 64);
  load_pem = λ k. err value_error;
  p256 = record { sign = λ k d. ok (1, 2); verify = λ x y d r s. r == 1 };
  p384 = record { sign = λ k d. ok (1, 2); verify = λ x y d r s. r == 1 };
}

unfoldable ml_dsa : MlDsa
ml_dsa = record {
  sign = λ name k m c. ok (1 ∷ k);
  verify = λ name k m s c. ok (bytes_eq s (1 ∷ k));
}

ml_dsa-IsMlDsaPair : (name key : Bytes) → IsMlDsaPair ml_dsa name key key
unfolding ml_dsa
ml_dsa-IsMlDsaPair name key = record {
  signs = λ m. (1 ∷ key, refl, rw (bytes_eq_refl (1 ∷ key)), omega arith);
}

signer-IsEd25519Pair : (secret public : Bytes) → IsEd25519Pair signer secret public
unfolding signer zeros
signer-IsEd25519Pair secret public = record {
  signs = λ d. (zeros 64, refl, refl, bytes_eq_refl (zeros 64));
}

abbrev suite : Bytes
suite = text "Ed25519+ML-DSA-65"

abbrev name : Bytes
name = text "Ed25519+ML-DSA-65-v2"

suite_known : require_base name ≡ ok suite
unfolding require_base quantum_safe_py.Signatures.V2.base_of quantum_safe_py.Prelude.ends_with
    bytes_eq one_of quantum_safe_py.Signatures.V2.v2_ml_dsa quantum_safe_py.Prelude.has
    quantum_safe_py.Signatures.V2.partners quantum_safe_py.Signatures.V2.v2_hybrids
    quantum_safe_py.Prelude.before quantum_safe_py.Prelude.after
suite_known = refl

pair : SigningPair signer ml_dsa suite (packed (4 ∷ []) (5 ∷ [])) (packed (4 ∷ []) (5 ∷ []))
unfolding quantum_safe_py.Prelude.has quantum_safe_py.Prelude.before quantum_safe_py.Prelude.after
pair =
    hybrid refl (ed25519 refl (signer-IsEd25519Pair (4 ∷ []) (4 ∷ [])))
      (ml_dsa-IsMlDsaPair (text "ML-DSA-65") (5 ∷ []))

verify-sign_example :
    (blob : Bytes) × (sign signer ml_dsa name (packed (4 ∷ []) (5 ∷ [])) (text "hello") (text "app")
      ≡ ok blob)
    × (verify signer ml_dsa name (packed (4 ∷ []) (5 ∷ [])) (text "hello") blob (text "app")
        ≡ ok tt)
verify-sign_example =
    verify-sign signer ml_dsa name suite (packed (4 ∷ []) (5 ∷ [])) (packed (4 ∷ []) (5 ∷ []))
      (text "hello") (text "app") suite_known pair (omega arith) (omega arith)

answers :
    (a k m s : Bytes)
    → one_of a v2_ml_dsa ≡ true
    → (b : Bool) × (ml_dsa.verify a k m s label ≡ ok b)
unfolding ml_dsa
answers a k m s known = (bytes_eq s (1 ∷ k), refl)

verify_errors_example :
    (verify signer ml_dsa name (1 ∷ []) (text "hello") (2 ∷ []) (text "app") ≡ ok tt)
    ⊎ (verify signer ml_dsa name (1 ∷ []) (text "hello") (2 ∷ []) (text "app")
        ≡ err verification_error)
verify_errors_example =
    verify_errors signer ml_dsa name suite (1 ∷ []) (text "hello") (2 ∷ []) (text "app") suite_known
      answers

require_base_iff_example :
    (((base : Bytes) × (require_base (text "ML-DSA-65") ≡ ok base))
      ↔ (one_of (text "ML-DSA-65") all_identifiers ≡ true))
    × ((one_of (text "ML-DSA-65") all_identifiers ≡ false)
        → require_base (text "ML-DSA-65") ≡ err unsupported_algorithm)
require_base_iff_example = require_base_iff (text "ML-DSA-65")

input :
    signed_input (text "ML-DSA-65-v2") (text "app") (text "m")
    ≡ ok (12 ∷ (text "ML-DSA-65-v2" ++ (3 ∷ text "appm")))
unfolding signed_input quantum_safe_py.Prelude.is_ascii
input = refl

signed_input_injective_example :
    (text "ML-DSA-65-v2" ≡ text "ML-DSA-65-v2") × (text "app" ≡ text "app") × (text "m" ≡ text "m")
signed_input_injective_example =
    signed_input_injective (text "ML-DSA-65-v2") (text "ML-DSA-65-v2") (text "app") (text "app")
      (text "m") (text "m") (12 ∷ (text "ML-DSA-65-v2" ++ (3 ∷ text "appm"))) input input

abbrev point : Bytes
point = zeros 64

accepted :
    classical_verify signer
      (text "P-256")
      point
      (text "m")
      (raw_signature (curve signer (text "P-256")) 1 2)
    ≡ true
unfolding classical_verify bytes_eq is_ecdsa one_of quantum_safe_py.Signatures.V2.ecdsa_verify zeros
    curve quantum_safe_py.Wire.be_bytes quantum_safe_py.Wire.be signer
accepted = refl

classical_verify_twin_example :
    classical_verify signer
      (text "P-256")
      point
      (text "m")
      (raw_signature (curve signer (text "P-256")) 1 ((curve signer (text "P-256")).order - 2))
    ≡ false
unfolding curve is_ecdsa zeros one_of bytes_eq
classical_verify_twin_example =
    classical_verify_twin signer (text "P-256") point (text "m") 1 2 refl refl (omega arith)
      (omega arith) (omega arith) accepted
