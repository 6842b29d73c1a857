-- ===== src/Examples/HybridSigning.antt =====
-- The theorems of Signatures.V1 with small signers, and a codec whose encodings begin with 0xA4.
use quantum_safe_py.Prelude.{
  ◌≡◌, ◌≤◌, refl, true, false, none, some, [], ◌∷◌, ◌++◌, Bytes, text, bytes_eq, bytes_eq_refl,
  is_ascii, length, length-append, arith,
}
use quantum_safe_py.Outcome.{ok, err, value_error}
use quantum_safe_py.Cbor.{Cbor2, max_payload}
use quantum_safe_py.Keys.{PublicKey, SecretKey, hybrid_transition}
use quantum_safe_py.Signatures.V2.{Signer, Ecdsa, MlDsa}
use quantum_safe_py.Signatures.V2.Signing.{packed, unpack_packed}
use quantum_safe_py.Signatures.Messages.{SignedMessage, HybridSignature, hybrid_to_bytes}
use quantum_safe_py.Signatures.V1.{
  SignatureEnv, HybridSign, split_key, msg_with_ctx, check_expected_context, verify_classical,
  verify_v1, sign_message, verify_message,
}
use quantum_safe_py.Signatures.V1.Accepted.{Accepted, expected_context, verify_message-Accepted}
use quantum_safe_py.Signatures.V1.Pairs.{ed25519}
use quantum_safe_py.Signatures.V1.Signing.{
  HasAsciiNames, IsWire, IsHybridPair, unpack-pack_sig_blob, hybrid_from_bytes-hybrid_to_bytes,
  verify_message-sign_message,
}
use quantum_safe_py.Examples.Functions.{zeros, length-zeros}
use quantum_safe_py.Examples.Trees.{trees, trees-ReadsBack}

skip_one : Bytes → Bytes
skip_one [] = []
skip_one (b ∷ bs) = bs

codec : Cbor2
codec = record {
  encode_error = λ v. none;
  encode = λ v. 0xA4 ∷ trees.encode v;
  decode = λ d. trees.decode (skip_one d);
}

codec-IsWire : IsWire codec
unfolding codec skip_one trees quantum_safe_py.Signatures.Messages.hybrid_to_bytes
    quantum_safe_py.Signatures.Messages.is_map_of_four
    quantum_safe_py.Signatures.Messages.signature_map quantum_safe_py.Cbor.written
codec-IsWire = record {
  back = λ hs ascii rest. trees-ReadsBack _ rest;
  header = λ hs ascii. refl;
  small = λ hs ascii. simp length-append (omega arith);
}

backend : MlDsa
backend = record {
  sign = λ name k m c. ok (1 ∷ 2 ∷ []);
  verify = λ name k m s c. ok (bytes_eq s (1 ∷ 2 ∷ []));
}

no_ecdsa : Ecdsa
no_ecdsa = record { sign = λ k d. err value_error; verify = λ x y d r s. false }

v2_signer : Signer
v2_signer = record {
  ed25519_sign = λ k d. ok (zeros 64);
  ed25519_verify = λ k s d. bytes_eq s (zeros 64);
  load_pem = λ k. err value_error;
  p256 = no_ecdsa;
  p384 = no_ecdsa;
}

env : SignatureEnv
env = record {
  cbor = codec;
  ed25519_sign = λ k d. ok (zeros 64);
  ed25519_verify = λ k s d. bytes_eq s (zeros 64);
  p256 = record { sign = λ k d. err value_error; verify = λ x y s d. false };
  p384 = record { sign = λ k d. err value_error; verify = λ x y s d. false };
  backend = backend;
  v2_signer = v2_signer;
  v2_backend = backend;
}

suite : HybridSign
suite = record {
  classical = text "Ed25519";
  pqc = text "ML-DSA-65";
  algorithm = text "Ed25519+ML-DSA-65";
  hedged = true;
  is_v2 = false;
}

secret : SecretKey
secret = record {
  raw = packed (4 ∷ []) (5 ∷ []);
  algorithm = text "Ed25519+ML-DSA-65";
  migration_state = hybrid_transition;
  backend_tag = text "example";
}

public : PublicKey
public = record {
  raw = packed (4 ∷ []) (5 ∷ []);
  algorithm = text "Ed25519+ML-DSA-65";
  migration_state = hybrid_transition;
  backend_tag = text "example";
}

pair : IsHybridPair env suite secret.raw public.raw
unfolding env suite secret public backend
pair = record {
  c_sec = 4 ∷ [];
  c_pub = 4 ∷ [];
  p_sec = 5 ∷ [];
  p_pub = 5 ∷ [];
  classical = ed25519 refl (record {
    signs = λ m. (zeros 64, refl, bytes_eq_refl (zeros 64), omega (arith, length-zeros 64));
  });
  pqc = record {
    signs =
        λ m context short. (1 ∷ 2 ∷ [], refl, rw (bytes_eq_refl (1 ∷ 2 ∷ [])) refl, omega arith);
  };
  secret_eq = refl;
  public_eq = refl;
}

abbrev draw : Bytes
draw = zeros 32

verify_message-sign_message_example :
    (m : SignedMessage) × (sign_message env suite draw (zeros 8) (text "hello") secret (text "app")
      ≡ ok m)
    × (verify_message env suite m public (some (text "app")) ≡ ok tt)
    × (m.message ≡ text "hello")
unfolding env suite secret public is_ascii
verify_message-sign_message_example =
    verify_message-sign_message env suite draw (zeros 8) (text "hello") (text "app") secret public
      refl codec-IsWire pair refl refl (length-zeros 32) (omega arith) (omega arith) (refl, refl)
      (omega arith) (omega arith)

parts : HybridSignature
parts = record {
  classical_sig = zeros 64;
  pqc_sig = 1 ∷ 2 ∷ [];
  classical_algo = text "Ed25519";
  pqc_algo = text "ML-DSA-65";
}

parts_ascii : HasAsciiNames parts
unfolding parts is_ascii
parts_ascii = (refl, refl)

parts_fit : length (hybrid_to_bytes codec parts) ≤ max_payload
unfolding parts
parts_fit = omega (arith, codec-IsWire.small parts parts_ascii, length-zeros 64)

message : SignedMessage
message = record {
  message = text "hello";
  signature = length (zeros 32) ∷ (zeros 32 ++ hybrid_to_bytes codec parts);
  algorithm = text "Ed25519+ML-DSA-65";
  context = text "app";
  signer_fingerprint = [];
  signed_at = zeros 8;
  is_hybrid = true;
}

accepted : verify_message env suite message public (some (text "app")) ≡ ok tt
unfolding verify_message env suite message public check_expected_context bytes_eq verify_v1
    split_key verify_classical msg_with_ctx parts backend
    quantum_safe_py.Signatures.V1.unpack_sig_blob zeros
accepted =
    rw
      (
        unpack_packed (4 ∷ []) (5 ∷ []),
        unpack-pack_sig_blob (zeros 32) (hybrid_to_bytes codec parts),
        hybrid_from_bytes-hybrid_to_bytes codec parts codec-IsWire parts_ascii parts_fit,
      )
      refl

verify_message-Accepted_example :
    (text "app" ≡ expected_context (some (text "app")))
    × (text "Ed25519+ML-DSA-65" ≡ text "Ed25519+ML-DSA-65")
    × (text "Ed25519+ML-DSA-65" ≡ text "Ed25519+ML-DSA-65")
    × Accepted env suite public.raw (text "hello") message.signature (text "app")
unfolding suite message public
verify_message-Accepted_example =
    verify_message-Accepted env suite message public (some (text "app")) refl accepted
