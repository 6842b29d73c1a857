-- ===== src/Signatures/V1/Accepted.antt =====
-- What `HybridSign.verify` of signatures/hybrid.py accepts in the original format.
use quantum_safe_py.Prelude.{
  ℕ, ◌≡◌, refl, sym, ap, ◌∙◌, Bool, true, false, not, Option, none, some, [], ◌∷◌, ◌++◌, Bytes,
  bytes_eq, bytes_eq_iff, length, take, drop, take-append-drop, length-take, ltb, ◌==◌, ◌&&◌,
  ==_iff, if◌then◌else◌, arith,
}
use quantum_safe_py.Outcome.{
  Result, ok, verification_error, unsupported_algorithm, require, or_raise, or_raise-eq-ok,
  >>=-eq-ok, >>-eq-ok,
}
use quantum_safe_py.Keys.{PublicKey}
use quantum_safe_py.Signatures.V2
use quantum_safe_py.Signatures.Messages.{SignedMessage, HybridSignature, hybrid_from_bytes}
use quantum_safe_py.Signatures.V1.{
  HybridSign, SignatureEnv, unpack_sig_blob, split_key, verify_classical, check_expected_context,
  verify_v1, verify_message, hedged_randomness_bytes,
}

both : (a b : Bool) → (a && b) ≡ true → (a ≡ true) × (b ≡ true)
both true b e = (refl, e)
both false b e = cc

required : (passed : Bool) → require passed verification_error ≡ ok tt → passed ≡ true
required true e = refl
required false e = cc

-- The random prefix has the length of the signer's mode.
abbrev pub prefix_len : Bool → ℕ
prefix_len hedged = if hedged then hedged_randomness_bytes else 0

-- A blob that is taken apart is the packing of its parts.
pub unpack_sig_blob-layout :
    (blob : Bytes) (n : ℕ) (prefix sig : Bytes)
    → unpack_sig_blob blob n ≡ ok (prefix, sig)
    → (length prefix ≡ n) × (blob ≡ length prefix ∷ (prefix ++ sig))
unfolding unpack_sig_blob
unpack_sig_blob-layout [] n prefix sig h = cc
unpack_sig_blob-layout (k ∷ rest) n prefix sig h =
    let (tests, found) = >>-eq-ok (k == n && not (ltb (length rest) k)) verification_error _ h in
    let (same, long) = both (k == n) (not (ltb (length rest) k)) tests in
    let first : take k rest ≡ prefix = cc in
    let second : drop k rest ≡ sig = cc in
    let joined = take-append-drop k rest in
    let size : length (take k rest) ≡ k = ground (arith, length-take k rest) in
    rw (← first, ← second, size, joined) ((==_iff k n).0 same, refl)

-- An accepted signature, with the values that it was taken apart into.
pub record Accepted (env : SignatureEnv) (h : HybridSign) (public message blob context : Bytes)
    : Type 0 where
  pub c_pub : Bytes
  pub p_pub : Bytes
  pub prefix : Bytes
  pub payload : Bytes
  pub parts : HybridSignature
  pub keys : split_key public ≡ ok (c_pub, p_pub)
  pub prefix_length : length prefix ≡ prefix_len h.hedged
  pub layout : blob ≡ length prefix ∷ (prefix ++ payload)
  pub strict : hybrid_from_bytes env.cbor payload ≡ ok parts
  pub classical_name : parts.classical_algo ≡ h.classical
  pub pqc_name : parts.pqc_algo ≡ h.pqc
  pub classical_valid :
      verify_classical env h.classical c_pub (prefix ++ message) parts.classical_sig context
      ≡ ok true
  pub pqc_valid : env.backend.verify h.pqc p_pub (prefix ++ message) parts.pqc_sig context ≡ ok true

pub verify_v1-Accepted :
    (env : SignatureEnv) (h : HybridSign) (public message blob context : Bytes)
    → verify_v1 env h public message blob context ≡ ok tt
    → Accepted env h public message blob context
unfolding verify_v1
verify_v1-Accepted env h public message blob context returned =
    let ((c_pub, p_pub), keys, h1) = >>=-eq-ok (split_key public) _ returned in
    let ((prefix, payload), found, h2) =
      >>=-eq-ok (unpack_sig_blob blob (prefix_len h.hedged)) _ h1 in
    let (hs, read, h3) =
      >>=-eq-ok (or_raise (hybrid_from_bytes env.cbor payload) verification_error) _ h2 in
    let (names, h4) =
      >>-eq-ok (bytes_eq hs.classical_algo h.classical && bytes_eq hs.pqc_algo h.pqc) _ _ h3 in
    let (a, classical, h5) =
      >>=-eq-ok
        (verify_classical env h.classical c_pub (prefix ++ message) hs.classical_sig context) _
        h4 in
    let (b, pqc, h6) =
      >>=-eq-ok (env.backend.verify h.pqc p_pub (prefix ++ message) hs.pqc_sig context) _ h5 in
    let (a_true, b_true) = both a b (required (a && b) h6) in
    let (same_classical, same_pqc) = both _ _ names in
    let (size, layout) = unpack_sig_blob-layout blob (prefix_len h.hedged) prefix payload found in
    record {
      c_pub = c_pub;
      p_pub = p_pub;
      prefix = prefix;
      payload = payload;
      parts = hs;
      keys = keys;
      prefix_length = size;
      layout = layout;
      strict = or_raise-eq-ok (hybrid_from_bytes env.cbor payload) verification_error read;
      classical_name = (bytes_eq_iff hs.classical_algo h.classical).0 same_classical;
      pqc_name = (bytes_eq_iff hs.pqc_algo h.pqc).0 same_pqc;
      classical_valid = rw (← a_true) classical;
      pqc_valid = rw (← b_true) pqc;
    }

-- The context that a verifier expects.
abbrev pub expected_context : Option Bytes → Bytes
expected_context none = []
expected_context (some context) = context

expected_is :
    (context : Bytes) (expected : Option Bytes)
    → check_expected_context context expected ≡ ok tt
    → context ≡ expected_context expected
unfolding check_expected_context
expected_is context none h = (bytes_eq_iff context []).0 (required _ h)
expected_is context (some e) h = (bytes_eq_iff context e).0 (required _ h)

abbrev run_format : SignatureEnv → HybridSign → SignedMessage → PublicKey → Bool → Result (Unit {0})
run_format env h m pk v2 =
    if v2
    then V2.verify env.v2_signer env.v2_backend h.algorithm pk.raw m.message m.signature m.context
    else verify_v1 env h pk.raw m.message m.signature m.context

-- A message that `verify` accepts in the original format carries the context that the verifier expects,
-- or none where it names none; message and key are of the verifier's algorithm; the signature is a
-- prefix of the length of the verifier's mode and a strict payload that names the verifier's own
-- algorithms; and both halves are valid, for the same prefix, message and context.
pub verify_message-Accepted :
    (env : SignatureEnv) (h : HybridSign) (m : SignedMessage) (pk : PublicKey)
    (expected : Option Bytes)
    → h.is_v2 ≡ false
    → verify_message env h m pk expected ≡ ok tt
    → (m.context ≡ expected_context expected)
      × (m.algorithm ≡ h.algorithm)
      × (pk.algorithm ≡ h.algorithm)
      × Accepted env h pk.raw m.message m.signature m.context
unfolding verify_message
verify_message-Accepted env h m pk expected original returned =
    let (u, checked, h1) = >>=-eq-ok (check_expected_context m.context expected) _ returned in
    let (named, h2) = >>-eq-ok (bytes_eq m.algorithm h.algorithm) unsupported_algorithm _ h1 in
    let (keyed, h3) = >>-eq-ok (bytes_eq pk.algorithm h.algorithm) unsupported_algorithm _ h2 in
    let run : verify_v1 env h pk.raw m.message m.signature m.context ≡ ok tt =
      sym (ap (λ (v2 : Bool). run_format env h m pk v2) original) ∙ h3 in
    (
      expected_is m.context expected checked,
      (bytes_eq_iff m.algorithm h.algorithm).0 named,
      (bytes_eq_iff pk.algorithm h.algorithm).0 keyed,
      verify_v1-Accepted env h pk.raw m.message m.signature m.context run,
    )
