-- ===== src/Signatures/V2/Signing.antt =====
-- Signing and verification in format v2.
use quantum_safe_py.Prelude.{
  ℕ, two_add, ◌+◌, ◌*◌, ◌/◌, ◌%◌, ◌≤◌, ◌<◌, ◌≡◌, ◌⊎◌, inl, inr, refl, Bool, true, false, not, [],
  ◌∷◌, ◌++◌, Bytes, text, bytes_eq, has, before, after, one_of, drop, take-append, drop-append,
  take-append_eq, drop-append_eq, length, length-append, ltb, ◌==◌, ◌&&◌, arith, Bool-cases, lt→ltb,
}
use quantum_safe_py.Outcome.{Result, ok, err, verification_error}
use quantum_safe_py.Wire.{u16, unpack_u16}
use quantum_safe_py.Signatures.V2.{
  label, v2_hybrids, v2_ml_dsa, partners, require_base, classical_input, unpack_components, Signer,
  MlDsa, curve, classical_len, sign_hybrid, sign, verify_hybrid, verify,
}
use quantum_safe_py.Signatures.V2.Names.{require_base-IsBase, signed_input_fits, partner_known}
use quantum_safe_py.Signatures.V2.Classical.{
  IsEcdsaPair, IsEd25519Pair, Signed, ed25519-Signed, p256-Signed, p384-Signed,
}

-- A hybrid key: the length of the classical part, and both parts.
abbrev pub packed : Bytes → Bytes → Bytes
packed a b = u16 (length a) ++ (a ++ b)

pub unpack_packed : (a b : Bytes) → unpack_components (packed a b) ≡ ok (a, b)
unfolding unpack_components unpack_u16
unpack_packed a b =
    let e : length a / 256 * 256 + length a % 256 ≡ length a = omega arith in
    rw (e, two_add (length a), take-append a b, drop-append a b, length-append a b) (ground arith)

-- What the backend guarantees of an ML-DSA key pair.
pub record IsMlDsaPair (backend : MlDsa) (name secret public : Bytes) : Type 0 where
  pub signs :
      (m : Bytes)
      → (sig : Bytes) × (backend.sign name secret m label ≡ ok sig)
        × (backend.verify name public m sig label ≡ ok true)
        × (0 < length sig)

-- A classical key pair, of one of the three kinds.
pub data ClassicalPair (signer : Signer) (classical secret public : Bytes) : Type 0 where
  ed25519 :
      classical ≡ text "Ed25519"
      → IsEd25519Pair signer secret public
      → ClassicalPair signer classical secret public
  p256 :
      classical ≡ text "P-256"
      → IsEcdsaPair signer (curve signer (text "P-256")) secret public
      → ClassicalPair signer classical secret public
  p384 :
      classical ≡ text "P-384"
      → IsEcdsaPair signer (curve signer (text "P-384")) secret public
      → ClassicalPair signer classical secret public

-- A key pair for a base suite: an ML-DSA pair, or the two pairs of a hybrid.
pub data SigningPair (signer : Signer) (backend : MlDsa) (base : Bytes)
    : Bytes → Bytes → Type 0 where
  plain :
      {secret public : Bytes}
      → has b'+' base ≡ false
      → IsMlDsaPair backend base secret public
      → SigningPair signer backend base secret public
  hybrid :
      {c_sec c_pub p_sec p_pub : Bytes}
      → has b'+' base ≡ true
      → ClassicalPair signer (before b'+' base) c_sec c_pub
      → IsMlDsaPair backend (after b'+' base) p_sec p_pub
      → SigningPair signer backend base (packed c_sec p_sec) (packed c_pub p_pub)

classical-Signed :
    (signer : Signer) (classical secret public d : Bytes)
    → ClassicalPair signer classical secret public
    → Signed signer classical secret public d
classical-Signed signer classical secret public d (ed25519 e p) =
    ed25519-Signed signer classical secret public d e p
classical-Signed signer classical secret public d (p256 e p) =
    p256-Signed signer classical secret public d e p
classical-Signed signer classical secret public d (p384 e p) =
    p384-Signed signer classical secret public d e p

module _ (signer : Signer) (backend : MlDsa) where
  -- The signature of some bytes, and that it verifies.
  hybrid_signs :
      (base c_sec c_pub p_sec p_pub m2 : Bytes)
      → ClassicalPair signer (before b'+' base) c_sec c_pub
      → IsMlDsaPair backend (after b'+' base) p_sec p_pub
      → (blob : Bytes) × (sign_hybrid signer backend base (packed c_sec p_sec) m2 ≡ ok blob)
        × (verify_hybrid signer backend base (packed c_pub p_pub) m2 blob ≡ ok tt)
  unfolding sign_hybrid verify_hybrid
  hybrid_signs base c_sec c_pub p_sec p_pub m2 c p =
      let s = classical-Signed signer (before b'+' base) c_sec c_pub (classical_input m2) c in
      let (sig, signed, verified, pos) = p.signs m2 in
      let longer : ltb s.size (length (s.sig ++ sig)) ≡ true =
        lt→ltb _ _ (omega (arith, s.length_sig, length-append s.sig sig)) in
      (
        s.sig ++ sig,
        rw (unpack_packed c_sec p_sec, s.signed, signed),
        rw (
          unpack_packed c_pub p_pub,
          s.size_eq,
          longer,
          take-append_eq s.size s.sig sig s.length_sig,
          drop-append_eq s.size s.sig sig s.length_sig,
          s.verified,
          verified,
        ),
      )

  -- For an accepted identifier and a key pair of its suite, signing succeeds for every message and every
  -- context of 255 bytes at most, and the signature of a message that is not empty is verified under the
  -- public key, the same context and the same identifier.
  pub verify-sign :
      (algorithm base secret public message context : Bytes)
      → require_base algorithm ≡ ok base
      → SigningPair signer backend base secret public
      → length context ≤ 255
      → 0 < length message
      → (blob : Bytes) × (sign signer backend algorithm secret message context ≡ ok blob)
        × (verify signer backend algorithm public message blob context ≡ ok tt)
  unfolding sign verify
  verify-sign algorithm base secret public message context known (plain no_plus p) short
        some_message =
      let m2 = length algorithm ∷ (algorithm ++ (length context ∷ (context ++ message))) in
      let fits = signed_input_fits algorithm base context message known short in
      let (sig, signed, verified, pos) = p.signs m2 in
      let tests : (not (ltb 255 (length context)) && not (length message == 0)) ≡ true =
        ground arith in
      (sig, rw (known, fits, no_plus, signed), rw (known, tests, fits, no_plus, verified))
  verify-sign algorithm base secret public message context known
        (hybrid {c_sec} {c_pub} {p_sec} {p_pub} plus c p) short some_message =
      let m2 = length algorithm ∷ (algorithm ++ (length context ∷ (context ++ message))) in
      let fits = signed_input_fits algorithm base context message known short in
      let (sig, signed, verified) = hybrid_signs base c_sec c_pub p_sec p_pub m2 c p in
      let tests : (not (ltb 255 (length context)) && not (length message == 0)) ≡ true =
        ground arith in
      (sig, rw (known, fits, plus, signed), rw (known, tests, fits, plus, verified))

  -- The halves of a supported hybrid have a known length.
  hybrid_len :
      (base : Bytes)
      → one_of (after b'+' base) (partners (before b'+' base) v2_hybrids) ≡ true
      → (n : ℕ) × (classical_len (before b'+' base) ≡ ok n)
  unfolding partners v2_hybrids one_of classical_len
  hybrid_len base h = elim (Bool-cases (bytes_eq (before b'+' base) (text "P-384"))) [
    | inl e ↦ elim (Bool-cases (one_of (before b'+' base) (text "Ed25519" ∷ text "P-256" ∷ []))) [
      | inl k ↦ (64, ground (arith, k))
      | inr k ↦ (96, ground (arith, k, e))
    ]
    | inr e ↦ (64, ground (arith, h, e))
  ]

  verify_hybrid_errors :
      (base public m2 blob : Bytes)
      → ((name key m sig : Bytes)
          → one_of name v2_ml_dsa ≡ true
          → (b : Bool) × (backend.verify name key m sig label ≡ ok b))
      → one_of (after b'+' base) (partners (before b'+' base) v2_hybrids) ≡ true
      → (verify_hybrid signer backend base public m2 blob ≡ ok tt)
        ⊎ (verify_hybrid signer backend base public m2 blob ≡ err verification_error)
  unfolding verify_hybrid
  verify_hybrid_errors base public m2 blob returns known = by_parts (unpack_components public) refl
    where
      answered :
          (x : Bytes × Bytes)
          → unpack_components public ≡ ok x
          → (verify_hybrid signer backend base public m2 blob ≡ ok tt)
            ⊎ (verify_hybrid signer backend base public m2 blob ≡ err verification_error)
      answered (c_pub, p_pub) e =
          let (n, len) = hybrid_len base known in
          let (b, r) = returns (after b'+' base) p_pub m2 (drop n blob) (partner_known _ _ known) in
          rw (e, len, r) (ground arith)

      by_parts :
          (x : Result (Bytes × Bytes))
          → unpack_components public ≡ x
          → (verify_hybrid signer backend base public m2 blob ≡ ok tt)
            ⊎ (verify_hybrid signer backend base public m2 blob ≡ err verification_error)
      by_parts (err f) e = inr (rw e)
      by_parts (ok x) e = answered x e

  -- For an accepted identifier, and a backend whose verification under the three ML-DSA algorithms
  -- answers and does not raise, `verify` returns or raises `VerificationError`, whatever the key, the
  -- message, the blob and the context are.
  pub verify_errors :
      (algorithm base public message blob context : Bytes)
      → require_base algorithm ≡ ok base
      → ((name key m sig : Bytes)
          → one_of name v2_ml_dsa ≡ true
          → (b : Bool) × (backend.verify name key m sig label ≡ ok b))
      → (verify signer backend algorithm public message blob context ≡ ok tt)
        ⊎ (verify signer backend algorithm public message blob context ≡ err verification_error)
  unfolding verify
  verify_errors algorithm base public message blob context known returns =
      elim (Bool-cases (not (ltb 255 (length context)) && not (length message == 0))) [
        | inr bad ↦ inr (rw (known, bad))
        | inl good ↦
            let m2 = length algorithm ∷ (algorithm ++ (length context ∷ (context ++ message))) in
            let fits =
              signed_input_fits algorithm base context message known (ground (arith, good)) in
            elim (require_base-IsBase algorithm base known).kind [
              | inl (no_plus, ml_dsa) ↦
                  let (b, r) = returns base public m2 blob ml_dsa in
                  rw (known, good, fits, no_plus, r) (ground arith)
              | inr (plus, listed) ↦
                  rw (known, good, fits, plus)
                    (verify_hybrid_errors base public m2 blob returns listed)
            ]
      ]
