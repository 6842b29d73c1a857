-- ===== src/Signatures/V1/Signing.antt =====
-- signatures/hybrid.py: `HybridSign.verify` on what `HybridSign.sign` gives, in the original format.
use quantum_safe_py.Prelude.{
  ◌+◌, ◌≡◌, ◌≤◌, ◌<◌, refl, Bool, true, false, not, some, [], ◌∷◌, ◌++◌, Bytes, bytes_eq,
  bytes_eq_refl, is_ascii, length, take-append, drop-append, length-append, ltb, ◌==◌, ◌&&◌,
  if◌then◌else◌, arith,
}
use quantum_safe_py.Outcome.{ok}
use quantum_safe_py.Cbor.{Cbor2, ReadsBack, get, is_text, loads_single-written, max_payload}
use quantum_safe_py.Keys.{PublicKey, SecretKey}
use quantum_safe_py.Keys.Serialization.{as_dict, text_field, bytes_field}
use quantum_safe_py.Signatures.V2.Signing.{packed, unpack_packed}
use quantum_safe_py.Signatures.V2
use quantum_safe_py.Signatures.Messages.{
  SignedMessage, signed_message, HybridSignature, signature_map, hybrid_to_bytes, is_map_of_four,
  only_known, hybrid_parts, hybrid_from_bytes,
}
use quantum_safe_py.Signatures.V1.{
  pack_sig_blob, unpack_sig_blob, SignatureEnv, HybridSign, split_key, sign_v1, sign_message,
  check_expected_context, verify_v1, verify_message,
}
use quantum_safe_py.Signatures.V1.Pairs.{ClassicalPair, IsBackendPair, classical_signs}
use quantum_safe_py.Signatures.V1.Accepted.{prefix_len}

abbrev pub HasAsciiNames : HybridSignature → Type 0
HasAsciiNames hs = (is_ascii hs.classical_algo ≡ true) × (is_ascii hs.pqc_algo ≡ true)

-- What the code relies on in cbor2, for algorithm names in ASCII: it reads back what it wrote, a map of
-- four entries begins with 0xA4, and the headers and the four keys take 100 bytes at most.
pub record IsWire (c : Cbor2) : Type 0 where
  pub back : (hs : HybridSignature) → HasAsciiNames hs → ReadsBack c (signature_map hs)
  pub header :
      (hs : HybridSignature) → HasAsciiNames hs → is_map_of_four (hybrid_to_bytes c hs) ≡ true
  pub small :
      (hs : HybridSignature)
      → HasAsciiNames hs
      → length (hybrid_to_bytes c hs)
        ≤ length hs.classical_sig
          + length hs.pqc_sig
          + length hs.classical_algo
          + length hs.pqc_algo
          + 100

-- The parts of a signature are read back from their bytes.
pub hybrid_from_bytes-hybrid_to_bytes :
    (c : Cbor2) (hs : HybridSignature)
    → IsWire c
    → HasAsciiNames hs
    → length (hybrid_to_bytes c hs) ≤ max_payload
    → hybrid_from_bytes c (hybrid_to_bytes c hs) ≡ ok hs
unfolding hybrid_from_bytes hybrid_parts hybrid_to_bytes signature_map only_known as_dict
    bytes_field text_field get is_text bytes_eq
hybrid_from_bytes-hybrid_to_bytes c hs wire ascii fits =
    let read = loads_single-written c (signature_map hs) (wire.back hs ascii) fits in
    rw (wire.header hs ascii, read) refl

-- A blob that is packed is taken apart into its parts.
pub unpack-pack_sig_blob :
    (prefix sig : Bytes)
    → unpack_sig_blob (length prefix ∷ (prefix ++ sig)) (length prefix) ≡ ok (prefix, sig)
unfolding unpack_sig_blob
unpack-pack_sig_blob prefix sig =
    let tests : (length prefix == length prefix
          && not (ltb (length (prefix ++ sig)) (length prefix)))
        ≡ true =
      ground (arith, length-append prefix sig) in
    rw (tests, take-append prefix sig, drop-append prefix sig) refl

module _ (env : SignatureEnv) where
  -- The hybrid key pairs of one suite: the packed keys of the two halves.
  pub record IsHybridPair (h : HybridSign) (secret public : Bytes) : Type 0 where
    pub c_sec : Bytes
    pub c_pub : Bytes
    pub p_sec : Bytes
    pub p_pub : Bytes
    pub classical : ClassicalPair env h.classical c_sec c_pub
    pub pqc : IsBackendPair env h.pqc p_sec p_pub
    pub secret_eq : secret ≡ packed c_sec p_sec
    pub public_eq : public ≡ packed c_pub p_pub

  abbrev prefix_of : HybridSign → Bytes → Bytes
  prefix_of h draw = if h.hedged then draw else []

  length-prefix_of :
      (draw : Bytes) (hedged : Bool)
      → length draw ≡ 32
      → length (if hedged then draw else []) ≡ prefix_len hedged
  length-prefix_of draw true e = e
  length-prefix_of draw false e = refl

  prefix_fits : (hedged : Bool) → prefix_len hedged ≤ 32
  prefix_fits true = omega arith
  prefix_fits false = omega arith

  -- A signature in the original format is made, and is verified.
  signs_v1 :
      (h : HybridSign) (draw secret public message context : Bytes)
      → IsWire env.cbor
      → IsHybridPair h secret public
      → length draw ≡ 32
      → length h.classical ≤ 255
      → length h.pqc ≤ 255
      → (is_ascii h.classical ≡ true) × (is_ascii h.pqc ≡ true)
      → length context ≤ 255
      → (blob : Bytes) × (sign_v1 env h draw secret message context ≡ ok blob)
        × (verify_v1 env h public message blob context ≡ ok tt)
        × (0 < length blob)
  unfolding sign_v1 verify_v1 split_key pack_sig_blob
  signs_v1 h draw secret public message context wire pair drawn name1 name2 ascii short =
      let prefix = prefix_of h draw in
      let (c_sig, c_signed, c_valid, c_len) =
        classical_signs env h.classical pair.c_sec pair.c_pub (prefix ++ message) context
          pair.classical short in
      let (p_sig, p_signed, p_valid, p_len) = pair.pqc.signs (prefix ++ message) context short in
      let hs : HybridSignature = record {
        classical_sig = c_sig;
        pqc_sig = p_sig;
        classical_algo = h.classical;
        pqc_algo = h.pqc;
      } in
      let payload = hybrid_to_bytes env.cbor hs in
      let read =
        hybrid_from_bytes-hybrid_to_bytes env.cbor hs wire ascii
          (omega (arith, wire.small hs ascii)) in
      let size = length-prefix_of draw h.hedged drawn in
      let fits : not (ltb 255 (length prefix)) ≡ true =
        ground (arith, size, prefix_fits h.hedged) in
      (
        length prefix ∷ (prefix ++ payload),
        rw (pair.secret_eq, unpack_packed pair.c_sec pair.p_sec, c_signed, p_signed, fits) refl,
        rw
            (
              pair.public_eq,
              unpack_packed pair.c_pub pair.p_pub,
              ← size,
              unpack-pack_sig_blob prefix payload,
              read,
              bytes_eq_refl h.classical,
              bytes_eq_refl h.pqc,
              c_valid,
              p_valid,
            )
            refl,
        omega arith,
      )

  if_false {ℓ} : {A : Type ℓ} (b : Bool) (x y : A) → b ≡ false → (if b then x else y) ≡ y
  if_false true x y e = cc
  if_false false x y e = refl

  -- In the original format, signing succeeds for a hybrid key pair, every message that is not empty and
  -- every context of 255 bytes at most, and the signed message is verified under the public key by a
  -- verifier of the same suite and mode that expects this context. The key pair's halves are key pairs
  -- of their schemes, `os.urandom` gives 32 bytes, names are ASCII of 255 bytes at most, and cbor2 is as in
  -- `IsWire`.
  pub verify_message-sign_message :
      (h : HybridSign) (draw now message context : Bytes) (sk : SecretKey) (pk : PublicKey)
      → h.is_v2 ≡ false
      → IsWire env.cbor
      → IsHybridPair h sk.raw pk.raw
      → sk.algorithm ≡ h.algorithm
      → pk.algorithm ≡ h.algorithm
      → length draw ≡ 32
      → length h.classical ≤ 255
      → length h.pqc ≤ 255
      → (is_ascii h.classical ≡ true) × (is_ascii h.pqc ≡ true)
      → length context ≤ 255
      → 0 < length message
      → (m : SignedMessage) × (sign_message env h draw now message sk context ≡ ok m)
        × (verify_message env h m pk (some context) ≡ ok tt)
        × (m.message ≡ message)
  unfolding sign_message verify_message signed_message check_expected_context
  verify_message-sign_message h draw now message context sk pk original wire pair sk_name pk_name
        drawn name1 name2 ascii short some_message =
      let (blob, signed, verified, pos) =
        signs_v1 h draw sk.raw pk.raw message context wire pair drawn name1 name2 ascii short in
      let m : SignedMessage = record {
        message = message;
        signature = blob;
        algorithm = h.algorithm;
        context = context;
        signer_fingerprint = [];
        signed_at = now;
        is_hybrid = true;
      } in
      let context_fits : not (ltb 255 (length context)) ≡ true = ground arith in
      let not_empty : not (length message == 0) ≡ true = ground arith in
      let has_signature : not (length blob == 0) ≡ true = ground arith in
      (
        m,
        rw
            (
              sk_name,
              bytes_eq_refl h.algorithm,
              context_fits,
              if_false h.is_v2
                  (V2.sign env.v2_signer env.v2_backend h.algorithm sk.raw message context)
                  (sign_v1 env h draw sk.raw message context) original,
              signed,
              not_empty,
              has_signature,
            )
            refl,
        rw
            (
              bytes_eq_refl context,
              pk_name,
              bytes_eq_refl h.algorithm,
              if_false h.is_v2
                  (V2.verify env.v2_signer env.v2_backend h.algorithm pk.raw message blob context)
                  (verify_v1 env h pk.raw message blob context) original,
            )
            verified,
        refl,
      )
