-- ===== src/Stream/HybridKeys.antt =====
-- The key pairs of the hybrid KEM are key pairs of the stream: protocols/stream.py over
-- kem/hybrid.py and types/kem.py.
use quantum_safe_py.Prelude.{
  ◌^◌, ◌<◌, ◌≡◌, refl, sym, ap, ◌∙◌, true, false, not, Bytes, bytes_eq, bytes_eq_iff, has, length,
  take, arith, inl, inr, Bool-cases, ◌||◌, one_of,
}
use quantum_safe_py.Outcome.{Result, ok, unsupported_algorithm, >>=-eq-ok, >>-eq-ok}
use quantum_safe_py.Wire.{pack_u16}
use quantum_safe_py.Keys.{PublicKey, SecretKey, public_key, secret_key, hybrid_transition}
use quantum_safe_py.Keys.Serialization.{KeyPair, key_pair}
use quantum_safe_py.Kem.Algorithms.{
  parse_hybrid_name, canonical_hybrid_name, validate_hybrid_combination,
}
use quantum_safe_py.Kem.Algorithms.Names.{validate-IsApproved, has-canonical_hybrid_name}
use quantum_safe_py.Kem.Types.{
  SharedSecret, HybridCipherText, hybrid_cipher_text, to_bytes, from_bytes, combine_shared_secrets,
}
use quantum_safe_py.Kem.Types.Framing.{from_bytes-to_bytes}
use quantum_safe_py.Kem.Hybrid.{
  Primitives, HybridKem, hybrid_kem, generate_keypair, encapsulate, decapsulate,
  gen_classical_keypair, pack_components, unpack_components, encapsulate_classical,
}
use quantum_safe_py.Kem.Hybrid.Agreement.{IsPrimitives, decapsulate-encapsulate}
use quantum_safe_py.Stream.Format.{
  Suites, stream_encapsulate, stream_decapsulate, ml_kem_1024_name, xwing_name,
}
use quantum_safe_py.Stream.RoundTrip.{IsKeyPair}

-- A name with a `+` is neither of the two plain KEMs.
pub differs :
    (name other : Bytes)
    → has b'+' name ≡ true
    → has b'+' other ≡ false
    → bytes_eq name other ≡ false
differs name other h k = elim (Bool-cases (bytes_eq name other)) [
  | inl e ↦
      let same : name ≡ other = (bytes_eq_iff name other).0 e in
      let bad : true ≡ false = sym h ∙ ap (has b'+') same ∙ k in cc bad
  | inr e ↦ e
]

public_key_algorithm :
    (raw algorithm tag : Bytes) (k : PublicKey)
    → public_key raw algorithm hybrid_transition tag ≡ ok k
    → k.algorithm ≡ algorithm
unfolding public_key
public_key_algorithm raw algorithm tag k h = ground arith

secret_key_algorithm :
    (raw algorithm tag : Bytes) (k : SecretKey)
    → secret_key raw algorithm hybrid_transition tag ≡ ok k
    → k.algorithm ≡ algorithm
unfolding secret_key
secret_key_algorithm raw algorithm tag k h = ground arith

key_pair_parts :
    (a : PublicKey) (b : SecretKey) (keys : KeyPair)
    → key_pair a b ≡ ok keys
    → (keys.public ≡ a) × (keys.secret ≡ b)
unfolding key_pair
key_pair_parts a b keys h = ground arith

generated_algorithms :
    (p : Primitives) (k : HybridKem) (s s' : Bytes) (keys : KeyPair)
    → generate_keypair p k s s' ≡ ok keys
    → (keys.public.algorithm ≡ k.algorithm) × (keys.secret.algorithm ≡ k.algorithm)
unfolding generate_keypair
generated_algorithms p k s s' keys h =
    let ((a, b), _, h1) = >>=-eq-ok (gen_classical_keypair p k s) _ h in
    let (x, _, h2) = >>=-eq-ok (pack_components b (p.backend.keygen k.pqc s').0) _ h1 in
    let (y, _, h3) = >>=-eq-ok (pack_components a (p.backend.keygen k.pqc s').1) _ h2 in
    let (pk, pe, h4) = >>=-eq-ok (public_key x k.algorithm hybrid_transition p.backend.name) _ h3 in
    let (sk, se, h5) = >>=-eq-ok (secret_key y k.algorithm hybrid_transition p.backend.name) _ h4 in
    let (same_pk, same_sk) = key_pair_parts pk sk keys h5 in
    (
      ap (λ (k : PublicKey). k.algorithm) same_pk ∙ public_key_algorithm _ _ _ pk pe,
      ap (λ (k : SecretKey). k.algorithm) same_sk ∙ secret_key_algorithm _ _ _ sk se,
    )

record Framed (k : HybridKem) (ct : HybridCipherText) : Type 0 where
  algorithm : ct.algorithm ≡ k.algorithm
  classical : 0 < length ct.classical_ct
  pqc : 0 < length ct.pqc_ct

hybrid_cipher_text-Framed :
    (x y : Bytes) (k : HybridKem) (ct : HybridCipherText)
    → hybrid_cipher_text x y k.algorithm ≡ ok ct
    → Framed k ct
unfolding hybrid_cipher_text
hybrid_cipher_text-Framed x y k ct h = record {
  algorithm = ground arith;
  classical = ground arith;
  pqc = ground arith;
}

encapsulate-Framed :
    (p : Primitives) (k : HybridKem) (t t' : Bytes) (pk : PublicKey) (ct : HybridCipherText)
    (ss : SharedSecret)
    → encapsulate p k t t' pk ≡ ok (ct, ss)
    → Framed k ct
unfolding encapsulate
encapsulate-Framed p k t t' pk ct ss h =
    let (_, h1) = >>-eq-ok (bytes_eq pk.algorithm k.algorithm) unsupported_algorithm _ h in
    let ((a, b), _, h2) = >>=-eq-ok (unpack_components pk.raw) _ h1 in
    let ((c, d), _, h3) = >>=-eq-ok (encapsulate_classical p k t a) _ h2 in
    let ((x, y), _, h4) = >>=-eq-ok (p.backend.encapsulate k.pqc t' b) _ h3 in
    let (made, e, h5) = >>=-eq-ok (hybrid_cipher_text c x k.algorithm) _ h4 in
    let (u, _, h6) = >>=-eq-ok (combine_shared_secrets p.kdf d (take 32 y) k.algorithm c x) _ h5 in
    let same : made ≡ ct = cc h6 in hybrid_cipher_text-Framed c x k ct (e ∙ ap ok same)

to_bytes_fits :
    (ct : HybridCipherText) (b : Bytes) → to_bytes ct ≡ ok b → length ct.classical_ct < 2 ^ 16
unfolding to_bytes pack_u16
to_bytes_fits ct b h = ground arith

from_wire :
    (k : HybridKem) (ct : HybridCipherText) (b : Bytes)
    → Framed k ct
    → to_bytes ct ≡ ok b
    → from_bytes b k.algorithm ≡ ok ct
from_wire k ct b f e =
    let h = from_bytes-to_bytes ct f.classical (to_bytes_fits ct b e) f.pqc in
    let direct : from_bytes b ct.algorithm ≡ ok ct = rw e at h in
    ap (from_bytes b) (sym f.algorithm) ∙ direct

module _ (suites : Suites) (classical pqc : Bytes) (k : HybridKem) (s s' : Bytes) (keys : KeyPair)
    (made : hybrid_kem suites.primitives classical pqc true ≡ ok k)
    (law : IsPrimitives suites.primitives pqc)
    (generated : generate_keypair suites.primitives k s s' ≡ ok keys) where
  kem_name : k.algorithm ≡ canonical_hybrid_name classical pqc
  unfolding hybrid_kem
  kem_name =
      let (_, valid, h1) = >>=-eq-ok (validate_hybrid_combination classical pqc) _ made in
      let (_, h2) =
        >>-eq-ok
          (one_of pqc suites.primitives.backend.supported
            || not suites.primitives.backend.is_available)
          unsupported_algorithm _ h1 in
      let e : record {
        classical = classical;
        pqc = pqc;
        algorithm = canonical_hybrid_name classical pqc;
      }
          ≡ k =
        cc h2 in
      ap (λ (k : HybridKem). k.algorithm) (sym e)

  parsed : parse_hybrid_name (canonical_hybrid_name classical pqc) ≡ ok (classical, pqc)
  unfolding hybrid_kem
  parsed =
      let (_, valid, h1) = >>=-eq-ok (validate_hybrid_combination classical pqc) _ made in
      (validate-IsApproved classical pqc valid).parsed

  received :
      (t t' : Bytes) (ct : HybridCipherText) (ss : SharedSecret)
      → encapsulate suites.primitives k t t' keys.public ≡ ok (ct, ss)
      → decapsulate suites.primitives k keys.secret ct ≡ ok ss
  received t t' ct ss h =
      let x = decapsulate-encapsulate suites.primitives classical pqc k s s' t t' made law in
      let same : x.keys ≡ keys = cc (sym x.generated ∙ generated) in
      let sent : encapsulate suites.primitives k t t' keys.public ≡ ok (x.ct, x.ss) =
        rw same at x.sent in
      let both : ◌≡◌ {A = Result (HybridCipherText × SharedSecret)} (ok (x.ct, x.ss))
          (ok (ct, ss)) =
        sym sent ∙ h in
      let one : x.ct ≡ ct = cc both in
      let two : x.ss ≡ ss = cc both in
      let r : decapsulate suites.primitives k keys.secret x.ct ≡ ok x.ss = rw same at x.received in
      ap (decapsulate suites.primitives k keys.secret) (sym one) ∙ r ∙ ap ok two

  agree :
      keys.public.algorithm ≡ k.algorithm
      → (t t' ct : Bytes) (ss : SharedSecret)
      → stream_encapsulate suites t t' keys.public ≡ ok (ct, ss)
      → stream_decapsulate suites keys.secret keys.public.algorithm ct ≡ ok ss
  unfolding stream_encapsulate stream_decapsulate
  agree name t t' ct ss h =
      let full = name ∙ kem_name in
      let plus : has b'+' keys.public.algorithm ≡ true =
        ap (has b'+') full ∙ has-canonical_hybrid_name classical pqc in
      let no_ml = differs keys.public.algorithm ml_kem_1024_name plus (unfold has in refl) in
      let no_xwing = differs keys.public.algorithm xwing_name plus (unfold has in refl) in
      let names : parse_hybrid_name keys.public.algorithm ≡ ok (classical, pqc) =
        ap parse_hybrid_name full ∙ parsed in
      let h1 = rw (no_ml, no_xwing, names, made) at h in
      let ((hct, hss), sent, h2) =
        >>=-eq-ok (encapsulate suites.primitives k t t' keys.public) _ h1 in
      let (b, wire, h3) = >>=-eq-ok (to_bytes hct) _ h2 in
      let same_b : b ≡ ct = cc h3 in
      let same_s : hss ≡ ss = cc h3 in
      let back : from_bytes ct keys.public.algorithm ≡ ok hct =
        ap (from_bytes ct) name
        ∙ from_wire k hct ct (encapsulate-Framed suites.primitives k t t' keys.public hct hss sent)
            (wire ∙ ap ok same_b) in
      rw (no_ml, no_xwing, names, made, back) (received t t' hct hss sent ∙ ap ok same_s)

-- A stream to a hybrid key decapsulates what was encapsulated: every key pair that the hybrid KEM of
-- an approved combination generates, over primitives that are correct, is a key pair for streams.
pub generate_keypair-IsKeyPair :
    (suites : Suites) (classical pqc : Bytes) (k : HybridKem) (s s' : Bytes) (keys : KeyPair)
    → hybrid_kem suites.primitives classical pqc true ≡ ok k
    → IsPrimitives suites.primitives pqc
    → generate_keypair suites.primitives k s s' ≡ ok keys
    → IsKeyPair suites keys.public keys.secret
generate_keypair-IsKeyPair suites classical pqc k s s' keys made law generated =
    let (pk_name, sk_name) = generated_algorithms suites.primitives k s s' keys generated in
    record {
      algorithm = sk_name ∙ sym pk_name;
      agrees = λ t t' ct ss h.
          agree suites classical pqc k s s' keys made law generated pk_name t t' ct ss h;
    }
