-- ===== src/Kem/Hybrid/Agreement.antt =====
-- Both sides of a hybrid key exchange derive the same secret.
use quantum_safe_py.Prelude.{
  ◌<◌, ◌≡◌, refl, subst, ◌⊎◌, inl, inr, true, not, some, ◌∷◌, ◌++◌, Bytes, text, bytes_eq,
  bytes_eq_iff, bytes_eq_refl, has, one_of, is_ascii, length, take, ◌||◌, arith,
}
use quantum_safe_py.Outcome.{ok, >>=-eq-ok, >>-eq-ok}
use quantum_safe_py.Keys.{hybrid_transition, public_key, secret_key, size_ok}
use quantum_safe_py.Keys.Serialization.{KeyPair, key_pair}
use quantum_safe_py.Kem.Algorithms.{
  classical_names, canonical_hybrid_name, validate_hybrid_combination,
}
use quantum_safe_py.Kem.Algorithms.Names.{validate-IsApproved, has-canonical_hybrid_name}
use quantum_safe_py.Kem.Types.{
  Kdf, IsKdf, sha256, combiner_info, SharedSecret, shared_secret, HybridCipherText,
  hybrid_cipher_text, combine_shared_secrets,
}
use quantum_safe_py.Kem.Hybrid.{
  Primitives, HybridKem, ec_curve, generate_keypair, encapsulate, decapsulate, hybrid_kem,
}
use quantum_safe_py.Kem.Hybrid.Laws.{IsX25519, IsCurve, IsBackend}
use quantum_safe_py.Kem.Hybrid.Packing.{packed, pack_components_fits, unpack_components-packed}
use quantum_safe_py.Kem.Hybrid.Halves.{ClassicalAgrees, x25519_agrees, curve_agrees}

-- The hypotheses on the third-party code, for one post-quantum algorithm.
pub record IsPrimitives (p : Primitives) (pqc : Bytes) : Type 0 where
  pub x25519 : IsX25519 p.x25519
  pub p256 : IsCurve 32 p.p256
  pub p384 : IsCurve 48 p.p384
  pub backend : IsBackend p.backend pqc
  pub kdf : IsKdf p.kdf

classical-cases :
    (c : Bytes)
    → one_of c classical_names ≡ true
    → (c ≡ text "X25519") ⊎ (c ≡ text "P-256") ⊎ (c ≡ text "P-384")
unfolding one_of classical_names
classical-cases c h = ground (
  arith,
  bytes_eq_iff c (text "X25519"),
  bytes_eq_iff c (text "P-256"),
  bytes_eq_iff c (text "P-384"),
)

classical_agrees :
    (p : Primitives) (k : HybridKem) (s t : Bytes)
    → one_of k.classical classical_names ≡ true
    → IsPrimitives p k.pqc
    → ClassicalAgrees p k s t
unfolding ec_curve bytes_eq
classical_agrees p k s t known law = elim (classical-cases k.classical known) [
  | inl e ↦ x25519_agrees p k s t e law.x25519
  | inr (inl e) ↦ curve_agrees p k s t (rw e refl) (rw e refl) (omega arith) law.p256
  | inr (inr e) ↦ curve_agrees p k s t (rw e refl) (rw e refl) (omega arith) law.p384
]

-- A whole exchange: a key pair, an encapsulation to its public key, and the decapsulation, which
-- gives the sender's secret.
pub record Exchange (p : Primitives) (k : HybridKem) (s s' t t' : Bytes) : Type 0 where
  pub keys : KeyPair
  pub ct : HybridCipherText
  pub ss : SharedSecret
  pub generated : generate_keypair p k s s' ≡ ok keys
  pub sent : encapsulate p k t t' keys.public ≡ ok (ct, ss)
  pub received : decapsulate p k keys.secret ct ≡ ok ss

public_key_hybrid :
    (a b algorithm tag : Bytes)
    → has b'+' algorithm ≡ true
    → public_key (packed a b) algorithm hybrid_transition tag
      ≡ ok (record {
        raw = packed a b;
        algorithm = algorithm;
        migration_state = hybrid_transition;
        backend_tag = tag;
      })
unfolding public_key size_ok packed
public_key_hybrid a b algorithm tag h = rw h (ground arith)

secret_key_hybrid :
    (a b algorithm tag : Bytes)
    → secret_key (packed a b) algorithm hybrid_transition tag
      ≡ ok (record {
        raw = packed a b;
        algorithm = algorithm;
        migration_state = hybrid_transition;
        backend_tag = tag;
      })
unfolding secret_key packed
secret_key_hybrid a b algorithm tag = ground arith

combined :
    (k : Kdf) (a b algorithm x y : Bytes)
    → IsKdf k
    → is_ascii algorithm ≡ true
    → (ss : SharedSecret) × (combine_shared_secrets k a b algorithm x y ≡ ok ss)
unfolding combine_shared_secrets shared_secret
combined k a b algorithm x y law h = (
  record {
    secret = k.hkdf sha256 32 (some (x ++ y)) (combiner_info ++ (0 ∷ algorithm)) (a ++ b);
    algorithm = algorithm;
    is_hybrid = true;
  },
  rw (h, law.length_hkdf) refl,
)

hybrid_cipher_text_nonempty :
    (x y algorithm : Bytes)
    → 0 < length x
    → 0 < length y
    → hybrid_cipher_text x y algorithm
      ≡ ok (record { classical_ct = x; pqc_ct = y; algorithm = algorithm })
unfolding hybrid_cipher_text
hybrid_cipher_text_nonempty x y algorithm hx hy = ground arith

Exchange-of_parts :
    (p : Primitives) (k : HybridKem) (s s' t t' : Bytes)
    → has b'+' k.algorithm ≡ true
    → is_ascii k.algorithm ≡ true
    → IsPrimitives p k.pqc
    → ClassicalAgrees p k s t
    → Exchange p k s s' t t'
unfolding generate_keypair encapsulate decapsulate key_pair
Exchange-of_parts p k s s' t t' plus ascii law c =
    let (ct, ss, sent, received, nonempty) = law.backend.agrees s' t' in
    let (secret, derived) = combined p.kdf c.ss (take 32 ss) k.algorithm c.ct ct law.kdf ascii in
    record {
      keys = record {
        public = record {
          raw = packed c.peer (p.backend.keygen k.pqc s').0;
          algorithm = k.algorithm;
          migration_state = hybrid_transition;
          backend_tag = p.backend.name;
        };
        secret = record {
          raw = packed c.private (p.backend.keygen k.pqc s').1;
          algorithm = k.algorithm;
          migration_state = hybrid_transition;
          backend_tag = p.backend.name;
        };
      };
      ct = record { classical_ct = c.ct; pqc_ct = ct; algorithm = k.algorithm };
      ss = secret;
      generated = rw (
        c.generated,
        pack_components_fits _ _ c.peer_fits,
        pack_components_fits _ _ c.private_fits,
        public_key_hybrid _ _ _ p.backend.name plus,
        secret_key_hybrid,
        bytes_eq_refl k.algorithm,
      );
      sent = rw (
        bytes_eq_refl k.algorithm,
        unpack_components-packed,
        c.sent,
        sent,
        hybrid_cipher_text_nonempty _ _ _ c.ct_nonempty nonempty,
        derived,
      );
      received =
          rw (bytes_eq_refl k.algorithm, unpack_components-packed, c.received, received, derived);
    }

-- For an approved combination, and primitives that are correct, every key generation and every
-- encapsulation to the generated key succeeds, and decapsulation gives the sender's secret, for all
-- random seeds.
pub decapsulate-encapsulate :
    (p : Primitives) (classical pqc : Bytes) (k : HybridKem) (s s' t t' : Bytes)
    → hybrid_kem p classical pqc true ≡ ok k
    → IsPrimitives p pqc
    → Exchange p k s s' t t'
unfolding hybrid_kem
decapsulate-encapsulate p classical pqc k s s' t t' h law =
    let (u, valid, h1) = >>=-eq-ok (validate_hybrid_combination classical pqc) _ h in
    let good = validate-IsApproved classical pqc valid in
    let (_, h2) = >>-eq-ok (one_of pqc p.backend.supported || not p.backend.is_available) _ _ h1 in
    let made : HybridKem = record {
      classical = classical;
      pqc = pqc;
      algorithm = canonical_hybrid_name classical pqc;
    } in
    let e : made ≡ k = cc h2 in
    subst (λ j. Exchange p j s s' t t') e
      (Exchange-of_parts p made s s' t t' (has-canonical_hybrid_name classical pqc) good.ascii law
        (classical_agrees p made s t good.known law))
