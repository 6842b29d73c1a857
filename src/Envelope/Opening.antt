-- ===== src/Envelope/Opening.antt =====
-- protocols/envelope.py: what a message that opens is, and that it is one that `seal` gives.
use quantum_safe_py.Prelude.{
  ℕ, ◌≡◌, refl, sym, subst, ap, ◌∙◌, Bool, true, false, not, Option, none, some, ◌++◌, Bytes,
  bytes_eq, bytes_eq_iff, is_ascii, length, ltb, ==_iff, append_inj,
}
use quantum_safe_py.Outcome.{
  ok, value_error, unicode_error, unsupported_algorithm, invalid_tag, require, >>=-eq-ok, >>-eq-ok,
}
use quantum_safe_py.Cbor.{Value, nat, neg, bool, null, string, bytes, real, array, dict, other}
use quantum_safe_py.Keys.{PublicKey, SecretKey}
use quantum_safe_py.Kem.Hybrid.{HybridKem}
use quantum_safe_py.Stream.Cipher.{IsAead}
use quantum_safe_py.Envelope.{
  SealedMessage, EnvelopeEnv, version_for, built_aad, open_key, open_envelope, check_aad,
  is_version, or_invalid, SealDraws, seal_key, seal_envelope, sealed_message,
  cnsa2_envelope_algorithm,
}
use quantum_safe_py.Kem.XWing.{XWingPrimitives}
use quantum_safe_py.Kem.Core.{PlainKem, plain_kem}
use quantum_safe_py.Stream.RoundTrip.{IsKeyPair}
use quantum_safe_py.Stream.PlainKeys.{suites_of}
use quantum_safe_py.Envelope.Agreement.{IsSized, seal_key-open_key}
use quantum_safe_py.Envelope.RoundTrip.{seal_envelope-Sealed}

-- A message that opened to `p`: it carries the expected AAD, its version is the one of its algorithm,
-- and its ciphertext is what encryption of `p` gives, under the key that its KEM ciphertext holds, with
-- the version, the algorithm and the AAD as associated data.
pub record Opened (env : EnvelopeEnv) (m : SealedMessage) (secret : SecretKey)
    (kem : Option HybridKem) (expected p : Bytes) : Type 0 where
  pub version : ℕ
  pub enc_key : Bytes
  pub full : Bytes
  pub aad : m.aad ≡ expected
  pub versioned : (version_for m.algorithm ≡ ok version) × (m.version ≡ nat version)
  pub keyed : open_key env version m secret kem ≡ ok enc_key
  pub bound : built_aad version m.algorithm expected ≡ ok full
  pub encrypted : m.ciphertext ≡ env.aead.encrypt enc_key m.nonce p full

is_version-nat : (v : Value) (n : ℕ) → is_version v n ≡ true → v ≡ nat n
is_version-nat (nat m) n h = ap nat ((==_iff m n).0 h)
is_version-nat (neg m) n h = cc
is_version-nat (bool b) n h = cc
is_version-nat null n h = cc
is_version-nat (string s) n h = cc
is_version-nat (bytes s) n h = cc
is_version-nat (real o s) n h = cc
is_version-nat (array vs) n h = cc
is_version-nat (dict d) n h = cc
is_version-nat (other s) n h = cc

or_invalid-eq-ok : (o : Option Bytes) (p : Bytes) → or_invalid o ≡ ok p → o ≡ some p
or_invalid-eq-ok none p h = cc
or_invalid-eq-ok (some q) p h = cc

require-eq-ok : (t : Bool) {u : Unit {0}} → require t invalid_tag ≡ ok u → t ≡ true
require-eq-ok true h = refl
require-eq-ok false h = cc

-- What `open` returned, taken apart, for any secret key. AES-GCM decrypts to a plaintext only what it
-- encrypts it to.
pub open_envelope-Opened :
    (env : EnvelopeEnv) (m : SealedMessage) (secret : SecretKey) (kem : Option HybridKem)
    (expected p : Bytes)
    → IsAead env.aead
    → open_envelope env m secret kem (some expected) ≡ ok p
    → Opened env m secret kem expected p
unfolding open_envelope
open_envelope-Opened env m secret kem expected p law h =
    let (u, checked, h1) = >>=-eq-ok (check_aad (some expected) m.aad) _ h in
    let (v, found, h2) = >>=-eq-ok (version_for m.algorithm) _ h1 in
    let (same, h3) = >>-eq-ok (is_version m.version v) unsupported_algorithm _ h2 in
    let (key, opened, h4) = >>=-eq-ok (open_key env v m secret kem) _ h3 in
    let (full, built, h5) = >>=-eq-ok (built_aad v m.algorithm m.aad) _ h4 in
    let carried : m.aad ≡ expected =
      (bytes_eq_iff m.aad expected).0 (require-eq-ok (bytes_eq m.aad expected) checked) in
    let decrypted = or_invalid-eq-ok (env.aead.decrypt key m.nonce m.ciphertext full) p h5 in
    record {
      version = v;
      enc_key = key;
      full = full;
      aad = carried;
      versioned = (found, is_version-nat m.version v same);
      keyed = opened;
      bound = subst (λ a. built_aad v m.algorithm a ≡ ok full) carried built;
      encrypted = sym (law.encrypt_decrypt key m.nonce m.ciphertext full p decrypted);
    }

-- The associated data determines the version, the algorithm and the caller's AAD.
pub built_aad_injective :
    (v w : ℕ) (a b x y full : Bytes)
    → built_aad v a x ≡ ok full
    → built_aad w b y ≡ ok full
    → (v ≡ w) × (a ≡ b) × (x ≡ y)
unfolding built_aad
built_aad_injective v w a b x y full h k =
    let (_, h1) = >>-eq-ok (is_ascii a) unicode_error _ h in
    let (_, h2) = >>-eq-ok (not (ltb 255 (length a))) value_error _ h1 in
    let (_, k1) = >>-eq-ok (is_ascii b) unicode_error _ k in
    let (_, k2) = >>-eq-ok (not (ltb 255 (length b))) value_error _ k1 in
    let first : v ≡ w = cc in
    let long : length a ≡ length b = cc in
    let rest : a ++ x ≡ b ++ y = cc in
    let (one, two) = append_inj a b x y long rest in (first, one, two)

-- The encryption key does not depend on the nonce.
seal_key-nonce :
    (env : EnvelopeEnv) (version : ℕ) (draws : SealDraws) (n : Bytes) (pk : PublicKey)
    → seal_key env version (record draws { nonce = n }) pk none ≡ seal_key env version draws pk none
unfolding seal_key
seal_key-nonce env version draws n pk = refl

-- What sealing gives, from its parts.
seal_envelope-ok :
    (env : EnvelopeEnv) (draws : SealDraws) (p : Bytes) (pk : PublicKey) (aad : Bytes) (v : ℕ)
    (ct key full : Bytes)
    → version_for pk.algorithm ≡ ok v
    → seal_key env v draws pk none ≡ ok (ct, key)
    → built_aad v pk.algorithm aad ≡ ok full
    → length draws.nonce ≡ 12
    → seal_envelope env draws p pk aad none
      ≡ ok (record {
        version = nat v;
        algorithm = pk.algorithm;
        kem_ct = ct;
        nonce = draws.nonce;
        ciphertext = env.aead.encrypt key draws.nonce p full;
        aad = aad;
      })
unfolding seal_envelope sealed_message
seal_envelope-ok env draws p pk aad v ct key full found keyed bound n =
    rw (found, keyed, bound, n) refl

same_message :
    (m n : SealedMessage)
    → m.version ≡ n.version
    → m.algorithm ≡ n.algorithm
    → m.kem_ct ≡ n.kem_ct
    → m.nonce ≡ n.nonce
    → m.ciphertext ≡ n.ciphertext
    → m.aad ≡ n.aad
    → m ≡ n
same_message m n version algorithm kem_ct nonce ciphertext aad = λ i. record {
  version = version i;
  algorithm = algorithm i;
  kem_ct = kem_ct i;
  nonce = nonce i;
  ciphertext = ciphertext i;
  aad = aad i;
}

module _ (env : EnvelopeEnv) (x : XWingPrimitives) (k : PlainKem) (law : IsAead env.aead)
    (chosen : plain_kem cnsa2_envelope_algorithm false ≡ ok k)
    (sized : IsSized env.primitives.backend) where
  -- Whoever makes up a message around a KEM ciphertext that sealing gave for a public key, with any other
  -- version, nonce, ciphertext and AAD: if it opens with the secret key under an expected AAD, it is the
  -- very message that sealing what was returned gives, with that AAD, the same draws of the KEM and its
  -- nonce of 12 bytes. The keys are a key pair of the stream, AES-GCM decrypts to a plaintext only what it
  -- encrypts it to, and ML-KEM-1024 ciphertexts have 1568 bytes.
  pub seal_envelope-open_envelope :
      (draws : SealDraws) (q : Bytes) (pk : PublicKey) (sk : SecretKey) (aad : Bytes)
      (s m : SealedMessage) (expected p : Bytes)
      → IsKeyPair (suites_of env.primitives x k) pk sk
      → seal_envelope env draws q pk aad none ≡ ok s
      → m.kem_ct ≡ s.kem_ct
      → m.algorithm ≡ s.algorithm
      → length m.nonce ≡ 12
      → open_envelope env m sk none (some expected) ≡ ok p
      → seal_envelope env (record draws { nonce = m.nonce }) p pk expected none ≡ ok m
  seal_envelope-open_envelope draws q pk sk aad s m expected p pair sent same_ct same_name n
        opened =
      let made = seal_envelope-Sealed env draws q pk aad s sent in
      let o = open_envelope-Opened env m sk none expected p law opened in
      let name : m.algorithm ≡ pk.algorithm =
        same_name ∙ ap (λ (y : SealedMessage). y.algorithm) made.message in
      let ct : m.kem_ct ≡ made.kem_ct =
        same_ct ∙ ap (λ (y : SealedMessage). y.kem_ct) made.message in
      let found : version_for pk.algorithm ≡ ok o.version = rw name at o.versioned.0 in
      let v : made.version ≡ o.version = cc (sym made.found ∙ found) in
      let keyed : seal_key env o.version draws pk none ≡ ok (m.kem_ct, made.enc_key) =
        rw (ct, ← v) made.keyed in
      let got =
        seal_key-open_key env x k chosen sized pk sk pair draws m o.version made.enc_key name found
          keyed in
      let key : made.enc_key ≡ o.enc_key = cc (sym got ∙ o.keyed) in
      let bound : built_aad o.version pk.algorithm expected ≡ ok o.full = rw name at o.bound in
      seal_envelope-ok env (record draws { nonce = m.nonce }) p pk expected o.version m.kem_ct
        o.enc_key o.full found (seal_key-nonce env o.version draws m.nonce pk ∙ rw key at keyed)
        bound n
      ∙ ap ok
          (same_message _ m (sym o.versioned.1) (sym name) refl refl (sym o.encrypted) (sym o.aad))
