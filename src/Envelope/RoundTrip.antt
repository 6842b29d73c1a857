-- ===== src/Envelope/RoundTrip.antt =====
-- protocols/envelope.py: `open` on what `seal` gives, and `rewrap`.
use quantum_safe_py.Prelude.{
  ℕ, ◌≡◌, ◌≤◌, refl, sym, subst, ap, ◌∙◌, true, false, Option, none, some, Bytes, text, bytes_eq,
  bytes_eq_refl, length, ◌==◌, ==_iff,
}
use quantum_safe_py.Outcome.{ok, value_error, ◌>>=◌, >>=-eq-ok, >>-eq-ok}
use quantum_safe_py.Cbor.{
  Value, Cbor2, ReadsBack, nat, string, bytes, dict, field, end, get, is_text, loads-written,
  max_payload,
}
use quantum_safe_py.Keys.{PublicKey, SecretKey}
use quantum_safe_py.Keys.Serialization.{as_dict, text_field, bytes_field}
use quantum_safe_py.Kem.XWing.{XWingPrimitives}
use quantum_safe_py.Kem.Core.{PlainKem, plain_kem}
use quantum_safe_py.Stream.Cipher.{IsAead}
use quantum_safe_py.Stream.RoundTrip.{IsKeyPair}
use quantum_safe_py.Stream.PlainKeys.{suites_of}
use quantum_safe_py.Envelope.{
  SealedMessage, sealed_message, EnvelopeEnv, SealDraws, version_for, built_aad, seal_key, open_key,
  seal_envelope, open_envelope, rewrap, is_version, or_own, cnsa2_envelope_algorithm,
  sealed_to_bytes, sealed_from_bytes,
}
use quantum_safe_py.Envelope.Agreement.{IsSized, seal_key-open_key}

-- A message that `seal` returned, with the values it was made of.
pub record Sealed (env : EnvelopeEnv) (draws : SealDraws) (p : Bytes) (pk : PublicKey) (aad : Bytes)
    (m : SealedMessage) : Type 0 where
  pub version : ℕ
  pub kem_ct : Bytes
  pub enc_key : Bytes
  pub full : Bytes
  pub found : version_for pk.algorithm ≡ ok version
  pub keyed : seal_key env version draws pk none ≡ ok (kem_ct, enc_key)
  pub bound : built_aad version pk.algorithm aad ≡ ok full
  pub nonce : length draws.nonce ≡ 12
  pub message : m ≡ record {
    version = nat version;
    algorithm = pk.algorithm;
    kem_ct = kem_ct;
    nonce = draws.nonce;
    ciphertext = env.aead.encrypt enc_key draws.nonce p full;
    aad = aad;
  }

pub seal_envelope-Sealed :
    (env : EnvelopeEnv) (draws : SealDraws) (p : Bytes) (pk : PublicKey) (aad : Bytes)
    (m : SealedMessage)
    → seal_envelope env draws p pk aad none ≡ ok m
    → Sealed env draws p pk aad m
unfolding seal_envelope sealed_message
seal_envelope-Sealed env draws p pk aad m h =
    let (v, found, h1) = >>=-eq-ok (version_for pk.algorithm) _ h in
    let ((ct, key), keyed, h2) = >>=-eq-ok (seal_key env v draws pk none) _ h1 in
    let (full, bound, h3) = >>=-eq-ok (built_aad v pk.algorithm aad) _ h2 in
    let (n, h4) = >>-eq-ok (length draws.nonce == 12) value_error _ h3 in
    record {
      version = v;
      kem_ct = ct;
      enc_key = key;
      full = full;
      found = found;
      keyed = keyed;
      bound = bound;
      nonce = (==_iff (length draws.nonce) 12).0 n;
      message = cc;
    }

abbrev wire_map : SealedMessage → Value
wire_map m = dict (
    field (string (text "v")) m.version (
      field (string (text "algo")) (string m.algorithm) (
        field (string (text "kct")) (bytes m.kem_ct) (
          field (string (text "n")) (bytes m.nonce) (
            field (string (text "ct")) (bytes m.ciphertext)
              (field (string (text "aad")) (bytes m.aad) end))))))

-- A message is read back from its bytes.
pub sealed_from_bytes-sealed_to_bytes :
    (c : Cbor2) (m : SealedMessage) (v : ℕ)
    → ReadsBack c (wire_map m)
    → m.version ≡ nat v
    → length m.nonce ≡ 12
    → length (sealed_to_bytes c m) ≤ max_payload
    → sealed_from_bytes c (sealed_to_bytes c m) ≡ ok m
unfolding sealed_from_bytes sealed_to_bytes sealed_message as_dict text_field bytes_field get
    is_text bytes_eq
sealed_from_bytes-sealed_to_bytes c m v back version nonce fits =
    let read = loads-written c (wire_map m) back fits in rw (read, version, nonce) refl

-- A message whose parts fit is opened.
opens :
    (env : EnvelopeEnv) (m : SealedMessage) (sk : SecretKey) (v : ℕ) (key full p : Bytes)
    → version_for m.algorithm ≡ ok v
    → m.version ≡ nat v
    → open_key env v m sk none ≡ ok key
    → built_aad v m.algorithm m.aad ≡ ok full
    → env.aead.decrypt key m.nonce m.ciphertext full ≡ some p
    → open_envelope env m sk none (some m.aad) ≡ ok p
unfolding open_envelope
opens env m sk v key full p found version opened bound decrypted =
    let current : is_version m.version v ≡ true =
      subst (λ w. is_version w v ≡ true) (sym version) ((==_iff v v).1 refl) in
    rw (bytes_eq_refl m.aad, found, current, opened, bound, decrypted) refl

module _ (env : EnvelopeEnv) (x : XWingPrimitives) (k : PlainKem) (law : IsAead env.aead)
    (chosen : plain_kem cnsa2_envelope_algorithm false ≡ ok k)
    (sized : IsSized env.primitives.backend) where
  -- What is sealed to a public key is opened with its secret key, under the AAD it was sealed with, for
  -- hybrid keys and for ML-KEM-1024. The keys are a key pair of the stream, AES-GCM decrypts what it
  -- encrypts, and ML-KEM-1024 ciphertexts have 1568 bytes.
  pub open_envelope-seal_envelope :
      (draws : SealDraws) (p : Bytes) (pk : PublicKey) (sk : SecretKey) (aad : Bytes)
      (m : SealedMessage)
      → IsKeyPair (suites_of env.primitives x k) pk sk
      → seal_envelope env draws p pk aad none ≡ ok m
      → open_envelope env m sk none (some aad) ≡ ok p
  open_envelope-seal_envelope draws p pk sk aad m pair h =
      let s = seal_envelope-Sealed env draws p pk aad m h in
      let made : SealedMessage = record {
        version = nat s.version;
        algorithm = pk.algorithm;
        kem_ct = s.kem_ct;
        nonce = draws.nonce;
        ciphertext = env.aead.encrypt s.enc_key draws.nonce p s.full;
        aad = aad;
      } in
      let key =
        seal_key-open_key env x k chosen sized pk sk pair draws made s.version s.enc_key refl
          s.found s.keyed in
      let opened =
        opens env made sk s.version s.enc_key s.full p s.found refl key s.bound
          (law.decrypt_encrypt s.enc_key draws.nonce p s.full) in
      subst (λ n. open_envelope env n sk none (some aad) ≡ ok p) (sym s.message) opened

  -- A message that is moved to another key opens under that key to the same plaintext, with the AAD that
  -- was asked for or the message's own; and it was opened under the old key, with the expected AAD.
  pub rewrap-open_envelope :
      (draws : SealDraws) (m n : SealedMessage) (old : SecretKey) (pk : PublicKey) (sk : SecretKey)
      (expected aad : Option Bytes)
      → IsKeyPair (suites_of env.primitives x k) pk sk
      → rewrap env draws m old pk expected aad ≡ ok n
      → (p : Bytes) × (open_envelope env m old none (some (or_own expected m.aad)) ≡ ok p)
        × (open_envelope env n sk none (some (or_own aad m.aad)) ≡ ok p)
  unfolding rewrap
  rewrap-open_envelope draws m n old pk sk expected aad pair h =
      let (p, opened, sealed) =
        >>=-eq-ok (open_envelope env m old none (some (or_own expected m.aad))) _ h in
      (p, opened, open_envelope-seal_envelope draws p pk sk (or_own aad m.aad) n pair sealed)

  -- The same over the wire: the bytes of a sealed message are read back as the message, which opens to
  -- the plaintext. Besides, cbor2 reads the message back, and it is within the serializer's limit.
  pub sealed_from_bytes-seal_envelope :
      (c : Cbor2) (draws : SealDraws) (p : Bytes) (pk : PublicKey) (sk : SecretKey) (aad : Bytes)
      (m : SealedMessage)
      → ((v : Value) → ReadsBack c v)
      → length (sealed_to_bytes c m) ≤ max_payload
      → IsKeyPair (suites_of env.primitives x k) pk sk
      → seal_envelope env draws p pk aad none ≡ ok m
      → (do
        read ← sealed_from_bytes c (sealed_to_bytes c m)
        open_envelope env read sk none (some aad))
        ≡ ok p
  sealed_from_bytes-seal_envelope c draws p pk sk aad m back fits pair h =
      let s = seal_envelope-Sealed env draws p pk aad m h in
      let read =
        sealed_from_bytes-sealed_to_bytes c m s.version (back _)
          (ap (λ (y : SealedMessage). y.version) s.message)
          (ap (λ (y : SealedMessage). length y.nonce) s.message ∙ s.nonce) fits in
      rw read (open_envelope-seal_envelope draws p pk sk aad m pair h)
