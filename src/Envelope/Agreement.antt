-- ===== src/Envelope/Agreement.antt =====
-- protocols/envelope.py: the key of `open` is the key of `seal`, for the key pairs of the stream.
use quantum_safe_py.Prelude.{
  ℕ, ◌≡◌, refl, sym, ap, ◌∙◌, true, false, none, Bytes, bytes_eq, bytes_eq_iff, has, length, ◌==◌,
  ==_iff, subst, inl, inr, Bool-cases, take,
}
use quantum_safe_py.Outcome.{
  ok, err, unsupported_algorithm, ◌>>=◌, or_raise, or_raise-eq-ok, >>=-eq-ok, >>-eq-ok,
}
use quantum_safe_py.Keys.{PublicKey, SecretKey}
use quantum_safe_py.Kem.Algorithms.{parse_hybrid_name}
use quantum_safe_py.Kem.Types.{
  SharedSecret, CipherText, HybridCipherText, cipher_text, shared_secret, to_bytes, from_bytes,
  derive_key, sha256, sha384,
}
use quantum_safe_py.Kem.Hybrid.{KemBackend, HybridKem, hybrid_kem, encapsulate, decapsulate}
use quantum_safe_py.Kem.XWing.{XWingPrimitives}
use quantum_safe_py.Kem.Core.{PlainKem, plain_kem, encapsulate_plain, decapsulate_plain}
use quantum_safe_py.Kem.Core.Agreement.{cipher_text-content}
use quantum_safe_py.Stream.Format.{
  Suites, stream_encapsulate, stream_decapsulate, ml_kem_1024_name, xwing_name,
}
use quantum_safe_py.Stream.RoundTrip.{IsKeyPair}
use quantum_safe_py.Stream.HybridKeys.{differs}
use quantum_safe_py.Stream.PlainKeys.{
  suites_of, plain_suite, wire_form, encapsulate_ml_kem_key, decapsulate_ml_kem_key,
  plain_kem-algorithm,
}
use quantum_safe_py.Envelope.{
  SealedMessage, EnvelopeEnv, SealDraws, version_for, kem_for_algorithm, seal_key, open_key,
  envelope_version, envelope_version_cnsa2, cnsa2_envelope_algorithm, key_len, enc_key_info,
  enc_key_info_v2,
}

-- The stream's encapsulation to a hybrid key, step by step.
hybrid_encapsulates :
    (s : Suites) (t t' classical pqc b : Bytes) (key : PublicKey) (k : HybridKem)
    (ct : HybridCipherText) (ss : SharedSecret)
    → has b'+' key.algorithm ≡ true
    → parse_hybrid_name key.algorithm ≡ ok (classical, pqc)
    → hybrid_kem s.primitives classical pqc true ≡ ok k
    → encapsulate s.primitives k t t' key ≡ ok (ct, ss)
    → to_bytes ct ≡ ok b
    → stream_encapsulate s t t' key ≡ ok (b, ss)
unfolding stream_encapsulate
hybrid_encapsulates s t t' classical pqc b key k ct ss plus parsed made sent wired =
    let no_ml = differs key.algorithm ml_kem_1024_name plus (unfold has in refl) in
    let no_xwing = differs key.algorithm xwing_name plus (unfold has in refl) in
    rw (no_ml, no_xwing, parsed, made, sent, wired) refl

-- The stream's decapsulation of a hybrid ciphertext, taken apart.
hybrid_decapsulates :
    (s : Suites) (sk : SecretKey) (algorithm classical pqc b : Bytes) (k : HybridKem)
    (ss : SharedSecret)
    → has b'+' algorithm ≡ true
    → parse_hybrid_name algorithm ≡ ok (classical, pqc)
    → hybrid_kem s.primitives classical pqc true ≡ ok k
    → stream_decapsulate s sk algorithm b ≡ ok ss
    → (ct : HybridCipherText) × (from_bytes b algorithm ≡ ok ct)
      × (decapsulate s.primitives k sk ct ≡ ok ss)
unfolding stream_decapsulate
hybrid_decapsulates s sk algorithm classical pqc b k ss plus parsed made h =
    let no_ml = differs algorithm ml_kem_1024_name plus (unfold has in refl) in
    let no_xwing = differs algorithm xwing_name plus (unfold has in refl) in
    let h' : (do ct ← from_bytes b algorithm; decapsulate s.primitives k sk ct) ≡ ok ss =
      rw (no_ml, no_xwing, parsed, made) at h in
    >>=-eq-ok (from_bytes b algorithm) _ h'

-- ML-KEM-1024 ciphertexts have 1568 bytes.
abbrev pub IsSized : KemBackend → Type 0
IsSized b =
    (t pk ct ss : Bytes)
    → b.encapsulate cnsa2_envelope_algorithm t pk ≡ ok (ct, ss)
    → length ct ≡ 1568

-- The size of what `KEM("ML-KEM-1024")` encapsulates.
plain_size :
    (b : KemBackend) (k : PlainKem) (t : Bytes) (pk : PublicKey) (ct : CipherText)
    (ss : SharedSecret)
    → k.algorithm ≡ cnsa2_envelope_algorithm
    → IsSized b
    → encapsulate_plain b k t pk ≡ ok (ct, ss)
    → length ct.content ≡ 1568
unfolding encapsulate_plain
plain_size b k t pk ct ss name sized h =
    let (_, h1) = >>-eq-ok (bytes_eq pk.algorithm k.algorithm) unsupported_algorithm _ h in
    let ((c, s), sent, h2) = >>=-eq-ok (b.encapsulate k.algorithm t pk.raw) _ h1 in
    let (made, e, h3) = >>=-eq-ok (cipher_text c k.algorithm) _ h2 in
    let (u, _, h4) = >>=-eq-ok (shared_secret (take 32 s) k.algorithm false) _ h3 in
    let same : made ≡ ct = cc h4 in
    let sent' : b.encapsulate cnsa2_envelope_algorithm t pk.raw ≡ ok (c, s) =
      subst (λ a. b.encapsulate a t pk.raw ≡ ok (c, s)) name sent in
    ap (λ (y : CipherText). length y.content) (sym same)
    ∙ ap length (cipher_text-content c k.algorithm made e)
    ∙ sized t pk.raw c s sent'

module _ (env : EnvelopeEnv) (x : XWingPrimitives) (k : PlainKem)
    (chosen : plain_kem cnsa2_envelope_algorithm false ≡ ok k)
    (sized : IsSized env.primitives.backend) (pk : PublicKey) (sk : SecretKey)
    (pair : IsKeyPair (suites_of env.primitives x k) pk sk) where
  abbrev suites : Suites
  suites = suites_of env.primitives x k

  hybrid_key :
      (draws : SealDraws) (m : SealedMessage) (key : Bytes)
      → has b'+' pk.algorithm ≡ true
      → m.algorithm ≡ pk.algorithm
      → seal_key env envelope_version draws pk none ≡ ok (m.kem_ct, key)
      → open_key env envelope_version m sk none ≡ ok key
  unfolding seal_key open_key kem_for_algorithm suites_of
  hybrid_key draws m key plus name h =
      let (hk, found, h1) = >>=-eq-ok (kem_for_algorithm env pk.algorithm) _ h in
      let ((classical, pqc), parsed, made) =
        >>=-eq-ok (or_raise (parse_hybrid_name pk.algorithm) unsupported_algorithm) _ found in
      let ((ct, ss), sent, h2) =
        >>=-eq-ok (encapsulate env.primitives hk draws.seed draws.pqc_seed pk) _ h1 in
      let (b, wired, h3) = >>=-eq-ok (to_bytes ct) _ h2 in
      let p = or_raise-eq-ok (parse_hybrid_name pk.algorithm) unsupported_algorithm parsed in
      let one : b ≡ m.kem_ct = cc in
      let two : derive_key env.primitives.kdf ss key_len none enc_key_info sha256 ≡ key = cc in
      let drawn =
        hybrid_encapsulates suites draws.seed draws.pqc_seed classical pqc b pk hk ct ss plus p made
          sent wired in
      let recovered = pair.agrees draws.seed draws.pqc_seed b ss drawn in
      let (ct', read, got) =
        hybrid_decapsulates suites sk pk.algorithm classical pqc b hk ss plus p made recovered in
      rw (name, p, made, ← one, read, got) (ap ok two)

  plain_key :
      (draws : SealDraws) (m : SealedMessage) (key : Bytes)
      → pk.algorithm ≡ cnsa2_envelope_algorithm
      → seal_key env envelope_version_cnsa2 draws pk none ≡ ok (m.kem_ct, key)
      → open_key env envelope_version_cnsa2 m sk none ≡ ok key
  unfolding seal_key open_key suites_of plain_suite wire_form
  plain_key draws m key name h =
      let b = env.primitives.backend in
      let (k', found, h1) = >>=-eq-ok (plain_kem cnsa2_envelope_algorithm false) _ h in
      let ((ct, ss), sent, h2) = >>=-eq-ok (encapsulate_plain b k' draws.seed pk) _ h1 in
      let same : k' ≡ k = cc (sym found ∙ chosen) in
      let one : ct.content ≡ m.kem_ct = cc h2 in
      let two : derive_key env.primitives.kdf ss key_len none enc_key_info_v2 sha384 ≡ key =
        cc h2 in
      let sent' : encapsulate_plain b k draws.seed pk ≡ ok (ct, ss) = rw same at sent in
      let drawn : stream_encapsulate suites draws.seed draws.seed pk ≡ ok (ct.content, ss) =
        encapsulate_ml_kem_key suites draws.seed draws.seed pk name ∙ ap wire_form sent' in
      let recovered = pair.agrees draws.seed draws.seed ct.content ss drawn in
      let step : (do c ← cipher_text ct.content ml_kem_1024_name; decapsulate_plain b k sk c)
          ≡ ok ss =
        sym (decapsulate_ml_kem_key suites sk pk.algorithm ct.content name) ∙ recovered in
      let (c, read, got) = >>=-eq-ok (cipher_text ct.content ml_kem_1024_name) _ step in
      let long : (length ct.content == 1568) ≡ true = (==_iff (length ct.content) 1568).1 (
        plain_size b k draws.seed pk ct ss
          (plain_kem-algorithm cnsa2_envelope_algorithm false k chosen) sized sent') in
      rw (← one, long, chosen, read, got) (ap ok two)

  -- For either version.
  pub seal_key-open_key :
      (draws : SealDraws) (m : SealedMessage) (version : ℕ) (key : Bytes)
      → m.algorithm ≡ pk.algorithm
      → version_for pk.algorithm ≡ ok version
      → seal_key env version draws pk none ≡ ok (m.kem_ct, key)
      → open_key env version m sk none ≡ ok key
  unfolding version_for
  seal_key-open_key draws m version key name found h = elim (Bool-cases (has b'+' pk.algorithm)) [
    | inl plus ↦
        let one : ok 1 ≡ ok version = rw plus at found in
        let v : 1 ≡ version = cc in rw (← v) (hybrid_key draws m key plus name (rw (← v) at h))
    | inr minus ↦ elim (Bool-cases (bytes_eq pk.algorithm cnsa2_envelope_algorithm)) [
      | inl e ↦
          let two : ok 2 ≡ ok version = rw (minus, e) at found in
          let v : 2 ≡ version = cc in
          rw (← v) (
            plain_key draws m key ((bytes_eq_iff pk.algorithm cnsa2_envelope_algorithm).0 e)
              (rw (← v) at h))
      | inr e ↦
          let bad : err unsupported_algorithm ≡ ok version = rw (minus, e) at found in absurd (cc)
    ]
  ]
