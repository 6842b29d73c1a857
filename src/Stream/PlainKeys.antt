-- ===== src/Stream/PlainKeys.antt =====
-- The key pairs of kem/core.py (ML-KEM-1024) and of kem/xwing.py are key pairs of the stream, where
-- protocols/stream.py takes its KEMs from those files.
use quantum_safe_py.Prelude.{
  ◌≡◌, refl, sym, ap, ◌∙◌, Bool, true, false, not, ◌++◌, ◌||◌, take, drop, ltb, Bytes, bytes_eq,
  length, ◌==◌, arith,
}
use quantum_safe_py.Outcome.{
  Result, ok, err, value_error, unsupported_algorithm, insecure_operation, ◌>>=◌, >>=-eq-ok,
  >>-eq-ok,
}
use quantum_safe_py.Keys.{PublicKey, SecretKey}
use quantum_safe_py.Keys.Serialization.{KeyPair}
use quantum_safe_py.Kem.Algorithms.{get_algorithm_spec}
use quantum_safe_py.Kem.Types.{SharedSecret, shared_secret, CipherText, cipher_text}
use quantum_safe_py.Kem.Hybrid.{Primitives, KemBackend}
use quantum_safe_py.Kem.Hybrid.Laws.{IsBackend}
use quantum_safe_py.Kem.XWing.{
  XWingPrimitives, xwing, mlkem, mlkem_pk, combine, exchange_or_zeros, keypair_from_seed,
  encapsulate_xwing, decapsulate_xwing,
}
use quantum_safe_py.Kem.XWing.Agreement.{
  IsXWing, expanded, public_of, secret_of, keypair_from_seed-ok, decapsulate-encapsulate_xwing,
}
use quantum_safe_py.Kem.Core.{
  PlainKem, minimum_nist_level, plain_kem, generate_plain, encapsulate_plain, decapsulate_plain,
}
use quantum_safe_py.Kem.Core.Agreement.{generated_parts, decapsulate-encapsulate_plain}
use quantum_safe_py.Stream.Format.{
  Suites, Kem, stream_encapsulate, stream_decapsulate, ml_kem_1024_name, xwing_name,
}
use quantum_safe_py.Stream.RoundTrip.{IsKeyPair}

unfoldable pub wire_form : Result (CipherText × SharedSecret) → Result (Bytes × SharedSecret)
wire_form (err e) = err e
wire_form (ok (ct, ss)) = ok (ct.content, ss)

-- `KEM(...)` and `XWing()` as the stream uses them. X-Wing draws twice; each of its two draws is a part
-- of the one argument.
unfoldable pub plain_suite : KemBackend → PlainKem → Kem
unfolding wire_form
plain_suite b k = record {
  encapsulate = λ draw key. wire_form (encapsulate_plain b k draw key);
  decapsulate = decapsulate_plain b k;
}

unfoldable pub xwing_suite : XWingPrimitives → Kem
unfolding wire_form
xwing_suite x = record {
  encapsulate = λ draw key. wire_form (encapsulate_xwing x draw draw key);
  decapsulate = decapsulate_xwing x;
}

unfoldable pub suites_of : Primitives → XWingPrimitives → PlainKem → Suites
suites_of p x k = record {
  ml_kem_1024 = plain_suite p.backend k;
  xwing = xwing_suite x;
  primitives = p;
}

wire_form-eq-ok :
    (r : Result (CipherText × SharedSecret)) (b : Bytes) (ss : SharedSecret)
    → wire_form r ≡ ok (b, ss)
    → (ct : CipherText) × (r ≡ ok (ct, ss)) × (ct.content ≡ b)
unfolding wire_form
wire_form-eq-ok (err e) b ss h = absurd (cc)
wire_form-eq-ok (ok (ct, s)) b ss h =
    let one : ct.content ≡ b = cc in let two : s ≡ ss = cc in (ct, rw two refl, one)

-- The ciphertext object that is built again from the bytes.
cipher_text-again :
    (d name : Bytes) (ct : CipherText)
    → cipher_text d name ≡ ok ct
    → cipher_text ct.content name ≡ ok ct
unfolding cipher_text
cipher_text-again d name ct h = ground arith

sent_by_xwing :
    (x : XWingPrimitives) (t t' : Bytes) (key : PublicKey) (ct : CipherText) (ss : SharedSecret)
    → encapsulate_xwing x t t' key ≡ ok (ct, ss)
    → cipher_text ct.content xwing ≡ ok ct
unfolding encapsulate_xwing
sent_by_xwing x t t' key ct ss h =
    let (_, h1) = >>-eq-ok (bytes_eq key.algorithm xwing) unsupported_algorithm _ h in
    let (_, h2) = >>-eq-ok (length key.raw == 1216) value_error _ h1 in
    let ((a, b), _, h3) = >>=-eq-ok (x.backend.encapsulate mlkem t (take mlkem_pk key.raw)) _ h2 in
    let ephemeral = x.x25519_generate t' in
    let (ct_x, _, h3') = >>=-eq-ok (x.x25519_public ephemeral) _ h3 in
    let pk_x = drop mlkem_pk key.raw in
    let (made, e, h4) = >>=-eq-ok (cipher_text (a ++ ct_x) xwing) _ h3' in
    let (s, _, h5) =
      >>=-eq-ok
        (shared_secret (combine x b (exchange_or_zeros x ephemeral pk_x) ct_x pk_x) xwing true) _
        h4 in
    let same : made ≡ ct = cc h5 in cipher_text-again (a ++ ct_x) xwing ct (e ∙ ap ok same)

sent_by_kem :
    (b : KemBackend) (k : PlainKem) (t : Bytes) (key : PublicKey) (ct : CipherText)
    (ss : SharedSecret)
    → encapsulate_plain b k t key ≡ ok (ct, ss)
    → cipher_text ct.content k.algorithm ≡ ok ct
unfolding encapsulate_plain
sent_by_kem b k t key ct ss h =
    let (_, h1) = >>-eq-ok (bytes_eq key.algorithm k.algorithm) unsupported_algorithm _ h in
    let ((x, y), _, h2) = >>=-eq-ok (b.encapsulate k.algorithm t key.raw) _ h1 in
    let (made, e, h3) = >>=-eq-ok (cipher_text x k.algorithm) _ h2 in
    let (s, _, h4) = >>=-eq-ok (shared_secret (take 32 y) k.algorithm false) _ h3 in
    let same : made ≡ ct = cc h4 in cipher_text-again x k.algorithm ct (e ∙ ap ok same)

pub plain_kem-algorithm :
    (name : Bytes) (strict : Bool) (k : PlainKem)
    → plain_kem name strict ≡ ok k
    → k.algorithm ≡ name
unfolding plain_kem
plain_kem-algorithm name strict k h =
    let (spec, _, h1) = >>=-eq-ok (get_algorithm_spec name) _ h in
    let (_, h2) =
      >>-eq-ok (not (ltb spec.nist_level minimum_nist_level) || not strict) insecure_operation _
        h1 in
    let (_, h3) = >>-eq-ok (spec.is_nist_standard || not strict) insecure_operation _ h2 in cc

xwing_received :
    (x : XWingPrimitives)
    → IsXWing x
    → (seed : Bytes) → length seed ≡ 32
    → (keys : KeyPair) → keypair_from_seed x seed ≡ ok keys
    → (t t' : Bytes) (ct : CipherText) (ss : SharedSecret)
    → encapsulate_xwing x t t' keys.public ≡ ok (ct, ss)
    → decapsulate_xwing x keys.secret ct ≡ ok ss
xwing_received x law seed size keys made t t' ct ss h =
    let e = decapsulate-encapsulate_xwing x law seed size t t' in
    let same : e.keys ≡ keys = cc (sym e.generated ∙ made) in
    let sent : encapsulate_xwing x t t' keys.public ≡ ok (e.ct, e.ss) = rw same at e.sent in
    let both : ◌≡◌ {A = Result (CipherText × SharedSecret)} (ok (e.ct, e.ss)) (ok (ct, ss)) =
      sym sent ∙ h in
    let one : e.ct ≡ ct = cc both in
    let two : e.ss ≡ ss = cc both in
    let r : decapsulate_xwing x keys.secret e.ct ≡ ok e.ss = rw same at e.received in
    ap (decapsulate_xwing x keys.secret) (sym one) ∙ r ∙ ap ok two

-- What the stream does for the two names.
encapsulate_xwing_key :
    (s : Suites) (t t' : Bytes) (key : PublicKey)
    → key.algorithm ≡ xwing
    → stream_encapsulate s t t' key ≡ s.xwing.encapsulate t key
unfolding stream_encapsulate bytes_eq
encapsulate_xwing_key s t t' key e = rw e refl

decapsulate_xwing_key :
    (s : Suites) (key : SecretKey) (algorithm d : Bytes)
    → algorithm ≡ xwing
    → stream_decapsulate s key algorithm d
      ≡ (do ct ← cipher_text d xwing_name; s.xwing.decapsulate key ct)
unfolding stream_decapsulate bytes_eq
decapsulate_xwing_key s key algorithm d e = rw e refl

pub encapsulate_ml_kem_key :
    (s : Suites) (t t' : Bytes) (key : PublicKey)
    → key.algorithm ≡ ml_kem_1024_name
    → stream_encapsulate s t t' key ≡ s.ml_kem_1024.encapsulate t key
unfolding stream_encapsulate bytes_eq
encapsulate_ml_kem_key s t t' key e = rw e refl

pub decapsulate_ml_kem_key :
    (s : Suites) (key : SecretKey) (algorithm d : Bytes)
    → algorithm ≡ ml_kem_1024_name
    → stream_decapsulate s key algorithm d
      ≡ (do ct ← cipher_text d ml_kem_1024_name; s.ml_kem_1024.decapsulate key ct)
unfolding stream_decapsulate bytes_eq
decapsulate_ml_kem_key s key algorithm d e = rw e refl

-- The key pair of an X-Wing seed is one that the stream round trip asks for: what a sealer draws for
-- its public key, an opener recovers with its secret key. The hashes, X25519 and ML-KEM-768 are correct.
pub keypair_from_seed-IsKeyPair :
    (p : Primitives) (x : XWingPrimitives) (k : PlainKem) (seed : Bytes) (keys : KeyPair)
    → IsXWing x
    → length seed ≡ 32
    → keypair_from_seed x seed ≡ ok keys
    → IsKeyPair (suites_of p x k) keys.public keys.secret
unfolding suites_of xwing_suite
keypair_from_seed-IsKeyPair p x k seed keys law size made =
    let (pk, sk, pk_x, e) = expanded x law seed size in
    let direct = keypair_from_seed-ok x law seed size pk sk pk_x e in
    let same : keys ≡ record {
      public = public_of x law seed size pk pk_x;
      secret = secret_of x law seed size;
    } =
      cc in
    let public_name : keys.public.algorithm ≡ xwing =
      ap (λ (a : KeyPair). a.public.algorithm) same in
    let secret_name : keys.secret.algorithm ≡ xwing =
      ap (λ (a : KeyPair). a.secret.algorithm) same in
    record {
      algorithm = secret_name ∙ sym public_name;
      agrees = λ t t' d ss h.
          let at_key : (suites_of p x k).xwing.encapsulate t keys.public ≡ ok (d, ss) =
            sym (encapsulate_xwing_key (suites_of p x k) t t' keys.public public_name) ∙ h in
          let (ct, sent, bytes_of) =
            wire_form-eq-ok (encapsulate_xwing x t t keys.public) d ss at_key in
          let again : cipher_text d xwing ≡ ok ct =
            rw bytes_of at (sent_by_xwing x t t keys.public ct ss sent) in
          let got = xwing_received x law seed size keys made t t ct ss sent in
          decapsulate_xwing_key (suites_of p x k) keys.secret keys.public.algorithm d public_name
          ∙ rw again got;
    }

-- The key pair of `KEM("ML-KEM-1024")` is one that the stream round trip asks for, over a correct
-- backend.
pub generate_plain-IsKeyPair :
    (p : Primitives) (x : XWingPrimitives) (k : PlainKem) (seed : Bytes) (keys : KeyPair)
    → plain_kem ml_kem_1024_name false ≡ ok k
    → IsBackend p.backend ml_kem_1024_name
    → generate_plain p.backend k seed ≡ ok keys
    → IsKeyPair (suites_of p x k) keys.public keys.secret
unfolding suites_of plain_suite
generate_plain-IsKeyPair p x k seed keys chosen law made =
    let named = plain_kem-algorithm ml_kem_1024_name false k chosen in
    let (praw, palg, sraw, salg) = generated_parts p.backend k seed keys made in
    let public_name : keys.public.algorithm ≡ ml_kem_1024_name = palg ∙ named in
    record {
      algorithm = salg ∙ sym palg;
      agrees = λ t t' d ss h.
          let at_key : (suites_of p x k).ml_kem_1024.encapsulate t keys.public ≡ ok (d, ss) =
            sym (encapsulate_ml_kem_key (suites_of p x k) t t' keys.public public_name) ∙ h in
          let (ct, sent, bytes_of) =
            wire_form-eq-ok (encapsulate_plain p.backend k t keys.public) d ss at_key in
          let again : cipher_text d ml_kem_1024_name ≡ ok ct =
            rw (bytes_of, named) at (sent_by_kem p.backend k t keys.public ct ss sent) in
          let law' : IsBackend p.backend k.algorithm = rw named law in
          let got =
            decapsulate-encapsulate_plain p.backend k seed keys made t ct ct ss law' sent refl in
          decapsulate_ml_kem_key (suites_of p x k) keys.secret keys.public.algorithm d public_name
          ∙ rw again got;
    }
