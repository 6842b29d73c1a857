-- ===== src/Stream/Seal/Sealing.antt =====
-- What `seal_stream` yields: the prelude, and the frames of the chunks of its input.
use quantum_safe_py.Prelude.{
  ℕ, ◌*◌, ◌^◌, ◌≤◌, ◌<◌, ◌≡◌, refl, sym, ap, ◌∙◌, Bool, true, List, [], ◌∷◌, ◌++◌, Bytes, length,
  length-append, join, All, arith,
}
use quantum_safe_py.Outcome.{Result, ok, err, value_error, >>=-eq-ok, >>-eq-ok}
use quantum_safe_py.Wire.{u32, pack_u32, pack_u32_fits}
use quantum_safe_py.Keys.{PublicKey}
use quantum_safe_py.Kem.Types.{SharedSecret}
use quantum_safe_py.Stream.Format.{
  StreamHeader, magic, max_chunk_size, chunk_size_ok, uses_sha384, stream_encapsulate,
  encode_header, derive_stream_key, build_aad,
}
use quantum_safe_py.Stream.Cipher.{IsAead, CipherState, new_cipher, max_counter}
use quantum_safe_py.Stream.Cipher.Steps.{IsLive}
use quantum_safe_py.Stream.Reader.{Source}
use quantum_safe_py.Stream.Generator.{finished, yield}
use quantum_safe_py.Stream.Open.{StreamEnv, env_kdf, content}
use quantum_safe_py.Stream.Seal.{Draws, StreamSealer, stream_sealer, seal_stream}
use quantum_safe_py.Stream.Seal.Cut.{cut, cut-IsCut}
use quantum_safe_py.Stream.Seal.Chunks.{seal_chunks, seal_all-seal_chunks}
use quantum_safe_py.Stream.Seal.Framing.{frames, seal_chunks-frames}

-- The header that a sealer writes, from its encapsulation.
abbrev pub header_of : Draws → PublicKey → ℕ → Bytes → StreamHeader
header_of draws key cs kem_ct = record {
  algorithm = key.algorithm;
  kem_ct = kem_ct;
  nonce_prefix = draws.prefix;
  chunk_size = cs;
}

-- What a sealer that was built consists of.
pub record Built (env : StreamEnv) (draws : Draws) (key : PublicKey) (aad : Bytes) (cs : ℕ)
    (s : StreamSealer) : Type 0 where
  pub size_fits : chunk_size_ok cs ≡ true
  pub wide : Bool
  pub wide_eq : uses_sha384 key.algorithm ≡ ok wide
  pub kem_ct : Bytes
  pub secret : SharedSecret
  pub encapsulated :
      stream_encapsulate env.suites draws.seed draws.pqc_seed key ≡ ok (kem_ct, secret)
  pub full_aad : Bytes
  pub header_eq : s.header ≡ encode_header env.cbor (header_of draws key cs kem_ct)
  pub aad_eq : build_aad s.header aad ≡ ok full_aad
  pub cipher_eq :
      s.cipher
      ≡ new_cipher (derive_stream_key (env_kdf env) secret s.header wide) draws.prefix full_aad cs

pub stream_sealer-Built :
    (env : StreamEnv) (draws : Draws) (key : PublicKey) (aad : Bytes) (cs : ℕ) (s : StreamSealer)
    → stream_sealer env draws key aad cs ≡ ok s
    → Built env draws key aad cs s
unfolding stream_sealer
stream_sealer-Built env draws key aad cs s h =
    let (size_fits, h1) = >>-eq-ok (chunk_size_ok cs) value_error _ h in
    let (wide, wide_eq, h2) = >>=-eq-ok (uses_sha384 key.algorithm) _ h1 in
    let ((kem_ct, secret), encapsulated, h3) =
      >>=-eq-ok (stream_encapsulate env.suites draws.seed draws.pqc_seed key) _ h2 in
    let header = encode_header env.cbor (header_of draws key cs kem_ct) in
    let (full_aad, aad_eq, h4) = >>=-eq-ok (build_aad header aad) _ h3 in
    let whole : record {
      cipher =
          new_cipher (derive_stream_key (env_kdf env) secret header wide) draws.prefix full_aad cs;
      header = header;
    }
        ≡ s =
      ok_inj h4 in
    rw (← whole) (record {
      size_fits = size_fits;
      wide = wide;
      wide_eq = wide_eq;
      kem_ct = kem_ct;
      secret = secret;
      encapsulated = encapsulated;
      full_aad = full_aad;
      header_eq = refl;
      aad_eq = aad_eq;
      cipher_eq = refl;
    })
  where
    ok_inj : {x y : StreamSealer} → ok x ≡ ok y → x ≡ y
    ok_inj e = cc

-- `build_aad` packs the header's length, so a sealer's header is shorter than 2 ^ 32.
build_aad_fits : (header aad full : Bytes) → build_aad header aad ≡ ok full → length header < 2 ^ 32
unfolding build_aad pack_u32
build_aad_fits header aad full h = ground arith

-- The sealer that a stream starts with.
pub record Start (cs : ℕ) (s : StreamSealer) : Type 0 where
  pub live : IsLive s.cipher
  pub counter_eq : s.cipher.counter ≡ 0
  pub size_eq : s.cipher.chunk_size ≡ cs
  pub positive : 0 < cs
  pub bounded : cs ≤ max_chunk_size
  pub header_fits : length s.header < 2 ^ 32

sizes : (cs : ℕ) → chunk_size_ok cs ≡ true → (0 < cs) × (cs ≤ max_chunk_size)
sizes cs h = ground arith

pub Built-Start :
    {env : StreamEnv} {draws : Draws} {key : PublicKey} {aad : Bytes} {cs : ℕ} {s : StreamSealer}
    → Built env draws key aad cs s
    → Start cs s
unfolding new_cipher
Built-Start {env} {draws} {key} {aad} {cs} {s} b =
    let counter : s.cipher.counter ≡ 0 = ap (λ (c : CipherState). c.counter) b.cipher_eq in
    record {
      live = record {
        unfinished = ap (λ (c : CipherState). c.finished) b.cipher_eq;
        counter_fits = omega (arith, counter);
      };
      counter_eq = counter;
      size_eq = ap (λ (c : CipherState). c.chunk_size) b.cipher_eq;
      positive = (sizes cs b.size_fits).0;
      bounded = (sizes cs b.size_fits).1;
      header_fits = build_aad_fits s.header aad b.full_aad b.aad_eq;
    }

-- The first thing a stream yields.
abbrev pub prelude : StreamSealer → Bytes
prelude s = magic ++ (u32 (length s.header) ++ s.header)

-- A sealed stream, for a sealer that could be built.
pub seal_stream-chunks :
    (env : StreamEnv) (draws : Draws) (key : PublicKey) (source : Source) (aad : Bytes) (cs : ℕ)
    (s : StreamSealer)
    → stream_sealer env draws key aad cs ≡ ok s
    → seal_stream env draws key source aad cs
      ≡ yield (prelude s) (seal_chunks env.aead s.cipher (cut cs [] (content source)))
unfolding seal_stream
seal_stream-chunks env draws key source aad cs s h =
    let start = Built-Start (stream_sealer-Built env draws key aad cs s h) in
    rw (h, pack_u32_fits (length s.header) start.header_fits)
      (ap (yield (prelude s)) (
        seal_all-seal_chunks env.aead s source (omega (arith, start.positive, start.size_eq))
        ∙ ap (λ k. seal_chunks env.aead s.cipher (cut k [] (content source))) start.size_eq))

-- How the plaintext is cut into pieces, and whether it is a file or an iterable, makes no difference
-- to what `seal_stream` yields and to how it ends.
pub seal_stream_pieces :
    (env : StreamEnv) (draws : Draws) (key : PublicKey) (source other : Source) (aad : Bytes)
    (cs : ℕ)
    → content source ≡ content other
    → seal_stream env draws key source aad cs ≡ seal_stream env draws key other aad cs
seal_stream_pieces env draws key source other aad cs e =
    by_sealer (stream_sealer env draws key aad cs) refl
  where
    by_sealer :
        (x : Result StreamSealer)
        → stream_sealer env draws key aad cs ≡ x
        → seal_stream env draws key source aad cs ≡ seal_stream env draws key other aad cs
    by_sealer (err f) h = unfold seal_stream in rw h
    by_sealer (ok s) h =
        seal_stream-chunks env draws key source aad cs s h
        ∙ ap (λ d. yield (prelude s) (seal_chunks env.aead s.cipher (cut cs [] d))) e
        ∙ sym (seal_stream-chunks env draws key other aad cs s h)

-- Full chunks take as many bytes as they have.
length-join-full :
    (n : ℕ) (fs : List Bytes) → All (λ f. length f ≡ n) fs → length (join fs) ≡ length fs * n
length-join-full n [] h = omega arith
length-join-full n (f ∷ fs) (e, h) =
    grind (arith, length-append f (join fs), length-join-full n fs h)

module _ (env : StreamEnv) (draws : Draws) (key : PublicKey) (source : Source) (aad : Bytes)
    (cs : ℕ) (s : StreamSealer) where
  -- The chunks of the plaintext.
  abbrev pub chunks : List Bytes × Bytes
  chunks = cut cs [] (content source)

  -- The chunks fit the counter when the plaintext has at most 2 ^ 32 - 1 chunks and what follows them.
  pub chunks_fit :
      0 < cs → length (content source) ≤ max_counter * cs → length chunks.0 ≤ max_counter
  chunks_fit pos h =
      let c = cut-IsCut cs [] (content source) pos (omega arith) in
      let total : length chunks.0 * cs ≤ max_counter * cs = omega (
        arith,
        h,
        length-join-full cs chunks.0 c.full,
        length-append (join chunks.0) chunks.1,
        ap length c.whole,
      ) in
      cancel (length chunks.0) max_counter cs pos total
    where
      cancel : (m n k : ℕ) → 0 < k → m * k ≤ n * k → m ≤ n
      cancel m n k p q = grind arith

  -- What a stream with room for its chunks yields, in full.
  pub seal_stream-frames :
      IsAead env.aead
      → stream_sealer env draws key aad cs ≡ ok s
      → length (content source) ≤ max_counter * cs
      → seal_stream env draws key source aad cs ≡ record {
        yields = prelude s ∷ frames env.aead s.cipher chunks.0 chunks.1;
        ending = finished;
      }
  seal_stream-frames law h room =
      let start = Built-Start (stream_sealer-Built env draws key aad cs s h) in
      let c = cut-IsCut cs [] (content source) start.positive (omega arith) in
      seal_stream-chunks env draws key source aad cs s h
      ∙ ap (yield (prelude s)) (
          seal_chunks-frames env.aead law s.cipher chunks.0 chunks.1 start.live
            (omega (arith, start.size_eq, start.bounded)) (rw start.size_eq c.full)
            (omega (arith, start.size_eq, c.rest))
            (omega (arith, start.counter_eq, chunks_fit start.positive room)))
