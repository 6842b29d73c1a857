-- ===== src/Stream/Integrity.antt =====
-- `open_stream` on any bytes: it ends, and what it accepts is a stream in the one form that
-- `seal_stream` writes.
use quantum_safe_py.Prelude.{
  ℕ, suc, ◌+◌, ◌*◌, ◌^◌, ◌≤◌, ◌<◌, ◌≡◌, ◌≢◌, refl, sym, ap, subst, ◌∙◌, not, List, [], ◌∷◌, ◌++◌,
  Bytes, IsBytes, All-drop, bytes_eq, bytes_eq_iff, length, take, drop, take-append-drop, drop-drop,
  length-take, length-drop, ltb, ◌==◌, ◌||◌, arith,
}
use quantum_safe_py.Outcome.{Result, ok, err, value_error, ◌>>=◌, >>=-eq-ok, >>-eq-ok}
use quantum_safe_py.Wire.{u32, unpack_u32, u32_of_bytes}
use quantum_safe_py.Keys.{SecretKey}
use quantum_safe_py.Stream.Format.{
  magic, max_header_len, uses_sha384, stream_decapsulate, parse_header, derive_stream_key,
  build_aad,
}
use quantum_safe_py.Stream.Cipher.{IsAead, CipherState, new_cipher}
use quantum_safe_py.Stream.Cipher.Steps.{IsLive}
use quantum_safe_py.Stream.Reader.{Source}
use quantum_safe_py.Stream.Generator.{Run, finished, out_of_fuel, then_run}
use quantum_safe_py.Stream.Open.{StreamEnv, env_kdf, stream_opener, content, open_stream}
use quantum_safe_py.Stream.Open.Frames.{flat_frames}
use quantum_safe_py.Stream.Open.Pieces.{
  flat_header, flat_start, flat_stream, open_stream-flat_stream,
}
use quantum_safe_py.Stream.Open.Canonical.{Canonical, flat_frames-Canonical, flat_frames_ends}

-- The opener's first state takes chunks.
stream_opener-IsLive :
    (env : StreamEnv) (key : SecretKey) (header aad : Bytes) (c : CipherState)
    → stream_opener env key header aad ≡ ok c
    → IsLive c
unfolding stream_opener new_cipher
stream_opener-IsLive env key header aad c h =
    let (f, _, h1) = >>=-eq-ok (parse_header env.cbor header) _ h in
    let (_, h2) = >>-eq-ok (bytes_eq f.algorithm key.algorithm) value_error _ h1 in
    let (wide, _, h3) = >>=-eq-ok (uses_sha384 f.algorithm) _ h2 in
    let (ss, _, h4) = >>=-eq-ok (stream_decapsulate env.suites key f.algorithm f.kem_ct) _ h3 in
    let (full_aad, _, h5) = >>=-eq-ok (build_aad header aad) _ h4 in
    let e : new_cipher (derive_stream_key (env_kdf env) ss header wide) f.nonce_prefix full_aad
          f.chunk_size
        ≡ c =
      cc h5 in
    record {
      unfinished = ap (λ (c : CipherState). c.finished) (sym e);
      counter_fits = omega (arith, ap (λ (c : CipherState). c.counter) (sym e));
    }

-- A header that was read, and what follows it.
record Head (d rest header : Bytes) : Type 0 where
  whole : d ≡ magic ++ (u32 (length header) ++ (header ++ rest))
  behind : (k : ℕ) × (rest ≡ drop k d)

Head-of_bytes :
    (m w x y z : ℕ) (m1 m2 m3 : ℕ) (d rest header : Bytes)
    → IsBytes (w ∷ x ∷ y ∷ z ∷ [])
    → flat_header (m ∷ m1 ∷ m2 ∷ m3 ∷ w ∷ x ∷ y ∷ z ∷ d) ≡ ok (rest, header)
    → Head (m ∷ m1 ∷ m2 ∷ m3 ∷ w ∷ x ∷ y ∷ z ∷ d) rest header
unfolding flat_header unpack_u32
Head-of_bytes m w x y z m1 m2 m3 d rest header b h =
    let whole = m ∷ m1 ∷ m2 ∷ m3 ∷ w ∷ x ∷ y ∷ z ∷ d in
    let n = w * 2 ^ 24 + x * 2 ^ 16 + y * 2 ^ 8 + z in
    let (_, h1) = >>-eq-ok (not (ltb (length whole) 8)) value_error _ h in
    let (is_magic, h2) = >>-eq-ok (bytes_eq (take 4 whole) magic) value_error _ h1 in
    let (_, h3) = >>-eq-ok (not (n == 0 || ltb max_header_len n)) value_error _ h2 in
    let (long, h4) = >>-eq-ok (not (ltb (length d) n)) value_error _ h3 in
    let rest_eq : drop n d ≡ rest = cc h4 in
    let header_eq : take n d ≡ header = cc h4 in
    let size : length header ≡ n = ground (arith, length-take n d, ap length header_eq) in
    let number : u32 (length header) ≡ w ∷ x ∷ y ∷ z ∷ [] =
      ap (λ k. u32 k) size ∙ u32_of_bytes w x y z b in
    let opening : magic ≡ m ∷ m1 ∷ m2 ∷ m3 ∷ [] =
      sym ((bytes_eq_iff (m ∷ m1 ∷ m2 ∷ m3 ∷ []) magic).0 is_magic) in
    let body : header ++ rest ≡ d = rw (← header_eq, ← rest_eq) (take-append-drop n d) in
    record {
      whole = sym (
          ap (λ (k : Bytes). k ++ (u32 (length header) ++ (header ++ rest))) opening
          ∙ ap (λ (k : Bytes). m ∷ m1 ∷ m2 ∷ m3 ∷ (k ++ (header ++ rest))) number
          ∙ ap (λ (k : Bytes). m ∷ m1 ∷ m2 ∷ m3 ∷ w ∷ x ∷ y ∷ z ∷ k) body);
      behind = (8 + n, sym rest_eq ∙ drop-drop n 8 whole);
    }

flat_header-Head :
    (d rest header : Bytes) → IsBytes d → flat_header d ≡ ok (rest, header) → Head d rest header
flat_header-Head (m ∷ m1 ∷ m2 ∷ m3 ∷ w ∷ x ∷ y ∷ z ∷ d) rest header
      (_, (_, (_, (_, (hw, (hx, (hy, (hz, _)))))))) h =
    Head-of_bytes m w x y z m1 m2 m3 d rest header (hw, (hx, (hy, (hz, tt)))) h
flat_header-Head [] rest header b h = unfold flat_header in cc h
flat_header-Head (a ∷ []) rest header b h = unfold flat_header in cc h
flat_header-Head (a ∷ b1 ∷ []) rest header b h = unfold flat_header in cc h
flat_header-Head (a ∷ b1 ∷ c ∷ []) rest header b h = unfold flat_header in cc h
flat_header-Head (a ∷ b1 ∷ c ∷ d ∷ []) rest header b h = unfold flat_header in cc h
flat_header-Head (a ∷ b1 ∷ c ∷ d ∷ e ∷ []) rest header b h = unfold flat_header in cc h
flat_header-Head (a ∷ b1 ∷ c ∷ d ∷ e ∷ f ∷ []) rest header b h = unfold flat_header in cc h
flat_header-Head (a ∷ b1 ∷ c ∷ d ∷ e ∷ f ∷ g ∷ []) rest header b h = unfold flat_header in cc h

-- A stream that was opened: its header, and the frames of its chunks.
pub record Opened (env : StreamEnv) (key : SecretKey) (d aad : Bytes) (yields : List Bytes)
    : Type 0 where
  pub header : Bytes
  pub frames_bytes : Bytes
  pub cipher : CipherState
  pub whole : d ≡ magic ++ (u32 (length header) ++ (header ++ frames_bytes))
  pub opener : stream_opener env key header aad ≡ ok cipher
  pub chunks : Canonical env.aead cipher frames_bytes yields

-- The loop on what the header left.
abbrev loop : StreamEnv → ℕ → Result (CipherState × Bytes) → Run
loop env fuel x = then_run x (λ s. flat_frames fuel env.aead s.0 s.1)

abbrev from_header :
    StreamEnv → SecretKey → Bytes → Result (Bytes × Bytes) → Result (CipherState × Bytes)
from_header env key aad x = do
  (rest, header) ← x
  c ← stream_opener env key header aad
  ok (c, rest)

module _ (env : StreamEnv) (key : SecretKey) (d aad : Bytes) (law : IsAead env.aead) (b : IsBytes d)
    (fuel : ℕ) where
  by_opener :
      (rest header : Bytes) (x : Result CipherState)
      → flat_header d ≡ ok (rest, header)
      → stream_opener env key header aad ≡ x
      → (loop env fuel (do c ← x; ok (c, rest))).ending ≡ finished
      → Opened env key d aad (loop env fuel (do c ← x; ok (c, rest))).yields
  by_opener rest header (err f) q o k = cc
  by_opener rest header (ok c) q o k =
      let hd = flat_header-Head d rest header b q in
      let (n, behind) = hd.behind in
      let rest_bytes : IsBytes rest = subst IsBytes (sym behind) (All-drop (λ b. b < 256) n d b) in
      record {
        header = header;
        frames_bytes = rest;
        cipher = c;
        whole = hd.whole;
        opener = o;
        chunks =
            flat_frames-Canonical fuel env.aead c rest law
              (stream_opener-IsLive env key header aad c o) rest_bytes k;
      }

  by_header :
      (x : Result (Bytes × Bytes))
      → flat_header d ≡ x
      → (loop env fuel (from_header env key aad x)).ending ≡ finished
      → Opened env key d aad (loop env fuel (from_header env key aad x)).yields
  by_header (err f) q k = cc
  by_header (ok (rest, header)) q k =
      by_opener rest header (stream_opener env key header aad) q refl k

-- Integrity: where `open_stream` ends without an exception, its input is the magic, a header that the
-- opener accepts with its length in front, and then exactly the frames of the chunks that it yielded,
-- each the only ciphertext of its chunk under its own nonce: all but the last of the full size, the
-- last marked as such, with no bytes between, after or instead of them; the input must consist of
-- bytes and decryption must accept only what encryption gives.
pub open_stream-Opened :
    (env : StreamEnv) (key : SecretKey) (source : Source) (aad : Bytes)
    → IsAead env.aead
    → IsBytes (content source)
    → (open_stream env key source aad).ending ≡ finished
    → Opened env key (content source) aad (open_stream env key source aad).yields
unfolding flat_stream flat_start
open_stream-Opened env key source aad law b h =
    let e = open_stream-flat_stream env key source aad in
    subst (λ (g : Run). Opened env key (content source) aad g.yields) (sym e)
      (by_header env key (content source) aad law b (suc (length (content source)))
        (flat_header (content source)) refl (sym (ap (λ (g : Run). g.ending) e) ∙ h))

flat_header_shorter :
    (d rest header : Bytes) → flat_header d ≡ ok (rest, header) → length rest ≤ length d
unfolding flat_header
flat_header_shorter d rest header h =
    let (_, h1) = >>-eq-ok (not (ltb (length d) 8)) value_error _ h in
    let (_, h2) = >>-eq-ok (bytes_eq (take 4 d) magic) value_error _ h1 in
    let (n, _, h3) = >>=-eq-ok (unpack_u32 (take 4 (drop 4 d))) _ h2 in
    let (_, h4) = >>-eq-ok (not (n == 0 || ltb max_header_len n)) value_error _ h3 in
    let (_, h5) = >>-eq-ok (not (ltb (length (drop 8 d)) n)) value_error _ h4 in
    let e : drop n (drop 8 d) ≡ rest = cc h5 in
    omega (arith, ap length e, length-drop n (drop 8 d), length-drop 8 d)

-- Termination: `open_stream` ends on every source, with or without an exception; the model's bound on
-- the number of frames, one more than there are bytes, is never reached.
pub open_stream_ends :
    (env : StreamEnv) (key : SecretKey) (source : Source) (aad : Bytes)
    → (open_stream env key source aad).ending ≢ out_of_fuel
unfolding flat_stream flat_start
open_stream_ends env key source aad k =
    by_header (flat_header (content source)) refl
      (sym (ap (λ (g : Run). g.ending) (open_stream-flat_stream env key source aad)) ∙ k)
  where
    opened :
        (rest : Bytes) (x : Result CipherState)
        → length rest ≤ length (content source)
        → (loop env (suc (length (content source))) (do c ← x; ok (c, rest))).ending ≢ out_of_fuel
    opened rest (err f) h = λ e. cc
    opened rest (ok c) h =
        flat_frames_ends (suc (length (content source))) env.aead c rest (omega arith)

    by_header :
        (x : Result (Bytes × Bytes))
        → flat_header (content source) ≡ x
        → (loop env (suc (length (content source))) (from_header env key aad x)).ending
          ≢ out_of_fuel
    by_header (err f) q = λ e. cc
    by_header (ok (rest, header)) q =
        opened rest (stream_opener env key header aad)
          (flat_header_shorter (content source) rest header q)
