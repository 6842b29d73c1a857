-- ===== src/Stream/RoundTrip.antt =====
-- `open_stream` and `open_bytes` on what `seal_stream` and `seal_bytes` write, and on any bytes.
use quantum_safe_py.Prelude.{
  ℕ, suc, ◌*◌, ◌≤◌, ◌<◌, ◌≡◌, sym, ap, ◌∙◌, false, List, [], ◌∷◌, ◌++◌, Bytes, bytes_eq,
  bytes_eq_iff, length, length-append, take-append, drop-append, join, join-append, append-nil, ltb,
  ◌==◌, ◌||◌, arith,
}
use quantum_safe_py.Outcome.{ok}
use quantum_safe_py.Wire.{u32, unpack-u32}
use quantum_safe_py.Cbor.{ReadsBack}
use quantum_safe_py.Keys.{PublicKey, SecretKey}
use quantum_safe_py.Kem.Types.{SharedSecret}
use quantum_safe_py.Stream.Format.{
  Suites, StreamHeader, header_map, magic, max_header_len, nonce_prefix_len, stream_encapsulate,
  stream_decapsulate, parse_header,
}
use quantum_safe_py.Stream.Format.Header.{parse_header-encode_header}
use quantum_safe_py.Stream.Cipher.{IsAead, CipherState, max_counter}
use quantum_safe_py.Stream.Reader.{Source}
use quantum_safe_py.Stream.Generator.{Run, finished}
use quantum_safe_py.Stream.Open.{StreamEnv, stream_opener, content, open_stream, joined}
use quantum_safe_py.Stream.Open.Frames.{flat_frames}
use quantum_safe_py.Stream.Open.Pieces.{
  flat_header, flat_start, flat_stream, open_stream-flat_stream,
}
use quantum_safe_py.Stream.Open.Sealed.{flat_frames-frames, frames_longer}
use quantum_safe_py.Stream.Seal.{Draws, StreamSealer, stream_sealer, seal_stream}
use quantum_safe_py.Stream.Seal.Cut.{cut-IsCut}
use quantum_safe_py.Stream.Seal.Framing.{frames}
use quantum_safe_py.Stream.Seal.Sealing.{
  header_of, Built, stream_sealer-Built, Built-Start, chunks, chunks_fit, seal_stream-frames,
}

-- A secret key that belongs to a public key: it has the same algorithm, and decapsulates what is
-- encapsulated to the public key.
pub record IsKeyPair (s : Suites) (pk : PublicKey) (sk : SecretKey) : Type 0 where
  pub algorithm : sk.algorithm ≡ pk.algorithm
  pub agrees :
      (seed pqc_seed ct : Bytes) (ss : SharedSecret)
      → stream_encapsulate s seed pqc_seed pk ≡ ok (ct, ss)
      → stream_decapsulate s sk pk.algorithm ct ≡ ok ss

-- The opener accepts the sealer's header, and starts in the sealer's state.
stream_opener-stream_sealer :
    (env : StreamEnv) (draws : Draws) (pk : PublicKey) (sk : SecretKey) (aad : Bytes) (cs : ℕ)
    (s : StreamSealer)
    → Built env draws pk aad cs s
    → IsKeyPair env.suites pk sk
    → ((h : StreamHeader) → ReadsBack env.cbor (header_map h))
    → length draws.prefix ≡ nonce_prefix_len
    → length s.header ≤ max_header_len
    → stream_opener env sk s.header aad ≡ ok s.cipher
unfolding stream_opener
stream_opener-stream_sealer env draws pk sk aad cs s b pair reads prefix fits =
    let h = header_of draws pk cs b.kem_ct in
    let parsed : parse_header env.cbor s.header ≡ ok h =
      ap (parse_header env.cbor) b.header_eq
      ∙ parse_header-encode_header env.cbor h b.wide
          (record { algorithm = b.wide_eq; prefix = prefix; size = b.size_fits }) (reads h)
          (omega (arith, fits, ap length b.header_eq)) in
    rw (
      parsed,
      (bytes_eq_iff pk.algorithm sk.algorithm).1 (sym pair.algorithm),
      b.wide_eq,
      pair.agrees draws.seed draws.pqc_seed b.kem_ct b.secret b.encapsulated,
      b.aad_eq,
      b.cipher_eq,
    )

-- The part before the frames.
flat_header-prelude :
    (header rest : Bytes)
    → 0 < length header
    → length header ≤ max_header_len
    → flat_header (magic ++ (u32 (length header) ++ (header ++ rest))) ≡ ok (rest, header)
unfolding flat_header bytes_eq
flat_header-prelude header rest pos fits =
    let total = length-append header rest in
    let eight : ltb (length (magic ++ (u32 (length header) ++ (header ++ rest)))) 8 ≡ false =
      ground arith in
    let allowed : (length header == 0 || ltb max_header_len (length header)) ≡ false =
      ground arith in
    let whole : ltb (length (header ++ rest)) (length header) ≡ false = ground (arith, total) in
    rw (
      eight,
      unpack-u32 (length header),
      allowed,
      whole,
      take-append header rest,
      drop-append header rest,
    )

flat_stream-prelude :
    (env : StreamEnv) (sk : SecretKey) (aad header rest : Bytes) (c : CipherState)
    → 0 < length header
    → length header ≤ max_header_len
    → stream_opener env sk header aad ≡ ok c
    → flat_stream env sk (magic ++ (u32 (length header) ++ (header ++ rest))) aad
      ≡ flat_frames
          (suc (length (magic ++ (u32 (length header) ++ (header ++ rest)))))
          env.aead
          c
          rest
unfolding flat_stream flat_start
flat_stream-prelude env sk aad header rest c pos fits opener =
    rw (flat_header-prelude header rest pos fits, opener)

pub record Sealable (env : StreamEnv) (pk : PublicKey) (sk : SecretKey) (draws : Draws)
    (s : StreamSealer) : Type 0 where
  pub aead : IsAead env.aead
  pub pair : IsKeyPair env.suites pk sk
  pub reads : (h : StreamHeader) → ReadsBack env.cbor (header_map h)
  pub prefix : length draws.prefix ≡ nonce_prefix_len
  pub header_nonempty : 0 < length s.header
  pub header_fits : length s.header ≤ max_header_len

module _ (env : StreamEnv) (draws : Draws) (pk : PublicKey) (sk : SecretKey) (source : Source)
    (aad : Bytes) (cs : ℕ) (s : StreamSealer) where
  abbrev cuts : List Bytes × Bytes
  cuts = chunks env draws pk source aad cs s

  opened_frames :
      (w : Bytes)
      → Sealable env pk sk draws s
      → stream_sealer env draws pk aad cs ≡ ok s
      → length (content source) ≤ max_counter * cs
      → w
        ≡ magic
          ++ (u32 (length s.header) ++ (s.header ++ join (frames env.aead s.cipher cuts.0 cuts.1)))
      → flat_stream env sk w aad ≡ record { yields = cuts.0 ++ (cuts.1 ∷ []); ending = finished }
  opened_frames w ok_to built room e =
      let b = stream_sealer-Built env draws pk aad cs s built in
      let start = Built-Start b in
      let c = cut-IsCut cs [] (content source) start.positive (omega arith) in
      let fs = frames env.aead s.cipher cuts.0 cuts.1 in
      rw e (
        flat_stream-prelude env sk aad s.header (join fs) s.cipher ok_to.header_nonempty
          ok_to.header_fits
          (stream_opener-stream_sealer env draws pk sk aad cs s b ok_to.pair ok_to.reads
            ok_to.prefix ok_to.header_fits)
        ∙ flat_frames-frames _ env.aead s.cipher cuts.0 cuts.1 ok_to.aead start.live
            (rw start.size_eq c.full) (omega (arith, start.size_eq, c.rest))
            (omega (
              arith,
              start.counter_eq,
              chunks_fit env draws pk source aad cs s start.positive room,
            ))
            (omega (
              arith,
              frames_longer env.aead s.cipher cuts.0 cuts.1,
              length-append s.header (join fs),
            )))

  -- The round trip: sealing ends without an exception, and whatever source the sealed bytes then come
  -- from, opening it with the matching key yields the plaintext and ends without an exception, if the
  -- sealer could be built, its header has 1 to 65536 bytes, cbor2 reads headers back, AES-GCM
  -- decrypts what it encrypts, and the plaintext has at most 2 ^ 32 - 1 chunks of the chosen size.
  pub open_stream-seal_stream :
      (received : Source)
      → Sealable env pk sk draws s
      → stream_sealer env draws pk aad cs ≡ ok s
      → length (content source) ≤ max_counter * cs
      → content received ≡ join (seal_stream env draws pk source aad cs).yields
      → ((seal_stream env draws pk source aad cs).ending ≡ finished)
        × (joined (open_stream env sk received aad) ≡ (finished, content source))
  unfolding joined
  open_stream-seal_stream received ok_to built room e =
      let b = stream_sealer-Built env draws pk aad cs s built in
      let start = Built-Start b in
      let c = cut-IsCut cs [] (content source) start.positive (omega arith) in
      let run = seal_stream-frames env draws pk source aad cs s ok_to.aead built room in
      let bytes = e ∙ ap (λ (g : Run). join g.yields) run in
      let opened =
        open_stream-flat_stream env sk received aad
        ∙ opened_frames (content received) ok_to built room bytes in
      let whole : join (cuts.0 ++ (cuts.1 ∷ [])) ≡ content source =
        join-append cuts.0 (cuts.1 ∷ [])
        ∙ ap (λ b. join cuts.0 ++ b) (append-nil cuts.1)
        ∙ c.whole in
      (ap (λ (g : Run). g.ending) run, ap joined opened ∙ ap (λ b. (finished, b)) whole)
