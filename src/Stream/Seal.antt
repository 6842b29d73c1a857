-- ===== src/Stream/Seal.antt =====
-- protocols/stream.py: the class `StreamSealer`, `seal_stream` and `seal_bytes`.
pub mod Cut
pub mod Chunks
pub mod Framing
pub mod Sealing
use quantum_safe_py.Prelude.{
  ℕ, zero, suc, ◌+◌, ◌-◌, Bool, true, false, not, List, [], ◌∷◌, ◌++◌, Bytes, length, take, drop,
  join, ltb, ◌==◌, ◌&&◌, if◌then◌else◌,
}
use quantum_safe_py.Outcome.{Error, Result, ok, err, value_error, ◌>>=◌, ◌>>◌, require}
use quantum_safe_py.Wire.{pack_u32}
use quantum_safe_py.Keys.{PublicKey}
use quantum_safe_py.Stream.Format.{
  StreamHeader, magic, chunk_size_ok, uses_sha384, stream_encapsulate, encode_header,
  derive_stream_key, build_aad,
}
use quantum_safe_py.Stream.Cipher.{Aead, CipherState, new_cipher, seal}
use quantum_safe_py.Stream.Reader.{Source, items, pieces}
use quantum_safe_py.Stream.Generator.{Ending, finished, Run, stop, fail, yield, yield_all, then_run}
use quantum_safe_py.Stream.Open.{StreamEnv, env_kdf, joined}

-- The random bytes of one stream: of the classical and of the post-quantum half of the
-- encapsulation, and the nonce prefix.
pub record Draws : Type 0 where
  pub seed : Bytes
  pub pqc_seed : Bytes
  pub prefix : Bytes

pub record StreamSealer : Type 0 where
  pub cipher : CipherState
  pub header : Bytes

-- `StreamSealer(public_key, aad, chunk_size)`
unfoldable pub stream_sealer : StreamEnv → Draws → PublicKey → Bytes → ℕ → Result StreamSealer
stream_sealer env draws key aad cs = do
  require (chunk_size_ok cs) value_error
  wide ← uses_sha384 key.algorithm
  (kem_ct, ss) ← stream_encapsulate env.suites draws.seed draws.pqc_seed key
  let header = encode_header env.cbor (record {
    algorithm = key.algorithm;
    kem_ct = kem_ct;
    nonce_prefix = draws.prefix;
    chunk_size = cs;
  })
  full_aad ← build_aad header aad
  ok (record {
    cipher = new_cipher (derive_stream_key (env_kdf env) ss header wide) draws.prefix full_aad cs;
    header = header;
  })

-- `struct.pack(">I", len(ct)) + ct`
unfoldable pub framed : Bytes → Result Bytes
framed ct = do n ← pack_u32 (length ct); ok (n ++ ct)

-- `sealer._seal(plain, last)` and the frame of its result.
unfoldable pub seal_frame : Aead → CipherState → Bytes → Bool → Result (CipherState × Bytes)
seal_frame a c plain last =
    let (c', sealed) = seal a plain last c in do ct ← sealed; frame ← framed ct; ok (c', frame)

-- A part of the generator: what it yielded, and the exception that ended it, or the sealer and the
-- bytes that are carried over.
pub record Progress : Type 0 where
  pub out : List Bytes
  pub state : Result (CipherState × Bytes)

unfoldable pub after_seal : (CipherState → Progress) → Result (CipherState × Bytes) → Progress
after_seal k (err e) = record { out = []; state = err e }
after_seal k (ok (c, frame)) =
    let more = k c in record { out = frame ∷ more.out; state = more.state }

-- `while len(view) - pos > cs`, over what is left of the view. Each round takes `cs` bytes, and a
-- chunk size is positive, so that as many rounds as the view has bytes are enough.
unfoldable pub full_chunks : ℕ → Aead → ℕ → CipherState → Bytes → Progress
unfolding after_seal
full_chunks zero a cs c view = record { out = []; state = ok (c, view) }
full_chunks (suc fuel) a cs c view =
    let more =
      after_seal (λ c'. full_chunks fuel a cs c' (drop cs view))
        (seal_frame a c (take cs view) false) in
    if ltb cs (length view) then more else record { out = []; state = ok (c, view) }

-- `pending += view[pos:]`
unfoldable pub carried : Bytes → Progress → Progress
carried pending p = record p { state = (do (c, rest) ← p.state; ok (c, pending ++ rest)) }

-- The body of the loop of `seal_stream`.
unfoldable pub seal_piece : Aead → ℕ → CipherState → Bytes → Bytes → Progress
unfolding carried
seal_piece a cs c pending view =
    if not (length pending == 0) && ltb cs (length pending + length view)
    then after_seal (λ c'. full_chunks (length view) a cs c' (drop (cs - length pending) view))
        (seal_frame a c (pending ++ take (cs - length pending) view) false)
    else carried pending (full_chunks (length view) a cs c view)

unfoldable pub and_then : Progress → (CipherState → Bytes → Progress) → Progress
and_then p k = elim p.state [
  | err e ↦ p
  | ok (c, pending) ↦ record { out = p.out ++ (k c pending).out; state = (k c pending).state }
]

unfoldable pub seal_pieces : Aead → ℕ → CipherState → Bytes → List Bytes → Progress
unfolding and_then
seal_pieces a cs c pending [] = record { out = []; state = ok (c, pending) }
seal_pieces a cs c pending (piece ∷ rest) =
    and_then (seal_piece a cs c pending piece) (λ c' pending'. seal_pieces a cs c' pending' rest)

-- The last chunk: `seal_chunk(bytes(pending), last=True)`.
unfoldable pub seal_rest : Aead → Result (CipherState × Bytes) → Run
seal_rest a state =
    then_run (do (c, pending) ← state; seal_frame a c pending true) (λ s. yield s.1 stop)

unfoldable pub seal_all : Aead → StreamSealer → Source → Run
unfolding seal_rest
seal_all a s source =
    let p = seal_pieces a s.cipher.chunk_size s.cipher [] (pieces source) in
    yield_all p.out (seal_rest a p.state)

unfoldable pub seal_stream : StreamEnv → Draws → PublicKey → Source → Bytes → ℕ → Run
seal_stream env draws key source aad cs = then_run (stream_sealer env draws key aad cs) (λ s.
    then_run (pack_u32 (length s.header))
      (λ n. yield (magic ++ (n ++ s.header)) (seal_all env.aead s source)))

unfoldable pub seal_bytes : StreamEnv → Draws → PublicKey → Bytes → Bytes → ℕ → Ending × Bytes
seal_bytes env draws key d aad cs = joined (seal_stream env draws key (items (d ∷ [])) aad cs)
