-- ===== src/Stream/Open.antt =====
-- protocols/stream.py: the class `StreamOpener`, `open_stream` and `open_bytes`.
pub mod Frames
pub mod Pieces
pub mod Sealed
pub mod Rounds
pub mod Canonical
use quantum_safe_py.Prelude.{
  ℕ, zero, suc, ◌+◌, Bool, true, false, not, List, [], ◌∷◌, ◌++◌, Bytes, bytes_eq, length, take,
  drop, join, ltb, ◌==◌, ◌||◌, ◌&&◌, if◌then◌else◌,
}
use quantum_safe_py.Outcome.{Result, ok, err, value_error, ◌>>=◌, ◌>>◌, require}
use quantum_safe_py.Wire.{unpack_u32}
use quantum_safe_py.Cbor.{Cbor2}
use quantum_safe_py.Keys.{SecretKey}
use quantum_safe_py.Kem.Types.{Kdf}
use quantum_safe_py.Stream.Format.{
  Suites, StreamHeader, magic, tag_len, max_header_len, uses_sha384, stream_decapsulate,
  parse_header, derive_stream_key, build_aad,
}
use quantum_safe_py.Stream.Cipher.{Aead, CipherState, new_cipher, open_chunk}
use quantum_safe_py.Stream.Reader.{
  Source, items, pieces, Reader, new_reader, fill, take_view, peek_u32,
}
use quantum_safe_py.Stream.Generator.{
  Ending, finished, out_of_fuel, raised, Run, stop, fail, yield, then_run,
}

-- The third-party code that a stream rests on.
pub record StreamEnv : Type 0 where
  pub cbor : Cbor2
  pub aead : Aead
  pub suites : Suites

abbrev pub env_kdf : StreamEnv → Kdf
env_kdf env = env.suites.primitives.kdf

-- `StreamOpener(secret_key, header, expected_aad)`
unfoldable pub stream_opener : StreamEnv → SecretKey → Bytes → Bytes → Result CipherState
stream_opener env key header aad = do
  h ← parse_header env.cbor header
  require (bytes_eq h.algorithm key.algorithm) value_error
  wide ← uses_sha384 h.algorithm
  ss ← stream_decapsulate env.suites key h.algorithm h.kem_ct
  full_aad ← build_aad header aad
  ok (
      new_cipher (derive_stream_key (env_kdf env) ss header wide) h.nonce_prefix full_aad
        h.chunk_size)

-- What one round of the loop of `open_stream` yields, and the state that it leaves.
pub record Frame : Type 0 where
  pub plain : Bytes
  pub last : Bool
  pub reader : Reader
  pub cipher : CipherState

unfoldable pub open_frame : Aead → CipherState → Bytes → Reader → Result Frame
open_frame a c ct r =
    let last = r.size == 0 in
    let (c', opened) = open_chunk a ct last c in
    do plain ← opened; ok (record { plain = plain; last = last; reader = r; cipher = c' })

-- The frame is read when `4 + n + 1` bytes were asked for: one more, to see whether it is the last.
unfoldable pub read_frame : Aead → CipherState → ℕ → Reader → Result Frame
read_frame a c n r1 =
    let r2 = fill (4 + n + 1) r1 in
    let r3 = (take_view 4 r2).0 in
    let (r4, ct) = take_view n r3 in
    do require (not (ltb r2.size (4 + n))) value_error; open_frame a c ct r4

unfoldable pub next_frame : Aead → CipherState → Reader → Result Frame
next_frame a c r =
    let r1 = fill 4 r in
    do
      require (not (r1.size == 0)) value_error
      require (not (ltb r1.size 4)) value_error
      n ← peek_u32 r1
      require (not (ltb n tag_len || ltb (c.chunk_size + tag_len) n)) value_error
      read_frame a c n r1

-- The end of a round: the plaintext is yielded, and the last frame ends the generator.
unfoldable pub after_frame : (CipherState → Reader → Run) → Result Frame → Run
after_frame continue (err e) = fail e
after_frame continue (ok f) = elim f.last [
  | true ↦ yield f.plain stop
  | false ↦ yield f.plain (continue f.cipher f.reader)
]

-- The loop of `open_stream`. Each round takes 20 bytes at least.
unfoldable pub open_frames : ℕ → Aead → CipherState → Reader → Run
unfolding after_frame
open_frames zero a c r = record { yields = []; ending = out_of_fuel }
open_frames (suc fuel) a c r = after_frame (open_frames fuel a) (next_frame a c r)

-- What `open_stream` reads before its loop: the reader behind the header, and the header.
unfoldable pub read_header : Reader → Result (Reader × Bytes)
read_header r =
    let r1 = fill 8 r in
    let (r2, found) = take_view 4 r1 in
    let r3 = (take_view 4 r2).0 in
    do
      require (not (ltb r1.size 8)) value_error
      require (bytes_eq found magic) value_error
      n ← peek_u32 r2
      require (not (n == 0 || ltb max_header_len n)) value_error
      let r4 = fill n r3
      require (not (ltb r4.size n)) value_error
      ok (take_view n r4)

-- The bytes of a source.
abbrev pub content : Source → Bytes
content s = join (pieces s)

unfoldable pub start_open : StreamEnv → SecretKey → Source → Bytes → Result (CipherState × Reader)
start_open env key source aad = do
  (r, header) ← read_header (new_reader source)
  c ← stream_opener env key header aad
  ok (c, r)

unfoldable pub open_stream : StreamEnv → SecretKey → Source → Bytes → Run
open_stream env key source aad =
    then_run (start_open env key source aad)
      (λ s. open_frames (suc (length (content source))) env.aead s.0 s.1)

-- `b"".join` of a generator: its bytes if it finished, and nothing beside an exception.
joined_by : Ending → List Bytes → Ending × Bytes
joined_by finished ys = (finished, join ys)
joined_by e ys = (e, [])

unfoldable pub joined : Run → Ending × Bytes
unfolding joined_by
joined g = joined_by g.ending g.yields

unfoldable pub open_bytes : StreamEnv → SecretKey → Bytes → Bytes → Ending × Bytes
open_bytes env key d aad = joined (open_stream env key (items (d ∷ [])) aad)
