-- ===== src/Stream/Seal/Framing.antt =====
-- The frames that the sealer writes for its chunks.
use quantum_safe_py.Prelude.{
  ◌+◌, ◌≤◌, ◌<◌, ◌^◌, ◌≡◌, ap, Bool, true, false, List, [], ◌∷◌, ◌++◌, Bytes, length, All, arith,
}
use quantum_safe_py.Outcome.{ok}
use quantum_safe_py.Wire.{u32, pack_u32_fits}
use quantum_safe_py.Stream.Format.{max_chunk_size}
use quantum_safe_py.Stream.Cipher.{Aead, IsAead, CipherState, max_counter}
use quantum_safe_py.Stream.Cipher.Steps.{IsLive, next, finish, sealed, seal_full, seal_last}
use quantum_safe_py.Stream.Generator.{finished, yield}
use quantum_safe_py.Stream.Seal.{framed, seal_frame, seal_rest}
use quantum_safe_py.Stream.Seal.Chunks.{seal_fulls, seal_chunks}

-- A frame in plain form.
abbrev pub frame_of : Bytes → Bytes
frame_of ct = u32 (length ct) ++ ct

-- The frames of some chunks and of the last one.
unfoldable pub frames : Aead → CipherState → List Bytes → Bytes → List Bytes
frames a c [] r = frame_of (sealed a c r true) ∷ []
frames a c (f ∷ fs) r = frame_of (sealed a c f false) ∷ frames a (next c) fs r

framed_fits : (ct : Bytes) → length ct < 2 ^ 32 → framed ct ≡ ok (frame_of ct)
unfolding framed
framed_fits ct h = rw (pack_u32_fits (length ct) h)

module _ (a : Aead) (law : IsAead a) where
  sealed_fits :
      (c : CipherState) (f : Bytes) (last : Bool)
      → length f ≤ c.chunk_size
      → c.chunk_size ≤ max_chunk_size
      → length (sealed a c f last) < 2 ^ 32
  sealed_fits c f last h cs = rw (law.length_encrypt) (omega arith)

  seal_frame_full :
      (c : CipherState) (f : Bytes)
      → IsLive c
      → c.chunk_size ≤ max_chunk_size
      → length f ≡ c.chunk_size
      → c.counter < max_counter
      → seal_frame a c f false ≡ ok (next c, frame_of (sealed a c f false))
  unfolding seal_frame
  seal_frame_full c f live cs len more =
      rw (seal_full a c f live len more, framed_fits _ (sealed_fits c f false (omega arith) cs))

  seal_frame_last :
      (c : CipherState) (r : Bytes)
      → IsLive c
      → c.chunk_size ≤ max_chunk_size
      → length r ≤ c.chunk_size
      → seal_frame a c r true ≡ ok (finish c, frame_of (sealed a c r true))
  unfolding seal_frame
  seal_frame_last c r live cs len =
      rw (seal_last a c r live len, framed_fits _ (sealed_fits c r true len cs))

  -- With room for the counter, every chunk is sealed and framed in turn, and the generator ends.
  pub seal_chunks-frames :
      (c : CipherState) (fs : List Bytes) (r : Bytes)
      → IsLive c
      → c.chunk_size ≤ max_chunk_size
      → All (λ f. length f ≡ c.chunk_size) fs
      → length r ≤ c.chunk_size
      → c.counter + length fs ≤ max_counter
      → seal_chunks a c (fs, r) ≡ record { yields = frames a c fs r; ending = finished }
  unfolding seal_chunks seal_fulls frames seal_rest
  seal_chunks-frames c [] r live cs full len room = rw (seal_frame_last c r live cs len)
  seal_chunks-frames c (f ∷ fs) r live cs (hf, full) len room =
      let live' : IsLive (next c) = record {
        unfinished = live.unfinished;
        counter_fits = omega arith;
      } in
      rw (seal_frame_full c f live cs hf (omega arith)) (
        ap (yield (frame_of (sealed a c f false)))
          (seal_chunks-frames (next c) fs r live' cs full len (omega arith)))
