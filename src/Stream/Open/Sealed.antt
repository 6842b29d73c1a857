-- ===== src/Stream/Open/Sealed.antt =====
-- The opener's loop on the frames that a sealer writes.
use quantum_safe_py.Prelude.{
  ℕ, zero, suc, ◌+◌, ◌≤◌, ◌<◌, ◌≡◌, refl, sym, ◌∙◌, Bool, true, false, List, [], ◌∷◌, ◌++◌, Bytes,
  length, length-append, take, drop, take-append, drop-append, drop-drop, join, All, ltb, ◌==◌,
  ◌||◌, if◌then◌else◌, arith,
}
use quantum_safe_py.Outcome.{ok}
use quantum_safe_py.Wire.{unpack-u32}
use quantum_safe_py.Stream.Format.{tag_len}
use quantum_safe_py.Stream.Cipher.{Aead, IsAead, CipherState, max_counter, wrong_plain_length}
use quantum_safe_py.Stream.Cipher.Steps.{IsLive, next, finish, sealed, open_sealed}
use quantum_safe_py.Stream.Generator.{finished}
use quantum_safe_py.Stream.Open.Frames.{flat_frame, flat_next, after_flat, flat_frames}
use quantum_safe_py.Stream.Seal.Framing.{frame_of, frames}

-- A length prefix and what it counts, in front of more bytes.
cut_frame :
    (ct rest : Bytes)
    → (take (length ct) (drop 4 (frame_of ct ++ rest)) ≡ ct)
      × (drop (4 + length ct) (frame_of ct ++ rest) ≡ rest)
      × (length (frame_of ct ++ rest) ≡ 4 + (length ct + length rest))
cut_frame ct rest = (
  take-append ct rest,
  sym (drop-drop (length ct) 4 (frame_of ct ++ rest)) ∙ drop-append ct rest,
  omega (arith, length-append ct rest),
)

-- The tests of a round pass for a frame that is whole and whose ciphertext has an allowed length.
flat_next-frame :
    (a : Aead) (c : CipherState) (ct rest : Bytes)
    → tag_len ≤ length ct
    → length ct ≤ c.chunk_size + tag_len
    → flat_next a c (frame_of ct ++ rest) ≡ flat_frame a c ct rest
unfolding flat_next
flat_next-frame a c ct rest lo hi =
    let (body, behind, total) = cut_frame ct rest in
    let one : (length (frame_of ct ++ rest) == 0) ≡ false = ground (arith, total) in
    let four : ltb (length (frame_of ct ++ rest)) 4 ≡ false = ground (arith, total) in
    let whole : ltb (length (frame_of ct ++ rest)) (4 + length ct) ≡ false =
      ground (arith, total) in
    let allowed : (ltb (length ct) tag_len || ltb (c.chunk_size + tag_len) (length ct)) ≡ false =
      ground arith in
    rw (one, four, unpack-u32 (length ct), allowed, whole, body, behind)

-- A frame with a sealed chunk, in the state that it was sealed in.
pub flat_next-sealed :
    (a : Aead) (c : CipherState) (p rest : Bytes) (last : Bool)
    → IsAead a
    → IsLive c
    → wrong_plain_length c (length p) last ≡ false
    → (last ≡ false → c.counter < max_counter)
    → (length rest == 0) ≡ last
    → flat_next a c (frame_of (sealed a c p last) ++ rest)
      ≡ ok (record {
        plain = p;
        last = last;
        rest = rest;
        cipher = if last then finish c else next c;
      })
unfolding flat_frame wrong_plain_length
flat_next-sealed a c p rest last law live len room e =
    let n : length (sealed a c p last) ≡ length p + tag_len = law.length_encrypt _ _ _ _ in
    rw (
      flat_next-frame a c (sealed a c p last) rest (omega (arith, n)) (ground (arith, n, len)),
      e,
      open_sealed a p last c law live len room,
    )

frames_nonempty :
    (a : Aead) (c : CipherState) (fs : List Bytes) (r : Bytes)
    → (length (join (frames a c fs r)) == 0) ≡ false
unfolding frames
frames_nonempty a c [] r = ground arith
frames_nonempty a c (f ∷ fs) r = ground arith

full_fits : (c : CipherState) (n : ℕ) → n ≡ c.chunk_size → wrong_plain_length c n false ≡ false
unfolding wrong_plain_length
full_fits c n e = ground arith

rest_fits : (c : CipherState) (n : ℕ) → n ≤ c.chunk_size → wrong_plain_length c n true ≡ false
unfolding wrong_plain_length
rest_fits c n h = ground arith

-- Every frame is opened in turn, and the loop ends after the last.
pub flat_frames-frames :
    (fuel : ℕ) (a : Aead) (c : CipherState) (fs : List Bytes) (r : Bytes)
    → IsAead a
    → IsLive c
    → All (λ f. length f ≡ c.chunk_size) fs
    → length r ≤ c.chunk_size
    → c.counter + length fs ≤ max_counter
    → length fs < fuel
    → flat_frames fuel a c (join (frames a c fs r))
      ≡ record { yields = fs ++ (r ∷ []); ending = finished }
unfolding flat_frames after_flat frames
flat_frames-frames zero a c fs r law live full len room fuel_fits = absurd (omega arith)
flat_frames-frames (suc fuel) a c [] r law live full len room fuel_fits =
    rw (flat_next-sealed a c r [] true law live (rest_fits c (length r) len) (λ k. cc) refl)
flat_frames-frames (suc fuel) a c (f ∷ fs) r law live (hf, full) len room fuel_fits =
    let live' : IsLive (next c) = record {
      unfinished = live.unfinished;
      counter_fits = omega arith;
    } in
    rw (
      flat_next-sealed a c f (join (frames a (next c) fs r)) false law live
          (full_fits c (length f) hf) (λ k. omega arith) (frames_nonempty a (next c) fs r),
      flat_frames-frames fuel a (next c) fs r law live' full len (omega arith) (omega arith),
    )

-- A stream has more bytes than chunks.
pub frames_longer :
    (a : Aead) (c : CipherState) (fs : List Bytes) (r : Bytes)
    → length fs < length (join (frames a c fs r))
unfolding frames
frames_longer a c [] r = omega arith
frames_longer a c (f ∷ fs) r = omega (
  arith,
  frames_longer a (next c) fs r,
  length-append (frame_of (sealed a c f false)) (join (frames a (next c) fs r)),
)
