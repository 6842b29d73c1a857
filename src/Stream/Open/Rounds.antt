-- ===== src/Stream/Open/Rounds.antt =====
-- One round of the opener's loop, read backwards: what its input was, if it succeeded.
use quantum_safe_py.Prelude.{
  ◌+◌, ◌*◌, ◌^◌, ◌<◌, ◌≡◌, refl, sym, ap, ◌∙◌, false, not, [], ◌∷◌, ◌++◌, Bytes, IsBytes, length,
  length-take, length-drop, take, drop, take-append-drop, drop-drop, ltb, ◌==◌, ◌||◌, if◌then◌else◌,
  arith,
}
use quantum_safe_py.Outcome.{ok, value_error, >>=-eq-ok, >>-eq-ok}
use quantum_safe_py.Wire.{u32, unpack_u32, u32_of_bytes}
use quantum_safe_py.Stream.Format.{tag_len}
use quantum_safe_py.Stream.Cipher.{
  Aead, IsAead, CipherState, max_counter, open_chunk, wrong_plain_length,
}
use quantum_safe_py.Stream.Cipher.Steps.{IsLive, next, finish, sealed, open-eq-ok}
use quantum_safe_py.Stream.Open.Frames.{FlatFrame, flat_frame, flat_next}
use quantum_safe_py.Stream.Seal.Framing.{frame_of}

-- A frame that was read: its ciphertext, which chunk that is, and the state after it.
record Read (a : Aead) (c : CipherState) (ct rest : Bytes) (f : FlatFrame) : Type 0 where
  rest_eq : f.rest ≡ rest
  last_eq : f.last ≡ (length f.rest == 0)
  argument : ct ≡ sealed a c f.plain f.last
  fits : wrong_plain_length c (length f.plain) f.last ≡ false
  room : f.last ≡ false → c.counter < max_counter
  cipher_eq : f.cipher ≡ (if f.last then finish c else next c)

flat_frame-eq-ok :
    (a : Aead) (c : CipherState) (ct rest : Bytes) (f : FlatFrame)
    → IsAead a
    → IsLive c
    → flat_frame a c ct rest ≡ ok f
    → Read a c ct rest f
unfolding flat_frame
flat_frame-eq-ok a c ct rest f law live h =
    let last = length rest == 0 in
    let (plain, opened, e) = >>=-eq-ok (open_chunk a ct last c).1 _ h in
    let made : FlatFrame = record {
      plain = plain;
      last = last;
      rest = rest;
      cipher = (open_chunk a ct last c).0;
    } in
    let same : made ≡ f = cc e in
    let o = open-eq-ok a ct last c plain law live opened in
    rw (← same) (record {
      rest_eq = refl;
      last_eq = refl;
      argument = o.argument;
      fits = o.fits;
      room = o.room;
      cipher_eq = o.state;
    })

-- A round that passes its tests, on bytes.
pub record Round (a : Aead) (c : CipherState) (d : Bytes) (f : FlatFrame) : Type 0 where
  pub whole : d ≡ frame_of (sealed a c f.plain f.last) ++ f.rest
  pub last_eq : f.last ≡ (length f.rest == 0)
  pub fits : wrong_plain_length c (length f.plain) f.last ≡ false
  pub room : f.last ≡ false → c.counter < max_counter
  pub cipher_eq : f.cipher ≡ (if f.last then finish c else next c)

pub flat_next-eq-ok :
    (a : Aead) (c : CipherState) (d : Bytes) (f : FlatFrame)
    → IsAead a
    → IsLive c
    → IsBytes d
    → flat_next a c d ≡ ok f
    → Round a c d f
unfolding flat_next unpack_u32
flat_next-eq-ok a c (w ∷ x ∷ y ∷ z ∷ d) f law live (hw, (hx, (hy, (hz, hd)))) h =
    let n = w * 2 ^ 24 + x * 2 ^ 16 + y * 2 ^ 8 + z in
    let (_, h1) = >>-eq-ok (not (length (w ∷ x ∷ y ∷ z ∷ d) == 0)) value_error _ h in
    let (_, h2) = >>-eq-ok (not (ltb (length (w ∷ x ∷ y ∷ z ∷ d)) 4)) value_error _ h1 in
    let (_, h3) =
      >>-eq-ok (not (ltb n tag_len || ltb (c.chunk_size + tag_len) n)) value_error _ h2 in
    let (long, h4) = >>-eq-ok (not (ltb (length (w ∷ x ∷ y ∷ z ∷ d)) (4 + n))) value_error _ h3 in
    let r = flat_frame-eq-ok a c (take n d) (drop (4 + n) (w ∷ x ∷ y ∷ z ∷ d)) f law live h4 in
    let behind : f.rest ≡ drop n d = r.rest_eq ∙ sym (drop-drop n 4 (w ∷ x ∷ y ∷ z ∷ d)) in
    let size : length (take n d) ≡ n = ground (arith, length-take n d) in
    let number : u32 n ≡ w ∷ x ∷ y ∷ z ∷ [] = u32_of_bytes w x y z (hw, (hx, (hy, (hz, tt)))) in
    let prefixed : frame_of (take n d) ≡ w ∷ x ∷ y ∷ z ∷ take n d =
      ap (λ k. u32 k ++ take n d) size ∙ ap (λ (b : Bytes). b ++ take n d) number in
    let body : w ∷ x ∷ y ∷ z ∷ d ≡ frame_of (take n d) ++ drop n d = sym (
      ap (λ b. b ++ drop n d) prefixed
      ∙ ap (λ (b : Bytes). w ∷ x ∷ y ∷ z ∷ b) (take-append-drop n d)) in
    record {
      whole =
          body
          ∙ ap (λ b. frame_of b ++ drop n d) r.argument
          ∙ ap (λ b. frame_of (sealed a c f.plain f.last) ++ b) (sym behind);
      last_eq = r.last_eq;
      fits = r.fits;
      room = r.room;
      cipher_eq = r.cipher_eq;
    }
flat_next-eq-ok a c [] f law live b h = cc
flat_next-eq-ok a c (w ∷ []) f law live b h = cc
flat_next-eq-ok a c (w ∷ x ∷ []) f law live b h = cc
flat_next-eq-ok a c (w ∷ x ∷ y ∷ []) f law live b h = cc

-- A frame has 20 bytes at least.
pub flat_next_shorter :
    (a : Aead) (c : CipherState) (d : Bytes) (f : FlatFrame)
    → flat_next a c d ≡ ok f
    → length f.rest < length d
unfolding flat_next flat_frame
flat_next_shorter a c d f h =
    let (some_left, h1) = >>-eq-ok (not (length d == 0)) value_error _ h in
    let (_, h2) = >>-eq-ok (not (ltb (length d) 4)) value_error _ h1 in
    let (n, _, h3) = >>=-eq-ok (unpack_u32 (take 4 d)) _ h2 in
    let (_, h4) =
      >>-eq-ok (not (ltb n tag_len || ltb (c.chunk_size + tag_len) n)) value_error _ h3 in
    let (_, h5) = >>-eq-ok (not (ltb (length d) (4 + n))) value_error _ h4 in
    let (plain, _, h6) =
      >>=-eq-ok (open_chunk a (take n (drop 4 d)) (length (drop (4 + n) d) == 0) c).1 _ h5 in
    let e : drop (4 + n) d ≡ f.rest = cc h6 in
    ground (arith, ap length e, length-drop (4 + n) d, some_left)
