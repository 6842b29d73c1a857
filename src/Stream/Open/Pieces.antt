-- ===== src/Stream/Open/Pieces.antt =====
-- `open_stream` over one byte string: how its source is cut into pieces makes no difference.
use quantum_safe_py.Prelude.{
  ℕ, suc, ◌≤◌, ◌≡◌, refl, sym, ap, subst, ◌∙◌, inl, inr, not, Bytes, bytes_eq, length, take, drop,
  drop-drop, ltb, ◌==◌, ◌||◌, arith, Bool-cases, ltb-false,
}
use quantum_safe_py.Outcome.{Result, ok, err, value_error, ◌>>=◌, ◌>>◌, require}
use quantum_safe_py.Outcome.Both.{Both, both_raise, both_return, Both-require, Both-bind}
use quantum_safe_py.Wire.{unpack_u32}
use quantum_safe_py.Keys.{SecretKey}
use quantum_safe_py.Stream.Format.{magic, max_header_len}
use quantum_safe_py.Stream.Cipher.{CipherState}
use quantum_safe_py.Stream.Reader.{Source, Reader, new_reader, fill, take_view}
use quantum_safe_py.Stream.Reader.Buffer.{
  remaining, IsReader, Filled, fill-Filled, Filled-size, new_reader-IsReader, remaining-new_reader,
}
use quantum_safe_py.Stream.Reader.Taking.{take_view-Taken, peek_u32_lem}
use quantum_safe_py.Stream.Generator.{Run, then_run}
use quantum_safe_py.Stream.Open.{
  StreamEnv, stream_opener, open_frames, read_header, content, start_open, open_stream,
}
use quantum_safe_py.Stream.Open.Frames.{flat_frames, open_frames-flat_frames}

unfoldable pub flat_header : Bytes → Result (Bytes × Bytes)
flat_header d = do
  require (not (ltb (length d) 8)) value_error
  require (bytes_eq (take 4 d) magic) value_error
  n ← unpack_u32 (take 4 (drop 4 d))
  require (not (n == 0 || ltb max_header_len n)) value_error
  require (not (ltb (length (drop 8 d)) n)) value_error
  ok (drop n (drop 8 d), take n (drop 8 d))

unfoldable pub flat_start : StreamEnv → SecretKey → Bytes → Bytes → Result (CipherState × Bytes)
flat_start env key d aad = do
  (rest, header) ← flat_header d
  c ← stream_opener env key header aad
  ok (c, rest)

-- What `open_stream` does with all its input at once.
unfoldable pub flat_stream : StreamEnv → SecretKey → Bytes → Bytes → Run
flat_stream env key d aad =
    then_run (flat_start env key d aad) (λ s. flat_frames (suc (length d)) env.aead s.0 s.1)

record SameHeader (x : Reader × Bytes) (y : Bytes × Bytes) : Type 0 where
  valid : IsReader x.0
  rest : remaining x.0 ≡ y.0
  header : x.1 ≡ y.1

-- The body of the header: `n` bytes.
Same-body :
    (n : ℕ) (r : Reader) (b : Bytes)
    → IsReader r
    → remaining r ≡ b
    → Both SameHeader
        (do require (not (ltb (fill n r).size n)) value_error; ok (take_view n (fill n r)))
        (do require (not (ltb (length b) n)) value_error; ok (drop n b, take n b))
Same-body n r b v e =
    let f : Filled n b (fill n r) = subst (λ x. Filled n x (fill n r)) e (fill-Filled n r v) in
    let same = Filled-size f n (omega arith) in
    elim (Bool-cases (ltb (length b) n)) [
      | inl short ↦ rw (same, short) (both_raise value_error)
      | inr long ↦
          let t = take_view-Taken n (fill n r) f.valid (ltb-false _ _ (same ∙ long)) in
          rw (same, long)
            (both_return _ _ (record {
              valid = t.valid;
              rest = t.rest ∙ ap (drop n) f.same;
              header = t.bytes ∙ ap (take n) f.same;
            }))
    ]

Same-header :
    (r : Reader) (b : Bytes)
    → IsReader r
    → remaining r ≡ b
    → Both SameHeader (read_header r) (flat_header b)
unfolding read_header flat_header
Same-header r b v e =
    let f : Filled 8 b (fill 8 r) = subst (λ x. Filled 8 x (fill 8 r)) e (fill-Filled 8 r v) in
    let same = Filled-size f 8 (omega arith) in
    elim (Bool-cases (ltb (length b) 8)) [
      | inl short ↦ rw (same, short) (both_raise value_error)
      | inr long ↦
          let size : 8 ≤ (fill 8 r).size = ltb-false _ _ (same ∙ long) in
          let one = take_view-Taken 4 (fill 8 r) f.valid (omega arith) in
          let four : 4 ≤ (take_view 4 (fill 8 r)).0.size = omega (arith, one.size_left) in
          let two = take_view-Taken 4 (take_view 4 (fill 8 r)).0 one.valid four in
          let left : remaining (take_view 4 (fill 8 r)).0 ≡ drop 4 b =
            one.rest ∙ ap (drop 4) f.same in
          let behind : remaining (take_view 4 (take_view 4 (fill 8 r)).0).0 ≡ drop 8 b =
            two.rest ∙ ap (drop 4) left ∙ drop-drop 4 4 b in
          rw (same, long, one.bytes ∙ ap (take 4) f.same, peek_u32_lem _ one.valid four, left)
            (Both-require (bytes_eq (take 4 b) magic) value_error _ _ λ _.
              Both-bind (unpack_u32 (take 4 (drop 4 b))) _ _ λ n.
                Both-require (not (n == 0 || ltb max_header_len n)) value_error _ _
                  λ _. Same-body n _ (drop 8 b) two.valid behind)
    ]

record SameStart (x : CipherState × Reader) (y : CipherState × Bytes) : Type 0 where
  cipher : x.0 ≡ y.0
  valid : IsReader x.1
  rest : remaining x.1 ≡ y.1

Same-start :
    (env : StreamEnv) (key : SecretKey) (s : Source) (aad : Bytes)
    → Both SameStart (start_open env key s aad) (flat_start env key (content s) aad)
unfolding start_open flat_start
Same-start env key s aad =
    by_header _ _
      (Same-header (new_reader s) (content s) (new_reader-IsReader s) (remaining-new_reader s))
  where
    opener :
        (x : Reader × Bytes) (y : Bytes × Bytes)
        → SameHeader x y
        → (o : Result CipherState) → Both SameStart (do c ← o; ok (c, x.0)) (do c ← o; ok (c, y.0))
    opener x y h (ok c) = both_return _ _ (record { cipher = refl; valid = h.valid; rest = h.rest })
    opener x y h (err e) = both_raise e

    by_header :
        (x : Result (Reader × Bytes)) (y : Result (Bytes × Bytes))
        → Both SameHeader x y
        → Both SameStart
            (do (r, header) ← x; c ← stream_opener env key header aad; ok (c, r))
            (do (rest, header) ← y; c ← stream_opener env key header aad; ok (c, rest))
    by_header x y (both_raise e) = both_raise e
    by_header x y (both_return a b h) = rw (h.header) (opener a b h (stream_opener env key b.1 aad))

Same-run :
    (fuel : ℕ) (env : StreamEnv) (x : Result (CipherState × Reader))
    (y : Result (CipherState × Bytes))
    → Both SameStart x y
    → then_run x (λ s. open_frames fuel env.aead s.0 s.1)
      ≡ then_run y (λ s. flat_frames fuel env.aead s.0 s.1)
Same-run fuel env x y (both_raise e) = refl
Same-run fuel env x y (both_return a b h) =
    rw (← h.cipher) (open_frames-flat_frames fuel env.aead a.0 a.1 b.1 h.valid h.rest)

-- The opener over any source is the opener over its bytes.
pub open_stream-flat_stream :
    (env : StreamEnv) (key : SecretKey) (s : Source) (aad : Bytes)
    → open_stream env key s aad ≡ flat_stream env key (content s) aad
unfolding open_stream flat_stream
open_stream-flat_stream env key s aad =
    Same-run (suc (length (content s))) env _ _ (Same-start env key s aad)

-- Two sources with the same bytes, however they are cut into pieces and whether they are a file or
-- an iterable, give the same plaintext chunks and end in the same way.
pub open_stream_pieces :
    (env : StreamEnv) (key : SecretKey) (s t : Source) (aad : Bytes)
    → content s ≡ content t
    → open_stream env key s aad ≡ open_stream env key t aad
open_stream_pieces env key s t aad e =
    open_stream-flat_stream env key s aad
    ∙ ap (λ d. flat_stream env key d aad) e
    ∙ sym (open_stream-flat_stream env key t aad)
