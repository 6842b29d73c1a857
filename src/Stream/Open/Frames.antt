-- ===== src/Stream/Open/Frames.antt =====
-- The opener over one byte string, and the proof that the reader makes no difference to it.
use quantum_safe_py.Prelude.{
  ℕ, zero, suc, ◌+◌, ◌≤◌, ◌<◌, ◌≡◌, refl, sym, ap, subst, ◌∙◌, inl, inr, Bool, true, false, not, [],
  Bytes, length, take, drop, drop-drop, length-drop, length-append, join, append-nil, ltb, ◌==◌,
  ◌||◌, arith, Bool-cases, ltb-false,
}
use quantum_safe_py.Outcome.{Result, ok, err, value_error, ◌>>=◌, ◌>>◌, require}
use quantum_safe_py.Outcome.Both.{Both, both_raise, both_return, Both-require, Both-bind}
use quantum_safe_py.Wire.{unpack_u32}
use quantum_safe_py.Stream.Format.{tag_len}
use quantum_safe_py.Stream.Cipher.{Aead, CipherState, open_chunk}
use quantum_safe_py.Stream.Reader.{Reader, fill, take_view}
use quantum_safe_py.Stream.Reader.Buffer.{remaining, IsReader, Filled, fill-Filled, Filled-size}
use quantum_safe_py.Stream.Reader.Taking.{take_view-Taken, peek_u32_lem}
use quantum_safe_py.Stream.Generator.{out_of_fuel, Run, stop, fail, yield}
use quantum_safe_py.Stream.Open.{
  Frame, open_frame, read_frame, next_frame, after_frame, open_frames,
}

-- A frame cut from one byte string: `rest` is what follows it.
pub record FlatFrame : Type 0 where
  pub plain : Bytes
  pub last : Bool
  pub rest : Bytes
  pub cipher : CipherState

unfoldable pub flat_frame : Aead → CipherState → Bytes → Bytes → Result FlatFrame
flat_frame a c ct rest =
    let last = length rest == 0 in
    let (c', opened) = open_chunk a ct last c in
    do plain ← opened; ok (record { plain = plain; last = last; rest = rest; cipher = c' })

unfoldable pub flat_next : Aead → CipherState → Bytes → Result FlatFrame
unfolding flat_frame
flat_next a c d = do
  require (not (length d == 0)) value_error
  require (not (ltb (length d) 4)) value_error
  n ← unpack_u32 (take 4 d)
  require (not (ltb n tag_len || ltb (c.chunk_size + tag_len) n)) value_error
  require (not (ltb (length d) (4 + n))) value_error
  flat_frame a c (take n (drop 4 d)) (drop (4 + n) d)

unfoldable pub after_flat : (CipherState → Bytes → Run) → Result FlatFrame → Run
after_flat continue (err e) = fail e
after_flat continue (ok f) = elim f.last [
  | true ↦ yield f.plain stop
  | false ↦ yield f.plain (continue f.cipher f.rest)
]

unfoldable pub flat_frames : ℕ → Aead → CipherState → Bytes → Run
unfolding after_flat
flat_frames zero a c d = record { yields = []; ending = out_of_fuel }
flat_frames (suc fuel) a c d = after_flat (flat_frames fuel a) (flat_next a c d)

-- A round over the reader and a round over its bytes: the same exception, or the same frame with
-- the same bytes left.
record SameFrame (f : Frame) (g : FlatFrame) : Type 0 where
  plain : f.plain ≡ g.plain
  last : f.last ≡ g.last
  cipher : f.cipher ≡ g.cipher
  valid : IsReader f.reader
  rest : remaining f.reader ≡ g.rest

abbrev Same : Result Frame → Result FlatFrame → Type 0
Same = Both SameFrame

Same-open :
    (a : Aead) (c : CipherState) (ct : Bytes) (r : Reader) (d : Bytes)
    → IsReader r
    → remaining r ≡ d
    → (r.size == 0) ≡ (length d == 0)
    → Same (open_frame a c ct r) (flat_frame a c ct d)
unfolding open_frame flat_frame
Same-open a c ct r d v e z = rw (z) (by_result (open_chunk a ct (length d == 0) c).1)
  where
    by_result :
        (x : Result Bytes)
        → Same
            (do
              plain ← x
              ok (record {
                plain = plain;
                last = length d == 0;
                reader = r;
                cipher = (open_chunk a ct (length d == 0) c).0;
              }))
            (do
              plain ← x
              ok (record {
                plain = plain;
                last = length d == 0;
                rest = d;
                cipher = (open_chunk a ct (length d == 0) c).0;
              }))
    by_result (ok p) =
        both_return _ _ (record { plain = refl; last = refl; cipher = refl; valid = v; rest = e })
    by_result (err x) = both_raise x

eq_zero_of_ltb : (m n : ℕ) → ltb m 1 ≡ ltb n 1 → (m == 0) ≡ (n == 0)
eq_zero_of_ltb m n e = ground arith

present : (m n : ℕ) → 0 < m → 0 < n → (m == 0) ≡ (n == 0)
present m n h k = ground arith

-- The reader behind a frame of `n` bytes, when one byte more was asked for.
record Behind (n : ℕ) (b : Bytes) (out : Reader × Bytes) : Type 0 where
  ct : out.1 ≡ take n (drop 4 b)
  valid : IsReader out.0
  rest : remaining out.0 ≡ drop (4 + n) b
  empty : (out.0.size == 0) ≡ (length (drop (4 + n) b) == 0)

take_frame :
    (n : ℕ) (b : Bytes) (r : Reader)
    → Filled (4 + n + 1) b r
    → 4 + n ≤ r.size
    → Behind n b (take_view n (take_view 4 r).0)
take_frame n b r f h =
    let one = take_view-Taken 4 r f.valid (omega arith) in
    let two = take_view-Taken n (take_view 4 r).0 one.valid (omega (arith, one.size_left)) in
    let left : remaining (take_view n (take_view 4 r).0).0 ≡ drop (4 + n) b =
      two.rest ∙ ap (drop n) (one.rest ∙ ap (drop 4) f.same) ∙ drop-drop n 4 b in
    let nothing_more : r.it ≡ []
        → remaining (take_view n (take_view 4 r).0).0
          ≡ join (take_view n (take_view 4 r).0).0.views =
      λ e. rw (two.it_kept ∙ one.it_kept ∙ e) (append-nil _) in
    let total : length b ≡ length (join r.views) + length (join r.it) =
      ap length (sym f.same) ∙ length-append (join r.views) (join r.it) in
    record {
      ct = two.bytes ∙ ap (take n) (one.rest ∙ ap (drop 4) f.same);
      valid = two.valid;
      rest = left;
      empty = elim f.enough [
        | inl more ↦
            present _ _ (omega (arith, two.size_left, one.size_left))
              (omega (arith, length-drop (4 + n) b, f.valid.sized, total))
        | inr e ↦ ap (λ (k : ℕ). k == 0) (two.valid.sized ∙ ap length (sym (nothing_more e) ∙ left))
      ];
    }

Same-read :
    (a : Aead) (c : CipherState) (n : ℕ) (b : Bytes) (r : Reader)
    → IsReader r
    → remaining r ≡ b
    → Same (read_frame a c n r) (do
      require (not (ltb (length b) (4 + n))) value_error
      flat_frame a c (take n (drop 4 b)) (drop (4 + n) b))
unfolding read_frame
Same-read a c n b r v e =
    let f : Filled (4 + n + 1) b (fill (4 + n + 1) r) =
      subst (λ x. Filled (4 + n + 1) x (fill (4 + n + 1) r)) e (fill-Filled (4 + n + 1) r v) in
    let s = Filled-size f (4 + n) (omega arith) in
    elim (Bool-cases (ltb (length b) (4 + n))) [
      | inl short ↦ rw (s, short) (both_raise value_error)
      | inr long ↦
          let k = take_frame n b (fill (4 + n + 1) r) f (ltb-false _ _ (s ∙ long)) in
          rw (s, long, k.ct) (Same-open a c _ _ _ k.valid k.rest k.empty)
    ]

Same-next :
    (a : Aead) (c : CipherState) (r : Reader) (b : Bytes)
    → IsReader r
    → remaining r ≡ b
    → Same (next_frame a c r) (flat_next a c b)
unfolding next_frame flat_next
Same-next a c r b v e =
    let f : Filled 4 b (fill 4 r) = subst (λ x. Filled 4 x (fill 4 r)) e (fill-Filled 4 r v) in
    let zero_test = eq_zero_of_ltb _ _ (Filled-size f 1 (omega arith)) in
    rw (zero_test, Filled-size f 4 (omega arith))
      (Both-require (not (length b == 0)) value_error _ _ λ _.
        Both-require (not (ltb (length b) 4)) value_error _ _ λ four.
          let size : 4 ≤ (fill 4 r).size =
            ltb-false _ _ (Filled-size f 4 (omega arith) ∙ not_true _ four) in
          rw (peek_u32_lem (fill 4 r) f.valid size, f.same)
            (Both-bind (unpack_u32 (take 4 b)) _ _ λ n.
              Both-require (not (ltb n tag_len || ltb (c.chunk_size + tag_len) n)) value_error _ _
                λ _. Same-read a c n b (fill 4 r) f.valid f.same))
  where
    not_true : (x : Bool) → not x ≡ true → x ≡ false
    not_true true h = cc
    not_true false h = refl

Same-after :
    (k : CipherState → Reader → Run) (l : CipherState → Bytes → Run) (x : Result Frame)
    (y : Result FlatFrame)
    → ((c : CipherState) (r : Reader) (b : Bytes) → IsReader r → remaining r ≡ b → k c r ≡ l c b)
    → Same x y
    → after_frame k x ≡ after_flat l y
unfolding after_frame after_flat
Same-after k l x y h (both_raise e) = refl
Same-after k l x y h (both_return f g s) = ground (arith, h f.cipher f.reader g.rest s.valid s.rest)

-- The loop over a reader is the loop over its bytes.
pub open_frames-flat_frames :
    (fuel : ℕ) (a : Aead) (c : CipherState) (r : Reader) (b : Bytes)
    → IsReader r
    → remaining r ≡ b
    → open_frames fuel a c r ≡ flat_frames fuel a c b
unfolding open_frames flat_frames
open_frames-flat_frames zero a c r b v e = refl
open_frames-flat_frames (suc fuel) a c r b v e =
    Same-after (open_frames fuel a) (flat_frames fuel a) (next_frame a c r) (flat_next a c b)
      (open_frames-flat_frames fuel a) (Same-next a c r b v e)
