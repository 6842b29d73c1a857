-- ===== src/Stream/Seal/Chunks.antt =====
-- `seal_stream` in terms of the chunks that its input is cut into.
use quantum_safe_py.Prelude.{
  ℕ, zero, suc, ◌+◌, ◌-◌, ◌≤◌, ◌<◌, ◌≡◌, refl, inl, inr, false, List, [], ◌∷◌, ◌++◌, Bytes,
  append-nil, length, drop, length-drop, join, ltb, ◌==◌, arith, Bool-cases, ltb-false, ltb→lt,
}
use mathlib.Core.Path.{fun_ext}
use quantum_safe_py.Outcome.{Result, ok, err, ◌>>=◌}
use quantum_safe_py.Stream.Cipher.{Aead, CipherState}
use quantum_safe_py.Stream.Reader.{Source, pieces}
use quantum_safe_py.Stream.Generator.{Run, yield_all}
use quantum_safe_py.Stream.Open.{content}
use quantum_safe_py.Stream.Seal.{
  StreamSealer, seal_frame, Progress, after_seal, full_chunks, carried, seal_piece, and_then,
  seal_pieces, seal_rest, seal_all,
}
use quantum_safe_py.Stream.Seal.Cut.{cut, cut_short, cut_long, cut-append, cut-IsCut, push_all}

-- The sealing of chunks that are not the last; `r` is carried over.
unfoldable pub seal_fulls : Aead → CipherState → List Bytes → Bytes → Progress
unfolding after_seal
seal_fulls a c [] r = record { out = []; state = ok (c, r) }
seal_fulls a c (f ∷ fs) r = after_seal (λ c'. seal_fulls a c' fs r) (seal_frame a c f false)

abbrev of_cut : Aead → CipherState → List Bytes × Bytes → Progress
of_cut a c x = seal_fulls a c x.0 x.1

full_chunks-cut :
    (fuel : ℕ) (a : Aead) (cs : ℕ) (c : CipherState) (view : Bytes)
    → 0 < cs
    → length view ≤ fuel
    → full_chunks fuel a cs c view ≡ of_cut a c (cut cs [] view)
unfolding full_chunks seal_fulls
full_chunks-cut zero a cs c view pos h = rw (cut_short cs [] view (omega arith))
full_chunks-cut (suc fuel) a cs c view pos h = elim (Bool-cases (ltb cs (length view))) [
  | inr short ↦ rw (short, cut_short cs [] view (omega (arith, ltb-false _ _ short)))
  | inl long ↦
      let z : cs - 0 ≡ cs = omega arith in
      let more : (c' : CipherState)
          → full_chunks fuel a cs c' (drop cs view) ≡ of_cut a c' (cut cs [] (drop cs view)) =
        λ c'.
          full_chunks-cut fuel a cs c' (drop cs view) pos (omega (arith, length-drop cs view)) in
      rw (
        long,
        cut_long cs [] view pos (omega arith) (omega (arith, ltb→lt _ _ long)),
        z,
        fun_ext more,
      )
]

carried_nil : (p : Progress) → carried [] p ≡ p
unfolding carried
carried_nil p = by_state p.state
  where
    by_state :
        (s : Result (CipherState × Bytes))
        → ◌≡◌ {A = Progress}
            (record { out = p.out; state = (do (c, rest) ← s; ok (c, [] ++ rest)) })
            (record { out = p.out; state = s })
    by_state (ok x) = refl
    by_state (err e) = refl

nonempty : (n : ℕ) → (suc n == 0) ≡ false
nonempty n = ground arith

seal_piece-cut :
    (a : Aead) (cs : ℕ) (c : CipherState) (pending view : Bytes)
    → 0 < cs
    → length pending ≤ cs
    → seal_piece a cs c pending view ≡ of_cut a c (cut cs pending view)
unfolding seal_piece seal_fulls
seal_piece-cut a cs c [] view pos h =
    rw (carried_nil) (full_chunks-cut (length view) a cs c view pos (omega arith))
seal_piece-cut a cs c (b ∷ p) view pos h =
    elim (Bool-cases (ltb cs (length (b ∷ p) + length view))) [
      | inl long ↦
          let k = cs - length (b ∷ p) in
          let more : (c' : CipherState)
              → full_chunks (length view) a cs c' (drop k view)
                ≡ of_cut a c' (cut cs [] (drop k view)) =
            λ c'.
              full_chunks-cut (length view) a cs c' (drop k view) pos
                (omega (arith, length-drop k view)) in
          rw (
            nonempty (length p),
            long,
            cut_long cs (b ∷ p) view pos h (ltb→lt _ _ long),
            fun_ext more,
          )
      | inr short ↦
          let le : length (b ∷ p) + length view ≤ cs = ltb-false _ _ short in
          rw (
            nonempty (length p),
            short,
            cut_short cs (b ∷ p) view le,
            full_chunks-cut (length view) a cs c view pos (omega arith),
            cut_short cs [] view (omega arith),
          )
    ]

-- A frame before a part of the generator.
abbrev first : Bytes → Progress → Progress
first f p = record { out = f ∷ p.out; state = p.state }

and_then-first :
    (f : Bytes) (out : List Bytes) (s : Result (CipherState × Bytes))
    (l : CipherState → Bytes → Progress)
    → and_then (record { out = f ∷ out; state = s }) l
      ≡ first f (and_then (record { out = out; state = s }) l)
unfolding and_then
and_then-first f out (ok (c, p)) l = refl
and_then-first f out (err e) l = refl

after_seal-and_then :
    (k : CipherState → Progress) (l : CipherState → Bytes → Progress)
    (x : Result (CipherState × Bytes))
    → and_then (after_seal k x) l ≡ after_seal (λ c. and_then (k c) l) x
unfolding after_seal
after_seal-and_then k l (err e) = unfold and_then in refl
after_seal-and_then k l (ok (c, f)) = and_then-first f (k c).out (k c).state l

-- What follows the sealing of some chunks, if it is the sealing of more chunks from the bytes that
-- they carry over.
seal_fulls-and_then :
    (a : Aead) (c : CipherState) (fs : List Bytes) (r : Bytes) (l : CipherState → Bytes → Progress)
    (x : List Bytes × Bytes)
    → ((c' : CipherState) → l c' r ≡ of_cut a c' x)
    → and_then (seal_fulls a c fs r) l ≡ of_cut a c (push_all fs x)
unfolding seal_fulls
seal_fulls-and_then a c [] r l x h = unfold and_then in h c
seal_fulls-and_then a c (f ∷ fs) r l x h =
    let rest : (c' : CipherState)
        → and_then (seal_fulls a c' fs r) l ≡ of_cut a c' (push_all fs x) =
      λ c'. seal_fulls-and_then a c' fs r l x h in
    rw (after_seal-and_then, fun_ext rest)

seal_pieces-cut :
    (a : Aead) (cs : ℕ) (ps : List Bytes) (c : CipherState) (pending : Bytes)
    → 0 < cs
    → length pending ≤ cs
    → seal_pieces a cs c pending ps ≡ of_cut a c (cut cs pending (join ps))
unfolding seal_pieces
seal_pieces-cut a cs [] c pending pos h =
    rw (cut_short cs pending [] (omega arith), append-nil) (unfold seal_fulls in refl)
seal_pieces-cut a cs (p ∷ ps) c pending pos h =
    let x = cut cs pending p in
    let small = (cut-IsCut cs pending p pos h).rest in
    rw (seal_piece-cut a cs c pending p pos h, cut-append cs pending p (join ps))
      (seal_fulls-and_then a c x.0 x.1 _ (cut cs x.1 (join ps))
        λ c'. seal_pieces-cut a cs ps c' x.1 pos small)

-- The generator over its chunks.
unfoldable pub seal_chunks : Aead → CipherState → List Bytes × Bytes → Run
seal_chunks a c x = yield_all (of_cut a c x).out (seal_rest a (of_cut a c x).state)

pub seal_all-seal_chunks :
    (a : Aead) (s : StreamSealer) (source : Source)
    → 0 < s.cipher.chunk_size
    → seal_all a s source ≡ seal_chunks a s.cipher (cut s.cipher.chunk_size [] (content source))
unfolding seal_all seal_chunks
seal_all-seal_chunks a s source pos =
    rw (seal_pieces-cut a s.cipher.chunk_size (pieces source) s.cipher [] pos (omega arith))
