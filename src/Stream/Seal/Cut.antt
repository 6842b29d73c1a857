-- ===== src/Stream/Seal/Cut.antt =====
-- How a stream is cut into chunks, one byte at a time: a full buffer is given out when another byte
-- comes, so that the last chunk is what is left at the end.
use quantum_safe_py.Prelude.{
  ℕ, ◌+◌, ◌-◌, ◌≤◌, ◌<◌, ◌≡◌, refl, sym, ap, ◌∙◌, inl, inr, true, false, List, [], ◌∷◌, ◌++◌, Bytes,
  append_assoc, append-nil, length, length-append, length-take, length-drop, take, drop,
  take-append-drop, join, All, ◌==◌, arith, Bool-cases,
}

unfoldable pub cut : ℕ → Bytes → Bytes → List Bytes × Bytes
cut cs acc [] = ([], acc)
cut cs acc (b ∷ bs) = elim (length acc == cs) [
  | true ↦ let (fs, r) = cut cs (b ∷ []) bs in (acc ∷ fs, r)
  | false ↦ cut cs (acc ++ (b ∷ [])) bs
]

-- One more chunk before those of another cut.
abbrev pub push : Bytes → List Bytes × Bytes → List Bytes × Bytes
push f x = (f ∷ x.0, x.1)

abbrev pub push_all : List Bytes → List Bytes × Bytes → List Bytes × Bytes
push_all fs x = (fs ++ x.0, x.1)

cut_at :
    (cs : ℕ) (acc : Bytes) (b : ℕ) (v : Bytes)
    → (length acc == cs) ≡ true
    → cut cs acc (b ∷ v) ≡ push acc (cut cs (b ∷ []) v)
unfolding cut
cut_at cs acc b v e = ground arith

cut_before :
    (cs : ℕ) (acc : Bytes) (b : ℕ) (v : Bytes)
    → (length acc == cs) ≡ false
    → cut cs acc (b ∷ v) ≡ cut cs (acc ++ (b ∷ [])) v
unfolding cut
cut_before cs acc b v e = ground arith

pub cut_short :
    (cs : ℕ) (acc v : Bytes) → length acc + length v ≤ cs → cut cs acc v ≡ ([], acc ++ v)
unfolding cut
cut_short cs acc [] h = rw (append-nil acc)
cut_short cs acc (b ∷ v) h =
    let e : (length acc == cs) ≡ false = ground arith in
    rw (cut_before cs acc b v e) (
      cut_short cs (acc ++ (b ∷ [])) v (omega (arith, length-append acc (b ∷ [])))
      ∙ ap (λ x. ([], x)) (append_assoc acc (b ∷ []) v))

pub cut-append :
    (cs : ℕ) (acc v w : Bytes)
    → cut cs acc (v ++ w) ≡ push_all (cut cs acc v).0 (cut cs (cut cs acc v).1 w)
unfolding cut
cut-append cs acc [] w = refl
cut-append cs acc (b ∷ v) w = elim (Bool-cases (length acc == cs)) [
  | inl e ↦
      rw (cut_at cs acc b (v ++ w) e, cut_at cs acc b v e)
        (ap (push acc) (cut-append cs (b ∷ []) v w))
  | inr e ↦
      rw (cut_before cs acc b (v ++ w) e, cut_before cs acc b v e)
        (cut-append cs (acc ++ (b ∷ [])) v w)
]

cut_full :
    (cs : ℕ) (acc v : Bytes)
    → 0 < cs
    → length acc ≡ cs
    → 0 < length v
    → cut cs acc v ≡ push acc (cut cs [] v)
unfolding cut
cut_full cs acc [] pos e h = absurd (omega arith)
cut_full cs acc (b ∷ v) pos e h =
    let full : (length acc == cs) ≡ true = ground arith in
    let empty : (length {A = ℕ} [] == cs) ≡ false = ground arith in
    rw (cut_at cs acc b v full, cut_before cs [] b v empty) refl

-- A buffer and input that together are longer than a chunk.
pub cut_long :
    (cs : ℕ) (acc v : Bytes)
    → 0 < cs
    → length acc ≤ cs
    → cs < length acc + length v
    → cut cs acc v ≡ push (acc ++ take (cs - length acc) v) (cut cs [] (drop (cs - length acc) v))
cut_long cs acc v pos le long =
    let k = cs - length acc in
    let short = cut_short cs acc (take k v) (omega (arith, length-take k v)) in
    let whole = cut-append cs acc (take k v) (drop k v) in
    let full : length (acc ++ take k v) ≡ cs =
      omega (arith, length-append acc (take k v), length-take k v) in
    let more : 0 < length (drop k v) = omega (arith, length-drop k v) in
    ap (cut cs acc) (sym (take-append-drop k v))
    ∙ whole
    ∙ ap (λ (x : List Bytes × Bytes). push_all x.0 (cut cs x.1 (drop k v))) short
    ∙ cut_full cs (acc ++ take k v) (drop k v) pos full more

-- The chunks are full, the last is not longer, and together they are the input.
pub record IsCut (cs : ℕ) (d : Bytes) (x : List Bytes × Bytes) : Type 0 where
  pub whole : join x.0 ++ x.1 ≡ d
  pub full : All (λ f. length f ≡ cs) x.0
  pub rest : length x.1 ≤ cs

pub cut-IsCut :
    (cs : ℕ) (acc v : Bytes) → 0 < cs → length acc ≤ cs → IsCut cs (acc ++ v) (cut cs acc v)
unfolding cut
cut-IsCut cs acc [] pos h = record { whole = sym (append-nil acc); full = tt; rest = h }
cut-IsCut cs acc (b ∷ v) pos h = elim (Bool-cases (length acc == cs)) [
  | inl e ↦
      let ih = cut-IsCut cs (b ∷ []) v pos (omega arith) in
      rw (cut_at cs acc b v e) (record {
        whole =
            append_assoc acc (join (cut cs (b ∷ []) v).0) (cut cs (b ∷ []) v).1
            ∙ ap (λ x. acc ++ x) ih.whole;
        full = (ground arith, ih.full);
        rest = ih.rest;
      })
  | inr e ↦
      let ih = cut-IsCut cs (acc ++ (b ∷ [])) v pos (ground (arith, length-append acc (b ∷ []))) in
      rw (cut_before cs acc b v e)
        (record { whole = ih.whole ∙ append_assoc acc (b ∷ []) v; full = ih.full; rest = ih.rest })
]
