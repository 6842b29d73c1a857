-- ===== src/Stream/Reader/Buffer.antt =====
-- The reader as a view of one byte string: what it has still to hand out.
use quantum_safe_py.Prelude.{
  ℕ, ◌+◌, ◌≤◌, ◌≡◌, refl, sym, ap, ◌∙◌, ◌⊎◌, inl, inr, Bool, true, false, List, [], ◌∷◌, ◌++◌,
  Bytes, length, length-append, join, join-append, append_assoc, append-nil, ltb, if◌then◌else◌,
  arith, Bool-cases, ltb-false,
}
use quantum_safe_py.Stream.Reader.{Source, pieces, Reader, new_reader, append_view, fill_loop, fill}

-- The bytes that the reader has still to hand out.
abbrev pub remaining : Reader → Bytes
remaining r = join r.views ++ join r.it

-- The size is that of the buffer, and a reader that has ended has nothing to come.
pub record IsReader (r : Reader) : Type 0 where
  pub sized : r.size ≡ length (join r.views)
  pub at_end : r.ended ≡ true → r.it ≡ []

pub new_reader-IsReader : (s : Source) → IsReader (new_reader s)
unfolding new_reader
new_reader-IsReader s = record { sized = refl; at_end = λ h. cc }

pub remaining-new_reader : (s : Source) → remaining (new_reader s) ≡ join (pieces s)
unfolding new_reader
remaining-new_reader s = refl

-- What `fill n` leaves: the same bytes, of which `n` are buffered, or all.
pub record Filled (n : ℕ) (b : Bytes) (r : Reader) : Type 0 where
  pub valid : IsReader r
  pub same : remaining r ≡ b
  pub enough : (n ≤ r.size) ⊎ (r.it ≡ [])

join-append_view : (views : List Bytes) (p : Bytes) → join (append_view views p) ≡ join views ++ p
unfolding append_view
join-append_view views [] = sym (append-nil (join views))
join-append_view views (b ∷ p) = rw (join-append views ((b ∷ p) ∷ []), append-nil)

fill_loop-Filled :
    (n : ℕ) (it views : List Bytes) (size : ℕ)
    → size ≡ length (join views)
    → Filled n (join views ++ join it) (fill_loop n it views size)
unfolding fill_loop
fill_loop-Filled n [] views size h = elim (Bool-cases (ltb size n)) [
  | inl t ↦
      rw t (record {
        valid = record { sized = h; at_end = λ e. refl };
        same = refl;
        enough = inr refl;
      })
  | inr t ↦
      rw t
        (record { valid = record { sized = h; at_end = λ e. cc }; same = refl; enough = inr refl })
]
fill_loop-Filled n (p ∷ ps) views size h = elim (Bool-cases (ltb size n)) [
  | inl t ↦
      rw (t, ← append_assoc (join views) p (join ps), ← join-append_view views p)
        (fill_loop-Filled n ps (append_view views p) (size + length p)
          (rw (join-append_view views p, length-append (join views) p, h)))
  | inr t ↦ rw t (record {
    valid = record { sized = h; at_end = λ e. cc };
    same = refl;
    enough = inl (ltb-false size n t);
  })
]

pub fill-Filled : (n : ℕ) (r : Reader) → IsReader r → Filled n (remaining r) (fill n r)
unfolding fill
fill-Filled n r v = by_flag r.ended refl
  where
    by_flag :
        (b : Bool)
        → r.ended ≡ b
        → Filled n (remaining r) (if b then r else fill_loop n r.it r.views r.size)
    by_flag true e = record { valid = v; same = refl; enough = inr (v.at_end e) }
    by_flag false e = fill_loop-Filled n r.it r.views r.size v.sized

-- After `fill n` a test of the size against `m ≤ n` is a test of all that is left.
pub Filled-size :
    {n : ℕ} {b : Bytes} {r : Reader}
    → Filled n b r
    → (m : ℕ) → m ≤ n
    → ltb r.size m ≡ ltb (length b) m
Filled-size {n} {b} {r} f m h =
    let total : length b ≡ length (join r.views) + length (join r.it) =
      ap length (sym f.same) ∙ length-append (join r.views) (join r.it) in
    elim f.enough [
      | inl le ↦ ground (arith, f.valid.sized, total, le)
      | inr e ↦
          let nothing : length (join r.it) ≡ 0 = rw e in
          ground (arith, f.valid.sized, total, nothing)
    ]
