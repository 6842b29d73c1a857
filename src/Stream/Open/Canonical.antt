-- ===== src/Stream/Open/Canonical.antt =====
-- What a stream that opens consists of: the frames of what was yielded, and nothing else.
use quantum_safe_py.Prelude.{
  ℕ, zero, suc, ◌+◌, ◌≤◌, ◌<◌, ◌≡◌, ◌≢◌, refl, sym, ap, ◌∙◌, Bool, true, false, List, [], ◌∷◌, ◌++◌,
  Bytes, IsBytes, length, drop, drop-drop, join, All, All-drop, if◌then◌else◌, arith, inl, inr,
  Bool-cases, eq_nil_of_length, drop-append, subst,
}
use quantum_safe_py.Outcome.{Result, ok, err}
use quantum_safe_py.Stream.Cipher.{Aead, IsAead, CipherState, max_counter, wrong_plain_length}
use quantum_safe_py.Stream.Cipher.Steps.{IsLive, next, finish, sealed}
use quantum_safe_py.Stream.Generator.{finished, out_of_fuel}
use quantum_safe_py.Stream.Open.Frames.{FlatFrame, flat_next, after_flat, flat_frames}
use quantum_safe_py.Stream.Seal.Framing.{frame_of, frames}
use quantum_safe_py.Stream.Open.Rounds.{Round, flat_next-eq-ok, flat_next_shorter}

-- The bytes are the frames of the chunks `fs` and `r`, which are cut to size and were yielded.
pub record Canonical (a : Aead) (c : CipherState) (d : Bytes) (yields : List Bytes) : Type 0 where
  pub full_chunks : List Bytes
  pub last_chunk : Bytes
  pub yielded : yields ≡ full_chunks ++ (last_chunk ∷ [])
  pub whole : d ≡ join (frames a c full_chunks last_chunk)
  pub full : All (λ f. length f ≡ c.chunk_size) full_chunks
  pub rest : length last_chunk ≤ c.chunk_size
  pub room : c.counter + length full_chunks ≤ max_counter

last_fits : (c : CipherState) (n : ℕ) → wrong_plain_length c n true ≡ false → n ≤ c.chunk_size
unfolding wrong_plain_length
last_fits c n h = ground arith

full_size : (c : CipherState) (n : ℕ) → wrong_plain_length c n false ≡ false → n ≡ c.chunk_size
unfolding wrong_plain_length
full_size c n h = ground arith

Canonical-last :
    (a : Aead) (c : CipherState) (d : Bytes) (f : FlatFrame)
    → IsLive c
    → Round a c d f
    → f.last ≡ true
    → Canonical a c d (f.plain ∷ [])
unfolding frames
Canonical-last a c d f live r t =
    let empty : f.rest ≡ [] = eq_nil_of_length f.rest (ground (arith, r.last_eq, t)) in
    let fits : wrong_plain_length c (length f.plain) true ≡ false = rw t at r.fits in
    let whole : d ≡ frame_of (sealed a c f.plain true) ++ f.rest = rw t at r.whole in
    record {
      full_chunks = [];
      last_chunk = f.plain;
      yielded = refl;
      whole = whole ∙ ap (λ b. frame_of (sealed a c f.plain true) ++ b) empty;
      full = tt;
      rest = last_fits c (length f.plain) fits;
      room = omega (arith, live.counter_fits);
    }

Canonical-more :
    (a : Aead) (c : CipherState) (d : Bytes) (f : FlatFrame) (ys : List Bytes)
    → Round a c d f
    → f.last ≡ false
    → Canonical a (next c) f.rest ys
    → Canonical a c d (f.plain ∷ ys)
unfolding frames
Canonical-more a c d f ys r t more =
    let fits : wrong_plain_length c (length f.plain) false ≡ false = rw t at r.fits in
    let whole : d ≡ frame_of (sealed a c f.plain false) ++ f.rest = rw t at r.whole in
    record {
      full_chunks = f.plain ∷ more.full_chunks;
      last_chunk = more.last_chunk;
      yielded = ap (λ b. f.plain ∷ b) more.yielded;
      whole = whole ∙ ap (λ b. frame_of (sealed a c f.plain false) ++ b) more.whole;
      full = (full_size c (length f.plain) fits, more.full);
      rest = more.rest;
      room = omega (arith, more.room);
    }

IsBytes-rest :
    (a : Aead) (c : CipherState) (d : Bytes) (f : FlatFrame)
    → Round a c d f
    → IsBytes d
    → IsBytes f.rest
IsBytes-rest a c d f r h =
    let ct = sealed a c f.plain f.last in
    let e : drop (4 + length ct) (frame_of ct ++ f.rest) ≡ f.rest =
      sym (drop-drop (length ct) 4 (frame_of ct ++ f.rest)) ∙ drop-append ct f.rest in
    subst IsBytes (ap (drop (4 + length ct)) r.whole ∙ e)
      (All-drop (λ b. b < 256) (4 + length ct) d h)

-- Where the loop ends without an exception, the bytes are the frames of what it yielded.
pub flat_frames-Canonical :
    (fuel : ℕ) (a : Aead) (c : CipherState) (d : Bytes)
    → IsAead a
    → IsLive c
    → IsBytes d
    → (flat_frames fuel a c d).ending ≡ finished
    → Canonical a c d (flat_frames fuel a c d).yields
unfolding flat_frames after_flat
flat_frames-Canonical zero a c d law live b h = cc
flat_frames-Canonical (suc fuel) a c d law live b h =
    by_frame (λ e k l m. flat_frames-Canonical fuel a e k law l m) (flat_next a c d) refl h
  where
    by_frame :
        ((e : CipherState) (k : Bytes)
          → IsLive e
          → IsBytes k
          → (flat_frames fuel a e k).ending ≡ finished
          → Canonical a e k (flat_frames fuel a e k).yields)
        → (x : Result FlatFrame) → flat_next a c d ≡ x
        → (after_flat (flat_frames fuel a) x).ending ≡ finished
        → Canonical a c d (after_flat (flat_frames fuel a) x).yields
    by_frame ih (err e) q h = cc
    by_frame ih (ok f) q h =
        let r = flat_next-eq-ok a c d f law live b q in
        elim (Bool-cases f.last) [
          | inl t ↦ rw t (Canonical-last a c d f live r t)
          | inr t ↦
              let moved : f.cipher ≡ next c =
                r.cipher_eq ∙ ap (λ (k : Bool). if k then finish c else next c) t in
              let on : (flat_frames fuel a (next c) f.rest).ending ≡ finished =
                rw (t, moved) at h in
              let live' : IsLive (next c) = record {
                unfinished = live.unfinished;
                counter_fits = omega (arith, r.room t);
              } in
              rw (t, moved)
                (Canonical-more a c d f _ r t
                  (ih (next c) f.rest live' (IsBytes-rest a c d f r b) on))
        ]

-- The loop does not run out of fuel when it has more than there are bytes.
pub flat_frames_ends :
    (fuel : ℕ) (a : Aead) (c : CipherState) (d : Bytes)
    → length d < fuel
    → (flat_frames fuel a c d).ending ≢ out_of_fuel
unfolding flat_frames after_flat
flat_frames_ends zero a c d h = absurd (omega arith)
flat_frames_ends (suc fuel) a c d h = by_frame (flat_frames_ends fuel a) (flat_next a c d) refl
  where
    by_frame :
        ((e : CipherState) (k : Bytes)
          → length k < fuel
          → (flat_frames fuel a e k).ending ≢ out_of_fuel)
        → (x : Result FlatFrame) → flat_next a c d ≡ x
        → (after_flat (flat_frames fuel a) x).ending ≢ out_of_fuel
    by_frame ih (err e) q = λ k. cc
    by_frame ih (ok f) q = elim (Bool-cases f.last) [
      | inl t ↦ rw t (λ k. cc)
      | inr t ↦ rw t (ih f.cipher f.rest (omega (arith, flat_next_shorter a c d f q)))
    ]
