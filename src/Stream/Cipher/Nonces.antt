-- ===== src/Stream/Cipher/Nonces.antt =====
-- No nonce is used for two chunks of one stream, whatever calls are made of the sealer.
use quantum_safe_py.Prelude.{
  AllDistinct, map, ℕ, ◌+◌, ◌≤◌, ◌≡◌, ◌≢◌, refl, Bool, true, false, List, [], ◌∷◌, ◌++◌, Bytes,
  length, ◌==◌, if◌then◌else◌, arith, ◌∙◌, All, All-map, append_inj, inl, inr, Bool-cases,
}
use quantum_safe_py.Outcome.{Result, ok, err}
use quantum_safe_py.Wire.{u32, u32_injective}
use quantum_safe_py.Stream.Cipher.{
  Aead, CipherState, max_counter, last_byte, seal, wrong_plain_length, new_cipher,
}
use quantum_safe_py.Stream.Cipher.Steps.{nonce_of, next, finish, IsLive, seal_live, seal_finished}

if_sealed : Result Bytes → List Bytes
if_sealed (ok ct) = ct ∷ []
if_sealed (err e) = []

-- The ciphertexts that any calls on one sealer return.
pub chunks : Aead → CipherState → List (Bytes × Bool) → List Bytes
chunks a c [] = []
chunks a c ((plain, last) ∷ calls) =
    if_sealed (seal a plain last c).1 ++ chunks a (seal a plain last c).0 calls

-- The nonces and the plaintexts of those, without AES-GCM: the counter of the stream goes up with each,
-- and the last chunk, or a full chunk under the last counter, ends it.
pub uses : CipherState → List (Bytes × Bool) → List (Bytes × Bytes)
uses c [] = []
uses c ((plain, last) ∷ calls) =
    let skipped = uses c calls in
    let more = uses (next c) calls in
    if wrong_plain_length c (length plain) last
    then skipped
    else if last
    then (nonce_of c.prefix c.counter true, plain) ∷ []
    else if c.counter == max_counter
    then []
    else (nonce_of c.prefix c.counter false, plain) ∷ more

abbrev pub under : Aead → CipherState → Bytes × Bytes → Bytes
under a c pair = a.encrypt c.key pair.0 pair.1 c.aad

pub nonce_injective :
    (prefix : Bytes) (i j : ℕ) (b b' : Bool)
    → nonce_of prefix i b ≡ nonce_of prefix j b'
    → (i ≡ j) × (b ≡ b')
nonce_injective prefix i j b b' e =
    let (_, e') = append_inj prefix prefix _ _ refl e in
    let (n, f) = append_inj (u32 i) (u32 j) (last_byte b ∷ []) (last_byte b' ∷ []) refl e' in
    (u32_injective i j n, flags b b' f)
  where
    flags : (b b' : Bool) → ◌≡◌ {A = Bytes} (last_byte b ∷ []) (last_byte b' ∷ []) → b ≡ b'
    flags true true h = refl
    flags true false h = ground arith
    flags false true h = ground arith
    flags false false h = refl

chunks_finished :
    (a : Aead) (c : CipherState) (calls : List (Bytes × Bool))
    → c.finished ≡ true
    → chunks a c calls ≡ []
unfolding chunks if_sealed
chunks_finished a c [] h = refl
chunks_finished a c ((plain, last) ∷ calls) h =
    rw (seal_finished a plain last c h) (chunks_finished a c calls h)

below : (n : ℕ) → (n == max_counter) ≡ false → n ≤ max_counter → n + 1 ≤ max_counter
below n e le = ground arith

next-IsLive : (c : CipherState) → IsLive c → (c.counter == max_counter) ≡ false → IsLive (next c)
next-IsLive c live m = record {
  unfinished = live.unfinished;
  counter_fits = below c.counter m live.counter_fits;
}

-- What is encrypted is the plaintexts, each under its nonce.
chunks-uses :
    (a : Aead) (calls : List (Bytes × Bool)) (c : CipherState)
    → IsLive c
    → chunks a c calls ≡ map (under a c) (uses c calls)
unfolding chunks uses if_sealed
chunks-uses a [] c live = refl
chunks-uses a ((plain, true) ∷ calls) c live =
    elim (Bool-cases (wrong_plain_length c (length plain) true)) [
      | inl w ↦ rw (seal_live a plain true c live, w) (chunks-uses a calls c live)
      | inr w ↦ rw (seal_live a plain true c live, w, chunks_finished a (finish c) calls refl) refl
    ]
chunks-uses a ((plain, false) ∷ calls) c live =
    elim (Bool-cases (wrong_plain_length c (length plain) false)) [
      | inl w ↦ rw (seal_live a plain false c live, w) (chunks-uses a calls c live)
      | inr w ↦ elim (Bool-cases (c.counter == max_counter)) [
        | inl m ↦
            rw (seal_live a plain false c live, w, m, chunks_finished a (finish c) calls refl) refl
        | inr m ↦
            rw
              (
                seal_live a plain false c live,
                w,
                m,
                chunks-uses a calls (next c) (next-IsLive c live m),
              )
              refl
      ]
    ]

-- A nonce of a chunk counter from `lo` on.
abbrev From : Bytes → ℕ → Bytes → Type 0
From prefix lo n = (i : ℕ) × (b : Bool) × (n ≡ nonce_of prefix i b) × (lo ≤ i)

weaken : (prefix : Bytes) {lo hi : ℕ} → lo ≤ hi → (n : Bytes) → From prefix hi n → From prefix lo n
weaken prefix h n (i, b, e, le) = (i, b, e, omega arith)

later_differs :
    (prefix : Bytes) (i : ℕ) (b : Bool) (n : Bytes)
    → From prefix (i + 1) n
    → nonce_of prefix i b ≢ n
later_differs prefix i b n (j, b', e, le) h =
    omega (arith, (nonce_injective prefix i j b b' (h ∙ e)).0)

abbrev nonces : CipherState → List (Bytes × Bool) → List Bytes
nonces c calls = map (λ (pair : Bytes × Bytes). pair.0) (uses c calls)

-- The nonces from a state on are those of later counters, and are distinct.
nonces-From :
    (calls : List (Bytes × Bool)) (c : CipherState)
    → IsLive c
    → All (From c.prefix c.counter) (nonces c calls) × AllDistinct (nonces c calls)
unfolding uses
nonces-From [] c live = (tt, tt)
nonces-From ((plain, last) ∷ calls) c live =
    elim (Bool-cases (wrong_plain_length c (length plain) last)) [
      | inl w ↦ rw w (nonces-From calls c live)
      | inr w ↦ rw w (elim (Bool-cases last) [
        | inl t ↦ rw t (((c.counter, true, refl, omega arith), tt), (tt, tt))
        | inr t ↦ rw t (elim (Bool-cases (c.counter == max_counter)) [
          | inl m ↦ rw m (tt, tt)
          | inr m ↦ rw m (moved (nonces-From calls (next c) (next-IsLive c live m)))
        ])
      ])
    ]
  where
    moved :
        All (From c.prefix (c.counter + 1)) (nonces (next c) calls)
          × AllDistinct (nonces (next c) calls)
        → All (From c.prefix c.counter) (nonce_of c.prefix c.counter false ∷ nonces (next c) calls)
          × AllDistinct (nonce_of c.prefix c.counter false ∷ nonces (next c) calls)
    moved (from, distinct) = (
      ((c.counter, false, refl, omega arith), All-map (weaken c.prefix (omega arith)) _ from),
      (All-map (later_differs c.prefix c.counter false) _ from, distinct),
    )

-- On a new stream, whatever chunks the caller asks to seal and in whatever order, with calls that raise
-- among them, the chunks that are returned are the encryptions of plaintexts under nonces that are all
-- different, with the key and the associated data of the stream.
pub nonces-AllDistinct :
    (a : Aead) (key prefix aad : Bytes) (cs : ℕ) (calls : List (Bytes × Bool))
    → (chunks a (new_cipher key prefix aad cs) calls
        ≡ map
            (λ (pair : Bytes × Bytes). a.encrypt key pair.0 pair.1 aad)
            (uses (new_cipher key prefix aad cs) calls))
      × AllDistinct
          (map (λ (pair : Bytes × Bytes). pair.0) (uses (new_cipher key prefix aad cs) calls))
unfolding new_cipher
nonces-AllDistinct a key prefix aad cs calls =
    let live : IsLive (new_cipher key prefix aad cs) = record {
      unfinished = refl;
      counter_fits = omega arith;
    } in
    (
      chunks-uses a calls (new_cipher key prefix aad cs) live,
      (nonces-From calls (new_cipher key prefix aad cs) live).1,
    )
