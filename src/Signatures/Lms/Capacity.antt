-- ===== src/Signatures/Lms/Capacity.antt =====
-- signatures/stateful.py: calls of `sign` one after another, and keys restored from what was stored.
use quantum_safe_py.Prelude.{
  ℕ, zero, suc, ◌+◌, ◌-◌, ◌<◌, ◌≤◌, ◌≡◌, inl, inr, refl, sym, ap, ◌∙◌, true, false, List, [], ◌∷◌,
  Bytes, ltb, ◌==◌, Bool-cases, ltb→lt, ltb-false, le→ltb_false, lt→ltb, if◌then◌else◌, arith,
}
use quantum_safe_py.Outcome.{
  Result, ok, err, key_exhausted_error, index_reuse_error, state_persistence_error, Result-cases,
}
use quantum_safe_py.Signatures.Lms.{
  Pyhsslms, LmsStateStore, LmsSigner, remaining, exhausted, key_info, verify_not_rewound,
  check_sign, sign_key, reserve_next, after_reserve, after_check, sign, lms_signer, load, serialize,
  is_stateful,
}
use quantum_safe_py.Signatures.Lms.InMemory.{IsGuarded}

-- What is documented of pyhsslms: a key below its capacity signs and moves to the next index, and a
-- stored key is restored at its index.
pub record IsPyhsslms {Key : Type 0} (lib : Pyhsslms Key) : Type 0 where
  pub signs :
      (m : Bytes) (k : Key)
      → lib.q k < lib.max_signatures k
      → (signature : Bytes) × ((lib.sign m k).1 ≡ ok signature)
  pub moves_on :
      (m : Bytes) (k : Key) → lib.q k < lib.max_signatures k → lib.q (lib.sign m k).0 ≡ lib.q k + 1
  pub keeps_size :
      (m : Bytes) (k : Key) → lib.max_signatures (lib.sign m k).0 ≡ lib.max_signatures k
  pub restores :
      (k : Key) → (k' : Key) × (lib.deserialize (lib.serialize k) ≡ ok k') × (lib.q k' ≡ lib.q k)

-- The store takes every reservation above the mark.
abbrev pub IsAccepting : {S : Type 0} → LmsStateStore S → Type 0
IsAccepting {S} store =
    (k : Bytes) (n : ℕ) (s : S)
    → store.high_water_mark k s < n
    → (s' : S) × (store.reserve k n s ≡ (s', ok tt))

-- The results of calls of `sign`: so many signatures, and `KeyExhaustedError` from then on.
abbrev pub Served : ℕ → List (Result Bytes) → Type 0
Served left [] = Unit
Served zero (r ∷ rs) = (r ≡ err key_exhausted_error) × Served zero rs
Served (suc left) (r ∷ rs) = ((signature : Bytes) × (r ≡ ok signature)) × Served left rs

module _ {Key S : Type 0} (lib : Pyhsslms Key) (store : LmsStateStore S) where
  unfoldable pub sign_all : List Bytes → S × LmsSigner Key → List (Result Bytes)
  sign_all [] σ = []
  sign_all (m ∷ ms) σ = (sign lib store m σ).1 ∷ sign_all ms (sign lib store m σ).0

  -- A call at the end of the key's capacity.
  sign_exhausted :
      (m : Bytes) (s : S) (x : LmsSigner Key)
      → lib.max_signatures x.sk ≤ lib.q x.sk
      → sign lib store m (s, x) ≡ ((s, x), err key_exhausted_error)
  unfolding sign check_sign exhausted remaining key_info after_check
  sign_exhausted m s x h =
      let e : ((lib.max_signatures x.sk - lib.q x.sk) == 0) ≡ true = ground arith in rw e refl

  check_sign_passes :
      (s : S) (x : LmsSigner Key)
      → lib.q x.sk < lib.max_signatures x.sk
      → store.high_water_mark x.key_id s ≤ lib.q x.sk
      → check_sign lib store x s ≡ ok tt
  unfolding check_sign exhausted remaining key_info verify_not_rewound
  check_sign_passes s x h low =
      let e : ((lib.max_signatures x.sk - lib.q x.sk) == 0) ≡ false = ground arith in
      rw (e, le→ltb_false (lib.q x.sk) (store.high_water_mark x.key_id s) low) refl

  -- A call below it, by a key that has not been rewound.
  sign_signs :
      (m : Bytes) (s : S) (x : LmsSigner Key)
      → IsAccepting store
      → lib.q x.sk < lib.max_signatures x.sk
      → store.high_water_mark x.key_id s ≤ lib.q x.sk
      → (s' : S) × (store.reserve x.key_id (lib.q x.sk + 1) s ≡ (s', ok tt))
        × (sign lib store m (s, x) ≡ sign_key lib store x m s')
  unfolding sign after_check after_reserve reserve_next
  sign_signs m s x accepts h low =
      let (s', done) = accepts x.key_id (lib.q x.sk + 1) s (omega arith) in
      (s', done, rw (check_sign_passes s x h low, done) refl)

  -- A key signs for exactly its capacity: from an index that is not below the mark, the calls of `sign`
  -- give a signature each while indices remain, as many as `max_signatures - q`, and every later call
  -- raises `KeyExhaustedError`. pyhsslms keeps its documented behaviour, and the store takes every
  -- reservation above its mark.
  pub sign_all-Served :
      IsPyhsslms lib
      → IsGuarded store
      → IsAccepting store
      → (ms : List Bytes) (s : S) (x : LmsSigner Key)
      → store.high_water_mark x.key_id s ≤ lib.q x.sk
      → Served (lib.max_signatures x.sk - lib.q x.sk) (sign_all ms (s, x))
  unfolding sign_all sign_key
  sign_all-Served laws guarded accepts [] s x low =
      served_nil (lib.max_signatures x.sk - lib.q x.sk)
    where
      served_nil : (n : ℕ) → Served n []
      served_nil n = tt
  sign_all-Served laws guarded accepts (m ∷ ms) s x low =
      elim (Bool-cases (ltb (lib.q x.sk) (lib.max_signatures x.sk))) [
        | inl t ↦
            let below = ltb→lt (lib.q x.sk) (lib.max_signatures x.sk) t in
            let (s', done, e) = sign_signs m s x accepts below low in
            let k' = (lib.sign m x.sk).0 in
            let n : lib.max_signatures x.sk - lib.q x.sk ≡ suc (lib.max_signatures k' - lib.q k') =
              omega (arith, laws.moves_on m x.sk below, laws.keeps_size m x.sk) in
            let marked = (guarded.moves x.key_id (lib.q x.sk + 1) s s' done).1 in
            let low' : store.high_water_mark x.key_id s' ≤ lib.q k' =
              omega (arith, laws.moves_on m x.sk below) in
            rw (n, e)
              (
                laws.signs m x.sk below,
                sign_all-Served laws guarded accepts ms s' (record x { sk = k' }) low',
              )
        | inr f ↦
            let full = ltb-false (lib.q x.sk) (lib.max_signatures x.sk) f in
            let n : lib.max_signatures x.sk - lib.q x.sk ≡ 0 = omega arith in
            let rest : Served 0 (sign_all ms (s, x)) =
              rw n at (sign_all-Served laws guarded accepts ms s x low) in
            rw (n, sign_exhausted m s x full) (refl, rest)
      ]

  after_reserve-eq-ok :
      (m : Bytes) (s' : S) (x x' : LmsSigner Key) (signature : Bytes) (r : S × Result (Unit {0}))
      → after_reserve lib store x m r ≡ ((s', x'), ok signature)
      → (r ≡ (s', ok tt))
        × (x' ≡ record x { sk = (lib.sign m x.sk).0 })
        × ((lib.sign m x.sk).1 ≡ ok signature)
  unfolding after_reserve sign_key
  after_reserve-eq-ok m s' x x' signature (t, ok u) w =
      let a : t ≡ s' = ap (λ y. y.0.0) w in (rw a refl, sym (ap (λ y. y.0.1) w), ap (λ y. y.1) w)
  after_reserve-eq-ok m s' x x' signature (t, err e) w =
      let bad : ◌≡◌ {A = Result Bytes} (err (if is_stateful e then e else state_persistence_error))
          (ok signature) =
        ap (λ y. y.1) w in
      absurd (cc)

  -- A call that returned a signature, taken apart.
  pub sign-eq-ok :
      (m : Bytes) (s s' : S) (x x' : LmsSigner Key) (signature : Bytes)
      → sign lib store m (s, x) ≡ ((s', x'), ok signature)
      → (check_sign lib store x s ≡ ok tt)
        × (store.reserve x.key_id (lib.q x.sk + 1) s ≡ (s', ok tt))
        × (x' ≡ record x { sk = (lib.sign m x.sk).0 })
        × ((lib.sign m x.sk).1 ≡ ok signature)
  unfolding sign reserve_next
  sign-eq-ok m s s' x x' signature h = elim (Result-cases (check_sign lib store x s)) [
    | inl (e, c) ↦
        let w : ◌≡◌ {A = (S × LmsSigner Key) × Result Bytes} ((s, x), err e)
            ((s', x'), ok signature) =
          rw c at h in
        let bad : ◌≡◌ {A = Result Bytes} (err e) (ok signature) = ap (λ y. y.1) w in absurd (cc)
    | inr (u, c) ↦
        let w : after_reserve lib store x m (store.reserve x.key_id (lib.q x.sk + 1) s)
            ≡ ((s', x'), ok signature) =
          rw c at h in
        let (done, a, b) =
          after_reserve-eq-ok m s' x x' signature (store.reserve x.key_id (lib.q x.sk + 1) s) w in
        (c, done, a, b)
  ]

  -- What was stored before a signature is refused from then on, and what is stored after it is restored
  -- one index further: the snapshot raises `IndexReuseError`, and the current key does not. pyhsslms is
  -- installed and keeps its documented behaviour, and the store keeps its contract.
  pub load-sign :
      IsPyhsslms lib
      → IsGuarded store
      → (m : Bytes) (s s' : S) (x x' : LmsSigner Key) (signature : Bytes) → lib.installed ≡ true
      → lib.q x.sk < lib.max_signatures x.sk
      → sign lib store m (s, x) ≡ ((s', x'), ok signature)
      → (load lib store x.key_id (serialize lib store x) s' ≡ err index_reuse_error)
        × (y : LmsSigner Key) × (load lib store x.key_id (serialize lib store x') s' ≡ ok y)
        × (lib.q y.sk ≡ lib.q x.sk + 1)
  unfolding load serialize lms_signer verify_not_rewound
  load-sign laws guarded m s s' x x' signature installed below h =
      let (passed, done, moved, made) = sign-eq-ok m s s' x x' signature h in
      let marked = (guarded.moves x.key_id (lib.q x.sk + 1) s s' done).1 in
      let (old, e, q) = laws.restores x.sk in
      let (new, e', q') = laws.restores x'.sk in
      let on : lib.q x'.sk ≡ lib.q x.sk + 1 = rw moved (laws.moves_on m x.sk below) in
      let behind : ltb (lib.q old) (store.high_water_mark x.key_id s') ≡ true =
        lt→ltb (lib.q old) (store.high_water_mark x.key_id s') (omega arith) in
      let level : ltb (lib.q new) (store.high_water_mark x.key_id s') ≡ false =
        le→ltb_false (lib.q new) (store.high_water_mark x.key_id s') (omega arith) in
      (
        rw (installed, e, behind) refl,
        record { key_id = x.key_id; sk = new },
        rw (installed, e', level) refl,
        q' ∙ on,
      )
