-- ===== src/Signatures/Lms/NoReuse.antt =====
-- signatures/stateful.py: no index of an LMS key is signed with twice.
use quantum_safe_py.Prelude.{
  ℕ, ◌+◌, ◌<◌, ◌≤◌, ◌≡◌, ◌≢◌, inl, inr, refl, ap, Bool, not, ltb-false, Bytes, All, All-map,
  AllDistinct, true, false, arith,
}
use quantum_safe_py.Outcome.{
  Result, ok, err, index_reuse_error, key_exhausted_error, Result-cases, require, >>-eq-ok,
}
use quantum_safe_py.Signatures.Lms.{
  Pyhsslms, LmsStateStore, LmsSigner, exhausted, key_info, verify_not_rewound, check_sign, sign_key,
  reserve_next, after_reserve, after_check,
}
use quantum_safe_py.Signatures.Lms
use quantum_safe_py.Signatures.Lms.InMemory.{IsDurable}
use quantum_safe_py.Signatures.Lms.Capacity.{sign-eq-ok}
use quantum_safe_py.Signatures.Lms.Signers.{
  System, Step, construct, signed, raised, crashed, stopped, Reach, start, later, fresh,
}

module _ {Key S : Type 0} (lib : Pyhsslms Key) (store : LmsStateStore S)
    (durable : IsDurable store) where
  -- A call moves no mark down, whatever it returns.
  after_reserve-store :
      (x : LmsSigner Key) (m : Bytes) (r : S × Result (Unit {0}))
      → (after_reserve lib store x m r).0.0 ≡ r.0
  unfolding after_reserve sign_key
  after_reserve-store x m (t, ok u) = refl
  after_reserve-store x m (t, err e) = refl

  sign_keeps :
      (m : Bytes) (s : S) (x : LmsSigner Key) (j : Bytes)
      → store.high_water_mark j s ≤ store.high_water_mark j (Lms.sign lib store m (s, x)).0.0
  unfolding Lms.sign after_check reserve_next
  sign_keeps m s x j = elim (Result-cases (check_sign lib store x s)) [
    | inl (e, c) ↦ rw c (omega arith)
    | inr (u, c) ↦
        rw (c, after_reserve-store x m (store.reserve x.key_id (lib.q x.sk + 1) s))
          (durable.keeps x.key_id j (lib.q x.sk + 1) s)
  ]

  -- The tests of `sign` let only an index pass that is not spent.
  check_sign_unspent :
      (s : S) (x : LmsSigner Key)
      → check_sign lib store x s ≡ ok tt
      → store.high_water_mark x.key_id s ≤ lib.q x.sk
  unfolding check_sign verify_not_rewound
  check_sign_unspent s x h =
      let (_, h1) = >>-eq-ok (not (exhausted (key_info lib store x))) key_exhausted_error _ h in
      ltb-false (lib.q x.sk) (store.high_water_mark x.key_id s) (passed _ h1)
    where
      passed : (b : Bool) {u : Unit {0}} → require (not b) index_reuse_error ≡ ok u → b ≡ false
      passed false h = refl
      passed true h = cc

  abbrev IsSpent : S → Bytes × ℕ → Type 0
  IsSpent s e = e.1 < store.high_water_mark e.0 s

  -- What was issued is spent, and was issued once.
  abbrev Inv : System Key S → Type 0
  Inv s = All (IsSpent s.store) s.issued × AllDistinct s.issued

  still-IsSpent :
      (s t : S)
      → ((j : Bytes) → store.high_water_mark j s ≤ store.high_water_mark j t)
      → (e : Bytes × ℕ) → IsSpent s e
      → IsSpent t e
  still-IsSpent s t up e h = omega (arith, up e.0)

  unspent_differs :
      (s : S) (k : Bytes) (n : ℕ)
      → store.high_water_mark k s ≤ n
      → (e : Bytes × ℕ) → IsSpent s e
      → (k, n) ≢ e
  unspent_differs s k n low (j, i) h same =
      let keys : k ≡ j = ap (λ x. x.0) same in
      let indices : n ≡ i = ap (λ x. x.1) same in
      let h' : i < store.high_water_mark k s = rw keys h in omega arith

  Step-Inv : {s t : System Key S} → Step lib store s t → Inv s → Inv t
  Step-Inv (construct i k sk x made) inv = inv
  Step-Inv {s} (signed i x y m signature t at done) (spent, distinct) =
      let (passed, reserved, _, _) = sign-eq-ok lib store m s.store t x y signature done in
      let low = check_sign_unspent s.store x passed in
      let now = durable.records x.key_id (lib.q x.sk + 1) s.store t reserved in
      let up : (j : Bytes) → store.high_water_mark j s.store ≤ store.high_water_mark j t =
        λ j. rw (← ap (λ r. r.0.0) done) (sign_keeps m s.store x j) in
      (
        (omega arith, All-map (still-IsSpent s.store t up) _ spent),
        (All-map (unspent_differs s.store x.key_id (lib.q x.sk) low) _ spent, distinct),
      )
  Step-Inv {s} (raised i x y m t e at done) (spent, distinct) =
      let up : (j : Bytes) → store.high_water_mark j s.store ≤ store.high_water_mark j t =
        λ j. rw (← ap (λ r. r.0.0) done) (sign_keeps m s.store x j) in
      (All-map (still-IsSpent s.store t up) _ spent, distinct)
  Step-Inv {s} (crashed i x at passed) (spent, distinct) = (
    All-map
        (still-IsSpent s.store (reserve_next lib store x s.store).0
          (λ j. unfold reserve_next in durable.keeps x.key_id j (lib.q x.sk + 1) s.store))
        _ spent,
    distinct,
  )
  Step-Inv (stopped i) inv = inv

  Reach-Inv : {s t : System Key S} → Reach lib store s t → Inv s → Inv t
  Reach-Inv start inv = inv
  Reach-Inv (later r step) inv = Step-Inv step (Reach-Inv r inv)

  -- No one-time key signs twice. Over any store that keeps the documented contract, whatever signers are
  -- made of whatever private keys, copies and old snapshots among them, and wherever processes end, the
  -- signatures that `sign` returns, a call at a time, all have different key identities or indices.
  pub issued-AllDistinct :
      {s : S} {u : System Key S} → Reach lib store (fresh s) u → AllDistinct u.issued
  issued-AllDistinct r = (Reach-Inv r (tt, tt)).1
