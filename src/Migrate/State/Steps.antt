-- ===== src/Migrate/State/Steps.antt =====
-- migrate/state.py: every access of a call of `transition` keeps the invariant of `Invariant`.
use quantum_safe_py.Prelude.{
  ℕ, zero, suc, false, Option, none, some, List, [], ◌∷◌, ◌++◌, ◌≡◌, inl, inr, refl, subst, Bytes,
  bytes_eq, Bool-cases, append-nil, ◌==◌,
}
use quantum_safe_py.Outcome.{Result, ok, err, value_error}
use quantum_safe_py.Cbor.{Value, Cbor2, ReadsBack}
use quantum_safe_py.Migrate.State.{
  Request, Stamp, history_key, current_key, check_transition, new_record, dumps_history,
  dump_new_history, history_for_write, state_from, is_stale,
}
use quantum_safe_py.Migrate.State.Storage.{
  Store, lookup, put, compare_and_set, same_value, same_value_sound, lookup-put, lookup-put_other,
}
use quantum_safe_py.Migrate.State.Records.{MigrationRecord, Floats, record_to_bytes}
use quantum_safe_py.Migrate.State.Chain.{
  Follows, end_state, IsChain, Encodes, Encodes-unique, IsChain-append, append_cons-not_nil, dicts,
  dicts-append,
}
use quantum_safe_py.Migrate.State.Writers.{
  Pc, idle, reading, deciding, committing, writing, returned, raised, attempt, begin_call,
  after_encode, after_checks, max_cas_attempts, advance_call, after_read, after_commit, System,
  Step, call, move, Reach, start, later, update,
}
use quantum_safe_py.Migrate.State.Invariant.{
  IsGood, IsLogs, Grows, Grows-refl, Grows-trans, IsGood-Grows, history_key_injective,
  current_key_other, check_transition-IsLegal, is_stale-Follows, history_for_write-Encodes,
}

module _ (c : Cbor2) (f : Floats) (back : (v : Value) → ReadsBack c v) where
  -- The entry that a commit writes.
  pub dumps_history-Encodes :
      (history : List Value) (rs : List MigrationRecord) (r : MigrationRecord)
      → history ≡ dicts rs
      → Encodes c (some (dumps_history c history r)) (rs ++ (r ∷ []))
  unfolding dumps_history
  dumps_history-Encodes history rs r e =
      (rw (e, dicts-append rs (r ∷ [])) refl, append_cons-not_nil rs r)

  pub commit-Grows :
      (s : Store) (k : Bytes) (history : List Value) (rs : List MigrationRecord)
      (r : MigrationRecord)
      → Encodes c (lookup s (history_key k)) rs
      → history ≡ dicts rs
      → Grows c f back s (put s (history_key k) (dumps_history c history r))
  commit-Grows s k history rs r enc hist j qs e =
      elim (Bool-cases (bytes_eq (history_key k) (history_key j))) [
        | inl same ↦
            let jk = history_key_injective k j same in
            let enc' : Encodes c (lookup s (history_key j)) rs =
              subst (λ i. Encodes c (lookup s (history_key i)) rs) jk enc in
            let one = Encodes-unique c back (lookup s (history_key j)) rs qs enc' e in
            let now = lookup-put s (history_key k) (dumps_history c history r) in
            (r ∷ [], rw (← jk, ← one, now) (dumps_history-Encodes history rs r hist))
        | inr other ↦
            let kept =
              lookup-put_other s (history_key k) (history_key j) (dumps_history c history r)
                other in
            ([], rw (kept, append-nil qs) e)
      ]

  pub commit-IsLogs :
      (s : Store) (k : Bytes) (history : List Value) (rs : List MigrationRecord)
      (r : MigrationRecord)
      → history ≡ dicts rs
      → IsChain f none (rs ++ (r ∷ []))
      → IsLogs c f back s
      → IsLogs c f back (put s (history_key k) (dumps_history c history r))
  commit-IsLogs s k history rs r hist chain logs j =
      elim (Bool-cases (bytes_eq (history_key k) (history_key j))) [
        | inl same ↦
            let jk = history_key_injective k j same in
            let now = lookup-put s (history_key k) (dumps_history c history r) in
            (rs ++ (r ∷ []), rw (← jk, now) (dumps_history-Encodes history rs r hist), chain)
        | inr other ↦
            let kept =
              lookup-put_other s (history_key k) (history_key j) (dumps_history c history r)
                other in
            let (qs, e, ch) = logs j in (qs, rw kept e, ch)
      ]

  current-kept :
      (s : Store) (k j v : Bytes)
      → lookup (put s (current_key k) v) (history_key j) ≡ lookup s (history_key j)
  current-kept s k j v =
      lookup-put_other s (current_key k) (history_key j) v (current_key_other k j)

  -- What an access does to the shared state and to the call itself.
  abbrev pub Kept : Store → Store × Pc → Type 0
  Kept s (t, p) = Grows c f back s t × IsLogs c f back t × IsGood c f back t p

  stays : (s : Store) (p : Pc) → IsLogs c f back s → IsGood c f back s p → Kept s (s, p)
  stays s p logs good = (Grows-refl c f back s, logs, good)

  attempt-IsGood :
      (s : Store) (q : Request) (left : ℕ)
      → check_transition q ≡ ok tt
      → IsGood c f back s (attempt q left)
  unfolding attempt
  attempt-IsGood s q zero h = tt
  attempt-IsGood s q (suc left) h = h

  after_checks-IsGood :
      (s : Store) (q : Request) (checked : Result (Unit {0}))
      → check_transition q ≡ checked
      → IsGood c f back s (after_checks q checked)
  unfolding after_checks
  after_checks-IsGood s q (ok u) h = attempt-IsGood s q max_cas_attempts h
  after_checks-IsGood s q (err e) h = tt

  pub begin_call-IsGood : (s : Store) (q : Request) → IsGood c f back s (begin_call q)
  unfolding begin_call
  begin_call-IsGood s q = after_checks-IsGood s q (check_transition q) refl

  after_read-IsGood :
      (s : Store) (q : Request) (left : ℕ) (read : Result (List Value))
      → check_transition q ≡ ok tt
      → history_for_write c (lookup s (history_key q.key_id)) ≡ read
      → IsLogs c f back s
      → IsGood c f back s (after_read q left (lookup s (history_key q.key_id)) read)
  unfolding after_read
  after_read-IsGood s q left (ok history) h e logs =
      let (rs, enc, chain) = logs q.key_id in
      let hist =
        history_for_write-Encodes c back (lookup s (history_key q.key_id)) rs history enc e in
      (h, rs, (enc, hist, chain, [], rw (append-nil rs) enc))
  after_read-IsGood s q left (err e) h e' logs = tt

  after_commit-Kept :
      (s : Store) (q : Request) (left : ℕ) (raw : Option Bytes) (history : List Value)
      (r : MigrationRecord)
      → IsLogs c f back s
      → IsGood c f back s (committing q left raw history r)
      → Kept s (
          after_commit q left r
            (compare_and_set (history_key q.key_id) raw (dumps_history c history r) s))
  unfolding after_commit compare_and_set
  after_commit-Kept s q left raw history r logs (h, rs, (enc, hist, chain, ext, now), more) =
      elim (Bool-cases (same_value (lookup s (history_key q.key_id)) raw)) [
        | inl e ↦
            let same = same_value_sound (lookup s (history_key q.key_id)) raw e in
            let enc' : Encodes c (lookup s (history_key q.key_id)) rs = rw same enc in
            rw e (
              commit-Grows s q.key_id history rs r enc' hist,
              commit-IsLogs s q.key_id history rs r hist more logs,
              tt,
            )
        | inr e ↦ rw e (stays s (attempt q left) logs (attempt-IsGood s q left h))
      ]

  new_record-IsChain :
      (q : Request) (t : Stamp) (rs : List MigrationRecord)
      → f.float t.timestamp ≡ ok t.timestamp
      → IsChain f none rs
      → Follows (end_state none rs) q.from_state
      → check_transition q ≡ ok tt
      → IsChain f none (rs ++ (new_record q t ∷ []))
  unfolding new_record
  new_record-IsChain q t rs timed chain follows h =
      IsChain-append f none rs (new_record q t) chain follows (check_transition-IsLegal q t h) timed

  after_encode-IsGood :
      (s : Store) (q : Request) (left : ℕ) (raw : Option Bytes) (history : List Value)
      (r : MigrationRecord) (encoded : Result Bytes)
      → IsGood c f back s (committing q left raw history r)
      → IsGood c f back s (after_encode q left raw history r encoded)
  unfolding after_encode
  after_encode-IsGood s q left raw history r (ok entry) good = good
  after_encode-IsGood s q left raw history r (err e) good = tt

  pub advance_call-Kept :
      (t : Stamp) (s : Store) (p : Pc)
      → f.float t.timestamp ≡ ok t.timestamp
      → IsLogs c f back s
      → IsGood c f back s p
      → Kept s (advance_call c f t s p)
  unfolding advance_call
  advance_call-Kept t s idle timed logs good = stays s idle logs good
  advance_call-Kept t s (reading q left) timed logs good =
      stays s
        (after_read q left (lookup s (history_key q.key_id))
          (history_for_write c (lookup s (history_key q.key_id))))
        logs
        (after_read-IsGood s q left (history_for_write c (lookup s (history_key q.key_id))) good
          refl logs)
  advance_call-Kept t s (deciding q left raw history) timed logs
        (h, rs, (enc, hist, chain, ext, now)) =
      elim (Bool-cases (is_stale c f (state_from c f history q.key_id s) q.from_state)) [
        | inl e ↦ rw e (stays s (raised value_error) logs tt)
        | inr e ↦
            let fresh : is_stale c f (state_from c f (dicts rs) q.key_id s) q.from_state ≡ false =
              rw hist at e in
            let follows = is_stale-Follows c f q.key_id s rs q.from_state chain fresh in
            rw e (
              stays s
                (after_encode q left raw history (new_record q t)
                  (dump_new_history c history (new_record q t)))
                logs
                (after_encode-IsGood s q left raw history (new_record q t)
                  (dump_new_history c history (new_record q t))
                  (
                    h,
                    rs,
                    (enc, hist, chain, ext, now),
                    new_record-IsChain q t rs timed chain follows h,
                  )))
      ]
  advance_call-Kept t s (committing q left raw history r) timed logs good =
      after_commit-Kept s q left raw history r logs good
  advance_call-Kept t s (writing q r) timed logs good = (
    (λ k rs e. ([], rw (current-kept s q.key_id k (record_to_bytes c r), append-nil rs) e)),
    (λ k.
        let (rs, e, chain) = logs k in
        (rs, rw (current-kept s q.key_id k (record_to_bytes c r)) e, chain)),
    tt,
  )
  advance_call-Kept t s (returned r) timed logs good = stays s (returned r) logs good
  advance_call-Kept t s (raised e) timed logs good = stays s (raised e) logs good

  -- The shared invariant: every history is a chain, and what each call remembers is true.
  abbrev pub IsConsistent : System → Type 0
  IsConsistent s = IsLogs c f back s.store × ((i : ℕ) → IsGood c f back s.store (s.pc i))

  pub update-IsGood :
      (s : Store) (pc : ℕ → Pc) (i : ℕ) (p : Pc)
      → ((j : ℕ) → IsGood c f back s (pc j))
      → IsGood c f back s p
      → (j : ℕ) → IsGood c f back s (update pc i p j)
  unfolding update
  update-IsGood s pc i p goods good j = elim (Bool-cases (j == i)) [
    | inl e ↦ rw e good
    | inr e ↦ rw e (goods j)
  ]

  pub Step-IsConsistent :
      {s t : System}
      → Step c f s t
      → IsConsistent s
      → IsConsistent t × Grows c f back s.store t.store
  Step-IsConsistent {s} (call i q) (logs, goods) = (
    (logs, update-IsGood s.store s.pc i (begin_call q) goods (begin_call-IsGood s.store q)),
    Grows-refl c f back s.store,
  )
  Step-IsConsistent {s} (move i t timed) (logs, goods) =
      let r = advance_call c f t s.store (s.pc i) in
      let (grows, logs', good) = advance_call-Kept t s.store (s.pc i) timed logs (goods i) in
      (
        (
          logs',
          update-IsGood r.0 s.pc i r.1
              (λ j. IsGood-Grows c f back s.store r.0 (s.pc j) grows (goods j)) good,
        ),
        grows,
      )

  pub Reach-IsConsistent :
      {s t : System}
      → Reach c f s t
      → IsConsistent s
      → IsConsistent t × Grows c f back s.store t.store
  Reach-IsConsistent {s} start inv = (inv, Grows-refl c f back s.store)
  Reach-IsConsistent {s} {t} (later {u} r st) inv =
      let (mid, g) = Reach-IsConsistent r inv in
      let (last, h) = Step-IsConsistent st mid in
      (last, Grows-trans c f back s.store u.store t.store g h)
