-- ===== src/Migrate/State/History.antt =====
-- migrate/state.py: what concurrent calls of `transition` leave in a store with a `compare_and_set`.
use quantum_safe_py.Prelude.{
  ℕ, true, false, Option, none, some, List, [], ◌∷◌, ◌++◌, ◌≡◌, ◌⊎◌, inl, inr, refl, ap, Bytes,
  length, length-append, append-nil, Bool-cases, arith,
}
use quantum_safe_py.Outcome.{ok, Result-cases}
use quantum_safe_py.Cbor.{Value, Cbor2, ReadsBack, array, written, loads, loads-written_eq}
use quantum_safe_py.Migrate.State.{
  Request, history_key, dumps_history, parse_history, records_of, get_history, load_history,
  of_list,
}
use quantum_safe_py.Keys.{MigrationState}
use quantum_safe_py.Migrate.State.Storage.{
  Store, lookup, lookup-put, compare_and_set, same_value, same_value_sound, same_value_refl,
  compare_and_set-won, compare_and_set-lost,
}
use quantum_safe_py.Migrate.State.Records.{MigrationRecord, Floats, from_dict-to_dict}
use quantum_safe_py.Migrate.State.Chain.{
  IsChain, Encodes, Encodes-unique, Encodes-entry, dicts, to_list-of_list,
}
use quantum_safe_py.Migrate.State.Writers.{Pc, idle, committing, writing, update, System, Reach}
use quantum_safe_py.Migrate.State.Invariant.{IsGood, IsGood-Grows, IsLogs, Grows}
use quantum_safe_py.Migrate.State.Steps.{
  Reach-IsConsistent, IsConsistent, commit-Grows, commit-IsLogs, update-IsGood,
  dumps_history-Encodes,
}

pub records_of-dicts :
    (f : Floats) (s : Option MigrationState) (rs : List MigrationRecord)
    → IsChain f s rs
    → records_of f (dicts rs) ≡ rs
unfolding records_of
records_of-dicts f s [] chain = refl
records_of-dicts f s (r ∷ rs) chain =
    rw (from_dict-to_dict f r chain.2, records_of-dicts f (some r.to_state) rs chain.3)

-- A history is read as its records, or not at all.
parse_history-Encodes :
    (c : Cbor2)
    → ((v : Value) → ReadsBack c v)
    → (raw : Option Bytes) (rs : List MigrationRecord) → Encodes c raw rs
    → (parse_history c raw ≡ dicts rs) ⊎ (parse_history c raw ≡ [])
unfolding parse_history
parse_history-Encodes c back none rs e = inr refl
parse_history-Encodes c back (some raw) rs e = elim (Result-cases (loads c raw)) [
  | inl (x, h) ↦ inr (rw h refl)
  | inr (w, h) ↦
      let v : Value = array (of_list (dicts rs)) in
      let read : loads c (written c v) ≡ ok w = rw e.0 at h in
      let same = loads-written_eq c v w (back v) read in
      inl (rw (h, ← same) (to_list-of_list (dicts rs)))
]

longer : (rs ext : List MigrationRecord) (r : MigrationRecord) → rs ≡ (rs ++ (r ∷ [])) ++ ext → ⊥
longer rs ext r e =
    omega (arith, ap length e, length-append (rs ++ (r ∷ [])) ext, length-append rs (r ∷ []))

-- An entry that is not the expected one stands for more records.
grown :
    (c : Cbor2) (raw now : Option Bytes) (rs ext : List MigrationRecord)
    → Encodes c raw rs
    → Encodes c now (rs ++ ext)
    → same_value now raw ≡ false
    → (x : MigrationRecord) × (more : List MigrationRecord) × Encodes c now (rs ++ (x ∷ more))
grown c raw now rs [] e e' differ =
    let back_to : Encodes c now rs = rw (append-nil rs) at e' in
    let same = Encodes-entry c now raw rs back_to e in
    let match : same_value raw raw ≡ false = rw same at differ in
    let refl_lem = same_value_refl raw in absurd (cc)
grown c raw now rs (x ∷ more) e e' differ = (x, more, e')

compare_and_set_other :
    (k : Bytes) (expected : Option Bytes) (new : Bytes) (s : Store)
    → same_value (lookup s k) expected ≡ false
    → compare_and_set k expected new s ≡ (s, false)
unfolding compare_and_set
compare_and_set_other k expected new s h = rw h refl

-- An entry that stands for a longer history is not the one that was read.
moved_on :
    (c : Cbor2)
    → ((v : Value) → ReadsBack c v)
    → (raw now : Option Bytes) (rs more : List MigrationRecord) (r : MigrationRecord)
    → Encodes c raw rs
    → Encodes c now ((rs ++ (r ∷ [])) ++ more)
    → same_value now raw ≡ false
moved_on c back raw now rs more r e e' = elim (Bool-cases (same_value now raw)) [
  | inl h ↦
      let same = same_value_sound now raw h in
      let e'' : Encodes c raw ((rs ++ (r ∷ [])) ++ more) = rw same at e' in
      absurd (longer rs more r (Encodes-unique c back raw rs ((rs ++ (r ∷ [])) ++ more) e e''))
  | inr h ↦ h
]

idle-IsGood :
    (c : Cbor2) (f : Floats) (back : (v : Value) → ReadsBack c v) (s : Store) (p : Pc)
    → p ≡ idle
    → IsGood c f back s p
idle-IsGood c f back s p e = rw e tt

module _ (c : Cbor2) (f : Floats) (back : (v : Value) → ReadsBack c v) (s : System)
    (logs : IsLogs c f back s.store) (quiet : (i : ℕ) → s.pc i ≡ idle) where
  reached : {t : System} → Reach c f s t → IsConsistent c f back t
  reached r =
      (Reach-IsConsistent c f back r (logs, λ i. idle-IsGood c f back s.store (s.pc i) (quiet i))).0

  -- Whatever the interleaving of the calls, and wherever callers crash: every history that is read back
  -- is a chain. Each of its records starts where the one before it ended, and is a move forward, or a
  -- move back with a reason. The store starts with chains, and no call has begun; cbor2 reads back
  -- what it writes, and the times are floats.
  pub get_history-IsChain :
      {t : System} → Reach c f s t → (k : Bytes) → IsChain f none (get_history c f k t.store)
  unfolding get_history load_history records_of
  get_history-IsChain {t} r k =
      let (rs, e, chain) = (reached r).0 k in
      elim (parse_history-Encodes c back (lookup t.store (history_key k)) rs e) [
        | inl h ↦ rw (h, records_of-dicts f none rs chain) chain
        | inr h ↦ rw h tt
      ]

  -- Histories are append-only: from a reachable state on, whatever calls are made, the entry of a key
  -- stands for the records it stood for, followed by others.
  pub history_append_only :
      {t u : System}
      → Reach c f s t
      → Reach c f t u
      → (k : Bytes) (rs : List MigrationRecord) → Encodes c (lookup t.store (history_key k)) rs
      → (ext : List MigrationRecord) × Encodes c (lookup u.store (history_key k)) (rs ++ ext)
  history_append_only r onward k rs e = (Reach-IsConsistent c f back onward (reached r)).1 k rs e

  -- A caller loses the race only to a caller that has committed: where its compare-and-set fails, the
  -- history has grown by at least one record since it read the entry.
  pub lost_race :
      {t : System} (i : ℕ) (q : Request) (left : ℕ) (raw : Option Bytes) (history : List Value)
      (r : MigrationRecord)
      → Reach c f s t
      → t.pc i ≡ committing q left raw history r
      → compare_and_set (history_key q.key_id) raw (dumps_history c history r) t.store
        ≡ (t.store, false)
      → (rs : List MigrationRecord) × (x : MigrationRecord) × (ext : List MigrationRecord) × Encodes
          c raw rs
        × Encodes c (lookup t.store (history_key q.key_id)) (rs ++ (x ∷ ext))
  lost_race {t} i q left raw history r reach at_commit lost =
      let good : IsGood c f back t.store (committing q left raw history r) =
        rw at_commit at ((reached reach).1 i) in
      let (valid, rs, saw, chain) = good in
      let (enc, hist, seen, ext, now) = saw in
      let differ =
        compare_and_set-lost (history_key q.key_id) raw (dumps_history c history r) t.store lost in
      let (x, more, e) =
        grown c raw (lookup t.store (history_key q.key_id)) rs ext enc now differ in
      (rs, x, more, enc, e)

  -- At most one of the callers that read the same entry commits: after one of them has written its
  -- record, no compare-and-set that expects that entry succeeds, whatever steps are made in between.
  pub one_winner :
      {t u : System} (i : ℕ) (q : Request) (left : ℕ) (raw : Option Bytes) (history : List Value)
      (r : MigrationRecord) (won : Store) (new : Bytes)
      → Reach c f s t
      → t.pc i ≡ committing q left raw history r
      → compare_and_set (history_key q.key_id) raw (dumps_history c history r) t.store ≡ (won, true)
      → Reach c f (record { store = won; pc = update t.pc i (writing q r) }) u
      → compare_and_set (history_key q.key_id) raw new u.store ≡ (u.store, false)
  one_winner {t} {u} i q left raw history r won new reach at_commit win rest =
      let good : IsGood c f back t.store (committing q left raw history r) =
        rw at_commit at ((reached reach).1 i) in
      let (valid, rs, saw, chain) = good in
      let (enc, hist, seen, ext, now) = saw in
      let k = history_key q.key_id in
      let h = dumps_history c history r in
      let (was, is) = compare_and_set-won k raw h t.store won win in
      let logs' : IsLogs c f back won =
        rw is at
          (commit-IsLogs c f back t.store q.key_id history rs r hist chain (reached reach).0) in
      let old : Encodes c (lookup t.store k) rs = rw was enc in
      let grows : Grows c f back t.store won =
        rw is at (commit-Grows c f back t.store q.key_id history rs r old hist) in
      let goods' =
        update-IsGood c f back won t.pc i (writing q r)
          (λ j. IsGood-Grows c f back t.store won (t.pc j) grows ((reached reach).1 j)) tt in
      let written : Encodes c (lookup won k) (rs ++ (r ∷ [])) =
        rw (← is, lookup-put t.store k h) (dumps_history-Encodes c f back history rs r hist) in
      let (more, later_on) =
        (Reach-IsConsistent c f back rest (logs', goods')).1 q.key_id (rs ++ (r ∷ [])) written in
      compare_and_set_other k raw new u.store
        (moved_on c back raw (lookup u.store k) rs more r enc later_on)
