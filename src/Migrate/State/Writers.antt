-- ===== src/Migrate/State/Writers.antt =====
-- migrate/state.py: any number of calls of `transition` on one store with a `compare_and_set`, an
-- access to the store at a time (`_transition_cas`).
use quantum_safe_py.Prelude.{
  ℕ, zero, suc, Bool, true, false, Option, List, ◌≡◌, ◌==◌, Bytes, if◌then◌else◌,
}
use quantum_safe_py.Outcome.{Error, Result, ok, err, value_error}
use quantum_safe_py.Cbor.{Value, Cbor2}
use quantum_safe_py.Migrate.State.{
  Request, Stamp, history_key, current_key, check_transition, new_record, dumps_history,
  dump_new_history, history_for_write, state_from, is_stale,
}
use quantum_safe_py.Migrate.State.Storage.{Store, lookup, put, compare_and_set}
use quantum_safe_py.Migrate.State.Records.{MigrationRecord, Floats, record_to_bytes}

-- Where a call stands, with the variables that are live there and the attempts that are left.
pub data Pc : Type 0 where
  idle : Pc  -- before the call
  reading : (q : Request) (left : ℕ) → Pc  -- before `store.get(history_key)`
  deciding : (q : Request) (left : ℕ) (raw : Option Bytes) (history : List Value) → Pc  -- before `_state_from`
  committing :
      (q : Request) (left : ℕ) (raw : Option Bytes) (history : List Value) (r : MigrationRecord)
      → Pc
  writing : (q : Request) (r : MigrationRecord) → Pc  -- committed, before `_current` is written
  returned : MigrationRecord → Pc
  raised : Error → Pc

-- `_MAX_CAS_ATTEMPTS`
abbrev pub max_cas_attempts : ℕ
max_cas_attempts = 20

-- The head of the loop.
unfoldable pub attempt : Request → ℕ → Pc
attempt q zero = raised value_error
attempt q (suc left) = reading q left

unfoldable pub after_checks : Request → Result (Unit {0}) → Pc
unfolding attempt
after_checks q (ok u) = attempt q max_cas_attempts
after_checks q (err e) = raised e

-- `transition` up to the loop.
unfoldable pub begin_call : Request → Pc
unfolding after_checks
begin_call q = after_checks q (check_transition q)

unfoldable pub after_read : Request → ℕ → Option Bytes → Result (List Value) → Pc
after_read q left raw (ok history) = deciding q left raw history
after_read q left raw (err e) = raised e

-- The bytes for the compare-and-set are made before it.
unfoldable pub after_encode :
    Request → ℕ → Option Bytes → List Value → MigrationRecord → Result Bytes → Pc
after_encode q left raw history r (ok entry) = committing q left raw history r
after_encode q left raw history r (err e) = raised e

unfoldable pub after_commit : Request → ℕ → MigrationRecord → Store × Bool → Store × Pc
after_commit q left r (s, true) = (s, writing q r)
after_commit q left r (s, false) = (s, attempt q left)

-- One access to the store, and the code up to the next one. The stamp is used where a record is made.
unfoldable pub advance_call : Cbor2 → Floats → Stamp → Store → Pc → Store × Pc
unfolding after_read after_encode after_commit attempt
advance_call c f t s (reading q left) =
    let raw = lookup s (history_key q.key_id) in
    (s, after_read q left raw (history_for_write c raw))
advance_call c f t s (deciding q left raw history) = (
  s,
  if is_stale c f (state_from c f history q.key_id s) q.from_state
      then raised value_error
      else after_encode q left raw history (new_record q t)
          (dump_new_history c history (new_record q t)),
)
advance_call c f t s (committing q left raw history r) =
    after_commit q left r (compare_and_set (history_key q.key_id) raw (dumps_history c history r) s)
advance_call c f t s (writing q r) =
    (put s (current_key q.key_id) (record_to_bytes c r), returned r)
advance_call c f t s p = (s, p)

pub record System : Type 0 where
  pub store : Store
  pub pc : ℕ → Pc

unfoldable pub update : (ℕ → Pc) → ℕ → Pc → ℕ → Pc
update pc i p j = if j == i then p else pc j

-- A caller starts a call, or makes one access. A caller that crashes makes no more steps.
pub data Step (c : Cbor2) (f : Floats) (s : System) : System → Type 0 where
  call :
      (i : ℕ) (q : Request)
      → Step c f s (record { store = s.store; pc = update s.pc i (begin_call q) })
  move :
      (i : ℕ) (t : Stamp)
      → f.float t.timestamp ≡ ok t.timestamp
      → Step c f s (record {
        store = (advance_call c f t s.store (s.pc i)).0;
        pc = update s.pc i (advance_call c f t s.store (s.pc i)).1;
      })

pub data Reach (c : Cbor2) (f : Floats) (s : System) : System → Type 0 where
  start : Reach c f s s
  later : {u v : System} → Reach c f s u → Step c f u v → Reach c f s v
