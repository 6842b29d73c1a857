-- ===== src/Migrate/State/Locked.antt =====
-- migrate/state.py: `transition` over a plain dict, and one call of it that nobody interferes with.
use quantum_safe_py.Prelude.{ℕ, zero, suc, false, not, Option, none, some, Bytes}
use quantum_safe_py.Outcome.{Result, ok, err, value_error, ◌>>=◌, ◌>>◌, require}
use quantum_safe_py.Outcome.Exec.{Exec}
use quantum_safe_py.Cbor.{Cbor2}
use quantum_safe_py.Migrate.State.{
  Request, Stamp, history_key, current_key, check_transition, new_record, dump_new_history,
  history_for_write, get_current_state, is_stale,
}
use quantum_safe_py.Migrate.State.Storage.{Store, lookup, put}
use quantum_safe_py.Migrate.State.Records.{MigrationRecord, Floats, record_to_bytes}
use quantum_safe_py.Migrate.State.Writers.{Pc, returned, raised, advance_call}

-- `transition` under the lock up to the writes: the new history, and the record.
unfoldable pub prepare : Cbor2 → Floats → Request → Stamp → Store → Result (Bytes × MigrationRecord)
prepare c f q t s = do
  check_transition q
  require (not (is_stale c f (get_current_state c f false q.key_id s) q.from_state)) value_error
  history ← history_for_write c (lookup s (history_key q.key_id))
  entry ← dump_new_history c history (new_record q t)
  ok (entry, new_record q t)

-- The two writes, the history first. A record that has been encoded in a history has an encoding.
unfoldable pub write_both :
    Cbor2 → Bytes → Result (Bytes × MigrationRecord) → Exec Store MigrationRecord
write_both c k (err e) s = (s, err e)
write_both c k (ok (h, r)) s =
    (put (put s (history_key k) h) (current_key k) (record_to_bytes c r), ok r)

-- `transition` where the store has no `compare_and_set`.
unfoldable pub transition_locked : Cbor2 → Floats → Request → Stamp → Exec Store MigrationRecord
unfolding prepare write_both
transition_locked c f q t s = write_both c q.key_id (prepare c f q t s) s

-- `n` accesses of one call, with the clock standing still.
unfoldable pub run_call : Cbor2 → Floats → Stamp → ℕ → Store × Pc → Store × Pc
run_call c f t zero (s, p) = (s, p)
run_call c f t (suc n) (s, p) = run_call c f t n (advance_call c f t s p)

-- Where a call has ended.
unfoldable pub outcome : Store × Pc → Store × Option (Result MigrationRecord)
outcome (s, returned r) = (s, some (ok r))
outcome (s, raised e) = (s, some (err e))
outcome (s, p) = (s, none)

-- The same of a call that ended.
unfoldable pub ended : Store × Result MigrationRecord → Store × Option (Result MigrationRecord)
ended (s, r) = (s, some r)
