-- ===== src/Examples/Migrations.antt =====
-- The theorems of Migrate at concrete calls: two callers race to move the key `k` forward.
use quantum_safe_py.Prelude.{
  ℕ, zero, suc, ◌+◌, ◌≡◌, ◌≤◌, refl, Bool, true, false, Option, none, some, List, [], ◌∷◌, ◌++◌,
  Bytes, text, length, arith, ◌⊎◌,
}
use quantum_safe_py.Outcome.{ok, err, value_error, type_error}
use quantum_safe_py.Cbor.{Value, Cbor2, array, real, dict, end, max_payload}
use quantum_safe_py.Keys.{classical_only, hybrid_transition, pqc_preferred, pqc_only}
use quantum_safe_py.Migrate.State.{
  Request, Stamp, history_key, current_key, check_transition, new_record, dumps_history,
  history_for_write, of_list, get_history, get_current_state, get_current_record,
}
use quantum_safe_py.Migrate.State.Storage.{Store, lookup, put, compare_and_set}
use quantum_safe_py.Migrate.State.Records.{MigrationRecord, Floats, record_to_bytes, to_dict}
use quantum_safe_py.Migrate.State.Chain.{IsChain, Encodes}
use quantum_safe_py.Migrate.State.Writers.{
  idle, committing, writing, begin_call, advance_call, System, Reach, start, later, call, move,
  update,
}
use quantum_safe_py.Migrate.State.History.{get_history-IsChain, lost_race, one_winner}
use quantum_safe_py.Migrate.State.Locked.{transition_locked, run_call, outcome, ended}
use quantum_safe_py.Migrate.State.Quiet.{run_call-transition_locked}
use quantum_safe_py.Migrate.State.Effect.{transition_locked_effect, transition_locked_errors}
use quantum_safe_py.Migrate.State.Scan.{
  keys_by_state, needs_migration, migration_progress, migration_progress_counts,
}
use quantum_safe_py.Examples.Trees.{trees, trees-ReadsBack}

abbrev floats : Floats
floats = record { float = ok }

abbrev stamp : Stamp
stamp = record { record_id = text "id"; timestamp = real none (text "1.5") }

abbrev forward_move : Request
forward_move = record {
  key_id = text "k";
  from_state = classical_only;
  to_state = hybrid_transition;
  algorithm = text "X-Wing";
  actor = text "system";
  reason = [];
  metadata = dict end;
  allow_backward = false;
}

abbrev made : MigrationRecord
made = new_record forward_move stamp

abbrev empty : System
empty = record { store = []; pc = λ i. idle }

data Act : Type 0 where
  begins goes : ℕ → Act

next : System → Act → System
next s (begins i) = record { store = s.store; pc = update s.pc i (begin_call forward_move) }
next s (goes i) = record {
  store = (advance_call trees floats stamp s.store (s.pc i)).0;
  pc = update s.pc i (advance_call trees floats stamp s.store (s.pc i)).1;
}

schedule : System → List Act → System
schedule s [] = s
schedule s (a ∷ as') = schedule (next s a) as'

schedule-Reach :
    (s : System) (acts : List Act)
    → Reach trees floats empty s
    → Reach trees floats empty (schedule s acts)
unfolding schedule next
schedule-Reach s [] r = r
schedule-Reach s (begins i ∷ acts) r =
    schedule-Reach (next s (begins i)) acts (later r (call i forward_move))
schedule-Reach s (goes i ∷ acts) r =
    schedule-Reach (next s (goes i)) acts (later r (move i stamp refl))

-- Both have read and decided.
abbrev both_ready : List Act
both_ready = begins 0 ∷ begins 1 ∷ goes 0 ∷ goes 1 ∷ goes 0 ∷ goes 1 ∷ []

abbrev first_won : List Act
first_won = both_ready ++ (goes 0 ∷ [])

at_ready : System
at_ready = schedule empty both_ready

ready_reach : Reach trees floats empty at_ready
unfolding at_ready
ready_reach = schedule-Reach empty both_ready start

won_reach : Reach trees floats empty (schedule empty first_won)
won_reach = schedule-Reach empty first_won start

no_logs :
    (k : Bytes)
    → (rs : List MigrationRecord) × Encodes trees (lookup [] (history_key k)) rs
      × IsChain floats none rs
unfolding lookup
no_logs k = ([], refl, tt)

get_history-IsChain_example :
    IsChain floats none (get_history trees floats (text "k") (schedule empty first_won).store)
get_history-IsChain_example =
    get_history-IsChain trees floats trees-ReadsBack empty no_logs (λ i. refl) won_reach (text "k")

committing_0 : at_ready.pc 0 ≡ committing forward_move 19 none [] made
unfolding at_ready schedule next update begin_call advance_call check_transition
    quantum_safe_py.Migrate.State.Records.among
    quantum_safe_py.Migrate.State.Records.forward_targets
    quantum_safe_py.Migrate.State.Records.backward_targets
    quantum_safe_py.Migrate.State.history_for_write lookup quantum_safe_py.Migrate.State.is_stale
    quantum_safe_py.Migrate.State.state_from quantum_safe_py.Migrate.State.last_record
    quantum_safe_py.Migrate.State.last_of quantum_safe_py.Migrate.State.legacy_current
    quantum_safe_py.Migrate.State.legacy_of quantum_safe_py.Migrate.State.dump_new_history
    quantum_safe_py.Cbor.dumps trees
committing_0 = refl

waiting_1 : (schedule empty first_won).pc 1 ≡ committing forward_move 19 none [] made
unfolding at_ready schedule next update begin_call advance_call check_transition
    quantum_safe_py.Migrate.State.Records.among
    quantum_safe_py.Migrate.State.Records.forward_targets
    quantum_safe_py.Migrate.State.Records.backward_targets
    quantum_safe_py.Migrate.State.history_for_write lookup quantum_safe_py.Migrate.State.is_stale
    quantum_safe_py.Migrate.State.state_from quantum_safe_py.Migrate.State.last_record
    quantum_safe_py.Migrate.State.last_of quantum_safe_py.Migrate.State.legacy_current
    quantum_safe_py.Migrate.State.legacy_of quantum_safe_py.Migrate.State.dump_new_history
    quantum_safe_py.Cbor.dumps trees
waiting_1 = refl

lost_1 :
    compare_and_set
      (history_key (text "k"))
      none
      (dumps_history trees [] made)
      (schedule empty first_won).store
    ≡ ((schedule empty first_won).store, false)
unfolding at_ready schedule next update begin_call advance_call compare_and_set
    quantum_safe_py.Migrate.State.Storage.same_value lookup check_transition
    quantum_safe_py.Migrate.State.Records.among
    quantum_safe_py.Migrate.State.Records.forward_targets
    quantum_safe_py.Migrate.State.Records.backward_targets
    quantum_safe_py.Migrate.State.history_for_write quantum_safe_py.Migrate.State.is_stale
    quantum_safe_py.Migrate.State.state_from quantum_safe_py.Migrate.State.last_record
    quantum_safe_py.Migrate.State.last_of quantum_safe_py.Migrate.State.legacy_current
    quantum_safe_py.Migrate.State.legacy_of put quantum_safe_py.Prelude.bytes_eq history_key
    quantum_safe_py.Migrate.State.dump_new_history quantum_safe_py.Cbor.dumps trees
lost_1 = refl

lost_race_example :
    (rs : List MigrationRecord) × (x : MigrationRecord) × (ext : List MigrationRecord) × Encodes
      trees none rs
    × Encodes trees
        (lookup (schedule empty first_won).store (history_key (text "k")))
        (rs ++ (x ∷ ext))
lost_race_example =
    lost_race trees floats trees-ReadsBack empty no_logs (λ i. refl) 1 forward_move 19 none [] made
      won_reach waiting_1 lost_1

after_win : Store
after_win = put at_ready.store (history_key (text "k")) (dumps_history trees [] made)

wins_0 :
    compare_and_set (history_key (text "k")) none (dumps_history trees [] made) at_ready.store
    ≡ (after_win, true)
unfolding at_ready schedule next update begin_call advance_call compare_and_set after_win
    quantum_safe_py.Migrate.State.Storage.same_value lookup check_transition
    quantum_safe_py.Migrate.State.Records.among
    quantum_safe_py.Migrate.State.Records.forward_targets
    quantum_safe_py.Migrate.State.Records.backward_targets
    quantum_safe_py.Migrate.State.history_for_write
wins_0 = refl

after_write : System
after_write = record {
  store =
      (advance_call trees floats stamp after_win
        (update at_ready.pc 0 (writing forward_move made) 0)).0;
  pc =
      update (update at_ready.pc 0 (writing forward_move made)) 0
        (advance_call trees floats stamp after_win
          (update at_ready.pc 0 (writing forward_move made) 0)).1;
}

written :
    Reach trees floats
      (record { store = after_win; pc = update at_ready.pc 0 (writing forward_move made) })
      after_write
unfolding after_write
written = later start (move 0 stamp refl)

one_winner_example :
    compare_and_set (history_key (text "k")) none (text "anything") after_write.store
    ≡ (after_write.store, false)
one_winner_example =
    one_winner trees floats trees-ReadsBack empty no_logs (λ i. refl) 0 forward_move 19 none [] made
      after_win (text "anything") ready_reach committing_0 wins_0 written

agrees :
    get_current_state trees floats true (text "k") []
    ≡ get_current_state trees floats false (text "k") []
unfolding get_current_state get_current_record quantum_safe_py.Migrate.State.legacy_current
    quantum_safe_py.Migrate.State.last_record quantum_safe_py.Migrate.State.legacy_of
    quantum_safe_py.Migrate.State.last_of lookup quantum_safe_py.Migrate.State.parse_history
agrees = refl

run_call-transition_locked_example :
    outcome (run_call trees floats stamp 4 ([], begin_call forward_move))
    ≡ ended (transition_locked trees floats forward_move stamp [])
run_call-transition_locked_example =
    run_call-transition_locked trees floats forward_move stamp [] agrees

stored : Store
stored =
    put (put [] (history_key (text "k")) (dumps_history trees [] made)) (current_key (text "k"))
      (record_to_bytes trees made)

returns_made : transition_locked trees floats forward_move stamp [] ≡ (stored, ok made)
unfolding transition_locked stored check_transition quantum_safe_py.Migrate.State.Records.among
    quantum_safe_py.Migrate.State.Records.forward_targets
    quantum_safe_py.Migrate.State.Records.backward_targets quantum_safe_py.Migrate.State.is_stale
    get_current_state get_current_record quantum_safe_py.Migrate.State.legacy_current
    quantum_safe_py.Migrate.State.legacy_of lookup quantum_safe_py.Migrate.State.history_for_write
    quantum_safe_py.Migrate.State.dump_new_history quantum_safe_py.Cbor.dumps trees dumps_history
returns_made = refl

small_record : length (record_to_bytes trees made) ≤ max_payload
unfolding record_to_bytes quantum_safe_py.Cbor.written trees
    quantum_safe_py.Migrate.State.Records.to_dict new_record quantum_safe_py.Keys.state_name
    quantum_safe_py.Migrate.State.Records.is_forward quantum_safe_py.Migrate.State.Records.among
    quantum_safe_py.Migrate.State.Records.forward_targets
small_record = omega arith

size : Option Bytes → ℕ
size none = 0
size (some raw) = length raw

small_stored : size (lookup stored (history_key (text "k"))) ≤ max_payload
unfolding size stored lookup put quantum_safe_py.Prelude.bytes_eq history_key current_key
    dumps_history quantum_safe_py.Cbor.written trees quantum_safe_py.Migrate.State.Records.to_dict
    new_record quantum_safe_py.Keys.state_name quantum_safe_py.Migrate.State.Records.is_forward
    quantum_safe_py.Migrate.State.Records.among
    quantum_safe_py.Migrate.State.Records.forward_targets
small_stored = omega arith

small_history :
    (raw : Bytes) → lookup stored (history_key (text "k")) ≡ some raw → length raw ≤ max_payload
unfolding size
small_history raw e = let s : size (some raw) ≤ max_payload = rw e at small_stored in s

transition_locked_effect_example :
    (get_history trees floats (text "k") stored
      ≡ get_history trees floats (text "k") [] ++ (made ∷ []))
    × ((cas : Bool) → get_current_record trees floats cas (text "k") stored ≡ some made)
    × (made ≡ made)
transition_locked_effect_example =
    transition_locked_effect trees floats forward_move stamp [] stored made trees-ReadsBack refl
      returns_made small_record small_history

-- Metadata that has no encoding, for a codec that has none for it.
strict_trees : Cbor2
strict_trees = record trees { encode_error = λ v. some type_error }

refused : transition_locked strict_trees floats forward_move stamp [] ≡ ([], err type_error)
unfolding transition_locked check_transition quantum_safe_py.Migrate.State.Records.among
    quantum_safe_py.Migrate.State.Records.forward_targets
    quantum_safe_py.Migrate.State.Records.backward_targets strict_trees
    quantum_safe_py.Migrate.State.dump_new_history quantum_safe_py.Cbor.dumps
    quantum_safe_py.Migrate.State.history_for_write quantum_safe_py.Migrate.State.is_stale
    get_current_state get_current_record quantum_safe_py.Migrate.State.legacy_current
    quantum_safe_py.Migrate.State.legacy_of lookup
refused = refl

transition_locked_errors_example :
    (◌≡◌ {A = Store} [] [])
    × ((type_error ≡ value_error)
        ⊎ ((history : List Value) × (history_for_write strict_trees
                (lookup [] (history_key (text "k")))
              ≡ ok history)
            × (strict_trees.encode_error
                  (array (of_list (history ++ (to_dict (new_record forward_move stamp) ∷ []))))
                ≡ some type_error)))
transition_locked_errors_example =
    transition_locked_errors strict_trees floats forward_move stamp [] [] type_error refused

migration_progress_counts_example :
    ((migration_progress trees floats true stored).in_classical_only
      ≡ length (keys_by_state trees floats true classical_only stored))
    × ((migration_progress trees floats true stored).in_hybrid_transition
        ≡ length (keys_by_state trees floats true hybrid_transition stored))
    × ((migration_progress trees floats true stored).in_pqc_preferred
        ≡ length (keys_by_state trees floats true pqc_preferred stored))
    × ((migration_progress trees floats true stored).in_pqc_only
        ≡ length (keys_by_state trees floats true pqc_only stored))
    × ((migration_progress trees floats true stored).in_classical_only
          + (migration_progress trees floats true stored).unknown
        ≡ length (needs_migration trees floats true stored))
migration_progress_counts_example = migration_progress_counts trees floats true stored
