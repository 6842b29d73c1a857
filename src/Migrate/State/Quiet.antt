-- ===== src/Migrate/State/Quiet.antt =====
-- migrate/state.py: one call of `transition` that nobody interferes with, with and without a
-- `compare_and_set`.
use quantum_safe_py.Prelude.{
  Bool, true, false, Option, none, some, List, [], ◌∷◌, ◌++◌, ◌≡◌, ◌⊎◌, inl, inr, refl, Bytes,
  Bool-cases,
}
use quantum_safe_py.Outcome.{Error, ok, err, value_error, Result-cases}
use quantum_safe_py.Cbor.{
  Value, Cbor2, loads, dumps-cases, array, nat, neg, bool, null, string, bytes, real, dict, other,
}
use quantum_safe_py.Migrate.State.{
  Request, Stamp, new_record, of_list, dumps_history, dump_new_history, history_key,
  check_transition, history_for_write, parse_history, as_list, get_current_state,
  get_current_record, state_from, is_stale,
}
use quantum_safe_py.Migrate.State.Storage.{Store, lookup, compare_and_set, same_value_refl}
use quantum_safe_py.Migrate.State.Records.{MigrationRecord, Floats, to_dict}
use quantum_safe_py.Migrate.State.Writers.{
  attempt, after_checks, after_read, after_encode, after_commit, begin_call, advance_call,
}
use quantum_safe_py.Migrate.State.Locked.{
  prepare, write_both, transition_locked, run_call, outcome, ended,
}

as_list_errors : (v : Value) (e : Error) → as_list v ≡ err e → e ≡ value_error
as_list_errors (array vs) e h = cc
as_list_errors (nat n) e h = cc
as_list_errors (neg n) e h = cc
as_list_errors (bool b) e h = cc
as_list_errors null e h = cc
as_list_errors (string b) e h = cc
as_list_errors (bytes b) e h = cc
as_list_errors (real o b) e h = cc
as_list_errors (dict d) e h = cc
as_list_errors (other b) e h = cc

pub history_for_write_errors :
    (c : Cbor2) (raw : Option Bytes) (e : Error) → history_for_write c raw ≡ err e → e ≡ value_error
unfolding history_for_write
history_for_write_errors c none e h = cc
history_for_write_errors c (some raw) e h = elim (Result-cases (loads c raw)) [
  | inl (x, l) ↦ let bad : err value_error ≡ err e = rw l at h in cc
  | inr (v, l) ↦ let read : as_list v ≡ err e = rw l at h in as_list_errors v e read
]

-- A history that can be written to is the one that is read.
pub history_for_write-parse :
    (c : Cbor2) (raw : Option Bytes) (history : List Value)
    → history_for_write c raw ≡ ok history
    → parse_history c raw ≡ history
unfolding history_for_write parse_history
history_for_write-parse c none history h = cc
history_for_write-parse c (some raw) history h = elim (Result-cases (loads c raw)) [
  | inl (x, l) ↦ let bad : err value_error ≡ ok history = rw l at h in cc
  | inr (v, l) ↦ let read : as_list v ≡ ok history = rw l at h in rw (l, read) refl
]

state_from-get_current_state :
    (c : Cbor2) (f : Floats) (k : Bytes) (s : Store) (history : List Value)
    → history_for_write c (lookup s (history_key k)) ≡ ok history
    → state_from c f history k s ≡ get_current_state c f true k s
unfolding state_from get_current_state get_current_record
state_from-get_current_state c f k s history h =
    rw (history_for_write-parse c (lookup s (history_key k)) history h) refl

-- The new history is encoded, or the exception of cbor2 is raised.
pub dump_new_history-cases :
    (c : Cbor2) (history : List Value) (r : MigrationRecord)
    → ((e : Error) × (c.encode_error (array (of_list (history ++ (to_dict r ∷ [])))) ≡ some e)
        × (dump_new_history c history r ≡ err e))
      ⊎ (dump_new_history c history r ≡ ok (dumps_history c history r))
unfolding dump_new_history dumps_history
dump_new_history-cases c history r = dumps-cases c (array (of_list (history ++ (to_dict r ∷ []))))

module _ (c : Cbor2) (f : Floats) (q : Request) (t : Stamp) (s : Store) where
  -- A call that nobody interferes with ends after at most four accesses to the store: a store with a
  -- `compare_and_set` is left as the plain dict is, with the same record or the same exception, where
  -- the two copies of the key's state agree.
  pub run_call-transition_locked :
      get_current_state c f true q.key_id s ≡ get_current_state c f false q.key_id s
      → outcome (run_call c f t 4 (s, begin_call q)) ≡ ended (transition_locked c f q t s)
  unfolding run_call advance_call begin_call after_checks after_read after_encode after_commit
      attempt compare_and_set outcome ended transition_locked prepare write_both
  run_call-transition_locked agree = elim (Result-cases (check_transition q)) [
    | inl (e, h) ↦ rw h refl
    | inr (u, h) ↦
        rw h (elim (Result-cases (history_for_write c (lookup s (history_key q.key_id)))) [
          | inl (e, r) ↦
              rw r
                (elim (Bool-cases
                  (is_stale c f (get_current_state c f false q.key_id s) q.from_state)) [
                    | inl stale ↦
                        rw (stale, history_for_write_errors c (lookup s (history_key q.key_id)) e r)
                          refl
                    | inr fresh ↦ rw fresh refl
                  ])
          | inr (history, r) ↦
              rw r
                (elim (Bool-cases
                  (is_stale c f (get_current_state c f false q.key_id s) q.from_state)) [
                    | inl stale ↦ rw (agreed history r stale, stale) refl
                    | inr fresh ↦ elim (dump_new_history-cases c history (new_record q t)) [
                      | inl (e, _, d) ↦ rw (agreed history r fresh, fresh, d) refl
                      | inr d ↦
                          rw
                            (
                              agreed history r fresh,
                              fresh,
                              d,
                              same_value_refl (lookup s (history_key q.key_id)),
                            )
                            refl
                    ]
                  ])
        ])
  ]
    where
      agreed :
          (history : List Value) {b : Bool}
          → history_for_write c (lookup s (history_key q.key_id)) ≡ ok history
          → is_stale c f (get_current_state c f false q.key_id s) q.from_state ≡ b
          → is_stale c f (state_from c f history q.key_id s) q.from_state ≡ b
      agreed history r e = rw (state_from-get_current_state c f q.key_id s history r, agree) e
