-- ===== src/Migrate/State.antt =====
-- migrate/state.py: transition tables, records, stores, and the methods of `MigrationStateManager`.
-- A store is a dict from texts to bytes, in insertion order. `float()` of Python is a parameter, and so
-- are the UUID and the time of a record. The per-key `threading.Lock` is left out: `Writers` has every
-- interleaving of the calls' accesses to the store, which are more than the lock allows.
pub mod Storage
pub mod Records
pub mod Chain
pub mod Writers
pub mod Invariant
pub mod Steps
pub mod History
pub mod Locked
pub mod Scan
pub mod Quiet
pub mod Effect
use quantum_safe_py.Prelude.{
  ℕ, zero, suc, Bool, true, false, not, Option, none, some, List, [], ◌∷◌, ◌++◌, Bytes, text,
  bytes_eq, length, ends_with, drop_last, ◌==◌, ◌&&◌, ◌||◌, if◌then◌else◌,
}
use quantum_safe_py.Outcome.{Error, Result, ok, err, value_error, ◌>>=◌, ◌>>◌, require, or_raise}
use quantum_safe_py.Outcome.Exec.{Exec}
use quantum_safe_py.Cbor.{
  Value, Items, nil, cons, Cbor2, string, null, array, dict, end, dumps, written, loads,
}
use quantum_safe_py.Keys.{
  MigrationState, classical_only, hybrid_transition, pqc_preferred, pqc_only, state_name,
}
use quantum_safe_py.Migrate.State.Storage.{Store, lookup, put, compare_and_set}
use quantum_safe_py.Migrate.State.Records.{
  same_state, among, forward_targets, backward_targets, MigrationRecord, Floats, to_dict,
  record_to_bytes, from_dict, record_from_bytes,
}

-- The arguments of `transition`; the metadata is a dict, or `null` for None.
pub record Request : Type 0 where
  pub key_id : Bytes
  pub from_state : MigrationState
  pub to_state : MigrationState
  pub algorithm : Bytes
  pub actor : Bytes
  pub reason : Bytes
  pub metadata : Value
  pub allow_backward : Bool

-- What a record takes from outside: `str(uuid.uuid4())` and `time.time()`.
pub record Stamp : Type 0 where
  pub record_id : Bytes
  pub timestamp : Value

unfoldable pub history_key : Bytes → Bytes
history_key key_id = key_id ++ text "_history"

unfoldable pub current_key : Bytes → Bytes
current_key key_id = key_id ++ text "_current"

-- The checks at the start of `transition`.
unfoldable pub check_transition : Request → Result (Unit {0})
check_transition q = do
  require
      (among q.to_state (forward_targets q.from_state)
        || among q.to_state (backward_targets q.from_state))
      value_error
  if among q.to_state (backward_targets q.from_state)
      then require (q.allow_backward && not (length q.reason == 0)) value_error
      else ok tt

-- `metadata or {}`
metadata_or_empty : Value → Value
metadata_or_empty null = dict end
metadata_or_empty v = v

unfoldable pub new_record : Request → Stamp → MigrationRecord
unfolding metadata_or_empty
new_record q s = record {
  record_id = string s.record_id;
  key_id = string q.key_id;
  from_state = q.from_state;
  to_state = q.to_state;
  algorithm = string q.algorithm;
  timestamp = s.timestamp;
  actor = string q.actor;
  reason = string q.reason;
  metadata = metadata_or_empty q.metadata;
}

abbrev pub to_list : Items → List Value
to_list nil = []
to_list (cons v vs) = v ∷ to_list vs

abbrev pub of_list : List Value → Items
of_list [] = nil
of_list (v ∷ vs) = cons v (of_list vs)

-- `isinstance(data, list)`
abbrev pub as_list : Value → Result (List Value)
as_list (array vs) = ok (to_list vs)
as_list _ = err value_error

-- `history[-1]`, `none` for an empty list.
unfoldable pub last_of : List Value → Option Value
last_of [] = none
last_of (v ∷ []) = some v
last_of (v ∷ w ∷ vs) = last_of (w ∷ vs)

-- The bytes of `_ser.dumps([*history, record.to_dict()])`, where it returns.
unfoldable pub dumps_history : Cbor2 → List Value → MigrationRecord → Bytes
dumps_history c history r = written c (array (of_list (history ++ (to_dict r ∷ []))))

-- `_ser.dumps([*history, record.to_dict()])`, which raises for metadata that has no encoding.
unfoldable pub dump_new_history : Cbor2 → List Value → MigrationRecord → Result Bytes
dump_new_history c history r = dumps c (array (of_list (history ++ (to_dict r ∷ []))))

-- A value where the call returned, and nothing where it raised: `except Exception: return None`.
abbrev pub if_ok {ℓ} : {A : Type ℓ} → Result A → Option A
if_ok (ok a) = some a
if_ok (err e) = none

-- `_history_for_write`: an absent history is empty, and one that cannot be read is refused.
unfoldable pub history_for_write : Cbor2 → Option Bytes → Result (List Value)
history_for_write c none = ok []
history_for_write c (some raw) = do v ← or_raise (loads c raw) value_error; as_list v

abbrev pub or_empty : Result (List Value) → List Value
or_empty (ok vs) = vs
or_empty (err e) = []

-- `_parse_history`: one that cannot be read is empty.
unfoldable pub parse_history : Cbor2 → Option Bytes → List Value
parse_history c none = []
parse_history c (some raw) = or_empty (loads c raw >>= as_list)

-- `_load_history`
unfoldable pub load_history : Cbor2 → Bytes → Store → List Value
load_history c key_id s = parse_history c (lookup s (history_key key_id))

-- The last record of a history, `none` where there is none or it is malformed.
unfoldable pub last_record : Floats → Option Value → Option MigrationRecord
last_record f none = none
last_record f (some v) = if_ok (from_dict f v)

abbrev pub or_else {ℓ} : {A : Type ℓ} → Option A → Option A → Option A
or_else (some a) b = some a
or_else none b = b

abbrev pub to_state_of : Option MigrationRecord → Option MigrationState
to_state_of none = none
to_state_of (some r) = some r.to_state

abbrev pub keep {ℓ} : {A : Type ℓ} → Result A → List A → List A
keep (ok a) xs = a ∷ xs
keep (err e) xs = xs

-- Malformed records are skipped.
unfoldable pub records_of : Floats → List Value → List MigrationRecord
records_of f [] = []
records_of f (v ∷ vs) = keep (from_dict f v) (records_of f vs)

module _ (c : Cbor2) (f : Floats) where
  unfoldable pub legacy_of : Option Bytes → Option MigrationRecord
  legacy_of none = none
  legacy_of (some raw) = if_ok (record_from_bytes c f raw)

  unfoldable pub legacy_current : Bytes → Store → Option MigrationRecord
  legacy_current key_id s = legacy_of (lookup s (current_key key_id))

  -- `_state_from`
  unfoldable pub state_from : List Value → Bytes → Store → Option MigrationState
  state_from history key_id s =
      to_state_of (or_else (last_record f (last_of history)) (legacy_current key_id s))

  -- `current is not None and current != from_state`
  unfoldable pub is_stale : Option MigrationState → MigrationState → Bool
  is_stale none from_state = false
  is_stale (some s) from_state = not (same_state s from_state)

  -- `get_current_record`, where `cas` says whether the store has a `compare_and_set`.
  unfoldable pub get_current_record : Bool → Bytes → Store → Option MigrationRecord
  get_current_record cas key_id s =
      if cas
      then or_else (last_record f (last_of (parse_history c (lookup s (history_key key_id)))))
          (legacy_current key_id s)
      else legacy_current key_id s

  unfoldable pub get_current_state : Bool → Bytes → Store → Option MigrationState
  get_current_state cas key_id s = to_state_of (get_current_record cas key_id s)

  unfoldable pub get_history : Bytes → Store → List MigrationRecord
  get_history key_id s = records_of f (load_history c key_id s)
