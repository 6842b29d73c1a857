-- ===== src/Migrate/State/Records.antt =====
-- migrate/state.py: the transition tables and `MigrationRecord`. `from_dict` checks no type but those of
-- the states and the timestamp, so the other fields of a record are any values.
use quantum_safe_py.Prelude.{
  Bool, true, false, Option, none, some, List, [], ◌∷◌, ◌≡◌, refl, Bytes, text, bytes_eq, ◌||◌,
}
use quantum_safe_py.Outcome.{Result, ok, err, value_error, key_error, type_error, ◌>>=◌}
use quantum_safe_py.Cbor.{
  Value, Cbor2, bool, string, dict, end, field, get, is_text, written, loads,
}
use quantum_safe_py.Keys.{
  MigrationState, classical_only, hybrid_transition, pqc_preferred, pqc_only, state_name,
  state_named,
}
use quantum_safe_py.Keys.Serialization.{as_dict}

unfoldable pub same_state : MigrationState → MigrationState → Bool
same_state classical_only classical_only = true
same_state hybrid_transition hybrid_transition = true
same_state pqc_preferred pqc_preferred = true
same_state pqc_only pqc_only = true
same_state _ _ = false

unfoldable pub among : MigrationState → List MigrationState → Bool
unfolding same_state
among s [] = false
among s (t ∷ ts) = same_state s t || among s ts

-- `_FORWARD_TRANSITIONS`
unfoldable pub forward_targets : MigrationState → List MigrationState
forward_targets classical_only = hybrid_transition ∷ []
forward_targets hybrid_transition = pqc_preferred ∷ []
forward_targets pqc_preferred = pqc_only ∷ []
forward_targets pqc_only = []

-- `_BACKWARD_TRANSITIONS.get(s, set())`
unfoldable pub backward_targets : MigrationState → List MigrationState
backward_targets hybrid_transition = classical_only ∷ []
backward_targets pqc_preferred = hybrid_transition ∷ []
backward_targets _ = []

pub record MigrationRecord : Type 0 where
  pub record_id : Value
  pub key_id : Value
  pub from_state : MigrationState
  pub to_state : MigrationState
  pub algorithm : Value
  pub timestamp : Value
  pub actor : Value
  pub reason : Value
  pub metadata : Value

-- `float(x)` of Python.
pub record Floats : Type 0 where
  pub float : Value → Result Value

-- `MigrationRecord.is_forward`
unfoldable pub is_forward : MigrationRecord → Bool
is_forward r = among r.to_state (forward_targets r.from_state)

unfoldable pub to_dict : MigrationRecord → Value
to_dict r = dict (
    field (string (text "record_id")) r.record_id (
      field (string (text "key_id")) r.key_id (
        field (string (text "from_state")) (string (state_name r.from_state)) (
          field (string (text "to_state")) (string (state_name r.to_state)) (
            field (string (text "algorithm")) r.algorithm (
              field (string (text "timestamp")) r.timestamp (
                field (string (text "actor")) r.actor (
                  field (string (text "reason")) r.reason (
                    field (string (text "metadata")) r.metadata
                      (field (string (text "is_forward")) (bool (is_forward r)) end))))))))))

-- `MigrationRecord.to_bytes`
unfoldable pub record_to_bytes : Cbor2 → MigrationRecord → Bytes
record_to_bytes c r = written c (to_dict r)

-- `d[key]`
abbrev entry : Option Value → Result Value
entry none = err key_error
entry (some v) = ok v

-- `d.get(key, default)`
abbrev entry_or : Option Value → Value → Value
entry_or none v = v
entry_or (some w) v = w

known_state : Option MigrationState → Result MigrationState
known_state none = err value_error
known_state (some s) = ok s

-- `MigrationState(v)`
unfoldable pub state_of_value : Value → Result MigrationState
unfolding known_state
state_of_value (string s) = known_state (state_named s)
state_of_value _ = err value_error

unfoldable pub from_dict : Floats → Value → Result MigrationRecord
from_dict f v = do
  d ← as_dict v type_error
  record_id ← entry (get (text "record_id") d)
  key_id ← entry (get (text "key_id") d)
  from_value ← entry (get (text "from_state") d)
  from_state ← state_of_value from_value
  to_value ← entry (get (text "to_state") d)
  to_state ← state_of_value to_value
  algorithm ← entry (get (text "algorithm") d)
  time ← entry (get (text "timestamp") d)
  timestamp ← f.float time
  ok (record {
    record_id = record_id;
    key_id = key_id;
    from_state = from_state;
    to_state = to_state;
    algorithm = algorithm;
    timestamp = timestamp;
    actor = entry_or (get (text "actor") d) (string (text "system"));
    reason = entry_or (get (text "reason") d) (string []);
    metadata = entry_or (get (text "metadata") d) (dict end);
  })

-- `MigrationRecord.from_bytes`
unfoldable pub record_from_bytes : Cbor2 → Floats → Bytes → Result MigrationRecord
record_from_bytes c f d = do v ← loads c d; from_dict f v

state_of_value-state_name : (s : MigrationState) → state_of_value (string (state_name s)) ≡ ok s
unfolding state_of_value state_named state_name bytes_eq
state_of_value-state_name classical_only = refl
state_of_value-state_name hybrid_transition = refl
state_of_value-state_name pqc_preferred = refl
state_of_value-state_name pqc_only = refl

-- A record is rebuilt from its dict, if its timestamp is a float.
pub from_dict-to_dict :
    (f : Floats) (r : MigrationRecord)
    → f.float r.timestamp ≡ ok r.timestamp
    → from_dict f (to_dict r) ≡ ok r
unfolding from_dict to_dict as_dict get is_text bytes_eq
from_dict-to_dict f r h =
    rw (state_of_value-state_name r.from_state, state_of_value-state_name r.to_state, h)
