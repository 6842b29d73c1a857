-- ===== src/Keys.antt =====
-- types/keys.py: key objects, their constructors' checks, and the CBOR form of a key.
-- A key's bytes are `Bytes` here, so the `TypeError` for another Python type does not arise.
pub mod Serialization
pub mod RoundTrip
pub mod Bundle
use quantum_safe_py.Prelude.{
  ℕ, Bool, true, false, not, Option, none, some, List, [], ◌∷◌, ◌++◌, Bytes, text, bytes_eq, has,
  length, ltb, ◌==◌, if◌then◌else◌, ◌&&◌, ◌||◌,
}
use quantum_safe_py.Outcome.{
  Result, ok, err, value_error, key_parse_error, incompatible_key_version, ◌>>=◌, ◌>>◌, require,
  or_raise,
}
use quantum_safe_py.Cbor.{
  Value, Fields, Cbor2, nat, neg, string, bytes, dict, end, field, get, written, loads,
}

pub data MigrationState : Type 0 where
  classical_only hybrid_transition pqc_preferred pqc_only : MigrationState

-- `MigrationState.value`
unfoldable pub state_name : MigrationState → Bytes
state_name classical_only = text "classical_only"
state_name hybrid_transition = text "hybrid_transition"
state_name pqc_preferred = text "pqc_preferred"
state_name pqc_only = text "pqc_only"

-- `MigrationState(s)`, `none` where it raises `ValueError`.
unfoldable pub state_named : Bytes → Option MigrationState
unfolding state_name
state_named s =
    if bytes_eq s (state_name classical_only)
    then some classical_only
    else if bytes_eq s (state_name hybrid_transition)
    then some hybrid_transition
    else if bytes_eq s (state_name pqc_preferred)
    then some pqc_preferred
    else if bytes_eq s (state_name pqc_only)
    then some pqc_only
    else none

pub data KeyType : Type 0 where
  public secret : KeyType

pub record PublicKey : Type 0 where
  pub raw : Bytes
  pub algorithm : Bytes
  pub migration_state : MigrationState
  pub backend_tag : Bytes

pub record SecretKey : Type 0 where
  pub raw : Bytes
  pub algorithm : Bytes
  pub migration_state : MigrationState
  pub backend_tag : Bytes

-- The table, with the entries that the loop over the SLH-DSA families adds.
unfoldable pub known_public_key_sizes : List (Bytes × ℕ)
known_public_key_sizes =
    (text "ML-KEM-512", 800)
    ∷ (text "ML-KEM-768", 1184)
    ∷ (text "ML-KEM-1024", 1568)
    ∷ (text "ML-DSA-44", 1312)
    ∷ (text "ML-DSA-65", 1952)
    ∷ (text "ML-DSA-87", 2592)
    ∷ (text "SLH-DSA-SHAKE-128s", 32)
    ∷ (text "SLH-DSA-SHAKE-128f", 32)
    ∷ (text "X-Wing", 1216)
    ∷ (text "SLH-DSA-SHAKE-192s", 48)
    ∷ (text "SLH-DSA-SHAKE-192f", 48)
    ∷ (text "SLH-DSA-SHAKE-256s", 64)
    ∷ (text "SLH-DSA-SHAKE-256f", 64)
    ∷ (text "SLH-DSA-SHA2-128s", 32)
    ∷ (text "SLH-DSA-SHA2-128f", 32)
    ∷ (text "SLH-DSA-SHA2-192s", 48)
    ∷ (text "SLH-DSA-SHA2-192f", 48)
    ∷ (text "SLH-DSA-SHA2-256s", 64)
    ∷ (text "SLH-DSA-SHA2-256f", 64)
    ∷ []

unfoldable pub size_of : Bytes → List (Bytes × ℕ) → Option ℕ
size_of name [] = none
size_of name ((n, k) ∷ rest) = if bytes_eq name n then some k else size_of name rest

size_agrees : Option ℕ → ℕ → Bool
size_agrees none n = true
size_agrees (some k) n = n == k

-- The size check of `PublicKey.__init__`; names with a `+` are not in the table.
unfoldable pub size_ok : Bytes → Bytes → Bool
unfolding size_agrees
size_ok algorithm raw =
    has b'+' algorithm || size_agrees (size_of algorithm known_public_key_sizes) (length raw)

-- `PublicKey(raw, algorithm, migration_state, backend_tag)`
unfoldable pub public_key : Bytes → Bytes → MigrationState → Bytes → Result PublicKey
public_key raw algorithm ms tag = do
  require (not (length raw == 0)) value_error
  require (size_ok algorithm raw) value_error
  ok (record { raw = raw; algorithm = algorithm; migration_state = ms; backend_tag = tag })

-- `SecretKey(raw, algorithm, migration_state, backend_tag)`
unfoldable pub secret_key : Bytes → Bytes → MigrationState → Bytes → Result SecretKey
secret_key raw algorithm ms tag = do
  require (not (length raw == 0)) value_error
  ok (record { raw = raw; algorithm = algorithm; migration_state = ms; backend_tag = tag })

abbrev pub unknown_tag : Bytes
unknown_tag = text "unknown"

unfoldable pub ktype : KeyType → Bytes
ktype public = text "pub"
ktype secret = text "sec"

-- `_to_cbor_payload_dict`
unfoldable pub payload : KeyType → Bytes → Bytes → MigrationState → Value
payload kind raw algorithm ms = dict (
    field (string (text "v")) (nat 1) (
      field (string (text "algo")) (string algorithm) (
        field (string (text "ms")) (string (state_name ms)) (
          field (string (text "ktype")) (string (ktype kind))
            (field (string (text "key")) (bytes raw) end)))))
