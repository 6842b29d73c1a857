-- ===== src/Keys/Serialization.antt =====
-- types/keys.py: `to_cbor`, `from_cbor` and the key pair bundle.
use quantum_safe_py.Prelude.{
  Bool, false, Option, none, some, Bytes, text, bytes_eq, ltb, if◌then◌else◌,
}
use quantum_safe_py.Outcome.{
  Error, Result, ok, err, value_error, key_parse_error, incompatible_key_version, ◌>>=◌, ◌>>◌,
  require, or_raise,
}
use quantum_safe_py.Cbor.{
  Value, Fields, Cbor2, nat, string, bytes, dict, end, field, get, written, loads,
}
use quantum_safe_py.Keys.{
  MigrationState, hybrid_transition, state_named, KeyType, ktype, PublicKey, SecretKey, public_key,
  secret_key, unknown_tag, payload,
}
use quantum_safe_py.Keys

unfoldable pub public_to_cbor : Cbor2 → PublicKey → Bytes
unfolding payload
public_to_cbor c k = written c (payload Keys.public k.raw k.algorithm k.migration_state)

unfoldable pub secret_to_cbor : Cbor2 → SecretKey → Bytes
unfolding payload
secret_to_cbor c k = written c (payload Keys.secret k.raw k.algorithm k.migration_state)

-- The checks on `v`. A `bool` is no `int` here, and a negative number is below the minimum.
unfoldable pub check_version : Option Value → Result (Unit {0})
check_version (some (nat n)) =
    if ltb n 1 then err key_parse_error else if ltb 1 n then err incompatible_key_version else ok tt
check_version _ = err key_parse_error

unfoldable pub text_field : Option Value → Result Bytes
text_field (some (string s)) = ok s
text_field _ = err key_parse_error

unfoldable pub bytes_field : Option Value → Result Bytes
bytes_field (some (bytes b)) = ok b
bytes_field _ = err key_parse_error

unfoldable pub check_ktype : KeyType → Option Value → Result (Unit {0})
check_ktype kind (some (string s)) = require (bytes_eq s (ktype kind)) key_parse_error
check_ktype kind _ = err key_parse_error

unfoldable pub as_dict : Value → Error → Result Fields
as_dict (dict d) e = ok d
as_dict _ e = err e

-- The dictionary that `_parse_cbor_dict` returns, by the entries that its callers read.
pub record Parsed : Type 0 where
  pub algo : Bytes
  pub key : Bytes
  pub ms : Option Value

unfoldable pub parse_cbor_dict : KeyType → Value → Result Parsed
unfolding check_version text_field bytes_field check_ktype as_dict
parse_cbor_dict kind v = do
  d ← as_dict v key_parse_error
  check_version (get (text "v") d)
  algo ← text_field (get (text "algo") d)
  key ← bytes_field (get (text "key") d)
  check_ktype kind (get (text "ktype") d)
  ok (record { algo = algo; key = key; ms = get (text "ms") d })

or_hybrid : Option MigrationState → MigrationState
or_hybrid none = hybrid_transition
or_hybrid (some s) = s

-- `MigrationState(parsed.get("ms", "hybrid_transition"))`, and the handler of its `ValueError`.
unfoldable pub state_of : Option Value → MigrationState
unfolding or_hybrid
state_of (some (string s)) = or_hybrid (state_named s)
state_of _ = hybrid_transition

unfoldable pub public_from_cbor : Cbor2 → Bytes → Result PublicKey
public_from_cbor c d = do
  v ← or_raise (loads c d) key_parse_error
  p ← parse_cbor_dict Keys.public v
  public_key p.key p.algo (state_of p.ms) unknown_tag

unfoldable pub secret_from_cbor : Cbor2 → Bytes → Result SecretKey
secret_from_cbor c d = do
  v ← or_raise (loads c d) key_parse_error
  p ← parse_cbor_dict Keys.secret v
  secret_key p.key p.algo (state_of p.ms) unknown_tag

pub record KeyPair : Type 0 where
  pub public : PublicKey
  pub secret : SecretKey

-- `KeyPair(public, secret)`
unfoldable pub key_pair : PublicKey → SecretKey → Result KeyPair
key_pair p s = do
  require (bytes_eq p.algorithm s.algorithm) value_error
  ok (record { public = p; secret = s })

unfoldable pub to_cbor_bundle : Cbor2 → KeyPair → Result Bytes
to_cbor_bundle c k = do
  p ← loads c (public_to_cbor c k.public)
  s ← loads c (secret_to_cbor c k.secret)
  ok (
      written c (
        dict (
          field (string (text "v")) (nat 1) (
            field (string (text "bundle")) (string (text "keypair"))
              (field (string (text "pub")) p (field (string (text "sec")) s end))))))

is_keypair : Option Value → Bool
is_keypair (some (string s)) = bytes_eq s (text "keypair")
is_keypair _ = false

-- `isinstance(bundle.get(k), dict)`
dict_entry : Option Value → Result Value
dict_entry (some (dict d)) = ok (dict d)
dict_entry _ = err key_parse_error

unfoldable pub from_cbor_bundle : Cbor2 → Bytes → Result KeyPair
unfolding is_keypair dict_entry as_dict
from_cbor_bundle c b = do
  v ← or_raise (loads c b) key_parse_error
  d ← as_dict v key_parse_error
  require (is_keypair (get (text "bundle") d)) key_parse_error
  p ← dict_entry (get (text "pub") d)
  s ← dict_entry (get (text "sec") d)
  public ← public_from_cbor c (written c p)
  secret ← secret_from_cbor c (written c s)
  key_pair public secret
