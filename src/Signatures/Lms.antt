-- ===== src/Signatures/Lms.antt =====
-- signatures/stateful.py: LMS signing with an index that is reserved before it is used. pyhsslms is
-- third-party code: the record `Pyhsslms` over its private keys. A state store is the record
-- `LmsStateStore` over its contents, and `InMemory` is the store of the module.
pub mod InMemory
pub mod Signers
pub mod NoReuse
pub mod Capacity
use quantum_safe_py.Prelude.{
  ℕ, ◌+◌, ◌-◌, Bool, true, false, not, Option, none, some, Bytes, ltb, ◌==◌, if◌then◌else◌,
}
use quantum_safe_py.Outcome.{
  Error, Result, ok, err, value_error, stateful_signature_error, key_exhausted_error,
  index_reuse_error, state_persistence_error, ◌>>=◌, ◌>>◌, require,
}
use quantum_safe_py.Outcome.Exec.{Exec}

pub record Pyhsslms (Key : Type 0) : Type 0 where
  pub installed : Bool
  -- The key drawn for a tree height and a Winternitz parameter; `none` where there is no such set.
  pub new_key : ℕ → ℕ → Option Key
  pub q : Key → ℕ
  pub max_signatures : Key → ℕ
  pub sign : Bytes → Key → Key × Result Bytes
  pub serialize : Key → Bytes
  pub deserialize : Bytes → Result Key
  pub public_key : Key → Bytes
  -- `LmsPublicKey.deserialize(public_key).verify(message, signature)`
  pub verify : Bytes → Bytes → Bytes → Result Bool

pub record LmsStateStore (S : Type 0) : Type 0 where
  pub high_water_mark : Bytes → S → ℕ
  pub reserve : Bytes → ℕ → Exec S (Unit {0})

pub record LmsKeyInfo : Type 0 where
  pub key_id : Bytes
  pub max_signatures : ℕ
  pub used : ℕ

-- A negative number of signatures is 0 here.
unfoldable pub remaining : LmsKeyInfo → ℕ
remaining i = i.max_signatures - i.used

unfoldable pub exhausted : LmsKeyInfo → Bool
unfolding remaining
exhausted i = remaining i == 0

-- The store is not a field: it is the state that the methods share.
pub record LmsSigner (Key : Type 0) : Type 0 where
  pub key_id : Bytes
  pub sk : Key

-- `except StatefulSignatureError: raise`
unfoldable pub is_stateful : Error → Bool
is_stateful stateful_signature_error = true
is_stateful key_exhausted_error = true
is_stateful index_reuse_error = true
is_stateful state_persistence_error = true
is_stateful _ = false

found_key : {Key : Type 0} → Option Key → Result Key
found_key none = err value_error
found_key (some sk) = ok sk

module _ {Key S : Type 0} (lib : Pyhsslms Key) (store : LmsStateStore S) where
  unfoldable pub key_info : LmsSigner Key → LmsKeyInfo
  key_info x = record {
    key_id = x.key_id;
    max_signatures = lib.max_signatures x.sk;
    used = lib.q x.sk;
  }

  unfoldable pub verify_not_rewound : LmsSigner Key → S → Result (Unit {0})
  verify_not_rewound x s =
      require (not (ltb (lib.q x.sk) (store.high_water_mark x.key_id s))) index_reuse_error

  -- `LmsSigner(key_id, private_key, store)`
  unfoldable pub lms_signer : Bytes → Key → S → Result (LmsSigner Key)
  unfolding verify_not_rewound
  lms_signer key_id sk s = do
    verify_not_rewound (record { key_id = key_id; sk = sk }) s
    ok (record { key_id = key_id; sk = sk })

  unfoldable pub generate : Bytes → ℕ → ℕ → S → Result (LmsSigner Key)
  unfolding found_key
  generate key_id tree_height winternitz s = do
    require lib.installed stateful_signature_error
    sk ← found_key (lib.new_key tree_height winternitz)
    lms_signer key_id sk s

  unfoldable pub load : Bytes → Bytes → S → Result (LmsSigner Key)
  load key_id serialised_key s = do
    require lib.installed stateful_signature_error
    sk ← lib.deserialize serialised_key
    lms_signer key_id sk s

  unfoldable pub serialize : LmsSigner Key → Bytes
  serialize x = lib.serialize x.sk

  -- The tests of `sign` before the index is reserved.
  unfoldable pub check_sign : LmsSigner Key → S → Result (Unit {0})
  unfolding verify_not_rewound key_info
  check_sign x s = do
    require (not (exhausted (key_info x))) key_exhausted_error
    verify_not_rewound x s

  -- `self._sk.sign(message)`
  unfoldable pub sign_key : LmsSigner Key → Bytes → S → (S × LmsSigner Key) × Result Bytes
  sign_key x message s =
      ((s, record x { sk = (lib.sign message x.sk).0 }), (lib.sign message x.sk).1)

  unfoldable pub after_reserve :
      LmsSigner Key → Bytes → S × Result (Unit {0}) → (S × LmsSigner Key) × Result Bytes
  unfolding sign_key
  after_reserve x message (s, ok u) = sign_key x message s
  after_reserve x message (s, err e) =
      ((s, x), err (if is_stateful e then e else state_persistence_error))

  -- `self._store.reserve(self._key_id, current_index + 1)`
  unfoldable pub reserve_next : LmsSigner Key → Exec S (Unit {0})
  reserve_next x s = store.reserve x.key_id (lib.q x.sk + 1) s

  unfoldable pub after_check :
      LmsSigner Key → Bytes → S → Result (Unit {0}) → (S × LmsSigner Key) × Result Bytes
  unfolding after_reserve reserve_next
  after_check x message s (err e) = ((s, x), err e)
  after_check x message s (ok u) = after_reserve x message (reserve_next x s)

  unfoldable pub sign : Bytes → Exec (S × LmsSigner Key) Bytes
  unfolding after_check check_sign
  sign message (s, x) = after_check x message s (check_sign x s)

or_false : Result Bool → Bool
or_false (ok b) = b
or_false (err e) = false

-- `verify`
unfoldable pub verify : {Key : Type 0} → Pyhsslms Key → Bytes → Bytes → Bytes → Result Bool
unfolding or_false
verify lib public_key message signature = do
  require lib.installed stateful_signature_error
  ok (or_false (lib.verify public_key message signature))
