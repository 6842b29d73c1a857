-- ===== src/Examples/Lms.antt =====
-- The theorems of Signatures/Lms with a key for two signatures, and the store of the module.
use quantum_safe_py.Prelude.{
  ℕ, zero, suc, ◌+◌, ◌<◌, ◌≡◌, refl, Bool, true, false, Option, none, some, List, [], ◌∷◌, Bytes,
  text, AllDistinct, leb, ◌==◌, Bool-cases, inl, inr, if◌then◌else◌, arith,
}
use quantum_safe_py.Outcome.{Result, ok, err, value_error, index_reuse_error}
use quantum_safe_py.Signatures.Lms.{
  Pyhsslms, LmsStateStore, LmsSigner, sign, load, serialize, lms_signer, check_sign,
}
use quantum_safe_py.Signatures.Lms.InMemory
use quantum_safe_py.Signatures.Lms.InMemory.{
  Marks, in_memory, in_memory-IsGuarded, in_memory-IsDurable, high_water_mark,
}
use quantum_safe_py.Signatures.Lms.Signers.{
  System, Reach, start, later, construct, signed, raised, fresh,
}
use quantum_safe_py.Signatures.Lms.Signers
use quantum_safe_py.Signatures.Lms.NoReuse.{issued-AllDistinct}
use quantum_safe_py.Signatures.Lms.Capacity.{
  IsPyhsslms, IsAccepting, Served, sign_all, sign_all-Served, load-sign,
}

restore : Bytes → Result ℕ
restore (q ∷ []) = ok q
restore _ = err value_error

-- A key is its index.
two_keys : Pyhsslms ℕ
unfolding restore
two_keys = record {
  installed = true;
  new_key = λ h w. some 0;
  q = λ k. k;
  max_signatures = λ k. 2;
  sign = λ m k. (k + 1, ok (k ∷ m));
  serialize = λ k. k ∷ [];
  deserialize = restore;
  public_key = λ k. [];
  verify = λ pk m s. ok true;
}

two_keys-IsPyhsslms : IsPyhsslms two_keys
unfolding two_keys restore
two_keys-IsPyhsslms = record {
  signs = λ m k h. (k ∷ m, refl);
  moves_on = λ m k h. refl;
  keeps_size = λ m k. refl;
  restores = λ k. (k, refl, refl);
}

in_memory_accepts : IsAccepting in_memory
unfolding in_memory InMemory.reserve
in_memory_accepts k n s h =
    let e : leb n (high_water_mark k s) ≡ false = ground arith in
    (InMemory.set_mark k n s, rw e refl)

abbrev id : Bytes
id = text "fw"

abbrev key_at : ℕ → LmsSigner ℕ
key_at q = record { key_id = id; sk = q }

sign_all-Served_example :
    Served 2 (sign_all two_keys in_memory ((1 ∷ []) ∷ (2 ∷ []) ∷ (3 ∷ []) ∷ []) ([], key_at 0))
unfolding two_keys in_memory high_water_mark
sign_all-Served_example =
    sign_all-Served two_keys in_memory two_keys-IsPyhsslms in_memory-IsGuarded in_memory_accepts
      ((1 ∷ []) ∷ (2 ∷ []) ∷ (3 ∷ []) ∷ []) [] (key_at 0) (omega arith)

signed_once :
    sign two_keys in_memory (9 ∷ []) ([], key_at 0) ≡ (((id, 1) ∷ [], key_at 1), ok (0 ∷ 9 ∷ []))
unfolding two_keys in_memory sign quantum_safe_py.Signatures.Lms.exhausted high_water_mark
    InMemory.reserve InMemory.set_mark
signed_once = refl

load-sign_example :
    (load two_keys in_memory id (serialize two_keys in_memory (key_at 0)) ((id, 1) ∷ [])
      ≡ err index_reuse_error)
    × (y : LmsSigner ℕ) × (load two_keys in_memory id
          (serialize two_keys in_memory (key_at 1))
          ((id, 1) ∷ [])
        ≡ ok y)
    × (two_keys.q y.sk ≡ two_keys.q 0 + 1)
unfolding two_keys
load-sign_example =
    load-sign two_keys in_memory two_keys-IsPyhsslms in_memory-IsGuarded (9 ∷ []) [] ((id, 1) ∷ [])
      (key_at 0) (key_at 1) (0 ∷ 9 ∷ []) refl (omega arith) signed_once

-- Two processes hold copies of one key. One signs, and the other is refused.
raced : (u : System ℕ Marks) × Reach two_keys in_memory (fresh []) u × (u.issued ≡ (id, 0) ∷ [])
unfolding two_keys in_memory lms_signer check_sign InMemory.reserve high_water_mark Signers.update
    quantum_safe_py.Signatures.Lms.exhausted InMemory.set_mark quantum_safe_py.Prelude.bytes_eq sign
raced =
    let a : Reach two_keys in_memory (fresh []) (record {
      store = [];
      signers = Signers.update (λ i. none) 0 (some (key_at 0));
      issued = [];
    }) =
      later start (construct 0 id 0 (key_at 0) refl) in
    let b = later a (construct 1 id 0 (key_at 0) refl) in
    let c =
      later b (signed 0 (key_at 0) (key_at 1) (7 ∷ []) (0 ∷ 7 ∷ []) ((id, 1) ∷ []) refl refl) in
    (
      _,
      later c (raised 1 (key_at 0) (key_at 0) (8 ∷ []) ((id, 1) ∷ []) index_reuse_error refl refl),
      refl,
    )

issued-AllDistinct_example : AllDistinct raced.0.issued
issued-AllDistinct_example = issued-AllDistinct two_keys in_memory in_memory-IsDurable raced.1
