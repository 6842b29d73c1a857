-- ===== src/Outcome.antt =====
-- The Python exceptions that the modelled code raises, as values (exceptions.py and the built-in
-- ones), the result of a call that may raise, and of a method that may raise and changes its object.
pub mod Exec
pub mod Both
use quantum_safe_py.Prelude.{◌≡◌, ◌⊎◌, inl, inr, refl, Bool, true, false}

pub data Error : Type 0 where
  value_error type_error key_error struct_error unicode_error overflow_error : Error
  unsupported_algorithm decapsulation_error verification_error : Error
  key_parse_error incompatible_key_version unsupported_format : Error
  invalid_tag backend_error insecure_operation : Error
  stateful_signature_error key_exhausted_error index_reuse_error state_persistence_error : Error

pub data Result {ℓ} (Value : Type ℓ) : Type ℓ where
  err : Error → Result Value
  ok : Value → Result Value

-- `if not passed: raise e`
abbrev pub require : Bool → Error → Result (Unit {0})
require false e = err e
require true _ = ok tt

module _ {ℓ} {X : Type ℓ} where
  -- `try: call except (...): raise e`, where every failure of `call` is caught.
  abbrev pub or_raise : Result X → Error → Result X
  or_raise (err _) e = err e
  or_raise (ok x) e = ok x

  pub Result-cases : (r : Result X) → ((e : Error) × (r ≡ err e)) ⊎ ((x : X) × (r ≡ ok x))
  Result-cases (err e) = inl (e, refl)
  Result-cases (ok x) = inr (x, refl)

  pub or_raise-eq-ok : (call : Result X) (e : Error) {x : X} → or_raise call e ≡ ok x → call ≡ ok x
  or_raise-eq-ok (err _) e returned = cc
  or_raise-eq-ok (ok x) e returned = returned

  infixl 5 ◌>>=◌
  -- What follows a call is done where the call returned.
  abbrev pub ◌>>=◌ {κ} : {Y : Type κ} → Result X → (X → Result Y) → Result Y
  err e >>= next = err e
  ok x >>= next = next x

  -- A sequence that returned, taken apart.
  pub >>=-eq-ok {κ} :
      {Y : Type κ} (call : Result X) (next : X → Result Y) {y : Y}
      → (call >>= next) ≡ ok y
      → (x : X) × (call ≡ ok x) × (next x ≡ ok y)
  >>=-eq-ok (err e) next returned = cc
  >>=-eq-ok (ok x) next returned = (x, refl, returned)

  -- A sequence that raised, taken apart.
  pub >>=-eq-err {κ} :
      {Y : Type κ} (call : Result X) (next : X → Result Y) {e : Error}
      → (call >>= next) ≡ err e
      → (call ≡ err e) ⊎ ((x : X) × (call ≡ ok x) × (next x ≡ err e))
  >>=-eq-err (err e) next raised = inl (let same = raised in cc)
  >>=-eq-err (ok x) next raised = inr (x, refl, raised)

pub require-eq-err : (passed : Bool) (e : Error) {f : Error} → require passed e ≡ err f → f ≡ e
require-eq-err true e raised = cc
require-eq-err false e raised = cc

infixl 5 ◌>>◌
abbrev pub ◌>>◌ {ℓ} : {Y : Type ℓ} → Result (Unit {0}) → Result Y → Result Y
check >> rest = check >>= λ u. rest

-- The same for a test.
pub >>-eq-ok {ℓ} :
    {Y : Type ℓ} (passed : Bool) (e : Error) (rest : Result Y) {y : Y}
    → (require passed e >> rest) ≡ ok y
    → (passed ≡ true) × (rest ≡ ok y)
>>-eq-ok false e rest returned = cc
>>-eq-ok true e rest returned = (refl, returned)
