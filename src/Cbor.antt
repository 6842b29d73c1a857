-- ===== src/Cbor.antt =====
-- The values that `_internal/serialization.py` writes and reads, and that module over cbor2.
-- cbor2 is a third-party package: its encoder and decoder are the record `Cbor2`, and what the code
-- relies on is `ReadsBack`.
use quantum_safe_py.Prelude.{
  ℕ, ◌*◌, ◌≡◌, Bool, false, Option, none, some, [], ◌∷◌, ◌∷◌, ◌++◌, Bytes, bytes_eq, length, ltb,
  ◌≤◌, ◌⊎◌, inl, inr, refl, Option-cases, append-nil, le→ltb_false, if◌then◌else◌,
}
use quantum_safe_py.Outcome.{Error, Result, ok, err, value_error, ◌>>◌, >>=-eq-ok}

-- A decoded CBOR item as a Python value: `neg n` is -(n + 1); `real` is a number that is no `int` (a
-- float, a decimal, a fraction), with the natural number that it equals, if any; `other` is the rest.
mutual
  pub data Value : Type 0 where
    nat neg : ℕ → Value
    bool : Bool → Value
    null : Value
    string bytes : Bytes → Value
    real : Option ℕ → Bytes → Value
    array : Items → Value
    dict : Fields → Value
    other : Bytes → Value

  pub data Items : Type 0 where
    nil : Items
    cons : Value → Items → Items

  pub data Fields : Type 0 where
    end : Fields
    field : Value → Value → Fields → Fields

-- Whether a key is the given text.
unfoldable pub is_text : Bytes → Value → Bool
is_text k (string s) = bytes_eq s k
is_text k _ = false

-- `d.get(k)` for a text `k`: `none` where the key is absent.
unfoldable pub get : Bytes → Fields → Option Value
unfolding is_text
get k end = none
get k (field j v d) = if is_text k j then some v else get k d

-- `encode` is what cbor2 writes, and `encode_error` the exception that it raises instead, if any: for an
-- object that has no encoding.
pub record Cbor2 : Type 0 where
  pub encode : Value → Bytes
  pub encode_error : Value → Option Error
  -- One item from the front, with the bytes that follow it; `none` where cbor2 raises.
  pub decode : Bytes → Option (Value × Bytes)

-- The value is read back from what is written for it, whatever follows.
abbrev pub ReadsBack : Cbor2 → Value → Type 0
ReadsBack c v = (rest : Bytes) → c.decode (c.encode v ++ rest) ≡ some (v, rest)

abbrev pub max_payload : ℕ
max_payload = 10 * 1024 * 1024

refused : Option Error → Result (Unit {0})
refused none = ok tt
refused (some e) = err e

-- `dumps` returns these bytes for a map of texts, bytes and numbers, which has an encoding.
unfoldable pub written : Cbor2 → Value → Bytes
written c v = c.encode v

-- `dumps` of any value.
unfoldable pub dumps : Cbor2 → Value → Result Bytes
unfolding refused written
dumps c v = do refused (c.encode_error v); ok (written c v)

pub dumps-cases :
    (c : Cbor2) (v : Value)
    → ((e : Error) × (c.encode_error v ≡ some e) × (dumps c v ≡ err e))
      ⊎ (dumps c v ≡ ok (written c v))
unfolding dumps refused
dumps-cases c v = elim (Option-cases (c.encode_error v)) [
  | inl h ↦ inr (rw h refl)
  | inr (e, h) ↦ inl (e, h, rw h refl)
]

unfoldable pub check_size : Bytes → Result (Unit {0})
check_size d = if ltb max_payload (length d) then err value_error else ok tt

first_item : Option (Value × Bytes) → Result Value
first_item none = err value_error
first_item (some (v, rest)) = ok v

-- Trailing bytes are ignored.
unfoldable pub loads : Cbor2 → Bytes → Result Value
unfolding check_size first_item
loads c d = do check_size d; first_item (c.decode d)

only_item : Option (Value × Bytes) → Result Value
only_item none = err value_error
only_item (some (v, [])) = ok v
only_item (some (v, _ ∷ _)) = err value_error

-- Trailing bytes are refused.
unfoldable pub loads_single : Cbor2 → Bytes → Result Value
unfolding check_size only_item
loads_single c d = do check_size d; only_item (c.decode d)

-- Both readers give back what is written, within the size limit.
pub loads-written :
    (c : Cbor2) (v : Value)
    → ReadsBack c v
    → length (written c v) ≤ max_payload
    → loads c (written c v) ≡ ok v
unfolding loads written
loads-written c v law fits =
    let e = append-nil (c.encode v) in
    let d : c.decode (c.encode v) ≡ some (v, []) = rw e at (law []) in
    rw (le→ltb_false max_payload (length (c.encode v)) fits, d)

pub loads_single-written :
    (c : Cbor2) (v : Value)
    → ReadsBack c v
    → length (written c v) ≤ max_payload
    → loads_single c (written c v) ≡ ok v
unfolding loads_single written
loads_single-written c v law fits =
    let e = append-nil (c.encode v) in
    let d : c.decode (c.encode v) ≡ some (v, []) = rw e at (law []) in
    rw (le→ltb_false max_payload (length (c.encode v)) fits, d)

-- What is read from what is written is the value.
pub loads-written_eq :
    (c : Cbor2) (v w : Value) → ReadsBack c v → loads c (written c v) ≡ ok w → v ≡ w
unfolding loads written check_size first_item
loads-written_eq c v w law h =
    let e = append-nil (c.encode v) in
    let d : c.decode (c.encode v) ≡ some (v, []) = rw e at (law []) in
    let (u, checked, first) =
      >>=-eq-ok (check_size (c.encode v)) (λ u. first_item (c.decode (c.encode v))) h in
    let done : first_item (some (v, [])) ≡ ok w = rw d at first in cc
