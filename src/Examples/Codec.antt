-- ===== src/Examples/Codec.antt =====
-- A small codec in the place of cbor2: a tag, numbers in two bytes, and lengths in one.
use quantum_safe_py.Prelude.{
  ℕ, text, ◌+◌, ◌*◌, ◌/◌, ◌%◌, arith, zero, suc, ◌≡◌, refl, Option, none, some, [], ◌∷◌, ◌++◌,
  Bytes, length, take, drop, take-append, drop-append, append_assoc,
}
use quantum_safe_py.Cbor.{Value, Fields, nat, string, bytes, dict, end, field, Cbor2, ReadsBack}
use quantum_safe_py.Keys
use quantum_safe_py.Keys.{
  KeyType, MigrationState, classical_only, hybrid_transition, pqc_preferred, pqc_only, payload,
  ktype, state_name,
}
use quantum_safe_py.Stream.Format.{StreamHeader, header_map}

mutual
  write : Value → Bytes
  write (nat n) = 0 ∷ n / 256 ∷ n % 256 ∷ []
  write (string s) = 1 ∷ length s ∷ s
  write (bytes s) = 2 ∷ length s ∷ s
  write (dict d) = 3 ∷ write_fields d
  write _ = 9 ∷ []

  write_fields : Fields → Bytes
  write_fields end = 0 ∷ []
  write_fields (field k v d) = 1 ∷ (write k ++ (write v ++ write_fields d))

when_read {ℓ κ} : {A : Type ℓ} {B : Type κ} → Option A → (A → Option B) → Option B
when_read none f = none
when_read (some a) f = f a

mutual
  read : ℕ → Bytes → Option (Value × Bytes)
  read (suc fuel) (zero ∷ m ∷ n ∷ r) = some (nat (m * 256 + n), r)
  read (suc fuel) (suc zero ∷ n ∷ r) = some (string (take n r), drop n r)
  read (suc fuel) (suc (suc zero) ∷ n ∷ r) = some (bytes (take n r), drop n r)
  read (suc fuel) (suc (suc (suc t)) ∷ r) =
      when_read (read_fields fuel r) (λ x. some (dict x.0, x.1))
  read _ _ = none

  read_fields : ℕ → Bytes → Option (Fields × Bytes)
  read_fields (suc fuel) (zero ∷ r) = some (end, r)
  read_fields (suc fuel) (suc t ∷ r) = when_read (read fuel r) (λ k.
      when_read (read fuel k.1)
        (λ v. when_read (read_fields fuel v.1) (λ d. some (field k.0 v.0 d.0, d.1))))
  read_fields _ _ = none

unfoldable pub codec : Cbor2
unfolding write write_fields read read_fields when_read
codec = record { encode_error = λ v. none; encode = write; decode = read 14 }

pub codec-ReadsBack : (h : StreamHeader) → ReadsBack codec (header_map h)
unfolding codec header_map
codec-ReadsBack h rest =
    let n : h.chunk_size / 256 * 256 + h.chunk_size % 256 ≡ h.chunk_size = omega arith in
    rw (
      append_assoc h.algorithm,
      take-append h.algorithm,
      drop-append h.algorithm,
      append_assoc h.kem_ct,
      take-append h.kem_ct,
      drop-append h.kem_ct,
      append_assoc h.nonce_prefix,
      take-append h.nonce_prefix,
      drop-append h.nonce_prefix,
      n,
    )

-- The forms of one key each.
pub codec-ReadsBack-payload :
    (kind : KeyType) (ms : MigrationState)
    → ReadsBack codec (payload kind (7 ∷ 8 ∷ []) (text "P-256") ms)
unfolding codec payload ktype state_name
codec-ReadsBack-payload Keys.public classical_only = λ rest. refl
codec-ReadsBack-payload Keys.public hybrid_transition = λ rest. refl
codec-ReadsBack-payload Keys.public pqc_preferred = λ rest. refl
codec-ReadsBack-payload Keys.public pqc_only = λ rest. refl
codec-ReadsBack-payload Keys.secret classical_only = λ rest. refl
codec-ReadsBack-payload Keys.secret hybrid_transition = λ rest. refl
codec-ReadsBack-payload Keys.secret pqc_preferred = λ rest. refl
codec-ReadsBack-payload Keys.secret pqc_only = λ rest. refl

pub codec-ReadsBack-bundle : ReadsBack codec (
    dict (
      field (string (text "v")) (nat 1) (
        field (string (text "bundle")) (string (text "keypair")) (
          field (string (text "pub")) (payload Keys.public (7 ∷ 8 ∷ []) (text "P-256") pqc_only) (
            field
              (string (text "sec"))
              (payload Keys.secret (7 ∷ 8 ∷ []) (text "P-256") hybrid_transition)
              end)))))
unfolding codec payload ktype state_name
codec-ReadsBack-bundle = λ rest. refl
