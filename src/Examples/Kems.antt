-- ===== src/Examples/Kems.antt =====
-- The theorems of Kem at concrete names, ciphertexts and keys.
use quantum_safe_py.Prelude.{
  ◌+◌, ◌≤◌, ◌<◌, ℕ, ◌≡◌, ◌⊎◌, refl, Bool, true, false, [], ◌∷◌, ◌++◌, Bytes, text, has, take, arith,
}
use quantum_safe_py.Outcome.{ok, err, value_error, decapsulation_error, ◌>>=◌}
use quantum_safe_py.Kem.Algorithms.{
  canonical_hybrid_name, parse_hybrid_name, validate_hybrid_combination,
}
use quantum_safe_py.Kem.Algorithms.Names.{IsApproved, validate-IsApproved}
use quantum_safe_py.Kem.Types.{HybridCipherText, to_bytes, from_bytes}
use quantum_safe_py.Kem.Types.Framing.{
  from_bytes-to_bytes, to_bytes-from_bytes, declared_length, from_bytes_errors,
}
use quantum_safe_py.Kem.Hybrid.{HybridKem, hybrid_kem}
use quantum_safe_py.Kem.Hybrid.Agreement.{Exchange, decapsulate-encapsulate}
use quantum_safe_py.Examples.Functions.{primitives, primitives-IsPrimitives}

abbrev p384 : HybridKem
p384 = record {
  classical = text "P-384";
  pqc = text "ML-KEM-1024";
  algorithm = text "P-384+ML-KEM-1024";
}

p384_made : hybrid_kem primitives (text "P-384") (text "ML-KEM-1024") true ≡ ok p384
unfolding hybrid_kem validate_hybrid_combination quantum_safe_py.Prelude.one_of
    quantum_safe_py.Kem.Algorithms.classical_names quantum_safe_py.Prelude.bytes_eq
    quantum_safe_py.Kem.Algorithms.kem_names quantum_safe_py.Kem.Algorithms.approved
    quantum_safe_py.Kem.Algorithms.hybrid_combinations primitives canonical_hybrid_name
p384_made = refl

decapsulate-encapsulate_example : Exchange primitives p384 (1 ∷ []) (2 ∷ []) (3 ∷ []) (4 ∷ [])
decapsulate-encapsulate_example =
    decapsulate-encapsulate primitives (text "P-384") (text "ML-KEM-1024") p384 (1 ∷ []) (2 ∷ [])
      (3 ∷ []) (4 ∷ []) p384_made (primitives-IsPrimitives (text "ML-KEM-1024"))

valid : validate_hybrid_combination (text "P-256") (text "ML-KEM-768") ≡ ok tt
unfolding validate_hybrid_combination quantum_safe_py.Prelude.one_of
    quantum_safe_py.Kem.Algorithms.classical_names quantum_safe_py.Prelude.bytes_eq
    quantum_safe_py.Kem.Algorithms.kem_names quantum_safe_py.Kem.Algorithms.approved
    quantum_safe_py.Kem.Algorithms.hybrid_combinations
valid = refl

validate-IsApproved_example : IsApproved (text "P-256") (text "ML-KEM-768")
validate-IsApproved_example = validate-IsApproved (text "P-256") (text "ML-KEM-768") valid

abbrev two_parts : HybridCipherText
two_parts = record { classical_ct = 1 ∷ 2 ∷ []; pqc_ct = 3 ∷ []; algorithm = text "X" }

from_bytes-to_bytes_example : (to_bytes two_parts >>= λ d. from_bytes d (text "X")) ≡ ok two_parts
from_bytes-to_bytes_example =
    from_bytes-to_bytes two_parts (omega arith) (omega arith) (omega arith)

read_back : from_bytes (0 ∷ 2 ∷ 1 ∷ 2 ∷ 3 ∷ []) (text "X") ≡ ok two_parts
unfolding from_bytes quantum_safe_py.Wire.unpack_u16 quantum_safe_py.Kem.Types.hybrid_cipher_text
read_back = refl

to_bytes-from_bytes_example : to_bytes two_parts ≡ ok (0 ∷ 2 ∷ 1 ∷ 2 ∷ 3 ∷ [])
to_bytes-from_bytes_example =
    to_bytes-from_bytes (0 ∷ 2 ∷ 1 ∷ 2 ∷ 3 ∷ []) (text "X") two_parts (omega arith) read_back

from_bytes_errors_example :
    ((3 ≤ 2 + declared_length (0 ∷ 0 ∷ 7 ∷ []))
      × (from_bytes (0 ∷ 0 ∷ 7 ∷ []) (text "X") ≡ err decapsulation_error))
    ⊎ ((2 + declared_length (0 ∷ 0 ∷ 7 ∷ []) < 3)
        × (0 < declared_length (0 ∷ 0 ∷ 7 ∷ []))
        × ((h : HybridCipherText) × (from_bytes (0 ∷ 0 ∷ 7 ∷ []) (text "X") ≡ ok h)))
    ⊎ ((2 + declared_length (0 ∷ 0 ∷ 7 ∷ []) < 3)
        × (declared_length (0 ∷ 0 ∷ 7 ∷ []) ≡ 0)
        × (from_bytes (0 ∷ 0 ∷ 7 ∷ []) (text "X") ≡ err value_error))
from_bytes_errors_example = from_bytes_errors (0 ∷ 0 ∷ 7 ∷ []) (text "X")
