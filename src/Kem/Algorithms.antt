-- ===== src/Kem/Algorithms.antt =====
-- kem/algorithms.py: the registry of KEM parameter sets and of approved hybrid combinations.
-- The free text of `notes` is left out.
pub mod Names
use quantum_safe_py.Prelude.{
  ℕ, Bool, true, false, Option, none, some, List, [], ◌∷◌, ◌++◌, Bytes, text, bytes_eq, has, one_of,
  before, after, map, if◌then◌else◌,
}
use quantum_safe_py.Outcome.{Result, ok, err, value_error, unsupported_algorithm, ◌>>◌, require}

pub record KemAlgorithmSpec : Type 0 where
  pub name : Bytes
  pub nist_level : ℕ
  pub public_key_bytes : ℕ
  pub secret_key_bytes : ℕ
  pub ciphertext_bytes : ℕ
  pub shared_secret_bytes : ℕ
  pub is_nist_standard : Bool
  pub suitable_for_hybrid : Bool

pub record ClassicalKemSpec : Type 0 where
  pub name : Bytes
  pub public_key_bytes : ℕ
  pub shared_secret_bytes : ℕ

abbrev kem_spec : Bytes → ℕ → ℕ → ℕ → ℕ → Bool → KemAlgorithmSpec
kem_spec n level pk sk ct standard = record {
  name = n;
  nist_level = level;
  public_key_bytes = pk;
  secret_key_bytes = sk;
  ciphertext_bytes = ct;
  shared_secret_bytes = 32;
  is_nist_standard = standard;
  suitable_for_hybrid = standard;
}

unfoldable pub kem_algorithms : List KemAlgorithmSpec
kem_algorithms =
    kem_spec (text "ML-KEM-512") 1 800 1632 768 true
    ∷ kem_spec (text "ML-KEM-768") 3 1184 2400 1088 true
    ∷ kem_spec (text "ML-KEM-1024") 5 1568 3168 1568 true
    ∷ kem_spec (text "BIKE-L1") 1 1541 5223 1573 false
    ∷ kem_spec (text "BIKE-L3") 3 3083 10105 3115 false
    ∷ kem_spec (text "BIKE-L5") 5 5122 16494 5154 false
    ∷ kem_spec (text "HQC-128") 1 2241 2321 4433 false
    ∷ kem_spec (text "HQC-192") 3 4514 4602 8978 false
    ∷ kem_spec (text "HQC-256") 5 7237 7333 14421 false
    ∷ []

unfoldable pub classical_kem_algorithms : List ClassicalKemSpec
classical_kem_algorithms =
    record { name = text "X25519"; public_key_bytes = 32; shared_secret_bytes = 32 }
    ∷ record { name = text "P-256"; public_key_bytes = 65; shared_secret_bytes = 32 }
    ∷ record { name = text "P-384"; public_key_bytes = 97; shared_secret_bytes = 48 }
    ∷ []

unfoldable pub hybrid_combinations : List (Bytes × List Bytes)
hybrid_combinations =
    (text "X25519", text "ML-KEM-768" ∷ text "ML-KEM-512" ∷ text "ML-KEM-1024" ∷ [])
    ∷ (text "P-256", text "ML-KEM-512" ∷ text "ML-KEM-768" ∷ [])
    ∷ (text "P-384", text "ML-KEM-1024" ∷ [])
    ∷ []

unfoldable pub kem_names : List Bytes
unfolding kem_algorithms
kem_names = map (λ s. s.name) kem_algorithms

unfoldable pub classical_names : List Bytes
unfolding classical_kem_algorithms
classical_names = map (λ s. s.name) classical_kem_algorithms

-- `f"{classical}+{pqc}"`
unfoldable pub canonical_hybrid_name : Bytes → Bytes → Bytes
canonical_hybrid_name classical pqc = classical ++ (b'+' ∷ pqc)

unfoldable pub parse_hybrid_name : Bytes → Result (Bytes × Bytes)
parse_hybrid_name name =
    if has b'+' name then ok (before b'+' name, after b'+' name) else err value_error

-- `HYBRID_COMBINATIONS.get(classical, [])`
unfoldable pub approved : Bytes → List (Bytes × List Bytes) → List Bytes
approved classical [] = []
approved classical ((c, ps) ∷ rest) = if bytes_eq classical c then ps else approved classical rest

unfoldable pub validate_hybrid_combination : Bytes → Bytes → Result (Unit {0})
validate_hybrid_combination classical pqc = do
  require (one_of classical classical_names) value_error
  require (one_of pqc kem_names) value_error
  require (one_of pqc (approved classical hybrid_combinations)) value_error

find_spec : Bytes → List KemAlgorithmSpec → Option KemAlgorithmSpec
find_spec name [] = none
find_spec name (s ∷ ss) = if bytes_eq s.name name then some s else find_spec name ss

known_spec : Option KemAlgorithmSpec → Result KemAlgorithmSpec
known_spec none = err unsupported_algorithm
known_spec (some s) = ok s

unfoldable pub get_algorithm_spec : Bytes → Result KemAlgorithmSpec
unfolding find_spec known_spec
get_algorithm_spec name = known_spec (find_spec name kem_algorithms)
