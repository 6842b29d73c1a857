-- ===== src/Examples/PlainKems.antt =====
-- The theorems of Kem/XWing and Stream/PlainKeys with small functions: a secret is a sum of numbers.
use quantum_safe_py.Prelude.{
  ℕ, zero, suc, ◌+◌, ◌≡◌, ◌≢◌, ◌⊎◌, refl, sym, ap, ◌∙◌, Bool, true, false, Option, none, some, List,
  [], ◌∷◌, Bytes, text, length, arith, if◌then◌else◌, ◌==◌,
}
use quantum_safe_py.Outcome.{ok, err, value_error}
use quantum_safe_py.Keys.{PublicKey, SecretKey, hybrid_transition, pqc_only}
use quantum_safe_py.Keys.Serialization.{KeyPair}
use quantum_safe_py.Kem.Types.{SharedSecret, CipherText}
use quantum_safe_py.Kem.Hybrid.{KemBackend}
use quantum_safe_py.Kem.XWing.{XWingPrimitives, xwing, mlkem, keypair_from_seed, decapsulate_xwing}
use quantum_safe_py.Kem.XWing.Agreement.{
  IsXWing, XWingExchange, secret_of, decapsulate-encapsulate_xwing, decapsulate_xwing_total,
}
use quantum_safe_py.Kem.Core.{PlainKem, plain_kem, generate_plain}
use quantum_safe_py.Stream.PlainKeys.{
  suites_of, keypair_from_seed-IsKeyPair, generate_plain-IsKeyPair,
}
use quantum_safe_py.Stream.RoundTrip.{IsKeyPair}
use quantum_safe_py.Examples.Functions.{
  zeros, length-zeros, padded, length-padded, head, primitives, backend-IsBackend,
}

seeded : KemBackend
unfolding zeros
seeded = record {
  name = text "example";
  is_available = true;
  supported = text "ML-KEM-768" ∷ [];
  keygen = λ name s. (s, s);
  keygen_from_seed =
      λ name d. if length d == 64 then ok (head d ∷ zeros 1183, d) else err value_error;
  encapsulate = λ name t pk. ok (head t ∷ zeros 1087, (head t + head pk) ∷ []);
  decapsulate = λ name sk ct. ok ((head ct + head sk) ∷ []);
}

pub sums : XWingPrimitives
unfolding zeros padded seeded
sums = record {
  shake_256 = λ d n. padded n d;
  sha3_256 = λ d. padded 32 d;
  x25519_generate = λ a. padded 32 a;
  x25519_public = λ a. if length a == 32 then ok (head a ∷ zeros 31) else err value_error;
  x25519_exchange = λ a b. some ((head a + head b) ∷ []);
  backend = seeded;
}

-- A guarded result that was given is the one that is guarded.
guarded : {A : Type 0} (t : Bool) (x y : A) → (if t then ok x else err value_error) ≡ ok y → x ≡ y
guarded true x y e = cc
guarded false x y e = cc

seeded_same : (d pk sk : Bytes) → seeded.keygen_from_seed mlkem d ≡ ok (pk, sk) → head sk ≡ head pk
unfolding seeded
seeded_same d pk sk e =
    let same = guarded (length d == 64) (head d ∷ zeros 1183, d) (pk, sk) e in
    let one : head d ∷ zeros 1183 ≡ pk = ap (λ x. x.0) same in
    let two : d ≡ sk = ap (λ x. x.1) same in rw (← one, ← two) refl

public_head : (a pa : Bytes) → sums.x25519_public a ≡ ok pa → head pa ≡ head a
unfolding sums
public_head a pa e =
    let same = guarded (length a == 32) (head a ∷ zeros 31) pa e in rw (← same) refl

sums-IsXWing : IsXWing sums
unfolding sums seeded
sums-IsXWing = record {
  length_shake = λ d n. length-padded n d;
  length_sha3 = λ d. length-padded 32 d;
  length_generate = λ d. length-padded 32 d;
  public = λ a e. (head a ∷ zeros 31, rw e refl, omega (arith, length-zeros 31));
  agrees = λ a b pa pb e f.
      ap (λ n. some (n ∷ [])) (omega (arith, public_head a pa e, public_head b pb f));
  keygen = λ d e. (head d ∷ zeros 1183, d, rw e refl, omega (arith, length-zeros 1183));
  encapsulates = λ d t pk sk e. (
    head t ∷ zeros 1087,
    (head t + head pk) ∷ [],
    refl,
    omega (arith, length-zeros 1087),
    rw (seeded_same d pk sk e) refl,
  );
  rejects = λ d pk sk ct e n. ((head ct + head sk) ∷ [], refl);
}

abbrev seed : Bytes
seed = zeros 32

seed_size : length seed ≡ 32
seed_size = length-zeros 32

decapsulate-encapsulate_xwing_example : XWingExchange sums seed (3 ∷ []) (4 ∷ [])
decapsulate-encapsulate_xwing_example =
    decapsulate-encapsulate_xwing sums sums-IsXWing seed seed_size (3 ∷ []) (4 ∷ [])

abbrev forged : CipherText
forged = record { content = zeros 1120; algorithm = xwing }

decapsulate_xwing_total_example :
    ((length forged.content ≡ 1120)
      × (ss : SharedSecret) × (decapsulate_xwing sums
            (secret_of sums sums-IsXWing seed seed_size)
            forged
          ≡ ok ss)
      × (length ss.secret ≡ 32))
    ⊎ ((length forged.content ≢ 1120)
        × (decapsulate_xwing sums (secret_of sums sums-IsXWing seed seed_size) forged
            ≡ err value_error))
decapsulate_xwing_total_example = decapsulate_xwing_total sums sums-IsXWing seed seed_size forged

unfoldable pub ml_kem_1024 : PlainKem
ml_kem_1024 = record {
  algorithm = text "ML-KEM-1024";
  strict = false;
  spec = record {
    name = text "ML-KEM-1024";
    nist_level = 5;
    public_key_bytes = 1568;
    secret_key_bytes = 3168;
    ciphertext_bytes = 1568;
    shared_secret_bytes = 32;
    is_nist_standard = true;
    suitable_for_hybrid = true;
  };
}

pub made_kem : plain_kem (text "ML-KEM-1024") false ≡ ok ml_kem_1024
unfolding plain_kem ml_kem_1024 quantum_safe_py.Kem.Algorithms.get_algorithm_spec
    quantum_safe_py.Kem.Algorithms.kem_algorithms quantum_safe_py.Prelude.bytes_eq
made_kem = refl

xwing_keys : (keys : KeyPair) × (keypair_from_seed sums seed ≡ ok keys)
xwing_keys =
    let e = decapsulate-encapsulate_xwing sums sums-IsXWing seed seed_size [] [] in
    (e.keys, e.generated)

keypair_from_seed-IsKeyPair_example :
    IsKeyPair (suites_of primitives sums ml_kem_1024) xwing_keys.0.public xwing_keys.0.secret
keypair_from_seed-IsKeyPair_example =
    keypair_from_seed-IsKeyPair primitives sums ml_kem_1024 seed xwing_keys.0 sums-IsXWing seed_size
      xwing_keys.1

abbrev plain_keys : KeyPair
plain_keys = record {
  public = record {
    raw = zeros 1568;
    algorithm = text "ML-KEM-1024";
    migration_state = pqc_only;
    backend_tag = text "example";
  };
  secret = record {
    raw = zeros 1568;
    algorithm = text "ML-KEM-1024";
    migration_state = pqc_only;
    backend_tag = text "example";
  };
}

made_keys : generate_plain primitives.backend ml_kem_1024 (zeros 1568) ≡ ok plain_keys
unfolding generate_plain ml_kem_1024 primitives quantum_safe_py.Keys.public_key
    quantum_safe_py.Keys.size_ok quantum_safe_py.Prelude.has quantum_safe_py.Keys.size_of
    quantum_safe_py.Keys.known_public_key_sizes quantum_safe_py.Prelude.bytes_eq
    quantum_safe_py.Keys.secret_key quantum_safe_py.Keys.Serialization.key_pair
made_keys = refl

generate_plain-IsKeyPair_example :
    IsKeyPair (suites_of primitives sums ml_kem_1024) plain_keys.public plain_keys.secret
unfolding primitives
generate_plain-IsKeyPair_example =
    generate_plain-IsKeyPair primitives sums ml_kem_1024 (zeros 1568) plain_keys made_kem
      (backend-IsBackend (text "ML-KEM-1024")) made_keys
