-- ===== src/Examples/Envelopes.antt =====
-- The theorems of Envelope with an ML-KEM-1024 key and small functions.
use quantum_safe_py.Prelude.{
  ℕ, zero, suc, ◌+◌, ◌≡◌, ◌≤◌, ◌<◌, refl, sym, ap, Bool, true, false, Option, none, some, List, [],
  ◌∷◌, ◌++◌, Bytes, text, length, arith,
}
use quantum_safe_py.Outcome.{ok, ◌>>=◌}
use quantum_safe_py.Cbor.{Value, nat, max_payload}
use quantum_safe_py.Keys.{PublicKey, SecretKey, pqc_only}
use quantum_safe_py.Keys.Serialization.{KeyPair}
use quantum_safe_py.Kem.Hybrid.{KemBackend}
use quantum_safe_py.Kem.Hybrid.Laws.{IsBackend}
use quantum_safe_py.Kem.Core.{generate_plain}
use quantum_safe_py.Stream.PlainKeys.{suites_of, generate_plain-IsKeyPair}
use quantum_safe_py.Stream.RoundTrip.{IsKeyPair}
use quantum_safe_py.Envelope.{
  SealedMessage, EnvelopeEnv, SealDraws, seal_envelope, open_envelope, rewrap, sealed_to_bytes,
  sealed_from_bytes, or_own,
}
use quantum_safe_py.Envelope.Agreement.{IsSized}
use quantum_safe_py.Envelope.Opening.{seal_envelope-open_envelope}
use quantum_safe_py.Envelope.RoundTrip.{sealed_from_bytes-seal_envelope, rewrap-open_envelope}
use quantum_safe_py.Examples.Functions.{zeros, length-zeros, head, primitives, aead, aead-IsAead}
use quantum_safe_py.Examples.PlainKems.{sums, ml_kem_1024, made_kem}
use quantum_safe_py.Examples.Trees.{trees, trees-ReadsBack}

full_size : KemBackend
unfolding zeros
full_size = record {
  name = text "example";
  is_available = true;
  supported = text "ML-KEM-1024" ∷ [];
  keygen = λ name s. (s, s);
  keygen_from_seed = λ name s. ok (s, s);
  encapsulate = λ name t pk. ok (head t ∷ zeros 1567, (head t + head pk) ∷ zeros 31);
  decapsulate = λ name sk ct. ok ((head ct + head sk) ∷ zeros 31);
}

full_size-IsBackend : IsBackend full_size (text "ML-KEM-1024")
unfolding full_size
full_size-IsBackend = record {
  agrees = λ s t. (head t ∷ zeros 1567, (head t + head s) ∷ zeros 31, refl, refl, omega arith);
}

full_size-IsSized : IsSized full_size
unfolding full_size
full_size-IsSized t pk ct ss e =
    let one : head t ∷ zeros 1567 ≡ ct = cc in rw (← one) (omega (arith, length-zeros 1567))

env : EnvelopeEnv
unfolding primitives
env = record { aead = aead; primitives = record primitives { backend = full_size } }

keys : KeyPair
keys = record {
  public = record {
    raw = zeros 1568;
    algorithm = text "ML-KEM-1024";
    migration_state = pqc_only;
    backend_tag = text "example";
  };
  secret = record {
    raw = zeros 1568;
    algorithm = text "ML-KEM-1024";
    migration_state = pqc_only;
    backend_tag = text "example";
  };
}

made_keys : generate_plain env.primitives.backend ml_kem_1024 (zeros 1568) ≡ ok keys
unfolding generate_plain env quantum_safe_py.Keys.public_key full_size quantum_safe_py.Keys.size_ok
    quantum_safe_py.Prelude.has ml_kem_1024 quantum_safe_py.Keys.size_of
    quantum_safe_py.Keys.known_public_key_sizes quantum_safe_py.Prelude.bytes_eq
    quantum_safe_py.Keys.secret_key quantum_safe_py.Keys.Serialization.key_pair keys
made_keys = refl

pair : IsKeyPair (suites_of env.primitives sums ml_kem_1024) keys.public keys.secret
unfolding env
pair =
    generate_plain-IsKeyPair env.primitives sums ml_kem_1024 (zeros 1568) keys made_kem
      full_size-IsBackend made_keys

draws : SealDraws
unfolding zeros
draws = record { nonce = zeros 12; seed = 5 ∷ []; pqc_seed = [] }

abbrev plaintext : Bytes
plaintext = 1 ∷ 2 ∷ []

abbrev aad : Bytes
aad = 7 ∷ []

sealed : SealedMessage
unfolding zeros
sealed = record {
  version = nat 2;
  algorithm = text "ML-KEM-1024";
  kem_ct = 5 ∷ zeros 1567;
  nonce = zeros 12;
  ciphertext = plaintext ++ zeros 16;
  aad = aad;
}

seals : seal_envelope env draws plaintext keys.public aad none ≡ ok sealed
unfolding seal_envelope env keys draws sealed quantum_safe_py.Envelope.version_for
    quantum_safe_py.Prelude.has quantum_safe_py.Prelude.bytes_eq quantum_safe_py.Envelope.seal_key
    quantum_safe_py.Kem.Core.plain_kem quantum_safe_py.Kem.Algorithms.get_algorithm_spec
    quantum_safe_py.Kem.Algorithms.kem_algorithms quantum_safe_py.Kem.Core.encapsulate_plain
    full_size quantum_safe_py.Kem.Types.cipher_text quantum_safe_py.Kem.Types.shared_secret
    quantum_safe_py.Envelope.built_aad quantum_safe_py.Prelude.is_ascii
    quantum_safe_py.Envelope.sealed_message aead
seals = refl

small : length (sealed_to_bytes trees sealed) ≤ max_payload
unfolding sealed_to_bytes sealed quantum_safe_py.Cbor.written trees
small = omega arith

sealed_from_bytes-seal_envelope_example :
    (do
      read ← sealed_from_bytes trees (sealed_to_bytes trees sealed)
      open_envelope env read keys.secret none (some aad))
    ≡ ok plaintext
unfolding env aead
sealed_from_bytes-seal_envelope_example =
    sealed_from_bytes-seal_envelope env sums ml_kem_1024 aead-IsAead made_kem full_size-IsSized
      trees draws plaintext keys.public keys.secret aad sealed trees-ReadsBack small pair seals

opens_it : open_envelope env sealed keys.secret none (some aad) ≡ ok plaintext
unfolding open_envelope env keys sealed quantum_safe_py.Prelude.bytes_eq
    quantum_safe_py.Envelope.version_for quantum_safe_py.Prelude.has
    quantum_safe_py.Envelope.open_key quantum_safe_py.Kem.Core.plain_kem
    quantum_safe_py.Kem.Algorithms.get_algorithm_spec quantum_safe_py.Kem.Algorithms.kem_algorithms
    quantum_safe_py.Kem.Types.cipher_text quantum_safe_py.Kem.Core.decapsulate_plain full_size
    quantum_safe_py.Kem.Types.shared_secret quantum_safe_py.Envelope.built_aad
    quantum_safe_py.Prelude.is_ascii aead quantum_safe_py.Prelude.ends_with
opens_it = refl

-- Another plaintext under the same KEM ciphertext.
reused : SealedMessage
unfolding sealed zeros
reused = record sealed { ciphertext = 9 ∷ zeros 16 }

opens_reused : open_envelope env reused keys.secret none (some aad) ≡ ok (9 ∷ [])
unfolding open_envelope env keys reused quantum_safe_py.Prelude.bytes_eq
    quantum_safe_py.Envelope.version_for quantum_safe_py.Prelude.has
    quantum_safe_py.Envelope.open_key quantum_safe_py.Kem.Core.plain_kem
    quantum_safe_py.Kem.Algorithms.get_algorithm_spec quantum_safe_py.Kem.Algorithms.kem_algorithms
    quantum_safe_py.Kem.Types.cipher_text quantum_safe_py.Kem.Core.decapsulate_plain full_size
    quantum_safe_py.Kem.Types.shared_secret quantum_safe_py.Envelope.built_aad
    quantum_safe_py.Prelude.is_ascii aead quantum_safe_py.Prelude.ends_with
opens_reused = refl

seal_envelope-open_envelope_example :
    seal_envelope env (record draws { nonce = reused.nonce }) (9 ∷ []) keys.public aad none
    ≡ ok reused
unfolding env aead reused sealed zeros
seal_envelope-open_envelope_example =
    seal_envelope-open_envelope env sums ml_kem_1024 aead-IsAead made_kem full_size-IsSized draws
      plaintext keys.public keys.secret aad sealed reused aad (9 ∷ []) pair seals refl refl refl
      opens_reused

opens_own : open_envelope env sealed keys.secret none (some sealed.aad) ≡ ok plaintext
unfolding sealed
opens_own = opens_it

seals_own : seal_envelope env draws plaintext keys.public sealed.aad none ≡ ok sealed
unfolding sealed
seals_own = seals

rewraps : rewrap env draws sealed keys.secret keys.public none none ≡ ok sealed
unfolding rewrap
rewraps = rw (opens_own, seals_own) refl

rewrap-open_envelope_example :
    (p : Bytes) × (open_envelope env sealed keys.secret none (some (or_own none sealed.aad)) ≡ ok p)
    × (open_envelope env sealed keys.secret none (some (or_own none sealed.aad)) ≡ ok p)
unfolding env aead
rewrap-open_envelope_example =
    rewrap-open_envelope env sums ml_kem_1024 aead-IsAead made_kem full_size-IsSized draws sealed
      sealed keys.secret keys.public keys.secret none none pair rewraps
