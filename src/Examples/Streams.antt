-- ===== src/Examples/Streams.antt =====
-- A stream to a hybrid key: its keys, its sealer, and the theorems of Stream on it.
use quantum_safe_py.Prelude.{
  AllDistinct, map, ℕ, ◌*◌, ◌≤◌, ◌<◌, ◌≡◌, ◌≢◌, refl, Bool, true, false, List, [], ◌∷◌, ◌++◌, Bytes,
  IsBytes, text, length, join, arith, sym, ap, ◌∙◌, append-nil, append_assoc,
}
use quantum_safe_py.Outcome.{Result, ok, err, unsupported_algorithm}
use quantum_safe_py.Keys.{PublicKey, SecretKey, hybrid_transition}
use quantum_safe_py.Keys.Serialization.{KeyPair}
use quantum_safe_py.Kem.Hybrid.{HybridKem, hybrid_kem, generate_keypair}
use quantum_safe_py.Stream.Format.{Kem, Suites, StreamHeader, max_header_len}
use quantum_safe_py.Stream.Cipher.{new_cipher, max_counter}
use quantum_safe_py.Stream.Cipher.Nonces.{chunks, uses, nonces-AllDistinct}
use quantum_safe_py.Stream.Reader.{Source, items}
use quantum_safe_py.Stream.Generator.{Ending, finished, out_of_fuel, raised}
use quantum_safe_py.Stream.Open.{StreamEnv, content, open_stream, joined}
use quantum_safe_py.Stream.Open.Pieces.{open_stream_pieces}
use quantum_safe_py.Stream.Seal.{Draws, StreamSealer, stream_sealer, seal_stream}
use quantum_safe_py.Stream.Seal.Sealing.{seal_stream_pieces}
use quantum_safe_py.Stream.RoundTrip.{Sealable, IsKeyPair, open_stream-seal_stream}
use quantum_safe_py.Stream.HybridKeys.{generate_keypair-IsKeyPair}
use quantum_safe_py.Stream.Integrity.{Opened, open_stream-Opened, open_stream_ends}
use quantum_safe_py.Examples.Functions.{
  aead, aead-IsAead, primitives, primitives-IsPrimitives, zeros,
}
use quantum_safe_py.Examples.Codec.{codec, codec-ReadsBack}

abbrev no_kem : Kem
no_kem = record {
  encapsulate = λ s k. err unsupported_algorithm;
  decapsulate = λ k c. err unsupported_algorithm;
}

abbrev suites : Suites
suites = record { ml_kem_1024 = no_kem; xwing = no_kem; primitives = primitives }

abbrev env : StreamEnv
env = record { cbor = codec; aead = aead; suites = suites }

abbrev hybrid_name : Bytes
hybrid_name = text "X25519+ML-KEM-768"

abbrev kem : HybridKem
kem = record { classical = text "X25519"; pqc = text "ML-KEM-768"; algorithm = hybrid_name }

abbrev keys : KeyPair
keys = record {
  public = record {
    raw = 0 ∷ 32 ∷ 7 ∷ (zeros 31 ++ (5 ∷ 6 ∷ []));
    algorithm = hybrid_name;
    migration_state = hybrid_transition;
    backend_tag = text "example";
  };
  secret = record {
    raw = 0 ∷ 32 ∷ 7 ∷ (zeros 31 ++ (5 ∷ 6 ∷ []));
    algorithm = hybrid_name;
    migration_state = hybrid_transition;
    backend_tag = text "example";
  };
}

kem_made : hybrid_kem primitives (text "X25519") (text "ML-KEM-768") true ≡ ok kem
unfolding hybrid_kem quantum_safe_py.Kem.Algorithms.validate_hybrid_combination
    quantum_safe_py.Prelude.one_of quantum_safe_py.Kem.Algorithms.classical_names
    quantum_safe_py.Prelude.bytes_eq quantum_safe_py.Kem.Algorithms.kem_names
    quantum_safe_py.Kem.Algorithms.approved quantum_safe_py.Kem.Algorithms.hybrid_combinations
    primitives quantum_safe_py.Kem.Algorithms.canonical_hybrid_name
kem_made = refl

keys_made : generate_keypair primitives kem (7 ∷ []) (5 ∷ 6 ∷ []) ≡ ok keys
unfolding generate_keypair quantum_safe_py.Kem.Hybrid.gen_classical_keypair
    quantum_safe_py.Prelude.bytes_eq quantum_safe_py.Kem.Hybrid.pack_components
    quantum_safe_py.Wire.pack_u16 primitives quantum_safe_py.Keys.public_key
    quantum_safe_py.Keys.size_ok quantum_safe_py.Prelude.has quantum_safe_py.Keys.secret_key
    quantum_safe_py.Keys.Serialization.key_pair
keys_made = refl

generate_keypair-IsKeyPair_example : IsKeyPair suites keys.public keys.secret
generate_keypair-IsKeyPair_example =
    generate_keypair-IsKeyPair suites (text "X25519") (text "ML-KEM-768") kem (7 ∷ []) (5 ∷ 6 ∷ [])
      keys kem_made (primitives-IsPrimitives (text "ML-KEM-768")) keys_made

keys-IsKeyPair : IsKeyPair suites keys.public keys.secret
keys-IsKeyPair =
    generate_keypair-IsKeyPair suites (text "X25519") (text "ML-KEM-768") kem (7 ∷ []) (5 ∷ 6 ∷ [])
      keys kem_made (primitives-IsPrimitives (text "ML-KEM-768")) keys_made

abbrev draws : Draws
draws = record { seed = 9 ∷ []; pqc_seed = 3 ∷ []; prefix = 1 ∷ 2 ∷ 3 ∷ 4 ∷ 5 ∷ 6 ∷ 7 ∷ [] }

built : Result StreamSealer → StreamSealer
built (ok s) = s
built (err e) = record { cipher = new_cipher [] [] [] 0; header = [] }

abbrev aad : Bytes
aad = text "file 1"

abbrev sealer : StreamSealer
sealer = built (stream_sealer env draws keys.public aad 1024)

sealer_made : stream_sealer env draws keys.public aad 1024 ≡ ok sealer
unfolding stream_sealer built hybrid_kem primitives zeros codec aead
    quantum_safe_py.Stream.Format.header_map new_cipher quantum_safe_py.Stream.Format.uses_sha384
    quantum_safe_py.Prelude.bytes_eq quantum_safe_py.Prelude.has
    quantum_safe_py.Kem.Algorithms.parse_hybrid_name quantum_safe_py.Prelude.one_of
    quantum_safe_py.Prelude.before quantum_safe_py.Kem.Algorithms.kem_names
    quantum_safe_py.Prelude.after quantum_safe_py.Stream.Format.stream_encapsulate
    quantum_safe_py.Kem.Algorithms.validate_hybrid_combination
    quantum_safe_py.Kem.Algorithms.classical_names quantum_safe_py.Kem.Algorithms.approved
    quantum_safe_py.Kem.Algorithms.hybrid_combinations quantum_safe_py.Kem.Hybrid.encapsulate
    quantum_safe_py.Cbor.written quantum_safe_py.Examples.Functions.backend
    quantum_safe_py.Examples.Functions.curve_of quantum_safe_py.Examples.Functions.kdf
    quantum_safe_py.Examples.Functions.padded quantum_safe_py.Examples.Functions.x25519
    quantum_safe_py.Kem.Algorithms.canonical_hybrid_name
    quantum_safe_py.Kem.Algorithms.classical_kem_algorithms
    quantum_safe_py.Kem.Algorithms.kem_algorithms quantum_safe_py.Kem.Hybrid.ec_curve
    quantum_safe_py.Kem.Hybrid.ecdh quantum_safe_py.Kem.Hybrid.encapsulate_classical
    quantum_safe_py.Kem.Hybrid.encapsulate_on_curve quantum_safe_py.Kem.Hybrid.unpack_components
    quantum_safe_py.Kem.Types.combine_shared_secrets quantum_safe_py.Kem.Types.derive_key
    quantum_safe_py.Kem.Types.hybrid_cipher_text quantum_safe_py.Kem.Types.shared_secret
    quantum_safe_py.Kem.Types.to_bytes quantum_safe_py.Prelude.is_ascii
    quantum_safe_py.Stream.Format.build_aad quantum_safe_py.Stream.Format.derive_stream_key
    quantum_safe_py.Stream.Format.encode_header quantum_safe_py.Wire.be
    quantum_safe_py.Wire.pack_u16 quantum_safe_py.Wire.pack_u32 quantum_safe_py.Wire.unpack_u16
sealer_made = refl

sealer-Sealable : Sealable env keys.public keys.secret draws sealer
unfolding stream_sealer built hybrid_kem primitives zeros codec aead
    quantum_safe_py.Stream.Format.header_map new_cipher quantum_safe_py.Stream.Format.uses_sha384
    quantum_safe_py.Prelude.bytes_eq quantum_safe_py.Prelude.has
    quantum_safe_py.Kem.Algorithms.parse_hybrid_name quantum_safe_py.Prelude.one_of
    quantum_safe_py.Prelude.before quantum_safe_py.Kem.Algorithms.kem_names
    quantum_safe_py.Prelude.after quantum_safe_py.Stream.Format.stream_encapsulate
    quantum_safe_py.Kem.Algorithms.validate_hybrid_combination
    quantum_safe_py.Kem.Algorithms.classical_names quantum_safe_py.Kem.Algorithms.approved
    quantum_safe_py.Kem.Algorithms.hybrid_combinations quantum_safe_py.Kem.Hybrid.encapsulate
    quantum_safe_py.Cbor.written quantum_safe_py.Examples.Functions.backend
    quantum_safe_py.Examples.Functions.curve_of quantum_safe_py.Examples.Functions.kdf
    quantum_safe_py.Examples.Functions.padded quantum_safe_py.Examples.Functions.x25519
    quantum_safe_py.Kem.Algorithms.canonical_hybrid_name
    quantum_safe_py.Kem.Algorithms.classical_kem_algorithms
    quantum_safe_py.Kem.Algorithms.kem_algorithms quantum_safe_py.Kem.Hybrid.ec_curve
    quantum_safe_py.Kem.Hybrid.ecdh quantum_safe_py.Kem.Hybrid.encapsulate_classical
    quantum_safe_py.Kem.Hybrid.encapsulate_on_curve quantum_safe_py.Kem.Hybrid.unpack_components
    quantum_safe_py.Kem.Types.combine_shared_secrets quantum_safe_py.Kem.Types.derive_key
    quantum_safe_py.Kem.Types.hybrid_cipher_text quantum_safe_py.Kem.Types.shared_secret
    quantum_safe_py.Kem.Types.to_bytes quantum_safe_py.Prelude.is_ascii
    quantum_safe_py.Stream.Format.build_aad quantum_safe_py.Stream.Format.derive_stream_key
    quantum_safe_py.Stream.Format.encode_header quantum_safe_py.Wire.be
    quantum_safe_py.Wire.pack_u16 quantum_safe_py.Wire.pack_u32 quantum_safe_py.Wire.unpack_u16
sealer-Sealable = record {
  aead = aead-IsAead;
  pair = keys-IsKeyPair;
  reads = codec-ReadsBack;
  prefix = refl;
  header_nonempty = omega arith;
  header_fits = omega arith;
}

-- A plaintext in two pieces, and the sealed stream in one.
abbrev plain : Source
plain = items ((10 ∷ 11 ∷ []) ∷ (12 ∷ []) ∷ [])

abbrev sent : Source
sent = items (join (seal_stream env draws keys.public plain aad 1024).yields ∷ [])

sent_bytes : content sent ≡ join (seal_stream env draws keys.public plain aad 1024).yields
unfolding quantum_safe_py.Stream.Reader.pieces
sent_bytes = append-nil _

open_stream-seal_stream_example :
    ((seal_stream env draws keys.public plain aad 1024).ending ≡ finished)
    × (joined (open_stream env keys.secret sent aad) ≡ (finished, 10 ∷ 11 ∷ 12 ∷ []))
unfolding quantum_safe_py.Stream.Reader.pieces
open_stream-seal_stream_example =
    open_stream-seal_stream env draws keys.public keys.secret plain aad 1024 sealer sent
      sealer-Sealable sealer_made (omega arith) sent_bytes

round_trip :
    ((seal_stream env draws keys.public plain aad 1024).ending ≡ finished)
    × (joined (open_stream env keys.secret sent aad) ≡ (finished, 10 ∷ 11 ∷ 12 ∷ []))
unfolding quantum_safe_py.Stream.Reader.pieces
round_trip =
    open_stream-seal_stream env draws keys.public keys.secret plain aad 1024 sealer sent
      sealer-Sealable sealer_made (omega arith) sent_bytes

seal_stream_pieces_example :
    seal_stream env draws keys.public plain aad 1024
    ≡ seal_stream env draws keys.public (items ((10 ∷ []) ∷ (11 ∷ 12 ∷ []) ∷ [])) aad 1024
unfolding quantum_safe_py.Stream.Reader.pieces
seal_stream_pieces_example =
    seal_stream_pieces env draws keys.public plain (items ((10 ∷ []) ∷ (11 ∷ 12 ∷ []) ∷ [])) aad
      1024 refl

open_stream_pieces_example :
    open_stream env keys.secret plain aad
    ≡ open_stream env keys.secret (items ((10 ∷ 11 ∷ 12 ∷ []) ∷ [])) aad
unfolding quantum_safe_py.Stream.Reader.pieces
open_stream_pieces_example =
    open_stream_pieces env keys.secret plain (items ((10 ∷ 11 ∷ 12 ∷ []) ∷ [])) aad refl

open_stream_ends_example : (open_stream env keys.secret sent aad).ending ≢ out_of_fuel
open_stream_ends_example = open_stream_ends env keys.secret sent aad

-- The sealed stream written out, so that its bytes can be seen to be bytes.
sent_IsBytes : IsBytes (content sent)
unfolding stream_sealer built hybrid_kem primitives zeros codec aead
    quantum_safe_py.Stream.Format.header_map new_cipher quantum_safe_py.Stream.Format.uses_sha384
    quantum_safe_py.Prelude.bytes_eq quantum_safe_py.Prelude.has
    quantum_safe_py.Kem.Algorithms.parse_hybrid_name quantum_safe_py.Prelude.one_of
    quantum_safe_py.Prelude.before quantum_safe_py.Kem.Algorithms.kem_names
    quantum_safe_py.Prelude.after quantum_safe_py.Stream.Format.stream_encapsulate
    quantum_safe_py.Kem.Algorithms.validate_hybrid_combination
    quantum_safe_py.Kem.Algorithms.classical_names quantum_safe_py.Kem.Algorithms.approved
    quantum_safe_py.Kem.Algorithms.hybrid_combinations quantum_safe_py.Kem.Hybrid.encapsulate
    quantum_safe_py.Cbor.written quantum_safe_py.Examples.Functions.backend
    quantum_safe_py.Examples.Functions.curve_of quantum_safe_py.Examples.Functions.kdf
    quantum_safe_py.Examples.Functions.padded quantum_safe_py.Examples.Functions.x25519
    quantum_safe_py.Kem.Algorithms.canonical_hybrid_name
    quantum_safe_py.Kem.Algorithms.classical_kem_algorithms
    quantum_safe_py.Kem.Algorithms.kem_algorithms quantum_safe_py.Kem.Hybrid.ec_curve
    quantum_safe_py.Kem.Hybrid.ecdh quantum_safe_py.Kem.Hybrid.encapsulate_classical
    quantum_safe_py.Kem.Hybrid.encapsulate_on_curve quantum_safe_py.Kem.Hybrid.unpack_components
    quantum_safe_py.Kem.Types.combine_shared_secrets quantum_safe_py.Kem.Types.derive_key
    quantum_safe_py.Kem.Types.hybrid_cipher_text quantum_safe_py.Kem.Types.shared_secret
    quantum_safe_py.Kem.Types.to_bytes quantum_safe_py.Prelude.is_ascii
    quantum_safe_py.Stream.Format.build_aad quantum_safe_py.Stream.Format.derive_stream_key
    quantum_safe_py.Stream.Format.encode_header quantum_safe_py.Wire.be
    quantum_safe_py.Wire.pack_u16 quantum_safe_py.Wire.pack_u32 quantum_safe_py.Wire.unpack_u16
    quantum_safe_py.Stream.Reader.pieces seal_stream quantum_safe_py.Stream.Seal.seal_all
    quantum_safe_py.Stream.Seal.seal_pieces quantum_safe_py.Stream.Seal.and_then
    quantum_safe_py.Stream.Seal.seal_piece quantum_safe_py.Stream.Seal.full_chunks
    quantum_safe_py.Stream.Seal.carried quantum_safe_py.Stream.Seal.seal_rest
    quantum_safe_py.Stream.Seal.seal_frame quantum_safe_py.Stream.Seal.framed
    quantum_safe_py.Stream.Cipher.seal quantum_safe_py.Stream.Cipher.nonce
    quantum_safe_py.Stream.Cipher.wrong_plain_length quantum_safe_py.Stream.Cipher.advance_with
    quantum_safe_py.Stream.Cipher.advance
sent_IsBytes = omega arith

ending_of_joined :
    (e : Ending) (ys : List Bytes) {d : Bytes}
    → joined (record { yields = ys; ending = e }) ≡ (finished, d)
    → e ≡ finished
unfolding joined
ending_of_joined finished ys h = refl
ending_of_joined out_of_fuel ys h = cc
ending_of_joined (raised e) ys h = cc

sent_finished : (open_stream env keys.secret sent aad).ending ≡ finished
sent_finished =
    ending_of_joined (open_stream env keys.secret sent aad).ending
      (open_stream env keys.secret sent aad).yields round_trip.1

open_stream-Opened_example :
    Opened env keys.secret (content sent) aad (open_stream env keys.secret sent aad).yields
open_stream-Opened_example =
    open_stream-Opened env keys.secret sent aad aead-IsAead sent_IsBytes sent_finished

abbrev calls : List (Bytes × Bool)
calls = (5 ∷ 6 ∷ [], false) ∷ (7 ∷ [], false) ∷ (8 ∷ [], true) ∷ []

nonces-AllDistinct_example :
    (chunks aead (new_cipher (1 ∷ []) (2 ∷ []) [] 2) calls
      ≡ map
          (λ (pair : Bytes × Bytes). aead.encrypt (1 ∷ []) pair.0 pair.1 [])
          (uses (new_cipher (1 ∷ []) (2 ∷ []) [] 2) calls))
    × AllDistinct
        (map (λ (pair : Bytes × Bytes). pair.0) (uses (new_cipher (1 ∷ []) (2 ∷ []) [] 2) calls))
nonces-AllDistinct_example = nonces-AllDistinct aead (1 ∷ []) (2 ∷ []) [] 2 calls
