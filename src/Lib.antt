-- ===== src/Lib.antt =====
-- quantum-safe-py: key encapsulation, signatures and an encrypted stream that combine classical and
-- post-quantum algorithms. The sources are under src/quantum_safe of the repository.
--
-- Parts, and how they interact. A key (types/keys.py) is raw bytes with an algorithm name and is
-- stored as CBOR through _internal/serialization.py. The hybrid KEM (kem/hybrid.py) takes its names
-- and approved combinations from kem/algorithms.py, packs a classical and a post-quantum key into one,
-- and its ciphertexts and secrets are those of types/kem.py. The stream (protocols/stream.py) draws a
-- secret with a KEM, derives an AES-256-GCM key, and seals chunks under counter nonces; the envelope
-- (protocols/envelope.py) does the same for one message. The stream and the envelope take the plain
-- KEM (kem/core.py), X-Wing (kem/xwing.py) or the hybrid KEM by the name of the key. The signature
-- format v2 (signatures/_v2.py) signs one byte string with a classical and an ML-DSA key, and
-- signatures/stateful.py signs with LMS, whose indices a shared store hands out. The migration manager
-- (migrate/state.py) keeps the state and the history of each key in a store that several processes may
-- share.
--
-- Files:
-- Prelude (Tests, Lists, ByteStrings): shared tests on numbers, lists and byte strings.
-- Outcome (Exec, Both): exceptions as values, methods that change their object, and a relation on two
--   results. Wire: `struct.pack` and `int.to_bytes`. Cbor: _internal/serialization.py over cbor2.
-- Keys, Keys/Serialization, Keys/RoundTrip, Keys/Bundle: types/keys.py.
-- Kem/Algorithms, Kem/Types, Kem/Hybrid and their children: kem/algorithms.py, types/kem.py and
--   kem/hybrid.py; `hybrid_kem` is `HybridKEM.__init__`, and the other functions have the names of
--   the methods.
-- Stream/Format: constants, suites and the header; Stream/Cipher: `_Cipher`, `_seal` and `_open`, as
--   functions from a state to a state and a result; Stream/Reader: `_Reader` and `_pieces`;
--   Stream/Seal: `StreamSealer` and `seal_stream`; Stream/Open: `StreamOpener` and `open_stream`;
--   Stream/Generator: what a generator yielded and how it ended. Their children hold the proofs, and
--   Stream/RoundTrip, Stream/Integrity and Stream/HybridKeys those on the whole stream.
-- Kem/Core, Kem/XWing: kem/core.py, kem/xwing.py; Stream/PlainKeys joins them to the stream.
-- Signatures/V2 and its children: signatures/_v2.py.
-- Signatures/Messages: types/signatures.py. Signatures/V1 and its children: signatures/hybrid.py and what
--   it uses of signatures/core.py; `sign_message` and `verify_message` are `HybridSign.sign` and
--   `HybridSign.verify`.
-- Signatures/Lms and its children: signatures/stateful.py. `Signers` is a step relation of any number
--   of signers over one store, a call of `sign` at a time, `NoReuse` its invariant, `Capacity` the calls
--   of one signer.
-- Envelope and its children: protocols/envelope.py.
-- Migrate/State and its children: migrate/state.py. `Writers` is a step relation of any number of calls
--   of `transition` over one store, an access at a time; `Chain` says what a history should be,
--   `Invariant`, `Steps` and `History` what the calls keep; `Locked` is `transition` over a plain dict,
--   `Quiet` and `Effect` are about undisturbed calls, and `Scan` is the listings.
-- Examples: concrete inputs, with small functions in the place of the third-party code.
--
-- Third-party code is a parameter: cbor2 (`Cbor2`), AES-GCM (`Aead`), HKDF and hashes (`Kdf`), X25519,
-- ECDH and ECDSA (`X25519`, `Curve`, `Ecdsa`, `DerEcdsa`), ML-KEM and ML-DSA (`KemBackend`, `MlDsa`); what is
-- relied on is a record beside the theorem that needs it. So are pyhsslms (`Pyhsslms`), SHAKE-256 and
-- SHA3-256 (`XWingPrimitives`), `float()` (`Floats`), UUIDs and the clock. Randomness is an argument.
--
-- Bytes and texts are lists of numbers (a text is its code points). Numbers that the source writes in
-- 16 or 32 bits keep the bound that `struct.pack` checks. Fuel: `open_frames` has one round more than
-- the input has bytes, and each round takes 20 bytes; `full_chunks` has as many as its view has bytes,
-- and each round takes a positive chunk size. Running out of the first is an ending of its own, which
-- is shown not to occur; the second is shown to cut its input completely.
-- The loop of `_transition_cas` has the 20 attempts of the source as the number that a call carries.
--
-- Not modelled: PEM, JWK, fingerprints and the zeroing of memory in types/keys.py; warnings and
-- logging; the hexadecimal forms of an envelope; the constructor and the key generation of `HybridSign`
-- and the stored forms of a signed message; signatures with one scheme and the registry of signature
-- algorithms; the migration tools other than the state manager; audit and compliance reports; tokens;
-- TLS and certificates; and the backends. They are native bindings, command lines or later work.
pub mod Prelude
pub mod Outcome
pub mod Wire
pub mod Cbor
pub mod Keys
pub mod Kem
pub mod Stream
pub mod Signatures
pub mod Migrate
pub mod Envelope
pub mod Examples
