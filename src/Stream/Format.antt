-- ===== src/Stream/Format.antt =====
-- protocols/stream.py: constants, suites, the stream header, and key and AAD derivation.
pub mod Header
use quantum_safe_py.Prelude.{
  ℕ, ◌*◌, Bool, true, false, not, Option, none, some, List, [], ◌∷◌, ◌++◌, Bytes, text, bytes_eq,
  has, one_of, length, ltb, leb, ◌==◌, ◌&&◌, ◌||◌, if◌then◌else◌,
}
use quantum_safe_py.Outcome.{
  Result, ok, err, value_error, unsupported_algorithm, ◌>>=◌, ◌>>◌, require, or_raise,
}
use quantum_safe_py.Wire.{pack_u32}
use quantum_safe_py.Cbor.{
  Value, Fields, Cbor2, nat, real, string, bytes, dict, end, field, get, is_text, written,
  loads_single,
}
use quantum_safe_py.Keys.{PublicKey, SecretKey}
use quantum_safe_py.Keys.Serialization.{as_dict}
use quantum_safe_py.Kem.Algorithms.{parse_hybrid_name, kem_names}
use quantum_safe_py.Kem.Types.{
  Kdf, Hash, sha256, sha384, SharedSecret, derive_key, CipherText, cipher_text, to_bytes,
  from_bytes,
}
use quantum_safe_py.Kem.Hybrid.{Primitives, hybrid_kem, encapsulate, decapsulate}

abbrev pub stream_version : ℕ
stream_version = 3

abbrev pub magic : Bytes
magic = text "QSS3"

abbrev pub nonce_prefix_len : ℕ
nonce_prefix_len = 7

abbrev pub tag_len : ℕ
tag_len = 16

abbrev pub min_chunk_size : ℕ
min_chunk_size = 1024

abbrev pub max_chunk_size : ℕ
max_chunk_size = 16 * 1024 * 1024

abbrev pub max_header_len : ℕ
max_header_len = 64 * 1024

abbrev pub key_info : Bytes
key_info = text "qs-envelope-stream-v3"

abbrev pub ml_kem_1024_name : Bytes
ml_kem_1024_name = text "ML-KEM-1024"

abbrev pub xwing_name : Bytes
xwing_name = text "X-Wing"

unfoldable pub uses_sha384 : Bytes → Result Bool
uses_sha384 algorithm =
    if bytes_eq algorithm ml_kem_1024_name
    then ok true
    else if bytes_eq algorithm xwing_name
    then ok false
    else if has b'+' algorithm
    then (do
      (classical, pqc) ← parse_hybrid_name algorithm
      require
          (one_of classical (text "X25519" ∷ text "P-256" ∷ text "P-384" ∷ [])
            && one_of pqc kem_names)
          unsupported_algorithm
      ok false)
    else err unsupported_algorithm

-- A KEM of kem/core.py or kem/xwing.py, as far as the stream uses it; the first argument of
-- `encapsulate` is its randomness.
pub record Kem : Type 0 where
  pub encapsulate : Bytes → PublicKey → Result (Bytes × SharedSecret)
  pub decapsulate : SecretKey → CipherText → Result SharedSecret

-- The KEMs that a stream chooses from; the hybrids are those of `Kem.Hybrid`.
pub record Suites : Type 0 where
  pub ml_kem_1024 : Kem
  pub xwing : Kem
  pub primitives : Primitives

unfoldable pub stream_encapsulate :
    Suites → Bytes → Bytes → PublicKey → Result (Bytes × SharedSecret)
stream_encapsulate s seed pqc_seed key =
    if bytes_eq key.algorithm ml_kem_1024_name
    then s.ml_kem_1024.encapsulate seed key
    else if bytes_eq key.algorithm xwing_name
    then s.xwing.encapsulate seed key
    else do
      (classical, pqc) ← parse_hybrid_name key.algorithm
      k ← hybrid_kem s.primitives classical pqc true
      (ct, ss) ← encapsulate s.primitives k seed pqc_seed key
      b ← to_bytes ct
      ok (b, ss)

unfoldable pub stream_decapsulate : Suites → SecretKey → Bytes → Bytes → Result SharedSecret
stream_decapsulate s key algorithm kem_ct =
    if bytes_eq algorithm ml_kem_1024_name
    then (do ct ← cipher_text kem_ct ml_kem_1024_name; s.ml_kem_1024.decapsulate key ct)
    else if bytes_eq algorithm xwing_name
    then (do ct ← cipher_text kem_ct xwing_name; s.xwing.decapsulate key ct)
    else do
      (classical, pqc) ← parse_hybrid_name algorithm
      k ← hybrid_kem s.primitives classical pqc true
      ct ← from_bytes kem_ct algorithm
      decapsulate s.primitives k key ct

pub record StreamHeader : Type 0 where
  pub algorithm : Bytes
  pub kem_ct : Bytes
  pub nonce_prefix : Bytes
  pub chunk_size : ℕ

-- The map of `_encode_header`.
unfoldable pub header_map : StreamHeader → Value
header_map h = dict (
    field (string (text "v")) (nat stream_version) (
      field (string (text "algo")) (string h.algorithm) (
        field (string (text "kct")) (bytes h.kem_ct) (
          field (string (text "np")) (bytes h.nonce_prefix)
            (field (string (text "cs")) (nat h.chunk_size) end)))))

unfoldable pub encode_header : Cbor2 → StreamHeader → Bytes
unfolding header_map
encode_header c h = written c (header_map h)

abbrev pub header_keys : List Bytes
header_keys = text "v" ∷ text "algo" ∷ text "kct" ∷ text "np" ∷ text "cs" ∷ []

is_one_of : List Bytes → Value → Bool
is_one_of ks (string s) = one_of s ks
is_one_of ks _ = false

keys_within : List Bytes → Fields → Bool
keys_within ks end = true
keys_within ks (field k v d) = is_one_of ks k && keys_within ks d

is_there : Option Value → Bool
is_there none = false
is_there (some v) = true

has_keys : List Bytes → Fields → Bool
has_keys [] d = true
has_keys (k ∷ ks) d = is_there (get k d) && has_keys ks d

-- `value["v"] == STREAM_VERSION`, which a float 3.0 satisfies too, and no `bool`.
is_version : Option Value → Bool
is_version (some (nat n)) = n == stream_version
is_version (some (real (some n) _)) = n == stream_version
is_version _ = false

text_entry : Option Value → Result Bytes
text_entry (some (string s)) = ok s
text_entry _ = err value_error

bytes_entry : Option Value → Result Bytes
bytes_entry (some (bytes b)) = ok b
bytes_entry _ = err value_error

abbrev pub chunk_size_ok : ℕ → Bool
chunk_size_ok n = leb min_chunk_size n && leb n max_chunk_size

chunk_size_entry : Option Value → Result ℕ
chunk_size_entry (some (nat n)) = if chunk_size_ok n then ok n else err value_error
chunk_size_entry _ = err value_error

unfoldable pub parse_header : Cbor2 → Bytes → Result StreamHeader
unfolding is_one_of keys_within is_there has_keys is_version text_entry bytes_entry chunk_size_entry
parse_header c d = do
  require (not (ltb max_header_len (length d))) value_error
  v ← or_raise (loads_single c d) value_error
  f ← as_dict v value_error
  require (keys_within header_keys f && has_keys header_keys f) value_error
  require (is_version (get (text "v") f)) value_error
  algo ← text_entry (get (text "algo") f)
  wide ← or_raise (uses_sha384 algo) value_error
  kct ← bytes_entry (get (text "kct") f)
  np ← bytes_entry (get (text "np") f)
  require (length np == nonce_prefix_len) value_error
  cs ← chunk_size_entry (get (text "cs") f)
  ok (record { algorithm = algo; kem_ct = kct; nonce_prefix = np; chunk_size = cs })

abbrev pub hash_for : Bool → Hash
hash_for true = sha384
hash_for false = sha256

unfoldable pub derive_stream_key : Kdf → SharedSecret → Bytes → Bool → Bytes
derive_stream_key k ss header wide =
    derive_key k ss 32 none (key_info ++ (0 ∷ k.digest (hash_for wide) header)) (hash_for wide)

unfoldable pub build_aad : Bytes → Bytes → Result Bytes
build_aad header caller_aad = do
  h ← pack_u32 (length header)
  a ← pack_u32 (length caller_aad)
  ok (h ++ (header ++ (a ++ caller_aad)))
