-- ===== src/Examples/KeyFiles.antt =====
-- The theorems of Keys, and of the stream header, at concrete keys.
use quantum_safe_py.Prelude.{
  ℕ, ◌≡◌, ◌≢◌, ◌<◌, refl, Bool, true, false, [], ◌∷◌, ◌++◌, Bytes, text, length, arith,
}
use quantum_safe_py.Outcome.{ok, ◌>>=◌}
use quantum_safe_py.Keys.{PublicKey, SecretKey, pqc_only, hybrid_transition, size_ok, unknown_tag}
use quantum_safe_py.Keys
use quantum_safe_py.Keys.Serialization.{
  KeyPair, to_cbor_bundle, from_cbor_bundle, public_to_cbor, secret_to_cbor, public_from_cbor,
  secret_from_cbor,
}
use quantum_safe_py.Keys.RoundTrip.{
  from_cbor_one_kind, public_from_cbor-public_to_cbor, public_from_cbor_size,
}
use quantum_safe_py.Stream.Format.{StreamHeader, parse_header, encode_header}
use quantum_safe_py.Stream.Format.Header.{IsHeader, parse_header-encode_header}
use quantum_safe_py.Keys.Bundle.{Storable, untagged, from_cbor_bundle-to_cbor_bundle}
use mathlib.Core.List.{Memᴰ}
use mathlib.Core.List.Memᴰ.{head, tail}
use quantum_safe_py.Examples.Functions.{zeros}
use quantum_safe_py.Examples.Trees.{trees, trees-ReadsBack}
use quantum_safe_py.Examples.Codec.{
  codec-ReadsBack-bundle, codec, codec-ReadsBack, codec-ReadsBack-payload,
}

abbrev key : PublicKey
key = record {
  raw = 7 ∷ 8 ∷ [];
  algorithm = text "P-256";
  migration_state = pqc_only;
  backend_tag = text "openssl";
}

abbrev secret_one : SecretKey
secret_one = record {
  raw = 7 ∷ 8 ∷ [];
  algorithm = text "P-256";
  migration_state = hybrid_transition;
  backend_tag = text "openssl";
}

abbrev stored : PublicKey
stored = record {
  raw = 7 ∷ 8 ∷ [];
  algorithm = text "P-256";
  migration_state = pqc_only;
  backend_tag = unknown_tag;
}

sized : size_ok (text "P-256") (7 ∷ 8 ∷ []) ≡ true
unfolding size_ok quantum_safe_py.Prelude.has Keys.size_of Keys.known_public_key_sizes
    quantum_safe_py.Prelude.bytes_eq
sized = refl

read_key : public_from_cbor codec (public_to_cbor codec key) ≡ ok stored
unfolding public_to_cbor quantum_safe_py.Cbor.written codec Keys.state_name Keys.ktype
read_key =
    public_from_cbor-public_to_cbor codec key (omega arith) sized
      (codec-ReadsBack-payload Keys.public pqc_only) (omega arith)

from_cbor_one_kind_example : secret_from_cbor codec (public_to_cbor codec key) ≢ ok secret_one
from_cbor_one_kind_example =
    from_cbor_one_kind codec (public_to_cbor codec key) stored secret_one read_key

sized_key : PublicKey
sized_key = record {
  raw = zeros 32;
  algorithm = text "SLH-DSA-SHAKE-128s";
  migration_state = pqc_only;
  backend_tag = unknown_tag;
}

read_sized : public_from_cbor trees (public_to_cbor trees sized_key) ≡ ok sized_key
unfolding public_to_cbor quantum_safe_py.Cbor.written trees Keys.state_name Keys.ktype sized_key
    zeros size_ok quantum_safe_py.Keys.known_public_key_sizes quantum_safe_py.Keys.size_of
    quantum_safe_py.Prelude.has quantum_safe_py.Prelude.bytes_eq
read_sized =
    public_from_cbor-public_to_cbor trees sized_key (omega arith) refl (trees-ReadsBack _)
      (omega arith)

in_table : Memᴰ (text "SLH-DSA-SHAKE-128s", 32) Keys.known_public_key_sizes
unfolding Keys.known_public_key_sizes
in_table = tail (tail (tail (tail (tail (tail (head refl))))))

public_from_cbor_size_example : length (zeros 32) ≡ 32
unfolding sized_key
public_from_cbor_size_example =
    public_from_cbor_size trees (public_to_cbor trees sized_key) sized_key 32 in_table read_sized

abbrev header : StreamHeader
header = record {
  algorithm = text "X-Wing";
  kem_ct = 9 ∷ [];
  nonce_prefix = 1 ∷ 2 ∷ 3 ∷ 4 ∷ 5 ∷ 6 ∷ 7 ∷ [];
  chunk_size = 4096;
}

header-IsHeader : IsHeader header false
unfolding quantum_safe_py.Stream.Format.uses_sha384 quantum_safe_py.Prelude.bytes_eq
header-IsHeader = record { algorithm = refl; prefix = refl; size = refl }

parse_header-encode_header_example : parse_header codec (encode_header codec header) ≡ ok header
unfolding encode_header quantum_safe_py.Cbor.written codec
parse_header-encode_header_example =
    parse_header-encode_header codec header false header-IsHeader (codec-ReadsBack header)
      (omega arith)

abbrev keys : KeyPair
keys = record { public = key; secret = secret_one }

keys-Storable : Storable codec keys
unfolding public_to_cbor secret_to_cbor quantum_safe_py.Cbor.written codec Keys.state_name
    Keys.ktype
keys-Storable = record {
  same = refl;
  public_nonempty = omega arith;
  secret_nonempty = omega arith;
  sized = sized;
  reads_public = codec-ReadsBack-payload Keys.public pqc_only;
  reads_secret = codec-ReadsBack-payload Keys.secret hybrid_transition;
  reads_bundle = codec-ReadsBack-bundle;
  public_fits = omega arith;
  secret_fits = omega arith;
  bundle_fits = omega arith;
}

from_cbor_bundle-to_cbor_bundle_example :
    (to_cbor_bundle codec keys >>= from_cbor_bundle codec) ≡ ok (untagged keys)
from_cbor_bundle-to_cbor_bundle_example = from_cbor_bundle-to_cbor_bundle codec keys keys-Storable
