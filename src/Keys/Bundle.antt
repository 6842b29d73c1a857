-- ===== src/Keys/Bundle.antt =====
-- types/keys.py: a key pair written by `to_cbor_bundle` and read by `from_cbor_bundle`.
use quantum_safe_py.Prelude.{◌≤◌, ◌<◌, ◌≡◌, true, text, bytes_eq, bytes_eq_iff, length}
use quantum_safe_py.Outcome.{ok, ◌>>=◌}
use quantum_safe_py.Cbor.{
  Value, Cbor2, ReadsBack, nat, string, dict, end, field, get, is_text, written, loads-written,
  max_payload,
}
use quantum_safe_py.Keys.{PublicKey, SecretKey, size_ok, payload, unknown_tag}
use quantum_safe_py.Keys
use quantum_safe_py.Keys.Serialization.{
  KeyPair, key_pair, as_dict, public_to_cbor, secret_to_cbor, public_from_cbor, secret_from_cbor,
  to_cbor_bundle, from_cbor_bundle,
}
use quantum_safe_py.Keys.RoundTrip.{
  public_from_cbor-public_to_cbor, secret_from_cbor-secret_to_cbor,
}

abbrev public_map : KeyPair → Value
public_map k = payload Keys.public k.public.raw k.public.algorithm k.public.migration_state

abbrev secret_map : KeyPair → Value
secret_map k = payload Keys.secret k.secret.raw k.secret.algorithm k.secret.migration_state

-- The map of a bundle.
abbrev pub bundle_map : KeyPair → Value
bundle_map k = dict (
    field (string (text "v")) (nat 1) (
      field (string (text "bundle")) (string (text "keypair")) (
        field (string (text "pub")) (public_map k)
          (field (string (text "sec")) (secret_map k) end))))

-- A key pair that the constructors accept, and that the codec writes and reads back in the size limit.
pub record Storable (c : Cbor2) (k : KeyPair) : Type 0 where
  pub same : k.public.algorithm ≡ k.secret.algorithm
  pub public_nonempty : 0 < length k.public.raw
  pub secret_nonempty : 0 < length k.secret.raw
  pub sized : size_ok k.public.algorithm k.public.raw ≡ true
  pub reads_public :
      ReadsBack c (payload Keys.public k.public.raw k.public.algorithm k.public.migration_state)
  pub reads_secret :
      ReadsBack c (payload Keys.secret k.secret.raw k.secret.algorithm k.secret.migration_state)
  pub reads_bundle : ReadsBack c (bundle_map k)
  pub public_fits : length (public_to_cbor c k.public) ≤ max_payload
  pub secret_fits : length (secret_to_cbor c k.secret) ≤ max_payload
  pub bundle_fits : length (written c (bundle_map k)) ≤ max_payload

-- The pair as it is read: the backend tags are not stored.
abbrev pub untagged : KeyPair → KeyPair
untagged k = record {
  public = record k.public { backend_tag = unknown_tag };
  secret = record k.secret { backend_tag = unknown_tag };
}

writes_bundle :
    (c : Cbor2) (k : KeyPair) → Storable c k → to_cbor_bundle c k ≡ ok (written c (bundle_map k))
unfolding to_cbor_bundle public_to_cbor secret_to_cbor
writes_bundle c k s = rw (
  loads-written c (public_map k) s.reads_public s.public_fits,
  loads-written c (secret_map k) s.reads_secret s.secret_fits,
)

read_public :
    (c : Cbor2) (k : KeyPair)
    → Storable c k
    → public_from_cbor c (written c (public_map k))
      ≡ ok (record k.public { backend_tag = unknown_tag })
unfolding public_to_cbor
read_public c k s =
    public_from_cbor-public_to_cbor c k.public s.public_nonempty s.sized s.reads_public
      s.public_fits

read_secret :
    (c : Cbor2) (k : KeyPair)
    → Storable c k
    → secret_from_cbor c (written c (secret_map k))
      ≡ ok (record k.secret { backend_tag = unknown_tag })
unfolding secret_to_cbor
read_secret c k s =
    secret_from_cbor-secret_to_cbor c k.secret s.secret_nonempty s.reads_secret s.secret_fits

read_back :
    (c : Cbor2) (k : KeyPair)
    → Storable c k
    → from_cbor_bundle c (written c (bundle_map k)) ≡ ok (untagged k)
unfolding from_cbor_bundle as_dict get is_text bytes_eq key_pair payload
read_back c k s = rw (
  loads-written c (bundle_map k) s.reads_bundle s.bundle_fits,
  read_public c k s,
  read_secret c k s,
  (bytes_eq_iff k.public.algorithm k.secret.algorithm).1 s.same,
)

-- A key pair written as a bundle is read back, but for the backend tags, which are not stored. It is for
-- keys that the constructors accept, of one algorithm, whose maps cbor2 reads back and which are within
-- the size limit.
pub from_cbor_bundle-to_cbor_bundle :
    (c : Cbor2) (k : KeyPair)
    → Storable c k
    → (to_cbor_bundle c k >>= from_cbor_bundle c) ≡ ok (untagged k)
from_cbor_bundle-to_cbor_bundle c k s = rw (writes_bundle c k s) (read_back c k s)
