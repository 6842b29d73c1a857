-- ===== src/Keys/RoundTrip.antt =====
-- What the readers of types/keys.py make of the bytes that its writers make.
use quantum_safe_py.Prelude.{
  ℕ, false, has, not, ◌==◌, ==_iff, All, All-Mem, ◌≤◌, ◌≡◌, ◌≢◌, refl, true, Option, none, some,
  Bytes, text, bytes_eq, bytes_eq_iff, length, arith, ap, sym, ◌∙◌, ◌<◌,
}
use mathlib.Core.Bool.{false≢true}
use mathlib.Core.List.{Memᴰ}
use quantum_safe_py.Outcome.{
  Result, ok, value_error, key_parse_error, ◌>>◌, >>=-eq-ok, >>-eq-ok, or_raise,
}
use quantum_safe_py.Cbor.{
  Value, Fields, Cbor2, ReadsBack, string, dict, get, loads, loads-written, max_payload,
}
use quantum_safe_py.Keys.{
  MigrationState, classical_only, state_name, state_named, KeyType, ktype, payload, PublicKey,
  SecretKey, size_ok, size_of, size_agrees, known_public_key_sizes, public_key, secret_key,
  unknown_tag,
}
use quantum_safe_py.Keys
use quantum_safe_py.Keys.Serialization.{
  Parsed, check_version, text_field, bytes_field, check_ktype, parse_cbor_dict, state_of,
  public_to_cbor, secret_to_cbor, public_from_cbor, secret_from_cbor,
}

state_of-state_name : (ms : MigrationState) → state_of (some (string (state_name ms))) ≡ ms
unfolding state_of state_named state_name bytes_eq
state_of-state_name classical_only = refl
state_of-state_name _ = refl

parse-payload :
    (kind : KeyType) (raw algo : Bytes) (ms : MigrationState)
    → parse_cbor_dict kind (payload kind raw algo ms)
      ≡ ok (record { algo = algo; key = raw; ms = some (string (state_name ms)) })
unfolding parse_cbor_dict payload get ktype bytes_eq
parse-payload Keys.public raw algo ms = refl
parse-payload Keys.secret raw algo ms = refl

-- A checked tag is the expected one.
check-eq-ok :
    (kind : KeyType) (o : Option Value) {A : Type 0} (k : Result A) {a : A}
    → (check_ktype kind o >> k) ≡ ok a
    → o ≡ some (string (ktype kind))
unfolding check_ktype
check-eq-ok kind none k h = cc
check-eq-ok kind (some (string s)) k h = ground (arith, bytes_eq_iff s (ktype kind))
check-eq-ok kind (some _) k h = cc

parse-ktype :
    (kind : KeyType) (v : Value) (p : Parsed)
    → parse_cbor_dict kind v ≡ ok p
    → (d : Fields) × (v ≡ dict d) × (get (text "ktype") d ≡ some (string (ktype kind)))
unfolding parse_cbor_dict
parse-ktype kind (dict d) p h =
    let (u, _, h1) = >>=-eq-ok (check_version (get (text "v") d)) _ h in
    let (algo, _, h2) = >>=-eq-ok (text_field (get (text "algo") d)) _ h1 in
    let (key, _, h3) = >>=-eq-ok (bytes_field (get (text "key") d)) _ h2 in
    (d, refl, check-eq-ok kind (get (text "ktype") d) _ h3)
parse-ktype kind _ p h = cc

ktypes_differ : ktype Keys.public ≢ ktype Keys.secret
unfolding ktype bytes_eq
ktypes_differ e = false≢true (ap (bytes_eq (text "sec")) e)

string_injective : (s t : Bytes) → some (string s) ≡ some (string t) → s ≡ t
string_injective s t e = cc

dict_injective : (d d' : Fields) → dict d ≡ dict d' → d ≡ d'
dict_injective d d' e = cc

-- No bytes are read both as a public and as a secret key: where one reader succeeds, the other
-- raises.
pub from_cbor_one_kind :
    (c : Cbor2) (d : Bytes) (k : PublicKey) (s : SecretKey)
    → public_from_cbor c d ≡ ok k
    → secret_from_cbor c d ≢ ok s
unfolding public_from_cbor secret_from_cbor
from_cbor_one_kind c d k s hp hs =
    let (v, ev, h1) = >>=-eq-ok (or_raise (loads c d) key_parse_error) _ hp in
    let (w, ew, g1) = >>=-eq-ok (or_raise (loads c d) key_parse_error) _ hs in
    let (p, ep, h2) = >>=-eq-ok (parse_cbor_dict Keys.public v) _ h1 in
    let (q, eq, g2) = >>=-eq-ok (parse_cbor_dict Keys.secret w) _ g1 in
    let (f, ef, tf) = parse-ktype Keys.public v p ep in
    let (g, eg, tg) = parse-ktype Keys.secret w q eq in
    let vw : v ≡ w = cc (ev, ew) in
    let fg : f ≡ g = dict_injective f g (sym ef ∙ vw ∙ eg) in
    ktypes_differ (string_injective _ _ (sym tf ∙ ap (get (text "ktype")) fg ∙ tg))

-- A public key written by `to_cbor` is read back as it was, but for the backend tag, which is not
-- stored. It is for a key that the constructor accepts, whose map cbor2 reads back and is within
-- the size limit.
pub public_from_cbor-public_to_cbor :
    (c : Cbor2) (k : PublicKey)
    → 0 < length k.raw
    → size_ok k.algorithm k.raw ≡ true
    → ReadsBack c (payload Keys.public k.raw k.algorithm k.migration_state)
    → length (public_to_cbor c k) ≤ max_payload
    → public_from_cbor c (public_to_cbor c k) ≡ ok (record k { backend_tag = unknown_tag })
unfolding public_from_cbor public_to_cbor public_key
public_from_cbor-public_to_cbor c k nonempty size law fits =
    rw (loads-written c _ law fits, parse-payload, state_of-state_name, size) (ground arith)

-- A secret key written by `to_cbor` is read back as it was, but for the backend tag, for a key that has
-- bytes, whose map cbor2 reads back and is within the size limit.
pub secret_from_cbor-secret_to_cbor :
    (c : Cbor2) (k : SecretKey)
    → 0 < length k.raw
    → ReadsBack c (payload Keys.secret k.raw k.algorithm k.migration_state)
    → length (secret_to_cbor c k) ≤ max_payload
    → secret_from_cbor c (secret_to_cbor c k) ≡ ok (record k { backend_tag = unknown_tag })
unfolding secret_from_cbor secret_to_cbor secret_key
secret_from_cbor-secret_to_cbor c k nonempty law fits =
    rw (loads-written c _ law fits, parse-payload, state_of-state_name) (ground arith)

abbrev IsFound : Bytes × ℕ → Type 0
IsFound row = (size_of row.0 known_public_key_sizes ≡ some row.1) × (has b'+' row.0 ≡ false)

-- The lookup finds every row of the table, and no name of it has a `+`.
table-IsFound : All IsFound known_public_key_sizes
unfolding size_of known_public_key_sizes has bytes_eq
table-IsFound = (
  (refl, refl),
  (
    (refl, refl),
    (
      (refl, refl),
      (
        (refl, refl),
        (
          (refl, refl),
          (
            (refl, refl),
            (
              (refl, refl),
              (
                (refl, refl),
                (
                  (refl, refl),
                  (
                    (refl, refl),
                    (
                      (refl, refl),
                      (
                        (refl, refl),
                        (
                          (refl, refl),
                          (
                            (refl, refl),
                            (
                              (refl, refl),
                              ((refl, refl), ((refl, refl), ((refl, refl), ((refl, refl), tt)))),
                            ),
                          ),
                        ),
                      ),
                    ),
                  ),
                ),
              ),
            ),
          ),
        ),
      ),
    ),
  ),
)

checked_size :
    (algorithm raw : Bytes) (n : ℕ)
    → has b'+' algorithm ≡ false
    → size_of algorithm known_public_key_sizes ≡ some n
    → size_ok algorithm raw ≡ true
    → length raw ≡ n
unfolding size_ok
checked_size algorithm raw n plain found h =
    let same : (length raw == n) ≡ true = rw (plain, found) at h in (==_iff (length raw) n).0 same

-- Whatever the bytes, a public key that is read of an algorithm of the size table has that size.
pub public_from_cbor_size :
    (c : Cbor2) (d : Bytes) (k : PublicKey) (n : ℕ)
    → Memᴰ (k.algorithm, n) known_public_key_sizes
    → public_from_cbor c d ≡ ok k
    → length k.raw ≡ n
unfolding public_from_cbor public_key
public_from_cbor_size c d k n known h =
    let (v, _, h1) = >>=-eq-ok (or_raise (loads c d) key_parse_error) _ h in
    let (p, _, h2) = >>=-eq-ok (parse_cbor_dict Keys.public v) _ h1 in
    let (_, h3) = >>-eq-ok (not (length p.key == 0)) value_error _ h2 in
    let (sized, h4) = >>-eq-ok (size_ok p.algo p.key) value_error _ h3 in
    let name : p.algo ≡ k.algorithm = cc in
    let raw : p.key ≡ k.raw = cc in
    let (found, plain) = All-Mem IsFound known table-IsFound in
    rw (← raw) (checked_size p.algo p.key n (rw name plain) (rw name found) sized)
