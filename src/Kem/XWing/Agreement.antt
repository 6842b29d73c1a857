-- ===== src/Kem/XWing/Agreement.antt =====
-- kem/xwing.py: both sides of an X-Wing exchange, and ciphertexts that were not made by the sender.
use quantum_safe_py.Prelude.{
  ℕ, ◌≡◌, ◌≢◌, ◌⊎◌, inl, inr, Bool-cases, refl, true, ◌++◌, Bytes, bytes_eq, bytes_eq_refl, has,
  length, take, drop, ◌==◌, length-append, length-take, length-drop, take-append_eq, drop-append_eq,
  arith, ==_iff,
}
use quantum_safe_py.Outcome.{ok, err, value_error}
use quantum_safe_py.Keys.{
  PublicKey, SecretKey, hybrid_transition, public_key, secret_key, size_ok, size_of,
  known_public_key_sizes,
}
use quantum_safe_py.Keys.Serialization.{KeyPair, key_pair}
use quantum_safe_py.Kem.Types.{SharedSecret, shared_secret, CipherText, cipher_text}
use quantum_safe_py.Kem.XWing.{
  XWingPrimitives, xwing, xwing_label, mlkem, mlkem_pk, mlkem_ct, expand, exchange_or_zeros,
  combine, keypair_from_seed, encapsulate_xwing, decapsulate_xwing,
}

-- What is relied on. The hashes give as many bytes as they should; X25519 has private and public keys of
-- 32 bytes and one secret for both sides; seeded key generation of ML-KEM-768 succeeds for a seed of 64
-- bytes, what is encapsulated to its public key is decapsulated to the same, and any ciphertext of the
-- right size is decapsulated to some secret (implicit rejection).
pub record IsXWing (p : XWingPrimitives) : Type 0 where
  pub length_shake : (d : Bytes) (n : ℕ) → length (p.shake_256 d n) ≡ n
  pub length_sha3 : (d : Bytes) → length (p.sha3_256 d) ≡ 32
  pub length_generate : (t : Bytes) → length (p.x25519_generate t) ≡ 32
  pub public :
      (a : Bytes) → length a ≡ 32 → (pa : Bytes) × (p.x25519_public a ≡ ok pa) × (length pa ≡ 32)
  pub agrees :
      (a b pa pb : Bytes)
      → p.x25519_public a ≡ ok pa
      → p.x25519_public b ≡ ok pb
      → p.x25519_exchange a pb ≡ p.x25519_exchange b pa
  pub keygen :
      (d : Bytes)
      → length d ≡ 64
      → (pk : Bytes) × (sk : Bytes) × (p.backend.keygen_from_seed mlkem d ≡ ok (pk, sk))
        × (length pk ≡ mlkem_pk)
  pub encapsulates :
      (d t pk sk : Bytes)
      → p.backend.keygen_from_seed mlkem d ≡ ok (pk, sk)
      → (ct : Bytes) × (ss : Bytes) × (p.backend.encapsulate mlkem t pk ≡ ok (ct, ss))
        × (length ct ≡ mlkem_ct)
        × (p.backend.decapsulate mlkem sk ct ≡ ok ss)
  pub rejects :
      (d pk sk ct : Bytes)
      → p.backend.keygen_from_seed mlkem d ≡ ok (pk, sk)
      → length ct ≡ mlkem_ct
      → (ss : Bytes) × (p.backend.decapsulate mlkem sk ct ≡ ok ss)

public_key_xwing :
    (raw tag : Bytes)
    → length raw ≡ 1216
    → public_key raw xwing hybrid_transition tag
      ≡ ok (record {
        raw = raw;
        algorithm = xwing;
        migration_state = hybrid_transition;
        backend_tag = tag;
      })
unfolding public_key size_ok size_of known_public_key_sizes has bytes_eq
public_key_xwing raw tag h = rw h refl

secret_key_xwing :
    (raw tag : Bytes)
    → length raw ≡ 32
    → secret_key raw xwing hybrid_transition tag
      ≡ ok (record {
        raw = raw;
        algorithm = xwing;
        migration_state = hybrid_transition;
        backend_tag = tag;
      })
unfolding secret_key
secret_key_xwing raw tag h = rw h refl

shared_secret_32 :
    (d : Bytes)
    → length d ≡ 32
    → shared_secret d xwing true ≡ ok (record { secret = d; algorithm = xwing; is_hybrid = true })
unfolding shared_secret
shared_secret_32 d h = rw h refl

cipher_text_nonempty :
    (d : Bytes)
    → length d ≡ 1120
    → cipher_text d xwing ≡ ok (record { content = d; algorithm = xwing })
unfolding cipher_text
cipher_text_nonempty d h = rw h refl

-- A whole exchange: the key pair of a seed, an encapsulation to its public key, and the
-- decapsulation, which gives the sender's secret.
pub record XWingExchange (p : XWingPrimitives) (seed t t' : Bytes) : Type 0 where
  pub keys : KeyPair
  pub ct : CipherText
  pub ss : SharedSecret
  pub generated : keypair_from_seed p seed ≡ ok keys
  pub sent : encapsulate_xwing p t t' keys.public ≡ ok (ct, ss)
  pub received : decapsulate_xwing p keys.secret ct ≡ ok ss

length-expand :
    (p : XWingPrimitives) (seed : Bytes)
    → IsXWing p
    → (length (expand p seed).0 ≡ 64) × (length (expand p seed).1 ≡ 32)
unfolding expand
length-expand p seed law =
    let e = law.length_shake seed 96 in
    let f = length-drop 64 (p.shake_256 seed 96) in
    (
      omega (arith, length-take 64 (p.shake_256 seed 96), e),
      omega (arith, length-take 32 (drop 64 (p.shake_256 seed 96)), e, f),
    )

module _ (p : XWingPrimitives) (law : IsXWing p) (seed : Bytes) (size : length seed ≡ 32) where
  -- What key generation makes of the expanded seed: an ML-KEM-768 pair and an X25519 public key.
  pub record IsExpanded (pk_m sk_m pk_x : Bytes) : Type 0 where
    pub seeded : p.backend.keygen_from_seed mlkem (expand p seed).0 ≡ ok (pk_m, sk_m)
    pub classical : p.x25519_public (expand p seed).1 ≡ ok pk_x
    pub length_m : length pk_m ≡ mlkem_pk
    pub length_x : length pk_x ≡ 32

  pub expanded : (pk_m : Bytes) × (sk_m : Bytes) × (pk_x : Bytes) × IsExpanded pk_m sk_m pk_x
  expanded =
      let (pk_m, sk_m, made, n) = law.keygen (expand p seed).0 (length-expand p seed law).0 in
      let (pk_x, e, m) = law.public (expand p seed).1 (length-expand p seed law).1 in
      (pk_m, sk_m, pk_x, record { seeded = made; classical = e; length_m = n; length_x = m })

  abbrev pub public_of : Bytes → Bytes → PublicKey
  public_of pk_m pk_x = record {
    raw = pk_m ++ pk_x;
    algorithm = xwing;
    migration_state = hybrid_transition;
    backend_tag = p.backend.name;
  }

  abbrev pub secret_of : SecretKey
  secret_of = record {
    raw = seed;
    algorithm = xwing;
    migration_state = hybrid_transition;
    backend_tag = p.backend.name;
  }

  pub keypair_from_seed-ok :
      (pk sk pk_x : Bytes)
      → IsExpanded pk sk pk_x
      → keypair_from_seed p seed ≡ ok (record { public = public_of pk pk_x; secret = secret_of })
  unfolding keypair_from_seed key_pair
  keypair_from_seed-ok pk sk pk_x e =
      let m : length (pk ++ pk_x) ≡ 1216 =
        omega (arith, length-append pk pk_x, e.length_x, e.length_m) in
      rw
        (
          size,
          e.seeded,
          e.classical,
          public_key_xwing (pk ++ pk_x) p.backend.name m,
          secret_key_xwing seed p.backend.name size,
          bytes_eq_refl xwing,
        )
        refl

  length-combine : (a b x y : Bytes) → length (combine p a b x y) ≡ 32
  unfolding combine
  length-combine a b x y = law.length_sha3 (a ++ (b ++ (x ++ (y ++ xwing_label))))

  -- The length of the combiner's output makes it a secret.
  combined :
      (a b x y : Bytes)
      → shared_secret (combine p a b x y) xwing true
        ≡ ok (record { secret = combine p a b x y; algorithm = xwing; is_hybrid = true })
  combined a b x y = shared_secret_32 (combine p a b x y) (length-combine a b x y)

  -- For every seed of 32 bytes the key pair is made, every encapsulation to its public key succeeds,
  -- and decapsulation gives the sender's secret, for all random bytes drawn.
  pub decapsulate-encapsulate_xwing : (t t' : Bytes) → XWingExchange p seed t t'
  unfolding encapsulate_xwing decapsulate_xwing exchange_or_zeros
  decapsulate-encapsulate_xwing t t' =
      let (pk, sk, pk_x, x) = expanded in
      let (ct, ss, sent, m, back) = law.encapsulates (expand p seed).0 t pk sk x.seeded in
      let sk_x = (expand p seed).1 in
      let e = p.x25519_generate t' in
      let (ct_x, ct_x_of, k) = law.public e (law.length_generate t') in
      let long : length (pk ++ pk_x) ≡ 1216 =
        omega (arith, length-append pk pk_x, x.length_x, x.length_m) in
      let long_ct : length (ct ++ ct_x) ≡ 1120 = omega (arith, length-append ct ct_x, k, m) in
      record {
        keys = record { public = public_of pk pk_x; secret = secret_of };
        ct = record { content = ct ++ ct_x; algorithm = xwing };
        ss = record {
          secret = combine p ss (exchange_or_zeros p e pk_x) ct_x pk_x;
          algorithm = xwing;
          is_hybrid = true;
        };
        generated = keypair_from_seed-ok pk sk pk_x x;
        sent =
            rw
              (
                bytes_eq_refl xwing,
                long,
                take-append_eq mlkem_pk pk pk_x x.length_m,
                drop-append_eq mlkem_pk pk pk_x x.length_m,
                sent,
                ct_x_of,
                cipher_text_nonempty (ct ++ ct_x) long_ct,
                combined,
              )
              refl;
        received =
            rw
              (
                bytes_eq_refl xwing,
                size,
                long_ct,
                x.seeded,
                x.classical,
                take-append_eq mlkem_ct ct ct_x m,
                drop-append_eq mlkem_ct ct ct_x m,
                back,
                combined,
                law.agrees e sk_x ct_x pk_x ct_x_of x.classical,
              )
              refl;
      }

  -- Implicit rejection: under the secret key of a seed, any ciphertext of 1120 bytes is decapsulated
  -- without an exception, to a secret of 32 bytes. A ciphertext of any other size raises `ValueError`.
  pub decapsulate_xwing_total :
      (ct : CipherText)
      → ((length ct.content ≡ 1120)
          × (ss : SharedSecret) × (decapsulate_xwing p secret_of ct ≡ ok ss)
          × (length ss.secret ≡ 32))
        ⊎ ((length ct.content ≢ 1120) × (decapsulate_xwing p secret_of ct ≡ err value_error))
  unfolding decapsulate_xwing
  decapsulate_xwing_total ct =
      let (pk, sk, pk_x, x) = expanded in
      elim (Bool-cases (length ct.content == 1120)) [
        | inl e ↦
            let long = (==_iff (length ct.content) 1120).0 e in
            let cut : length (take mlkem_ct ct.content) ≡ mlkem_ct =
              omega (arith, length-take mlkem_ct ct.content, long) in
            let (ss_m, got) =
              law.rejects (expand p seed).0 pk sk (take mlkem_ct ct.content) x.seeded cut in
            let ct_x = drop mlkem_ct ct.content in
            let sk_x = (expand p seed).1 in
            let ss = combine p ss_m (exchange_or_zeros p sk_x ct_x) ct_x pk_x in
            inl (
              long,
              record { secret = ss; algorithm = xwing; is_hybrid = true },
              rw (bytes_eq_refl xwing, size, e, x.seeded, got, x.classical, combined) refl,
              length-combine ss_m (exchange_or_zeros p sk_x ct_x) ct_x pk_x,
            )
        | inr e ↦ inr (
          (λ h. let t = (==_iff (length ct.content) 1120).1 h in cc),
          rw (bytes_eq_refl xwing, size, e) refl,
        )
      ]
