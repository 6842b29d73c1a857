-- ===== src/Kem/Core/Agreement.antt =====
-- kem/core.py: what a key pair of `KEM` gives both sides.
use quantum_safe_py.Prelude.{
  ◌≡◌, sym, ap, ◌∙◌, Bool, false, Bytes, bytes_eq, bytes_eq_refl, take, arith,
}
use quantum_safe_py.Outcome.{Result, ok, unsupported_algorithm, >>=-eq-ok, >>-eq-ok}
use quantum_safe_py.Keys.{PublicKey, SecretKey, pqc_only, public_key, secret_key}
use quantum_safe_py.Keys.Serialization.{KeyPair, key_pair}
use quantum_safe_py.Kem.Types.{SharedSecret, shared_secret, CipherText, cipher_text}
use quantum_safe_py.Kem.Hybrid.{KemBackend}
use quantum_safe_py.Kem.Hybrid.Laws.{IsBackend}
use quantum_safe_py.Kem.Core.{PlainKem, generate_plain, encapsulate_plain, decapsulate_plain}

shared_algorithm :
    (d algorithm : Bytes) (hybrid : Bool) (s : SharedSecret)
    → shared_secret d algorithm hybrid ≡ ok s
    → s ≡ record { secret = d; algorithm = algorithm; is_hybrid = hybrid }
unfolding shared_secret
shared_algorithm d algorithm hybrid s h = ground arith

pub cipher_text-content :
    (d algorithm : Bytes) (ct : CipherText) → cipher_text d algorithm ≡ ok ct → ct.content ≡ d
unfolding cipher_text
cipher_text-content d algorithm ct h = ground arith

public_key-parts :
    (raw algorithm tag : Bytes) (k : PublicKey)
    → public_key raw algorithm pqc_only tag ≡ ok k
    → (k.raw ≡ raw) × (k.algorithm ≡ algorithm)
unfolding public_key
public_key-parts raw algorithm tag k h = ground arith

secret_key-parts :
    (raw algorithm tag : Bytes) (k : SecretKey)
    → secret_key raw algorithm pqc_only tag ≡ ok k
    → (k.raw ≡ raw) × (k.algorithm ≡ algorithm)
unfolding secret_key
secret_key-parts raw algorithm tag k h = ground arith

key_pair-parts :
    (a : PublicKey) (b : SecretKey) (keys : KeyPair)
    → key_pair a b ≡ ok keys
    → (keys.public ≡ a) × (keys.secret ≡ b)
unfolding key_pair
key_pair-parts a b keys h = ground arith

module _ (b : KemBackend) (k : PlainKem) (seed : Bytes) (keys : KeyPair)
    (made : generate_plain b k seed ≡ ok keys) where
  -- The keys are the backend's, under the name of the algorithm.
  pub generated_parts :
      (keys.public.raw ≡ (b.keygen k.algorithm seed).0)
      × (keys.public.algorithm ≡ k.algorithm)
      × (keys.secret.raw ≡ (b.keygen k.algorithm seed).1)
      × (keys.secret.algorithm ≡ k.algorithm)
  unfolding generate_plain
  generated_parts =
      let (pk, pe, h1) =
        >>=-eq-ok (public_key (b.keygen k.algorithm seed).0 k.algorithm pqc_only b.name) _ made in
      let (sk, se, h2) =
        >>=-eq-ok (secret_key (b.keygen k.algorithm seed).1 k.algorithm pqc_only b.name) _ h1 in
      let (same_pk, same_sk) = key_pair-parts pk sk keys h2 in
      let (a, c) = public_key-parts (b.keygen k.algorithm seed).0 k.algorithm b.name pk pe in
      let (d, e) = secret_key-parts (b.keygen k.algorithm seed).1 k.algorithm b.name sk se in
      (
        ap (λ (x : PublicKey). x.raw) same_pk ∙ a,
        ap (λ (x : PublicKey). x.algorithm) same_pk ∙ c,
        ap (λ (x : SecretKey). x.raw) same_sk ∙ d,
        ap (λ (x : SecretKey). x.algorithm) same_sk ∙ e,
      )

  -- What `KEM` encapsulates to a key of its own is decapsulated to the same secret, by any ciphertext
  -- object with the same bytes, over a correct backend.
  pub decapsulate-encapsulate_plain :
      (t : Bytes) (ct ct' : CipherText) (ss : SharedSecret)
      → IsBackend b k.algorithm
      → encapsulate_plain b k t keys.public ≡ ok (ct, ss)
      → ct'.content ≡ ct.content
      → decapsulate_plain b k keys.secret ct' ≡ ok ss
  unfolding encapsulate_plain decapsulate_plain
  decapsulate-encapsulate_plain t ct ct' ss law h same =
      let (praw, palg, sraw, salg) = generated_parts in
      let (c, s, sent, got, positive) = law.agrees seed t in
      let (_, h1) =
        >>-eq-ok (bytes_eq keys.public.algorithm k.algorithm) unsupported_algorithm _ h in
      let ((c', s'), sent', h2) = >>=-eq-ok (b.encapsulate k.algorithm t keys.public.raw) _ h1 in
      let (made_ct, ce, h3) = >>=-eq-ok (cipher_text c' k.algorithm) _ h2 in
      let (made_ss, se, h4) = >>=-eq-ok (shared_secret (take 32 s') k.algorithm false) _ h3 in
      let at_key : b.encapsulate k.algorithm t keys.public.raw ≡ ok (c, s) = rw praw sent in
      let both : ◌≡◌ {A = Result (Bytes × Bytes)} (ok (c, s)) (ok (c', s')) = sym at_key ∙ sent' in
      let one : c ≡ c' = cc both in
      let two : s ≡ s' = cc both in
      let three : made_ss ≡ ss = cc h4 in
      let four : made_ct ≡ ct = cc h4 in
      let bytes_of : ct'.content ≡ c =
        same
        ∙ ap (λ (x : CipherText). x.content) (sym four)
        ∙ cipher_text-content c' k.algorithm made_ct ce
        ∙ sym one in
      rw (salg, bytes_eq_refl k.algorithm, sraw, bytes_of, got, two) (se ∙ ap ok three)
