-- ===== src/Examples/Functions.antt =====
-- Small functions that have the properties that the theorems take of third-party code: a cipher, key
-- exchanges, a key derivation and signatures. They have none of the security.
use quantum_safe_py.Prelude.{
  ℕ, zero, suc, ◌+◌, ◌-◌, ◌≡◌, refl, sym, ap, ◌∙◌, true, Option, none, some, [], ◌∷◌, ◌++◌, Bytes,
  length, length-append, take, length-take, take-append, ends_with, ends_with-append,
  append-ends_with, drop_last, drop, if◌then◌else◌, arith, Bool-cases, inl, inr, text,
}
use quantum_safe_py.Outcome.{ok}
use quantum_safe_py.Kem.Types.{Kdf, IsKdf}
use quantum_safe_py.Kem.Hybrid.{X25519, Curve, KemBackend, Primitives}
use quantum_safe_py.Kem.Hybrid.Agreement.{IsPrimitives}
use quantum_safe_py.Kem.Hybrid.Laws.{IsX25519, IsCurve, IsBackend}
use quantum_safe_py.Stream.Cipher.{Aead, IsAead}
use quantum_safe_py.Wire.{be}

unfoldable pub zeros : ℕ → Bytes
zeros zero = []
zeros (suc n) = 0 ∷ zeros n

pub length-zeros : (n : ℕ) → length (zeros n) ≡ n
unfolding zeros
length-zeros zero = refl
length-zeros (suc n) = omega (arith, length-zeros n)

-- The first `n` bytes, filled up with zeros.
unfoldable pub padded : ℕ → Bytes → Bytes
padded n b = take n (b ++ zeros n)

pub length-padded : (n : ℕ) (b : Bytes) → length (padded n b) ≡ n
unfolding padded
length-padded n b =
    omega (arith, length-take n (b ++ zeros n), length-append b (zeros n), length-zeros n)

-- The tag is the nonce.
unfoldable pub aead : Aead
unfolding padded zeros
aead = record {
  encrypt = λ k n p d. p ++ padded 16 n;
  decrypt = λ k n c d. if ends_with c (padded 16 n) then some (drop_last 16 c) else none;
}

decrypts :
    (p t : Bytes)
    → length t ≡ 16
    → (if ends_with (p ++ t) t then some (drop_last 16 (p ++ t)) else none) ≡ some p
decrypts p t e =
    let n : length (p ++ t) - 16 ≡ length p = omega (arith, e, length-append p t) in
    rw (append-ends_with p t, n, take-append p t)

encrypts :
    (c t p : Bytes)
    → length t ≡ 16
    → (if ends_with c t then some (drop_last 16 c) else none) ≡ some p
    → p ++ t ≡ c
encrypts c t p e h = elim (Bool-cases (ends_with c t)) [
  | inl y ↦
      let same : some (drop_last 16 c) ≡ some p = rw y at h in
      let one : drop_last 16 c ≡ p = cc same in
      ap (λ b. b ++ t) (sym one)
      ∙ ap (λ k. take (length c - k) c ++ t) (sym e)
      ∙ sym (ends_with-append c t y)
  | inr n ↦ let bad : ◌≡◌ {A = Option Bytes} none (some p) = rw n at h in cc bad
]

pub aead-IsAead : IsAead aead
unfolding aead
aead-IsAead = record {
  decrypt_encrypt = λ k n p d. decrypts p (padded 16 n) (length-padded 16 n);
  encrypt_decrypt = λ k n c d p h. encrypts c (padded 16 n) p (length-padded 16 n) h;
  length_encrypt = λ k n p d. omega (arith, length-append p (padded 16 n), length-padded 16 n);
}

unfoldable pub kdf : Kdf
unfolding padded zeros
kdf = record { digest = λ h b. padded 32 b; hkdf = λ h n salt info ikm. padded n ikm }

kdf-IsKdf : IsKdf kdf
unfolding kdf
kdf-IsKdf = record { length_hkdf = λ h n salt info ikm. length-padded n ikm }

abbrev pub head : Bytes → ℕ
head [] = 0
head (b ∷ bs) = b

-- Keys are a number, and the secret is the sum.
unfoldable pub x25519 : X25519
unfolding zeros
x25519 = record {
  private = λ a. head a ∷ zeros 31;
  public = λ a. head a ∷ zeros 31;
  exchange = λ a b. some ((head a + head b) ∷ zeros 31);
}

x25519-IsX25519 : IsX25519 x25519
unfolding x25519 zeros
x25519-IsX25519 = record {
  length_private = λ a. refl;
  length_public = λ a. refl;
  agrees = λ a b. ((head a + head b) ∷ zeros 31, refl, ap (λ n. some (n ∷ zeros 31)) (omega arith));
}

unfoldable pub curve_of : ℕ → Curve
unfolding zeros
curve_of coord = record {
  private = λ a. head a ∷ [];
  point = λ a. 4 ∷ (zeros (coord - 1) ++ (head a ∷ zeros coord));
  exchange = λ k x y. some ((head k + x) ∷ zeros (coord - 1));
}

p256-IsCurve : IsCurve 32 (curve_of 32)
unfolding curve_of zeros be
p256-IsCurve = record {
  length_private = λ a. omega arith;
  length_point = λ a. refl;
  tag = λ a. refl;
  agrees = λ a b. (
    (head a + head b) ∷ zeros 31,
    ap (λ n. some (n ∷ zeros 31)) (omega arith),
    ap (λ n. some (n ∷ zeros 31)) (omega arith),
    omega arith,
  );
}

p384-IsCurve : IsCurve 48 (curve_of 48)
unfolding curve_of zeros be
p384-IsCurve = record {
  length_private = λ a. omega arith;
  length_point = λ a. refl;
  tag = λ a. refl;
  agrees = λ a b. (
    (head a + head b) ∷ zeros 47,
    ap (λ n. some (n ∷ zeros 47)) (omega arith),
    ap (λ n. some (n ∷ zeros 47)) (omega arith),
    omega arith,
  );
}

unfoldable pub backend : KemBackend
backend = record {
  name = text "example";
  is_available = true;
  supported = text "ML-KEM-512" ∷ text "ML-KEM-768" ∷ text "ML-KEM-1024" ∷ [];
  keygen = λ name s. (s, s);
  keygen_from_seed = λ name s. ok (s, s);
  encapsulate = λ name t pk. ok (0 ∷ t, t ++ pk);
  decapsulate = λ name sk ct. ok (drop 1 ct ++ sk);
}

pub backend-IsBackend : (name : Bytes) → IsBackend backend name
unfolding backend
backend-IsBackend name = record { agrees = λ s t. (0 ∷ t, t ++ s, refl, refl, omega arith) }

unfoldable pub primitives : Primitives
unfolding backend x25519 curve_of kdf
primitives = record {
  backend = backend;
  x25519 = x25519;
  p256 = curve_of 32;
  p384 = curve_of 48;
  kdf = kdf;
}

pub primitives-IsPrimitives : (name : Bytes) → IsPrimitives primitives name
unfolding primitives
primitives-IsPrimitives name = record {
  x25519 = x25519-IsX25519;
  p256 = p256-IsCurve;
  p384 = p384-IsCurve;
  backend = backend-IsBackend name;
  kdf = kdf-IsKdf;
}
